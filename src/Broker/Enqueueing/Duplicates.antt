-- ===== src/Broker/Enqueueing/Duplicates.antt =====
-- internal/broker/broker.go: which enqueues are dropped as duplicates.
use shoebox.Base.{
  ℕ, ◌+◌, ◌<◌, ◌≡◌, ◌≢◌, refl, ap, ◌∙◌, Bool, true, false, List, [], ◌∷◌, ◌++◌, none, some, arith,
  if◌then◌else◌, inl, inr, Bool-cases, Option-cases, is_nil, All,
}
use shoebox.Base.Text.{Str, str_eq_refl}
use shoebox.Storage.{Time, Message, Error}
use shoebox.Storage.Interface.{Moment, Store}
use shoebox.Naming.{valid_queue_name}
use shoebox.Naming.Laws.{valid_queue_name_iff, no_colon}
use shoebox.Dedupe.{
  DedupeStore, Entry, ttl_store, lru_store, sweep, seen_or_add, delete_key, dedupe_ttl, find,
  remove, live_at, ttl_seen_or_add, lru_seen_or_add,
}
use shoebox.Dedupe.Entries.{find-remove_self}
use shoebox.Broker.{Broker}
use shoebox.Broker.Enqueueing.{
  EnqueueOpts, full_key, new_message, enqueue_message, enqueue, store_message,
}

split_at_colon :
    (p q a c : Str)
    → All (λ r. r ≢ b':') p
    → All (λ r. r ≢ b':') q
    → p ++ (b':' ∷ a) ≡ q ++ (b':' ∷ c)
    → (p ≡ q) × (a ≡ c)
split_at_colon [] [] a c h k e = ground arith
split_at_colon [] (y ∷ q) a c h k e = ground arith
split_at_colon (x ∷ p) [] a c h k e = ground arith
split_at_colon (x ∷ p) (y ∷ q) a c h k e = ground (arith, split_at_colon p q a c h.1 k.1)

-- Under valid queue names, two pairs of a queue and a dedupe key share an entry of the dedupe store
-- only if they are the same pair.
full_key-injective :
    (p q a c : Str)
    → valid_queue_name p ≡ true
    → valid_queue_name q ≡ true
    → full_key p a ≡ full_key q c
    → (p ≡ q) × (a ≡ c)
unfolding full_key
full_key-injective p q a c h k e =
    split_at_colon p q a c (no_colon p ((valid_queue_name_iff p).0 h).plain)
      (no_colon q ((valid_queue_name_iff q).0 k).plain) e

-- The store after a key was added at `now` lasts for the key until its time has run out.
ttl_added :
    (seen : List Entry) (key : Str) (ttl : ℕ) (now : Time)
    → 0 < ttl
    → live_at now (find key seen) ≡ false
    → find key (ttl_seen_or_add seen key ttl now).0
      ≡ some (record { key = key; expires_at = now + ttl })
unfolding ttl_seen_or_add find sweep
ttl_added seen key ttl now p h = rw h (ground (arith, str_eq_refl key))

ttl_fresh :
    (seen : List Entry) (key : Str) (ttl : ℕ) (now : Time)
    → live_at now (find key seen) ≡ false
    → (ttl_seen_or_add seen key ttl now).1 ≡ false
unfolding ttl_seen_or_add
ttl_fresh seen key ttl now h = rw h

ttl_hit :
    (seen : List Entry) (key : Str) (ttl : ℕ) (now : Time) (e : Entry)
    → find key seen ≡ some e
    → now < e.expires_at
    → (ttl_seen_or_add seen key ttl now).1 ≡ true
unfolding ttl_seen_or_add
ttl_hit seen key ttl now e f h = rw f (ground arith)

lru_fresh :
    (capacity : ℕ) (items : List Entry) (key : Str) (ttl : ℕ) (now : Time)
    → find key items ≡ none
    → (lru_seen_or_add capacity items key ttl now).1 ≡ false
unfolding lru_seen_or_add
lru_fresh capacity items key ttl now f = rw (f, lru_seen_or_add) (ground arith)

delete_key_forgets :
    (d : DedupeStore) (key : Str) (ttl : ℕ) (now : Time)
    → (seen_or_add (delete_key d key) key ttl now).1 ≡ false
unfolding seen_or_add delete_key
delete_key_forgets (ttl_store seen) key ttl now =
    ttl_fresh (remove key seen) key ttl now (rw (find-remove_self key seen))
delete_key_forgets (lru_store capacity items) key ttl now =
    lru_fresh capacity (remove key items) key ttl now (find-remove_self key items)

-- What `enqueueMessage` does with a dedupe key that is kept in memory.
enqueue_message_keyed :
    (durable : Bool) (d : DedupeStore) (queue payload : Str) (opts : EnqueueOpts)
    (created scheduled clock : Time) (id : Str)
    → durable ≡ false
    → is_nil opts.dedupe_key ≡ false
    → let asked = seen_or_add d (full_key queue opts.dedupe_key) dedupe_ttl clock in
      enqueue_message durable d queue payload opts created scheduled clock id ≡ (
        asked.0,
        if asked.1
            then none
            else some (
              new_message queue payload opts created scheduled id,
              full_key queue opts.dedupe_key,
            ),
      )
unfolding enqueue_message
enqueue_message_keyed durable d queue payload opts created scheduled clock id m k =
    rw m (rw k (ground arith))

full_key_nonempty : (queue key : Str) → is_nil (full_key queue key) ≡ false
unfolding full_key
full_key_nonempty [] key = refl
full_key_nonempty (r ∷ queue) key = refl

store_message_refused :
    {S : Type 0} (st : Store S) (w : Moment) (b : Broker S) (queue : Str) (d : DedupeStore)
    (msg : Message) (key : Str) (x : Error)
    → is_nil key ≡ false
    → (store_message st w b queue d (some (msg, key))).1 ≡ some x
    → (store_message st w b queue d (some (msg, key))).0.dedupe ≡ delete_key d key
unfolding store_message
store_message_refused st w b queue d msg key x k e =
    elim (Option-cases (st.enqueue w b.store queue msg).1) [
      | inl f ↦ let no_error : none ≡ some x = rw (f, store_message) at e in cc
      | inr (y, f) ↦ rw (f, store_message) (rw k)
    ]

store_message_stored :
    {S : Type 0} (st : Store S) (w : Moment) (b : Broker S) (queue : Str) (d : DedupeStore)
    (msg : Message) (key : Str)
    → (store_message st w b queue d (some (msg, key))).1 ≡ none
    → ((store_message st w b queue d (some (msg, key))).0.dedupe ≡ d)
      × ((store_message st w b queue d (some (msg, key))).0.durable_dedupe ≡ b.durable_dedupe)
unfolding store_message
store_message_stored st w b queue d msg key e =
    elim (Option-cases (st.enqueue w b.store queue msg).1) [
      | inl f ↦ rw (f, store_message) (refl, refl)
      | inr (y, f) ↦ let an_error : some y ≡ none = rw (f, store_message) at e in cc
    ]

module _ {S : Type 0} (st : Store S) (w : Moment) (b : Broker S) (queue payload : Str)
    (opts : EnqueueOpts) (in_memory : b.durable_dedupe ≡ false)
    (keyed : is_nil opts.dedupe_key ≡ false) where
  -- The dedupe store once the key has been looked up, and whether it was there.
  abbrev asked : DedupeStore × Bool
  asked = seen_or_add b.dedupe (full_key queue opts.dedupe_key) dedupe_ttl w.now

  abbrev message : Message
  message = new_message queue payload opts w.now w.now w.fresh

  enqueue_asked :
      enqueue st w b queue payload opts
      ≡ store_message st w b queue asked.0
          (if asked.1 then none else some (message, full_key queue opts.dedupe_key))
  unfolding enqueue
  enqueue_asked =
      ap (λ r. store_message st w b queue r.0 r.1)
        (enqueue_message_keyed b.durable_dedupe b.dedupe queue payload opts w.now w.now w.now
          w.fresh in_memory keyed)

  enqueue_branch :
      (t : Bool)
      → asked.1 ≡ t
      → enqueue st w b queue payload opts
        ≡ store_message st w b queue asked.0
            (if t then none else some (message, full_key queue opts.dedupe_key))
  enqueue_branch t e =
      enqueue_asked
      ∙ ap
          (λ (u : Bool).
            store_message st w b queue asked.0
              (if u then none else some (message, full_key queue opts.dedupe_key)))
          e

  -- With no durable dedupe, if the storage refuses a message with a dedupe key, the key is
  -- forgotten: the next lookup of the key, at any time, does not find it, so that a second try is
  -- not dropped as a duplicate.
  pub refused_enqueue_is_forgotten :
      (x : Error) (ttl : ℕ) (t : Time)
      → (enqueue st w b queue payload opts).1 ≡ some x
      → (seen_or_add
          (enqueue st w b queue payload opts).0.dedupe
          (full_key queue opts.dedupe_key)
          ttl
          t).1
        ≡ false
  refused_enqueue_is_forgotten x ttl t e = elim (Bool-cases asked.1) [
    | inl old ↦
        let no_error : none ≡ some x = unfold store_message in rw (enqueue_branch true old) at e in
        cc
    | inr new ↦
        let key = full_key queue opts.dedupe_key in
        let gone =
          store_message_refused st w b queue asked.0 message key x
            (full_key_nonempty queue opts.dedupe_key) (rw (enqueue_branch false new) at e) in
        rw (enqueue_branch false new) (rw gone (delete_key_forgets asked.0 key ttl t))
  ]

  -- A message whose key was not known and which the storage accepted leaves its key in the store.
  enqueue_leaves_key :
      asked.1 ≡ false
      → (enqueue st w b queue payload opts).1 ≡ none
      → ((enqueue st w b queue payload opts).0.dedupe ≡ asked.0)
        × ((enqueue st w b queue payload opts).0.durable_dedupe ≡ false)
  enqueue_leaves_key new e =
      let kept =
        store_message_stored st w b queue asked.0 message (full_key queue opts.dedupe_key)
          (rw (enqueue_branch false new) at e) in
      rw (enqueue_branch false new) (kept.0, kept.1 ∙ in_memory)

  -- A message whose key is known is dropped: no error is reported and the storage is not called.
  pub enqueue_drops :
      asked.1 ≡ true
      → ((enqueue st w b queue payload opts).1 ≡ none)
        × ((enqueue st w b queue payload opts).0.store ≡ b.store)
  enqueue_drops old = rw (enqueue_branch true old) (unfold store_message in (refl, refl))

-- With the TTL store and no durable dedupe, after a message was stored whose dedupe key was given
-- and not live, another message for the same queue with the same key, enqueued less than five
-- minutes later, is dropped silently: the call reports no error and the storage is as it was.
pub duplicate_is_dropped :
    {S : Type 0} (st : Store S) (w w' : Moment) (b : Broker S) (queue payload payload' : Str)
    (opts opts' : EnqueueOpts) (seen : List Entry)
    → b.durable_dedupe ≡ false
    → is_nil opts.dedupe_key ≡ false
    → opts'.dedupe_key ≡ opts.dedupe_key
    → b.dedupe ≡ ttl_store seen
    → live_at w.now (find (full_key queue opts.dedupe_key) seen) ≡ false
    → (enqueue st w b queue payload opts).1 ≡ none
    → w'.now < w.now + dedupe_ttl
    → let b' = (enqueue st w b queue payload opts).0 in
      ((enqueue st w' b' queue payload' opts').1 ≡ none)
      × ((enqueue st w' b' queue payload' opts').0.store ≡ b'.store)
duplicate_is_dropped st w w' b queue payload payload' opts opts' seen m k same d new e later =
    let key = full_key queue opts.dedupe_key in
    let fresh : (seen_or_add b.dedupe key dedupe_ttl w.now).1 ≡ false =
      rw d (unfold seen_or_add in ttl_fresh seen key dedupe_ttl w.now new) in
    let kept = enqueue_leaves_key st w b queue payload opts m k fresh e in
    enqueue_drops st w' (enqueue st w b queue payload opts).0 queue payload' opts' kept.1
      (rw same k)
      (rw same (
        rw kept.0 (
          rw d (
            unfold seen_or_add in
            ttl_hit (ttl_seen_or_add seen key dedupe_ttl w.now).0 key dedupe_ttl w'.now
              (record { key = key; expires_at = w.now + dedupe_ttl })
              (ttl_added seen key dedupe_ttl w.now (omega arith) new) later))))
