-- ===== src/Dedupe/Window.antt =====
-- internal/broker/dedupe.go: the TTL store against a map that never forgets an entry.
use shoebox.Base.{
  ℕ, ◌+◌, ◌≤◌, ◌≡◌, refl, ◌∙◌, Bool, true, false, List, [], ◌∷◌, arith, inl, inr, Bool-cases, ltb,
  if◌then◌else◌, length, ap, ◌++◌,
}
use shoebox.Base.Text.{Str, str_eq_refl, has_prefix, bytes}
use shoebox.Base.Maps.{put}
use shoebox.Storage.{Time}
use shoebox.Dedupe.{Entry, find, remove, live_at, sweep, sweep_limit, purge_queue, ttl_seen_or_add}
use shoebox.Dedupe.Entries.{
  DistinctKeys, find-remove, remove-DistinctKeys, sweep-DistinctKeys, live_at-sweep,
  find-purge_queue, purge_queue-DistinctKeys,
}

-- The instant at which each key may be used again; 0 for a key never seen.
abbrev pub Ideal : Type 0
Ideal = Str → Time

pub ideal_seen_or_add : Ideal → Str → ℕ → Time → Ideal × Bool
ideal_seen_or_add f key ttl now =
    if ltb now (f key) then (f, true) else (put f key (now + ttl), false)

-- From `now` on the store gives the answers of the ideal map.
pub record Agrees (seen : List Entry) (f : Ideal) (now : Time) : Type 0 where
  pub distinct : DistinctKeys seen
  pub answers : (k : Str) (t : Time) → now ≤ t → live_at t (find k seen) ≡ ltb t (f k)

add-answers :
    (seen : List Entry) (f : Ideal) (now : Time) (key : Str) (ttl : ℕ) (k : Str) (t : Time)
    → live_at t (find k seen) ≡ ltb t (f k)
    → live_at t (find k (record { key = key; expires_at = now + ttl } ∷ remove key seen))
      ≡ ltb t (put f key (now + ttl) k)
unfolding find put
add-answers seen f now key ttl k t h = ground (arith, find-remove k key seen)

add-distinct :
    (seen : List Entry) (key : Str) (expires : Time)
    → DistinctKeys seen
    → DistinctKeys (record { key = key; expires_at = expires } ∷ remove key seen)
add-distinct seen key expires d =
    (ground (arith, find-remove key key seen, str_eq_refl key), remove-DistinctKeys key seen d)

Agrees-add :
    (seen : List Entry) (f : Ideal) (now : Time) (key : Str) (ttl : ℕ)
    → Agrees seen f now
    → Agrees
        (record { key = key; expires_at = now + ttl } ∷ remove key seen)
        (put f key (now + ttl))
        now
Agrees-add seen f now key ttl a = record {
  distinct = add-distinct seen key (now + ttl) a.distinct;
  answers = λ k t h. add-answers seen f now key ttl k t (a.answers k t h);
}

Agrees-sweep :
    (seen : List Entry) (f : Ideal) (now : Time) → Agrees seen f now → Agrees (sweep now seen) f now
Agrees-sweep seen f now a = record {
  distinct = sweep-DistinctKeys now seen a.distinct;
  answers = λ k t h. live_at-sweep now t k seen a.distinct h ∙ a.answers k t h;
}

swept-Agrees :
    (seen : List Entry) (f : Ideal) (now : Time)
    → Agrees seen f now
    → Agrees (if ltb sweep_limit (length seen) then sweep now seen else seen) f now
swept-Agrees seen f now a = elim (Bool-cases (ltb sweep_limit (length seen))) [
  | inl e ↦ rw e (Agrees-sweep seen f now a)
  | inr e ↦ rw e a
]

ask-Agrees :
    (seen : List Entry) (f : Ideal) (key : Str) (ttl : ℕ) (now : Time)
    → Agrees seen f now
    → ((ttl_seen_or_add seen key ttl now).1 ≡ (ideal_seen_or_add f key ttl now).1)
      × Agrees (ttl_seen_or_add seen key ttl now).0 (ideal_seen_or_add f key ttl now).0 now
unfolding ttl_seen_or_add ideal_seen_or_add
ask-Agrees seen f key ttl now a =
    rw (a.answers key now (omega arith)) (elim (Bool-cases (ltb now (f key))) [
      | inl e ↦ rw e (refl, a)
      | inr e ↦ rw e (
        refl,
        swept-Agrees (record { key = key; expires_at = now + ttl } ∷ remove key seen)
            (put f key (now + ttl)) now (Agrees-add seen f now key ttl a),
      )
    ])

-- The methods of the store.
pub data Call : Type 0 where
  asks deletes purges : Str → Call

unfoldable pub ttl_step : ℕ → List Entry → Call → Time → List Entry × Bool
unfolding ttl_seen_or_add
ttl_step ttl seen (asks key) now = ttl_seen_or_add seen key ttl now
ttl_step ttl seen (deletes key) now = (remove key seen, false)
ttl_step ttl seen (purges queue) now = (purge_queue queue seen, false)

-- The same calls on the ideal map: a deleted key may be used again at once.
pub ideal_step : ℕ → Ideal → Call → Time → Ideal × Bool
unfolding ideal_seen_or_add
ideal_step ttl f (asks key) now = ideal_seen_or_add f key ttl now
ideal_step ttl f (deletes key) now = (put f key 0, false)
ideal_step ttl f (purges queue) now =
    (λ k. if has_prefix k (queue ++ bytes ":") then 0 else f k, false)

delete-Agrees :
    (seen : List Entry) (f : Ideal) (key : Str) (now : Time)
    → Agrees seen f now
    → Agrees (remove key seen) (put f key 0) now
unfolding put
delete-Agrees seen f key now a = record {
  distinct = remove-DistinctKeys key seen a.distinct;
  answers = λ k t h. ground (arith, find-remove k key seen, a.answers k t h);
}

purge-Agrees :
    (seen : List Entry) (f : Ideal) (queue : Str) (now : Time)
    → Agrees seen f now
    → Agrees
        (purge_queue queue seen)
        (λ k. if has_prefix k (queue ++ bytes ":") then 0 else f k)
        now
purge-Agrees seen f queue now a = record {
  distinct = purge_queue-DistinctKeys queue seen a.distinct;
  answers = λ k t h. ground (arith, find-purge_queue queue k seen, a.answers k t h);
}

step-Agrees :
    (ttl : ℕ) (seen : List Entry) (f : Ideal) (c : Call) (now : Time)
    → Agrees seen f now
    → ((ttl_step ttl seen c now).1 ≡ (ideal_step ttl f c now).1)
      × Agrees (ttl_step ttl seen c now).0 (ideal_step ttl f c now).0 now
unfolding ttl_step ideal_step
step-Agrees ttl seen f (asks key) now a = ask-Agrees seen f key ttl now a
step-Agrees ttl seen f (deletes key) now a = (refl, delete-Agrees seen f key now a)
step-Agrees ttl seen f (purges queue) now a = (refl, purge-Agrees seen f queue now a)

-- The answers to a history of calls, each with the time at which it is made.
unfoldable pub ttl_run : ℕ → List Entry → List (Call × Time) → List Bool
unfolding ttl_step
ttl_run ttl seen [] = []
ttl_run ttl seen ((c, now) ∷ cs) =
    (ttl_step ttl seen c now).1 ∷ ttl_run ttl (ttl_step ttl seen c now).0 cs

pub ideal_run : ℕ → Ideal → List (Call × Time) → List Bool
unfolding ideal_step
ideal_run ttl f [] = []
ideal_run ttl f ((c, now) ∷ cs) =
    (ideal_step ttl f c now).1 ∷ ideal_run ttl (ideal_step ttl f c now).0 cs

-- The clock does not run backwards, from `now` on.
abbrev pub Forward : Time → List (Call × Time) → Type 0
Forward now [] = Unit {0}
Forward now ((c, t) ∷ cs) = (now ≤ t) × Forward t cs

Agrees-later :
    (seen : List Entry) (f : Ideal) (now t : Time) → now ≤ t → Agrees seen f now → Agrees seen f t
Agrees-later seen f now t h a = record {
  distinct = a.distinct;
  answers = λ k u p. a.answers k u (omega arith);
}

run-Agrees :
    (ttl : ℕ) (seen : List Entry) (f : Ideal) (now : Time) (cs : List (Call × Time))
    → Forward now cs
    → Agrees seen f now
    → ttl_run ttl seen cs ≡ ideal_run ttl f cs
unfolding ttl_run ideal_run
run-Agrees ttl seen f now [] h a = refl
run-Agrees ttl seen f now ((c, t) ∷ cs) h a =
    let one = step-Agrees ttl seen f c t (Agrees-later seen f now t h.0 a) in
    rw one.0 (
      ap (λ l. (ideal_step ttl f c t).1 ∷ l)
        (run-Agrees ttl (ttl_step ttl seen c t).0 (ideal_step ttl f c t).0 t cs h.1 one.1))

-- On a clock that does not run backwards, the store answers every history of `SeenOrAdd`, `Delete`
-- and `purgeQueue` as a map that never forgets an entry does: the sweep of run-out entries, and
-- when it is made, cannot be observed.
pub ttl_run-ideal_run :
    (ttl : ℕ) (cs : List (Call × Time))
    → Forward 0 cs
    → ttl_run ttl [] cs ≡ ideal_run ttl (λ k. 0) cs
ttl_run-ideal_run ttl cs h =
    run-Agrees ttl [] (λ k. 0) 0 cs h (record { distinct = tt; answers = none_yet })
  where
    none_yet : (k : Str) (t : Time) → 0 ≤ t → live_at t (find k []) ≡ ltb t 0
    none_yet k t h = unfold find in ground arith
