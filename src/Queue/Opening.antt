-- ===== src/Queue/Opening.antt =====
-- shoebox.go: what the constructor accepts.
use shoebox.Base.{
  if_elim, un_not, ◌≡◌, ◌≢◌, ◌&&◌, [], refl, Bool, true, false, not, ◌⊎◌, inl, inr, Option, none,
  some, arith,
}
use shoebox.Base.Int.{ℤ, pos, ltb_ℤ}
use shoebox.Base.Text.{Str, str_eq, str_eq_iff, bytes}
use shoebox.Dedupe.{DedupeStore, ttl_store, new_dedupe_store}
use shoebox.Memory.{Memory, new_memory}
use shoebox.Broker.{Broker, new_broker}
use shoebox.Queue.{
  batch_option, known_policy, new_memory_queue, Failure, unsupported_policy, durable_needs_postgres,
}

batch_option_positive :
    (enabled : Bool) (n : ℤ) → ltb_ℤ (pos 0) (batch_option enabled (pos 50) n) ≡ enabled
unfolding batch_option
batch_option_positive enabled n = ground arith

interval_option_positive :
    (enabled : Bool) (n : ℤ) → ltb_ℤ (pos 0) (batch_option enabled (pos 10000000) n) ≡ enabled
unfolding batch_option
interval_option_positive enabled n = ground arith

-- What the constructor returns: a broker whose dedupe store is that of the policy, and which batches
-- acknowledgements if and only if that is enabled; or the error of its policy.
Opened : Str → ℤ → Bool → (Broker Memory ⊎ Failure) → Type 0
Opened policy capacity enabled (inl b) =
    (new_dedupe_store policy capacity ≡ some b.dedupe)
    × (b.ack_loop ≡ enabled)
    × (ltb_ℤ (pos 0) b.ack_batch_size ≡ enabled)
    × (b.durable_dedupe ≡ false)
Opened policy capacity enabled (inr f) =
    ((f ≡ unsupported_policy) × (known_policy policy ≡ false))
    ⊎ ((f ≡ durable_needs_postgres) × (policy ≡ bytes "durable"))

-- The store that `broker.New` keeps, where the policy has one.
kept_store :
    (o : Option DedupeStore) → o ≢ none → o ≡ some (elim o [ none ↦ ttl_store [] | some d ↦ d ])
kept_store none h = absurd (h refl)
kept_store (some d) h = refl

has_store :
    (policy : Str) (capacity : ℤ)
    → known_policy policy ≡ true
    → str_eq policy (bytes "durable") ≡ false
    → new_dedupe_store policy capacity ≢ none
unfolding known_policy new_dedupe_store
has_store policy capacity k d = ground arith

Opened-broker :
    (policy : Str) (capacity : ℤ) (enabled : Bool) (size interval : ℤ)
    → known_policy policy ≡ true
    → str_eq policy (bytes "durable") ≡ false
    → Opened policy capacity enabled (
        inl (
          new_broker new_memory policy capacity
            (str_eq policy (bytes "durable"))
            (batch_option enabled (pos 50) size)
            (batch_option enabled (pos 10000000) interval)))
unfolding Opened new_broker
Opened-broker policy capacity enabled size interval k d = (
  kept_store (new_dedupe_store policy capacity) (has_store policy capacity k d),
  both (batch_option_positive enabled size) (interval_option_positive enabled interval),
  batch_option_positive enabled size,
  d,
)
  where
    both : {x y t : Bool} → x ≡ t → y ≡ t → (x && y) ≡ t
    both {x = x} {y = y} {t = t} h k = ground arith

-- `New` over the memory backend either yields a broker whose dedupe store is the one its policy asks
-- for, never the fallback of `broker.New`, and which runs the loop that flushes acknowledgements, with
-- a positive batch, exactly if batching is enabled; or it reports that the policy is unknown, which
-- it is, or that durable dedupe, which was asked for, needs another backend.
new_memory_queue-Opened :
    (policy : Str) (capacity : ℤ) (enabled : Bool) (size interval : ℤ)
    → Opened policy capacity enabled (new_memory_queue policy capacity enabled size interval)
unfolding new_memory_queue
new_memory_queue-Opened policy capacity enabled size interval =
    if_elim (Opened policy capacity enabled) (not (known_policy policy)) _ _ (λ u. unknown u)
      λ k.
        if_elim (Opened policy capacity enabled) (str_eq policy (bytes "durable")) _ _
          (λ e. durable e) λ d. Opened-broker policy capacity enabled size interval (un_not _ k) d
  where
    not_true : (t : Bool) → not t ≡ true → t ≡ false
    not_true t h = ground arith

    unknown :
        not (known_policy policy) ≡ true → Opened policy capacity enabled (inr unsupported_policy)
    unknown u = unfold Opened in inl (refl, not_true _ u)

    durable :
        str_eq policy (bytes "durable") ≡ true
        → Opened policy capacity enabled (inr durable_needs_postgres)
    durable e = unfold Opened in inr (refl, (str_eq_iff policy (bytes "durable")).0 e)
