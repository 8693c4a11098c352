-- ===== src/Naming/Laws.antt =====
-- internal/naming/queue.go: the accepted names against a description of them.
use shoebox.Base.{
  ℕ, ◌≤◌, ◌<◌, ◌≡◌, refl, true, false, ◌⊎◌, ◌≢◌, ◌↔◌, [], ◌∷◌, ◌++◌, arith, length, All, inl, inr,
  Bool-cases,
}
use shoebox.Base.Text.{Str, bytes, has_suffix, has_suffix-append, has_suffix-split}
use shoebox.Storage.{dlq_name}
use shoebox.Naming.{is_name_byte, all_name_bytes, valid_queue_name}

-- A letter, a digit, a dot, a dash or an underscore.
pub NameByte : ℕ → Type 0
NameByte r =
    ((b'a' ≤ r) × (r ≤ b'z'))
    ⊎ (((b'A' ≤ r) × (r ≤ b'Z'))
        ⊎ (((b'0' ≤ r) × (r ≤ b'9')) ⊎ ((r ≡ b'.') ⊎ ((r ≡ b'-') ⊎ (r ≡ b'_')))))

is_name_byte_iff : (r : ℕ) → (is_name_byte r ≡ true) ↔ NameByte r
unfolding is_name_byte NameByte
is_name_byte_iff r = ground arith

all_name_bytes_iff : (name : Str) → (all_name_bytes name ≡ true) ↔ All NameByte name
unfolding all_name_bytes
all_name_bytes_iff [] = ground arith
all_name_bytes_iff (r ∷ name) = ground (arith, is_name_byte_iff r, all_name_bytes_iff name)

abbrev dlq : Str
dlq = bytes ".dlq"

-- A name that users may write, without reference to how the code decides it.
pub record QueueName (name : Str) : Type 0 where
  pub nonempty : 0 < length name
  pub short : length name ≤ 128
  pub plain : All NameByte name
  pub unreserved : (stem : Str) → name ≢ stem ++ dlq

unreserved_of : (name : Str) → has_suffix name dlq ≡ false → (stem : Str) → name ≢ stem ++ dlq
unreserved_of name h stem e =
    let yes_suffix : has_suffix name dlq ≡ true = rw e (has_suffix-append stem dlq) in cc

suffix_of_unreserved :
    (name : Str) → ((stem : Str) → name ≢ stem ++ dlq) → has_suffix name dlq ≡ false
suffix_of_unreserved name h = elim (Bool-cases (has_suffix name dlq)) [
  | inl e ↦ absurd (h (has_suffix-split name dlq e).0 (has_suffix-split name dlq e).1)
  | inr e ↦ e
]

valid_of_QueueName : (name : Str) → QueueName name → valid_queue_name name ≡ true
unfolding valid_queue_name
valid_of_QueueName name v =
    ground (arith, suffix_of_unreserved name v.unreserved, all_name_bytes_iff name, v.plain)

QueueName-of_valid : (name : Str) → valid_queue_name name ≡ true → QueueName name
unfolding valid_queue_name
QueueName-of_valid name h = record {
  nonempty = ground arith;
  short = ground arith;
  plain = (all_name_bytes_iff name).0 (ground arith);
  unreserved = unreserved_of name (ground arith);
}

-- A queue name is accepted exactly when it has between 1 and 128 bytes, each a letter, a digit, a
-- dot, a dash or an underscore, and does not end in ".dlq".
pub valid_queue_name_iff : (name : Str) → (valid_queue_name name ≡ true) ↔ QueueName name
valid_queue_name_iff name = (QueueName-of_valid name, valid_of_QueueName name)

-- The dead-letter queue of any queue is closed to users.
pub valid_queue_name-dlq : (q : Str) → valid_queue_name (dlq_name q) ≡ false
unfolding dlq_name
valid_queue_name-dlq q = elim (Bool-cases (valid_queue_name (q ++ dlq))) [
  | inl e ↦ absurd ((QueueName-of_valid (q ++ dlq) e).unreserved q refl)
  | inr e ↦ e
]

NameByte-ne : (r : ℕ) → NameByte r → r ≢ b':'
unfolding NameByte
NameByte-ne r h = ground arith

pub no_colon : (name : Str) → All NameByte name → All (λ r. r ≢ b':') name
no_colon [] h = tt
no_colon (r ∷ name) h = (NameByte-ne r h.0, no_colon name h.1)
