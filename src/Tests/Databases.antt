-- ===== src/Tests/Databases.antt =====
-- Applications of the theorems on the SQLite backend.
use mathlib.Core.List.{Nodup-cons, Nodup-nil}
use mathlib.Core.List.Perm
use shoebox.Base.{
  ℕ, ◌≡◌, refl, Bool, true, false, List, [], ◌∷◌, ◌++◌, Option, none, some, Perm, arith, if_elim,
  ◌==◌, if◌then◌else◌,
}
use shoebox.Base.Text.{Str, bytes, str_eq, str_ltb, has_suffix}
use shoebox.Base.Int.{pos}
use shoebox.Base.Maps.{contains}
use shoebox.Storage.{Message, ok, err, empty, dlq_name, dead_letter_message}
use shoebox.Sql.{
  Row, has_id, pending, processing, dead, update_rows, where_rows, row_is, run, transact,
  all_or_nothing, update_where,
}
use shoebox.Sql.Keys.{ids, DistinctIds}
use shoebox.Sqlite.{
  Engine, Database, dequeue, message_row, row_due, scan_rows, scan_message, message_of,
  read_metadata, read_dead_at, due_messages, claim, mark_each,
}
use shoebox.Sqlite.Settle.{dead_letter}
use shoebox.Sqlite.Calls.{Call, dequeuing, retrying, acking, burying, history}
use shoebox.Sqlite.Calls.Custody.{history-Holds}
use shoebox.Sqlite.Calls.{Part, undisturbed, history_serial}
use shoebox.Sql.Claims.{Delivers}
use shoebox.Sqlite.Claiming.{dequeue_once}
use shoebox.Sqlite.Outcomes.{lent, counted, one_dead, dead_letter_outcome}
use shoebox.Sqlite.{text_leb, enqueue}
use shoebox.Sqlite.Journey.{arrived, dequeue-enqueue}
use shoebox.Sqlite.Delivering.{offered, selected, dequeue_outcome}
use shoebox.Sqlite.Texts.{row_due-late}
use shoebox.Tests.Storing.{not-Mem}
use shoebox.Tests.{mails, low}

-- The rows in order, by insertion.
module _ {T : Type 0} where
  abbrev place : (Row T → Row T → Bool) → Row T → List (Row T) → List (Row T)
  place p r [] = r ∷ []
  place p r (x ∷ xs) = let rest = place p r xs in if p x r then x ∷ rest else r ∷ x ∷ xs

  abbrev pub in_order : (Row T → Row T → Bool) → List (Row T) → List (Row T)
  in_order p [] = []
  in_order p (r ∷ rows) = place p r (in_order p rows)

  place-perm :
      (p : Row T → Row T → Bool) (r : Row T) (xs : List (Row T)) → Perm (place p r xs) (r ∷ xs)
  place-perm p r [] = Perm.refl _
  place-perm p r (x ∷ xs) =
      if_elim (λ l. Perm l (r ∷ x ∷ xs)) (p x r) (x ∷ place p r xs) (r ∷ x ∷ xs)
        (λ e. Perm.trans (Perm.cons x (place-perm p r xs)) (Perm.swap r x xs)) (λ e. Perm.refl _)

  pub in_order-perm : (p : Row T → Row T → Bool) (rows : List (Row T)) → Perm (in_order p rows) rows
  in_order-perm p [] = Perm.refl _
  in_order-perm p (r ∷ rows) =
      Perm.trans (place-perm p r (in_order p rows)) (Perm.cons r (in_order-perm p rows))

-- A clock whose times are written as one character, and messages without metadata.
abbrev read_char : Str → Option ℕ
read_char (c ∷ []) = some c
read_char _ = none

abbrev pub plain : Engine
plain = record {
  format = λ t. t ∷ [];
  parse = read_char;
  marshal = λ m. bytes "{}";
  unmarshal = λ s. none;
  arrange = in_order;
}

abbrev pub waiting_row : Row Str
waiting_row = record {
  id = bytes "a";
  queue = mails;
  payload = bytes "hello";
  attempts = 0;
  max_retries = pos 0;
  created_at = 5 ∷ [];
  scheduled_at = 5 ∷ [];
  priority = pos 0;
  dedupe_key = [];
  metadata = bytes "{}";
  error = [];
  dead_at = [];
  status = pending;
}

abbrev lent_row : Row Str
lent_row = record waiting_row { id = bytes "b"; status = processing }

abbrev pub shelf : Database
shelf = record {
  rows = waiting_row ∷ lent_row ∷ [];
  counters = λ q. record { processed = 0; errors = 0; retries = 0; dead = 0 };
  schedules = [];
}

abbrev pub second : Message
second = record low { id = bytes "b"; queue = mails }

abbrev hours : List (Call × List Bool)
hours =
    (dequeuing mails 1 9, false ∷ false ∷ true ∷ [])
    ∷ (dequeuing mails 1 9, [])
    ∷ (retrying mails second 9, [])
    ∷ (burying mails (record second { id = bytes "a" }) none 9 (bytes "z"), false ∷ [])
    ∷ []

shelf_holds : has_id (bytes "a") shelf.rows ≡ true
unfolding has_id str_eq
shelf_holds = refl

history-Holds_example : has_id (bytes "a") (history plain shelf hours).rows ≡ true
history-Holds_example =
    history-Holds plain (bytes "a") shelf hours (tt, (tt, (tt, (tt, tt)))) shelf_holds

shelf_distinct : DistinctIds shelf
unfolding ids contains str_eq
shelf_distinct = Nodup-cons.1 (not-Mem _ _ refl, Nodup-cons.1 (not-Mem _ _ refl, Nodup-nil))

-- A retry that is interrupted, and a call after it.
abbrev troubled : List (Call × List Bool)
troubled = (retrying mails second 9, false ∷ true ∷ []) ∷ (acking mails (bytes "c"), []) ∷ []

history_serial_example :
    (kept : List Call) × Part plain shelf kept troubled
    × (history plain shelf troubled ≡ history plain shelf (undisturbed kept))
history_serial_example = history_serial plain shelf troubled

first_delivered : Delivers (bytes "a") (dequeue plain [] shelf mails 1 9).1
unfolding dequeue transact all_or_nothing run due_messages scan_rows scan_message message_of
    read_metadata read_dead_at where_rows row_due str_eq str_ltb claim mark_each contains
    update_where
first_delivered = refl

dequeue_once_example :
    ¬ Delivers
      (bytes "a")
      (dequeue plain (false ∷ []) (dequeue plain [] shelf mails 1 9).0 mails 5 20).1
dequeue_once_example =
    dequeue_once plain (bytes "a") mails shelf [] (false ∷ []) 1 5 9 20 in_order-perm
      first_delivered

z_fresh : has_id (bytes "z") shelf.rows ≡ false
unfolding has_id str_eq
z_fresh = refl

dead_letter_outcome_example : dead_letter plain [] shelf mails second none 9 (bytes "z") ≡ (
    if lent shelf mails (bytes "b")
    then (
      record shelf {
        rows =
            update_rows
              (row_is (bytes "b") mails processing)
              (λ r. record r {
                status = dead;
                error = (dead_letter_message mails second none 9 (bytes "z")).error;
                dead_at = 9 ∷ [];
              })
              shelf.rows
            ++ message_row plain
                (dlq_name mails)
                (dead_letter_message mails second none 9 (bytes "z"))
                9
              ∷ [];
        counters = counted shelf mails one_dead;
      },
      ok tt,
    )
    else (shelf, err empty))
dead_letter_outcome_example =
    dead_letter_outcome plain shelf mails second none 9 (bytes "z") shelf_distinct z_fresh

dequeue_outcome_example :
    dequeue plain [] shelf mails 1 9
    ≡ offered shelf mails (scan_rows plain mails (selected plain shelf mails 1 9))
dequeue_outcome_example = dequeue_outcome plain shelf mails 1 9

no_metadata : read_metadata plain (plain.marshal second.metadata) ≡ some second.metadata
unfolding read_metadata str_eq
no_metadata = refl

-- No message waits.
abbrev quiet : Database
quiet = record shelf { rows = lent_row ∷ [] }

third : has_id (bytes "a") quiet.rows ≡ false
unfolding has_id str_eq
third = refl

no_shadow : has_suffix mails (bytes ".dlq") ≡ false
unfolding has_suffix str_eq
no_shadow = refl

nothing_due : where_rows (row_due mails (plain.format 9)) quiet.rows ≡ []
unfolding where_rows row_due str_eq str_ltb
nothing_due = refl

due_by_nine :
    text_leb
      (plain.format (arrived mails (record second { id = bytes "a" }) 7).scheduled_at)
      (plain.format 9)
    ≡ true
unfolding str_ltb
due_by_nine = refl

dequeue-enqueue_example :
    (dequeue plain []
      (enqueue plain [] quiet mails (record second { id = bytes "a" }) 7).0
      mails
      5
      9).1
    ≡ ok (arrived mails (record second { id = bytes "a" }) 7 ∷ [])
dequeue-enqueue_example =
    dequeue-enqueue plain quiet mails (record second { id = bytes "a" }) 7 9 4 (λ t. refl)
      (λ t. refl) no_metadata (λ r. refl) third no_shadow nothing_due due_by_nine

-- A clock that writes a whole second as `Z`, and any later instant of it as `.1Z`.
abbrev dotted : Engine
dotted = record plain { format = λ t. if t == 0 then bytes "Z" else bytes ".1Z" }

row_due-late_example :
    row_due mails (dotted.format 3) (record waiting_row { scheduled_at = bytes "Z" }) ≡ false
row_due-late_example =
    row_due-late dotted mails (record waiting_row { scheduled_at = bytes "Z" }) 0 3 [] (bytes "1Z")
      b'.' refl refl refl (omega arith)
