-- ===== src/Postgres/Calls/Custody.antt =====
-- internal/storage/postgres.go: what a call does to a message that it does not acknowledge.
use shoebox.Base.{
  ◌≢◌, All, subst, ◌∙◌, arith, ℕ, ◌≡◌, refl, sym, Bool, true, false, List, [], ◌∷◌, inl, inr,
  Bool-cases,
}
use shoebox.Base.Text.{Str, str_eq, str_eq_iff}
use shoebox.Base.Maps.{contains}
use shoebox.Storage.{Time, Message, Result, ok, err, dlq_name, replay_message}
use shoebox.Sql.{Row, has_id, delete_where, Status, row_is, processing, dead, where_rows}
use shoebox.Sql.Posts.{After, After-mono, transact-Post, Holds, update_where-Holds}
use shoebox.Sql.Keys.{Answers, Keeps, Keeps-bind}
use shoebox.Postgres.{
  Engine, Database, enqueue_atomic, scan_message, mark_each, claim, dequeue, due_messages,
  scan_rows, choose,
}
use shoebox.Postgres.Settle.{
  retry, replay, exactly_one, find_dead, first_message, count_processed, row_among,
}
use shoebox.Postgres.Claiming.{Reads, message_of-id}
use shoebox.Postgres.Calls.{
  Call, enqueuing, batching, dequeuing, acking, acking_batch, retrying, burying, replaying,
  reclaiming, creating, updating, deleting, running, report, step, history,
}
use shoebox.Postgres.Calls.Keeping.{
  Mild, step-Keeps, report_fst, transacted, exactly_one-Keeps, enqueue_atomic-Keeps,
  count_processed-Keeps, upsert-Answers,
}
use shoebox.Postgres.Calls.Rows.{differs, keep_row, deleting_Holds, reinserted}

-- The call does not acknowledge the message.
abbrev pub Spares : Str → Call → Type 0
Spares id (acking q other) = other ≢ id
Spares id (acking_batch q l) = contains id l ≡ false
Spares id _ = Unit

module _ (g : Engine) (id : Str) where
  reported_Holds : {A : Type 0} (x : Database × Result A) → Holds id x.0 → Holds id (report x).0
  reported_Holds x h = report_fst g (Holds id) (keep_row id) x h

  first-id :
      (q : Str) (s : Status) (rows : List (Row Time))
      → Reads (λ m. m.id ≡ id) (first_message g q (where_rows (row_is id q s) rows))
  unfolding first_message where_rows scan_message
  first-id q s [] = tt
  first-id q s (r ∷ rows) = elim (Bool-cases (row_is id q s r)) [
    | inl e ↦
        let same : r.id ≡ id = (str_eq_iff r.id id).0 (ground (arith, e)) in
        rw e (subst (λ t. Reads (λ m. m.id ≡ t) (scan_message g q r)) same (message_of-id g q r _))
    | inr e ↦ rw e (first-id q s rows)
  ]

  find_dead-id : (q : Str) (db : Database) → After (λ m d. m.id ≡ id) (find_dead g id q db)
  unfolding find_dead
  find_dead-id q db =
      (elim (first_message g q (where_rows (row_is id q dead) db.rows))
          as (λ r.
            Reads (λ m. m.id ≡ id) r
            → After (λ m d. m.id ≡ id) (elim r [ err e ↦ err e | ok m ↦ ok (m, db) ])) [
              | err e ↦ λ h. tt
              | ok m ↦ λ h. h
            ])
        (first-id q dead db.rows)

  retrying_back :
      (q : Str) (msg : Message) (now : Time) (faults : List Bool) (db : Database)
      → msg.id ≡ id
      → Holds id db
      → Holds id (report (retry g faults db q msg now)).0
  unfolding retry delete_where
  retrying_back q msg now faults db same h =
      reported_Holds _
        (transact-Post (Holds id) _ faults db (reinserted id g _ q msg now q _ _ same) h)

  replaying_back :
      (q : Str) (now : Time) (faults : List Bool) (db : Database)
      → Holds id db
      → Holds id (report (replay g faults db q id now)).0
  unfolding replay delete_where replay_message count_processed
  replaying_back q now faults db h = reported_Holds _ (
      transact-Post (Holds id) _ faults db
        (After-mono _ _
          (λ m d e. reinserted id g _ q (replay_message q m now) now (dlq_name q) _ _ e)
          (find_dead g id (dlq_name q) db) (find_dead-id (dlq_name q) db))
        h)

  other_rows :
      (other q : Str) (s : Status)
      → other ≢ id
      → (r : Row Time) → str_eq r.id id ≡ true
      → row_is other q s r ≡ false
  other_rows other q s d r e = elim (Bool-cases (str_eq r.id other)) [
    | inl same ↦ absurd (d (sym ((str_eq_iff r.id other).0 same) ∙ (str_eq_iff r.id id).0 e))
    | inr apart ↦ ground (arith, apart)
  ]

  among_rows :
      (l : List Str) (q : Str)
      → contains id l ≡ false
      → (r : Row Time) → str_eq r.id id ≡ true
      → row_among l q r ≡ false
  unfolding row_among
  among_rows l q h r e =
      let out : contains r.id l ≡ false =
        subst (λ t. contains t l ≡ false) (sym ((str_eq_iff r.id id).0 e)) h in
      ground (arith, out)

  retrying_other :
      (q : Str) (msg : Message) (now : Time) (faults : List Bool) (db : Database)
      → msg.id ≢ id
      → Holds id db
      → Holds id (report (retry g faults db q msg now)).0
  unfolding retry
  retrying_other q msg now faults db d h =
      transacted g (Holds id) (keep_row id) _ faults db
        (
          deleting_Holds id (row_is msg.id q processing) (other_rows msg.id q processing d),
          λ k.
              Keeps-bind (Holds id) (exactly_one k) _
                (exactly_one-Keeps g (Holds id) (keep_row id) k)
                (λ u.
                  Keeps-bind (Holds id) (enqueue_atomic g q msg now) _
                    (enqueue_atomic-Keeps g (Holds id) (keep_row id) q msg now)
                    (λ v. (upsert-Answers g (Holds id) (keep_row id) q _, λ w. tt))),
        )
        h

  find_dead-Answers :
      (other q : Str) (db : Database) → Holds id db → Answers (Holds id) (find_dead g other q db)
  unfolding find_dead
  find_dead-Answers other q db n =
      elim (first_message g q _)
        as (λ r. Answers (Holds id) (elim r [ err e ↦ err e | ok m ↦ ok (m, db) ])) [
          | err e ↦ tt
          | ok m ↦ n
        ]

  replaying_other :
      (q other : Str) (now : Time) (faults : List Bool) (db : Database)
      → other ≢ id
      → Holds id db
      → Holds id (report (replay g faults db q other now)).0
  unfolding replay
  replaying_other q other now faults db d h =
      transacted g (Holds id) (keep_row id) _ faults db
        (
          find_dead-Answers other (dlq_name q),
          λ msg. (
            deleting_Holds id (row_is other (dlq_name q) dead)
                (other_rows other (dlq_name q) dead d),
            λ k.
                Keeps-bind (Holds id) (exactly_one k) _
                  (exactly_one-Keeps g (Holds id) (keep_row id) k)
                  (λ u.
                    Keeps-bind (Holds id) (enqueue_atomic g q (replay_message q msg now) now) _
                      (enqueue_atomic-Keeps g (Holds id) (keep_row id) q (replay_message q msg now)
                        now)
                      (λ v. count_processed-Keeps g (Holds id) (keep_row id) (dlq_name q) 1)),
          ),
        )
        h

  mark_each-Keeps : (q : Str) (msgs : List Message) → Keeps (Holds id) (mark_each q msgs)
  unfolding mark_each
  mark_each-Keeps q [] = tt
  mark_each-Keeps q (m ∷ ms) = (update_where-Holds id _ _ (λ r. refl), λ n. mark_each-Keeps q ms)

  claim-Keeps : (q : Str) (msgs : List Message) → Keeps (Holds id) (claim q msgs)
  unfolding claim
  claim-Keeps q [] = tt
  claim-Keeps q (m ∷ ms) =
      Keeps-bind (Holds id) (mark_each q (m ∷ ms)) _ (mark_each-Keeps q (m ∷ ms)) (λ u. tt)

  dequeuing_Holds :
      (q : Str) (limit : ℕ) (locked : List Str) (clock : Time) (faults : List Bool) (db : Database)
      → Holds id db
      → Holds id (report (dequeue g faults db q limit locked clock)).0
  unfolding dequeue due_messages
  dequeuing_Holds q limit locked clock faults db h =
      transacted g (Holds id) (keep_row id) _ faults db
        (
          (λ d j.
              elim (scan_rows g q (choose g q clock limit locked d))
                as (λ r. Answers (Holds id) (elim r [ err e ↦ err e | ok msgs ↦ ok (msgs, d) ])) [
                  | err e ↦ tt
                  | ok msgs ↦ j
                ]),
          claim-Keeps q,
        )
        h

  spared_Mild : (c : Call) → Spares id c → Mild g (Holds id) (keep_row id) c
  unfolding step
  spared_Mild (enqueuing q msg now) h = tt
  spared_Mild (batching q msgs now) h = tt
  spared_Mild (dequeuing q limit locked clock) h =
      λ faults db. dequeuing_Holds q limit locked clock faults db
  spared_Mild (acking q other) h =
      deleting_Holds id (row_is other q processing) (other_rows other q processing h)
  spared_Mild (acking_batch q l) h = deleting_Holds id (row_among l q) (among_rows l q h)
  spared_Mild (retrying q msg now) h = λ faults db. elim (Bool-cases (str_eq msg.id id)) [
    | inl e ↦ retrying_back q msg now faults db ((str_eq_iff msg.id id).0 e)
    | inr e ↦ retrying_other q msg now faults db (differs msg.id e)
  ]
  spared_Mild (burying q msg e now fresh) h = tt
  spared_Mild (replaying q other now) h = λ faults db. elim (Bool-cases (str_eq other id)) [
    | inl e ↦
        subst (λ t. Holds id db → Holds id (report (replay g faults db q t now)).0)
          (sym ((str_eq_iff other id).0 e)) (replaying_back q now faults db)
    | inr e ↦ replaying_other q other now faults db (differs other e)
  ]
  spared_Mild (reclaiming q) h = tt
  spared_Mild (creating s) h = tt
  spared_Mild (updating s) h = tt
  spared_Mild (deleting other) h = tt
  spared_Mild (running s now next clock server fresh) h = tt

  -- The message stays in the tables through calls that do not acknowledge it, each interrupted by any
  -- faults and whichever rows others hold locked: neither a crash, a retry that a key refuses, a dead
  -- letter, a replay nor the settlement of another message loses it.
  pub spared_stays :
      (db : Database) (calls : List (Call × List Bool))
      → All (λ c. Spares id c.0) calls
      → has_id id db.rows ≡ true
      → has_id id (history g db calls).rows ≡ true
  unfolding history
  spared_stays db [] a h = h
  spared_stays db ((c, faults) ∷ calls) a h =
      spared_stays (step g faults db c).0 calls a.1
        (step-Keeps g (Holds id) (keep_row id) faults db c (spared_Mild c a.0) h)
