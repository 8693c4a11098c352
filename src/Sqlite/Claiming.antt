-- ===== src/Sqlite/Claiming.antt =====
-- internal/storage/sqlite.go: what a dequeue delivers, and to whom.
use mathlib.Core.List.{Mem}
use shoebox.Base.{
  ℕ, ◌≡◌, refl, sym, subst, ◌∙◌, Bool, true, false, ◌&&◌, List, [], ◌∷◌, Perm, arith, inl, inr,
  Bool-cases, take,
}
use shoebox.Base.Text.{Str, str_eq, str_eq_comm}
use shoebox.Base.Maps.{contains}
use shoebox.Base.Maps.Sets.{contains-Mem}
use shoebox.Storage.{Time, Message, Result, ok, err}
use shoebox.Sql.{Row, pending, processing, row_is, where_rows, update_rows, update_where}
use shoebox.Sql.Keys.{ids}
use shoebox.Sql.Single.{stands}
use shoebox.Sql.Claims.{message_ids, Delivers, chosen-stands, marked-stands}
use shoebox.Sqlite.{
  Engine, Database, row_due, scan_rows, scan_message, due_messages, mark_each, claim, dequeue,
  ranks_before,
}
use shoebox.Sql.Posts.{After, After-mono, Post, Post-mono, Post-bind, Returned, transact-Returned}
use shoebox.Sqlite.Calls.Custody.{Reads, message_of-id}

-- The loop of updates leaves no message of its list waiting, and none more waiting than before.
mark_each-Post :
    (id q : Str) (ms : List Message) (db : Database)
    → Post
        (λ u d.
          (contains id (message_ids ms) ≡ true → stands id q pending d.rows ≡ false)
          × (stands id q pending db.rows ≡ false → stands id q pending d.rows ≡ false))
        (mark_each q ms)
        db
unfolding mark_each contains update_where
mark_each-Post id q [] db = ((λ h. cc), λ h. h)
mark_each-Post id q (m ∷ ms) db =
    let next : Database = record db {
      rows =
          update_rows (λ r. str_eq r.id m.id && str_eq r.queue q)
            (λ r. record r { status = processing }) db.rows;
    } in
    let after = marked-stands id m.id q db.rows in
    Post-mono _ _
      (λ u d h. (
        λ c. elim (Bool-cases (str_eq id m.id)) [
          | inl e ↦ h.1 (after ∙ ground (arith, str_eq_comm id m.id, e))
          | inr e ↦ h.0 (ground (arith, c, e))
        ],
        λ c. h.1 (after ∙ ground (arith, c)),
      ))
      (mark_each q ms) next (mark_each-Post id q ms next)

module _ (g : Engine) where
  scan_rows-ids :
      (q : Str) (rows : List (Row Str))
      → Reads (λ ms. message_ids ms ≡ ids rows) (scan_rows g q rows)
  unfolding scan_rows scan_message ids
  scan_rows-ids q [] = refl
  scan_rows-ids q (r ∷ rows) =
      (elim (scan_message g q r)
          as (λ x.
            Reads (λ m. m.id ≡ r.id) x
            → Reads (λ ms. message_ids ms ≡ ids (r ∷ rows))
                (elim x [
                  | err e ↦ err e
                  | ok m ↦ elim (scan_rows g q rows) [ err e ↦ err e | ok ms ↦ ok (m ∷ ms) ]
                ])) [
                  | err e ↦ λ h. tt
                  | ok m ↦ λ h.
                      (elim (scan_rows g q rows)
                          as (λ y.
                            Reads (λ ms. message_ids ms ≡ ids rows) y
                            → Reads (λ ms. message_ids ms ≡ ids (r ∷ rows))
                                (elim y [ err e ↦ err e | ok ms ↦ ok (m ∷ ms) ])) [
                                  | err e ↦ λ k. tt
                                  | ok ms ↦ λ k. rw (h, k) refl
                                ])
                        (scan_rows-ids q rows)
                ])
        (message_of-id g q r _ _ _ _)

  -- ORDER BY returns the rows that are selected, in some order.
  abbrev pub Arranges : Type 0
  Arranges = (p : Row Str → Row Str → Bool) (rows : List (Row Str)) → Perm (g.arrange p rows) rows

  row_due-waiting :
      (id q now : Str) (r : Row Str)
      → row_due q now r ≡ true
      → str_eq r.id id ≡ true
      → row_is id q pending r ≡ true
  unfolding row_due
  row_due-waiting id q now r h e = ground (arith, h, e)

  due_messages-After :
      (id q now : Str) (limit : ℕ) (db : Database)
      → Arranges
      → After
          (λ ms d. contains id (message_ids ms) ≡ true → stands id q pending db.rows ≡ true)
          (due_messages g q now limit db)
  unfolding due_messages
  due_messages-After id q now limit db law =
      let chosen = take limit (g.arrange ranks_before (where_rows (row_due q now) db.rows)) in
      (elim (scan_rows g q chosen)
          as (λ x.
            Reads (λ ms. message_ids ms ≡ ids chosen) x
            → After
                (λ ms d. contains id (message_ids ms) ≡ true → stands id q pending db.rows ≡ true)
                (elim x [ err e ↦ err e | ok ms ↦ ok (ms, db) ])) [
                  | err e ↦ λ h. tt
                  | ok ms ↦ λ h c.
                      chosen-stands (row_due q now) (g.arrange ranks_before _) id q limit db.rows
                        (row_due-waiting id q now)
                        (law ranks_before (where_rows (row_due q now) db.rows))
                        (subst (Mem id) h (contains-Mem id (message_ids ms) c))
                ])
        (scan_rows-ids q chosen)

  -- A message that is delivered was waiting, and waits no longer.
  Claimed : Str → Str → Database → List Message → Database → Type 0
  Claimed id q before ms db =
      contains id (message_ids ms) ≡ true
      → (stands id q pending before.rows ≡ true) × (stands id q pending db.rows ≡ false)

  claim-Post :
      (id q : Str) (before : Database) (ms : List Message) (db : Database)
      → (contains id (message_ids ms) ≡ true → stands id q pending before.rows ≡ true)
      → Post (Claimed id q before) (claim q ms) db
  unfolding claim Claimed
  claim-Post id q before [] db h = tt
  claim-Post id q before (m ∷ ms) db h =
      Post-bind (Claimed id q before) (mark_each q (m ∷ ms)) _ db (
        Post-mono _ _ (λ u d j c. (h c, j.0 c)) (mark_each q (m ∷ ms)) db
          (mark_each-Post id q (m ∷ ms) db))

  dequeue-Claimed :
      (id q : Str) (faults : List Bool) (db : Database) (limit : ℕ) (now : Time)
      → Arranges
      → Returned (Claimed id q db) (dequeue g faults db q limit now)
  unfolding dequeue
  dequeue-Claimed id q faults db limit now law = transact-Returned (Claimed id q db) _ faults db (
      After-mono _ _ (λ ms d h. claim-Post id q db ms d h) _
        (due_messages-After id q (g.format now) limit db law))

  -- If ORDER BY returns the selected rows in some order, a message that a Dequeue delivers is not
  -- delivered by a Dequeue of the same queue on the tables that this leaves, whatever the limits, the
  -- times and the faults of the two.
  pub dequeue_once :
      (id q : Str) (db : Database) (faults faults' : List Bool) (limit limit' : ℕ) (now now' : Time)
      → Arranges
      → Delivers id (dequeue g faults db q limit now).1
      → ¬ Delivers id (dequeue g faults' (dequeue g faults db q limit now).0 q limit' now').1
  unfolding Claimed
  dequeue_once id q db faults faults' limit limit' now now' law h = λ k.
      let first =
        delivered id q db (dequeue g faults db q limit now)
          (dequeue-Claimed id q faults db limit now law) h in
      let db' = (dequeue g faults db q limit now).0 in
      let second =
        delivered id q db' (dequeue g faults' db' q limit' now')
          (dequeue-Claimed id q faults' db' limit' now' law) k in
      let bad : true ≡ false = sym second.0 ∙ first.1 in cc
    where
      delivered :
          (id q : Str) (before : Database) (x : Database × Result (List Message))
          → Returned (Claimed id q before) x
          → Delivers id x.1
          → (stands id q pending before.rows ≡ true) × (stands id q pending x.0.rows ≡ false)
      delivered id q before (db, err e) r h = absurd h
      delivered id q before (db, ok ms) r h = r h
