-- ===== src/Postgres/Claiming.antt =====
-- internal/storage/postgres.go: what a dequeue delivers, and the rows that it marks.
use mathlib.Core.List.{Mem}
use shoebox.Base.{
  ℕ, ◌≡◌, refl, ap, sym, subst, ◌∙◌, Bool, true, false, not, ◌||◌, ◌&&◌, List, [], ◌∷◌, Perm, arith,
  inl, inr, Bool-cases, Option, none, some,
}
use shoebox.Base.Text.{Str, str_eq, str_eq_iff, str_eq_refl}
use shoebox.Base.Maps.{contains}
use shoebox.Base.Maps.Sets.{contains-Mem}
use shoebox.Storage.{Time, Message, Result, ok, err}
use shoebox.Sql.{Row, pending, processing, dead, row_is, where_rows, update_rows, update_where}
use shoebox.Sql.Keys.{ids}
use shoebox.Sql.Single.{stands, cons_stands, waiting_is_alone}
use shoebox.Sql.Claims.{message_ids, chosen-stands, chosen-selected, where_none}
use shoebox.Sql.Posts.{After, After-mono, Post, Post-bind, transact-Post}
use shoebox.Postgres.{
  Engine, Database, row_due, scan_rows, scan_message, message_of, read_metadata, choose,
  due_messages, mark_each, claim, dequeue, ranks_before,
}
use shoebox.Postgres.Unique.{UniqueKeys, Quiet, quiet_update-UniqueKeys}

-- What is read, if something is.
abbrev pub Reads : {A : Type 0} → (A → Type 0) → Result A → Type 0
Reads P (err e) = Unit
Reads P (ok a) = P a

module _ (g : Engine) where
  pub message_of-id :
      (q : Str) (r : Row Time) (metadata : Option (List (Str × Str)))
      → Reads (λ m. m.id ≡ r.id) (message_of g q r metadata)
  unfolding message_of
  message_of-id q r none = tt
  message_of-id q r (some metadata) = refl

  pub scan_rows-ids :
      (q : Str) (rows : List (Row Time))
      → Reads (λ ms. message_ids ms ≡ ids rows) (scan_rows g q rows)
  unfolding scan_rows scan_message ids
  scan_rows-ids q [] = refl
  scan_rows-ids q (r ∷ rows) =
      (elim (scan_message g q r)
          as (λ x.
            Reads (λ m. m.id ≡ r.id) x
            → Reads (λ ms. message_ids ms ≡ ids (r ∷ rows))
                (elim x [
                  | err e ↦ err e
                  | ok m ↦ elim (scan_rows g q rows) [ err e ↦ err e | ok ms ↦ ok (m ∷ ms) ]
                ])) [
                  | err e ↦ λ h. tt
                  | ok m ↦ λ h.
                      (elim (scan_rows g q rows)
                          as (λ y.
                            Reads (λ ms. message_ids ms ≡ ids rows) y
                            → Reads (λ ms. message_ids ms ≡ ids (r ∷ rows))
                                (elim y [ err e ↦ err e | ok ms ↦ ok (m ∷ ms) ])) [
                                  | err e ↦ λ k. tt
                                  | ok ms ↦ λ k. rw (h, k) refl
                                ])
                        (scan_rows-ids q rows)
                ])
        (message_of-id q r (read_metadata g r.metadata))

  -- ORDER BY returns the rows that are selected, in some order.
  abbrev pub Arranges : Type 0
  Arranges =
      (p : Row Time → Row Time → Bool) (rows : List (Row Time)) → Perm (g.arrange p rows) rows

  -- The rows that a dequeue locks wait in its queue, and nobody else has locked them.
  pub choose-stands :
      (id q : Str) (clock : Time) (limit : ℕ) (locked : List Str) (db : Database)
      → Arranges
      → Mem id (ids (choose g q clock limit locked db))
      → (stands id q pending db.rows ≡ true) × (contains id locked ≡ false)
  unfolding choose row_due
  choose-stands id q clock limit locked db law m = (
    chosen-stands p (g.arrange ranks_before (where_rows p db.rows)) id q limit db.rows waiting
        (law ranks_before (where_rows p db.rows)) m,
    elim (Bool-cases (contains id locked)) [
      | inl e ↦
          let selected =
            chosen-selected p (g.arrange ranks_before (where_rows p db.rows)) id limit db.rows
              (law ranks_before (where_rows p db.rows)) m in
          let bad : true ≡ false = sym selected ∙ where_none p id db.rows (held e) in cc
      | inr e ↦ e
    ],
  )
    where
      p : Row Time → Bool
      p r = row_due q clock r && not (contains r.id locked)

      waiting : (r : Row Time) → p r ≡ true → str_eq r.id id ≡ true → row_is id q pending r ≡ true
      waiting r h e = ground (arith, h, e)

      held : contains id locked ≡ true → (r : Row Time) → str_eq r.id id ≡ true → p r ≡ false
      held e r same =
          let here : contains r.id locked ≡ true =
            ap (λ t. contains t locked) ((str_eq_iff r.id id).0 same) ∙ e in
          ground (arith, here)

  pub due_messages-After :
      (P : List Message → Type 0) (q : Str) (clock : Time) (limit : ℕ) (locked : List Str)
      (db : Database)
      → ((ms : List Message) → message_ids ms ≡ ids (choose g q clock limit locked db) → P ms)
      → After (λ ms d. (d ≡ db) × P ms) (due_messages g q clock limit locked db)
  unfolding due_messages
  due_messages-After P q clock limit locked db h =
      (elim (scan_rows g q chosen)
          as (λ x.
            Reads (λ ms. message_ids ms ≡ ids chosen) x
            → After (λ ms d. (d ≡ db) × P ms) (elim x [ err e ↦ err e | ok ms ↦ ok (ms, db) ])) [
              | err e ↦ λ k. tt
              | ok ms ↦ λ k. (refl, h ms k)
            ])
        (scan_rows-ids q chosen)
    where
      chosen : List (Row Time)
      chosen = choose g q clock limit locked db

-- After a row is marked, no row under an identifier is dead that was not.
marked_not_dead :
    (id other q : Str) (rows : List (Row Time))
    → stands id q dead rows ≡ false
    → stands id q dead (
        update_rows
          (λ r. str_eq r.id other && str_eq r.queue q)
          (λ r. record r { status = processing })
          rows)
      ≡ false
unfolding where_rows update_rows stands
marked_not_dead id other q [] h = h
marked_not_dead id other q (r ∷ rows) h = ground (arith, marked_not_dead id other q rows)

-- Marking a row that waits revives none.
marking_Quiet :
    (id q : Str) (rows : List (Row Time))
    → stands id q dead rows ≡ false
    → Quiet (λ r. str_eq r.id id && str_eq r.queue q) (λ r. record r { status = processing }) rows
unfolding stands where_rows
marking_Quiet id q [] h = tt
marking_Quiet id q (r ∷ rows) h =
    let other : (row_is id q dead r || stands id q dead rows) ≡ false =
      sym (cons_stands id q dead r rows) ∙ h in
    (
      λ p d. let bad : true ≡ false = ground (arith, other, p, d) in cc,
      marking_Quiet id q rows (ground (arith, other)),
    )

-- The loop of updates, on messages none of which is dead.
mark_each-UniqueKeys :
    (q : Str) (ms : List Message) (db : Database)
    → ((id : Str) → contains id (message_ids ms) ≡ true → stands id q dead db.rows ≡ false)
    → UniqueKeys db
    → Post (λ u. UniqueKeys) (mark_each q ms) db
unfolding mark_each contains update_where
mark_each-UniqueKeys q [] db w u = u
mark_each-UniqueKeys q (m ∷ ms) db w u =
    mark_each-UniqueKeys q ms
      (record db {
        rows =
            update_rows (λ r. str_eq r.id m.id && str_eq r.queue q)
              (λ r. record r { status = processing }) db.rows;
      })
      (λ id c. marked_not_dead id m.id q db.rows (w id (ground (arith, c))))
      (quiet_update-UniqueKeys (λ r. str_eq r.id m.id && str_eq r.queue q)
        (λ r. record r { status = processing }) db (λ r. refl) (λ r. refl) (λ r. refl)
        (marking_Quiet m.id q db.rows (w m.id (ground (arith, str_eq_refl m.id)))) u)

module _ (g : Engine) (law : Arranges g) where
  claim-UniqueKeys :
      (q : Str) (ms : List Message) (db : Database)
      → ((id : Str) → contains id (message_ids ms) ≡ true → stands id q dead db.rows ≡ false)
      → UniqueKeys db
      → Post (λ u. UniqueKeys) (claim q ms) db
  unfolding claim
  claim-UniqueKeys q [] db w u = tt
  claim-UniqueKeys q (m ∷ ms) db w u =
      Post-bind (λ u. UniqueKeys) (mark_each q (m ∷ ms)) _ db
        (mark_each-UniqueKeys q (m ∷ ms) db w u)

  pub dequeue-UniqueKeys :
      (faults : List Bool) (db : Database) (q : Str) (limit : ℕ) (locked : List Str) (clock : Time)
      → UniqueKeys db
      → UniqueKeys (dequeue g faults db q limit locked clock).0
  unfolding dequeue
  dequeue-UniqueKeys faults db q limit locked clock u =
      transact-Post UniqueKeys _ faults db
        (After-mono _ _ (λ ms d h. claimed ms d h.0 h.1) _
          (due_messages-After g
            (λ ms.
              (id : Str) → contains id (message_ids ms) ≡ true → stands id q dead db.rows ≡ false)
            q clock limit locked db (λ ms e id c. alone ms e id c)))
        u
    where
      alone :
          (ms : List Message)
          → message_ids ms ≡ ids (choose g q clock limit locked db)
          → (id : Str) → contains id (message_ids ms) ≡ true
          → stands id q dead db.rows ≡ false
      alone ms e id c =
          waiting_is_alone id q db.rows u.0
            (choose-stands g id q clock limit locked db law
              (subst (Mem id) e (contains-Mem id (message_ids ms) c))).0

      claimed :
          (ms : List Message) (d : Database)
          → d ≡ db
          → ((id : Str) → contains id (message_ids ms) ≡ true → stands id q dead db.rows ≡ false)
          → Post (λ a. UniqueKeys) (claim q ms) d
      claimed ms d e w =
          subst (λ t. Post (λ a. UniqueKeys) (claim q ms) t) (sym e) (claim-UniqueKeys q ms db w u)
