-- ===== src/Postgres/Consumers/Alone.antt =====
-- internal/storage/postgres.go: a Dequeue that nothing overlaps.
use shoebox.Base.{ℕ, ◌≡◌, refl, sym, ap, subst, ◌∙◌, List, [], ◌∷◌, ◌&&◌}
use shoebox.Base.Text.{Str, str_eq}
use shoebox.Storage.{Time, Message, Result, ok, err}
use shoebox.Sql.{
  Tx, run, boundary, done, ◌>>=◌, ◌>>◌, update_rows, update_where, processing, transact,
  all_or_nothing,
}
use shoebox.Sql.Posts.{After}
use shoebox.Postgres.{Engine, Database, due_messages, mark_each, claim, dequeue}
use shoebox.Postgres.Claiming.{due_messages-After}
use shoebox.Postgres.Consumers.{
  Consumers, begin_claim, commit_claim, held, nth_claim, opened, marked, committed, move, moves,
}

-- The rows after the loop of updates.
unfoldable mark_rows : Str → List Message → Database → Database
mark_rows q [] db = db
mark_rows q (m ∷ ms) db = mark_rows q ms (record db {
  rows =
      update_rows (λ r. str_eq r.id m.id && str_eq r.queue q)
        (λ r. record r { status = processing }) db.rows;
})

run-mark_each :
    {A B : Type 0} (q : Str) (ms : List Message) (f : Unit {0} → Tx Time A) (k : A → Tx Time B)
    (db : Database)
    → run (do a ← (do u ← mark_each q ms; f u); k a) [] db
      ≡ run (do a ← f tt; k a) [] (mark_rows q ms db)
unfolding run mark_each mark_rows update_where
run-mark_each q [] f k db = refl
run-mark_each q (m ∷ ms) f k db = run-mark_each q ms f k _

marked_alone :
    (q : Str) (ms : List Message) (db : Database)
    → run (do u ← mark_each q ms; boundary) [] db ≡ ok (tt, mark_rows q ms db)
unfolding run mark_each mark_rows update_where
marked_alone q [] db = refl
marked_alone q (m ∷ ms) db = marked_alone q ms _

abbrev pub alone : Database → Consumers
alone db = record { tables = db; claims = []; delivered = [] }

settle_run : {A : Type 0} → Database → Result (A × Database) → Database × Result A
settle_run db r = elim r [ err e ↦ (db, err e) | ok (a, d) ↦ (d, ok a) ]

module _ (g : Engine) where
  claimed_alone :
      (q : Str) (ms : List Message) (db : Database)
      → (settle_run db (run (do a ← claim q ms; boundary; done a) [] db)).0
        ≡ (move g (opened (alone db) q ms) (commit_claim 0 [])).tables
  unfolding claim opened move run settle_run nth_claim marked all_or_nothing committed
  claimed_alone q [] db = refl
  claimed_alone q (m ∷ ms) db =
      ap (λ r. (settle_run db r).0)
        (run-mark_each q (m ∷ ms) (λ u. done (m ∷ ms)) (λ a. do boundary; done a) db)
      ∙ sym (
          ap
            (λ r.
              (committed (alone db) (record { queue = q; messages = m ∷ ms })
                (settle_run db r)).tables)
            (marked_alone q (m ∷ ms) db))

  -- The tables after a Dequeue that nothing interrupts, while nobody holds rows locked, are those after
  -- the two steps, the query and the commit, of a single consumer.
  pub dequeue_alone :
      (db : Database) (q : Str) (limit : ℕ) (clock : Time)
      → (dequeue g [] db q limit [] clock).0
        ≡ (moves g (alone db) (begin_claim q limit clock ∷ commit_claim 0 [] ∷ [])).tables
  unfolding dequeue moves move transact all_or_nothing run held settle_run nth_claim
  dequeue_alone db q limit clock =
      (elim (due_messages g q clock limit [] db)
          as (λ r.
            After (λ ms d. (d ≡ db) × Unit {0}) r
            → (settle_run db (elim r [
              | err e ↦ err e
              | ok (ms, d) ↦ run (do a ← claim q ms; boundary; done a) [] d
            ])).0
              ≡ (move g (elim r [ err e ↦ alone db | ok (ms, d) ↦ opened (alone db) q ms ])
                  (commit_claim 0 [])).tables) [
                    | err e ↦ λ k. refl
                    | ok (ms, d) ↦ λ k.
                        subst
                          (λ t.
                            (settle_run db (run (do a ← claim q ms; boundary; done a) [] t)).0
                            ≡ (move g (opened (alone db) q ms) (commit_claim 0 [])).tables)
                          (sym k.0) (claimed_alone q ms db)
                  ])
        (due_messages-After g (λ ms. Unit) q clock limit [] db (λ ms e. tt))
