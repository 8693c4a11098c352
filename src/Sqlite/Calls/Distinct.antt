-- ===== src/Sqlite/Calls/Distinct.antt =====
-- internal/storage/sqlite.go: the primary key holds after any calls.
use shoebox.Base.{subst, ◌≡◌, Bool, List, [], ◌∷◌}
use shoebox.Base.Text.{Str}
use shoebox.Sql.{Row, update_where}
use shoebox.Sql.Keys.{
  Answers, DistinctIds, insert_row-DistinctIds, update_where-DistinctIds, delete_where-DistinctIds,
}
use shoebox.Sqlite.{Engine, Database}
use shoebox.Sqlite.Calls.{
  Call, enqueuing, batching, dequeuing, acking, acking_batch, retrying, burying, replaying,
  reclaiming, creating, updating, deleting, running, step, history,
}
use shoebox.Sqlite.Calls.Keeping.{Mild, step-Keeps, retrying-Mild, replaying-Mild}
use mathlib.Core.List.{Nodup}
use shoebox.Sql.Keys.{ids}

aside : (db db' : Database) → db.rows ≡ db'.rows → DistinctIds db → DistinctIds db'
aside db db' e n = subst (λ rows. Nodup (ids rows)) e n

update :
    (p : Row Str → Bool) (f : Row Str → Row Str)
    → ((r : Row Str) → (f r).id ≡ r.id)
    → (db : Database) → DistinctIds db
    → Answers DistinctIds (update_where p f db)
update p f same db n = update_where-DistinctIds p f same db n

module _ (g : Engine) where
  each_deletion :
      (q : Str) (l : List Str)
      → Mild g DistinctIds insert_row-DistinctIds update aside (acking_batch q l)
  each_deletion q [] = tt
  each_deletion q (id ∷ l) = (delete_where-DistinctIds _, each_deletion q l)

  each-Mild : (c : Call) → Mild g DistinctIds insert_row-DistinctIds update aside c
  each-Mild (enqueuing q msg now) = tt
  each-Mild (batching q msgs now) = tt
  each-Mild (dequeuing q limit now) = tt
  each-Mild (acking q id) = delete_where-DistinctIds _
  each-Mild (acking_batch q l) = each_deletion q l
  each-Mild (retrying q msg now) =
      retrying-Mild g DistinctIds insert_row-DistinctIds update aside q msg now
        (delete_where-DistinctIds _)
  each-Mild (burying q msg e now id) = tt
  each-Mild (replaying q id now) =
      replaying-Mild g DistinctIds insert_row-DistinctIds update aside q id now
        (delete_where-DistinctIds _)
  each-Mild (reclaiming q) = tt
  each-Mild (creating s) = tt
  each-Mild (updating s) = tt
  each-Mild (deleting id) = tt
  each-Mild (running s now next clock id) = tt

  -- If the identifiers of the messages are distinct, they are distinct after any calls, each interrupted
  -- by any faults.
  history-DistinctIds :
      (db : Database) (calls : List (Call × List Bool))
      → DistinctIds db
      → DistinctIds (history g db calls)
  unfolding history
  history-DistinctIds db [] n = n
  history-DistinctIds db ((c, faults) ∷ calls) n =
      history-DistinctIds (step g faults db c).0 calls
        (step-Keeps g DistinctIds insert_row-DistinctIds update aside faults db c (each-Mild c) n)
