-- ===== src/Sql/Atomic.antt =====
-- internal/storage/sqlite.go: what an interrupted transaction leaves behind.
use shoebox.Base.{◌≡◌, refl, Bool, true, false, List, [], ◌∷◌, ◌⊎◌, inl, inr, ap}
use shoebox.Storage.{Result, ok, err}
use shoebox.Sql.{
  Tx, done, fail, statement, Db, run, interrupted, autocommit, all_or_nothing, transact, boundary,
  ◌>>=◌, ◌>>◌,
}

run_faulty :
    {T A : Type 0} (m : Tx T A) (faults : List Bool) (db : Db T)
    → (run m faults db ≡ err interrupted) ⊎ (run m faults db ≡ run m [] db)
unfolding run
run_faulty (done a) faults db = inr refl
run_faulty (fail e) faults db = inr refl
run_faulty (statement f k) [] db = inr refl
run_faulty (statement f k) (true ∷ faults) db = inl refl
run_faulty {A = A} (statement f k) (false ∷ faults) db =
    elim (f db)
      as (λ r.
        let go : List Bool → Result (A × Db _) =
          λ l. elim r [ err e ↦ err e | ok (b, db') ↦ run (k b) l db' ] in
        (go faults ≡ err interrupted) ⊎ (go faults ≡ go [])) [
          | err e ↦ inr refl
          | ok (b, db') ↦ run_faulty (k b) faults db'
        ]

pub all_or_nothing_atomic :
    {T A : Type 0} (m : Tx T A) (faults : List Bool) (db : Db T)
    → (all_or_nothing m faults db ≡ (db, err interrupted))
      ⊎ (all_or_nothing m faults db ≡ all_or_nothing m [] db)
unfolding all_or_nothing
all_or_nothing_atomic {T = T} {A = A} m faults db = elim (run_faulty m faults db) [
  | inl e ↦ inl (ap settle e)
  | inr e ↦ inr (ap settle e)
]
  where
    settle : Result (A × Db T) → Db T × Result A
    settle r = elim r [ err e ↦ (db, err e) | ok (a, db') ↦ (db', ok a) ]

-- At most one statement.
abbrev pub Final : {T A : Type 0} → Tx T A → Type 0
Final (done a) = Unit {0}
Final (fail e) = Unit {0}
Final (statement f k) = ⊥

abbrev pub Single : {T A : Type 0} → Tx T A → Type 0
Single (done a) = Unit {0}
Single (fail e) = Unit {0}
Single (statement f k) = (b : _) → Final (k b)

autocommit-Final :
    {T A : Type 0} (m : Tx T A) (faults : List Bool) (db : Db T)
    → Final m
    → autocommit m faults db ≡ autocommit m [] db
unfolding autocommit
autocommit-Final (done a) faults db h = refl
autocommit-Final (fail e) faults db h = refl
autocommit-Final (statement f k) faults db h = absurd h

-- A statement that stands alone needs no transaction.
pub autocommit_atomic :
    {T A : Type 0} (m : Tx T A) (faults : List Bool) (db : Db T)
    → Single m
    → (autocommit m faults db ≡ (db, err interrupted))
      ⊎ (autocommit m faults db ≡ autocommit m [] db)
unfolding autocommit
autocommit_atomic (done a) faults db h = inr refl
autocommit_atomic (fail e) faults db h = inr refl
autocommit_atomic (statement f k) [] db h = inr refl
autocommit_atomic (statement f k) (true ∷ faults) db h = inl refl
autocommit_atomic {T = T} {A = A} (statement f k) (false ∷ faults) db h =
    inr
      (elim (f db)
        as (λ r.
          let go : List Bool → Db T × Result A =
            λ l. elim r [ err e ↦ (db, err e) | ok (b, d) ↦ autocommit (k b) l d ] in
          go faults ≡ go []) [ err e ↦ refl | ok (b, d) ↦ autocommit-Final (k b) faults d (h b) ])

-- A transaction that any of its statements, its begin or its commit may interrupt either changes nothing and
-- reports the interruption, or does what it does undisturbed.
pub transact_atomic :
    {T A : Type 0} (m : Tx T A) (faults : List Bool) (db : Db T)
    → (transact m faults db ≡ (db, err interrupted)) ⊎ (transact m faults db ≡ transact m [] db)
unfolding transact
transact_atomic m faults db = all_or_nothing_atomic (do boundary; a ← m; boundary; done a) faults db
