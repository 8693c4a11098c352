-- ===== src/Sql/Keys.antt =====
-- internal/storage/sqlite.go: what every statement of a transaction keeps, the transaction keeps; and
-- the primary key of the messages.
use mathlib.Core.List.{Mem, Mem-prop, Nodup, Nodup-cons, mem-cons, not-mem-nil, perm_middle}
use mathlib.Core.List.Perm
use mathlib.Core.Logic.Or
use shoebox.Base.{
  ◌≡◌, refl, Bool, true, false, not, List, [], ◌∷◌, ◌++◌, arith, inl, inr, Bool-cases, append-nil,
  sym, subst, ap, if_elim, if◌then◌else◌,
}
use shoebox.Base.Text.{Str, str_eq_refl}
use shoebox.Storage.{Result, ok, err}
use shoebox.Sql.{
  Row, Db, Tx, done, fail, statement, ◌>>=◌, ◌>>◌, run, boundary, autocommit, all_or_nothing,
  transact, has_id, insert_row, where_rows, update_rows, update_where, delete_where,
}

module _ {T : Type 0} (I : Db T → Type 0) where
  -- A statement that succeeds keeps I.
  abbrev pub Answers : {B : Type 0} → Result (B × Db T) → Type 0
  Answers (err e) = Unit
  Answers (ok (b, db)) = I db

  abbrev pub Keeps : {A : Type 0} → Tx T A → Type 0
  Keeps (done a) = Unit
  Keeps (fail e) = Unit
  Keeps (statement f k) = ((db : Db T) → I db → Answers (f db)) × ((b : _) → Keeps (k b))

  pub Keeps-bind :
      {A B : Type 0} (m : Tx T A) (k : A → Tx T B)
      → Keeps m
      → ((a : A) → Keeps (k a))
      → Keeps (m >>= k)
  Keeps-bind (done a) k h j = j a
  Keeps-bind (fail e) k h j = tt
  Keeps-bind (statement f l) k h j = (h.0, λ b. Keeps-bind (l b) k (h.1 b) j)

  run-Keeps :
      {A : Type 0} (m : Tx T A) (faults : List Bool) (db : Db T)
      → Keeps m
      → I db
      → Answers (run m faults db)
  unfolding run
  run-Keeps (done a) faults db h i = i
  run-Keeps (fail e) faults db h i = tt
  run-Keeps (statement f k) [] db h i =
      (elim (f db)
          as (λ r. Answers r → Answers (elim r [ err e ↦ err e | ok (b, d) ↦ run (k b) [] d ])) [
            | err e ↦ λ j. tt
            | ok (b, d) ↦ λ j. run-Keeps (k b) [] d (h.1 b) j
          ])
        (h.0 db i)
  run-Keeps (statement f k) (true ∷ faults) db h i = tt
  run-Keeps (statement f k) (false ∷ faults) db h i =
      (elim (f db)
          as (λ r.
            Answers r → Answers (elim r [ err e ↦ err e | ok (b, d) ↦ run (k b) faults d ])) [
              | err e ↦ λ j. tt
              | ok (b, d) ↦ λ j. run-Keeps (k b) faults d (h.1 b) j
            ])
        (h.0 db i)

  abbrev onwards :
      {A B : Type 0} → Db T → (B → Db T → Db T × Result A) → Result (B × Db T) → Db T × Result A
  onwards db go r = elim r [ err e ↦ (db, err e) | ok (b, d) ↦ go b d ]

  pub autocommit-Keeps :
      {A : Type 0} (m : Tx T A) (faults : List Bool) (db : Db T)
      → Keeps m
      → I db
      → I (autocommit m faults db).0
  unfolding autocommit
  autocommit-Keeps (done a) faults db h i = i
  autocommit-Keeps (fail e) faults db h i = i
  autocommit-Keeps (statement f k) [] db h i =
      (elim (f db) as (λ r. Answers r → I (onwards db (λ b d. autocommit (k b) [] d) r).0) [
        | err e ↦ λ j. i
        | ok (b, d) ↦ λ j. autocommit-Keeps (k b) [] d (h.1 b) j
      ])
        (h.0 db i)
  autocommit-Keeps (statement f k) (true ∷ faults) db h i = i
  autocommit-Keeps (statement f k) (false ∷ faults) db h i =
      (elim (f db) as (λ r. Answers r → I (onwards db (λ b d. autocommit (k b) faults d) r).0) [
        | err e ↦ λ j. i
        | ok (b, d) ↦ λ j. autocommit-Keeps (k b) faults d (h.1 b) j
      ])
        (h.0 db i)

  pub all_or_nothing-Keeps :
      {A : Type 0} (m : Tx T A) (faults : List Bool) (db : Db T)
      → Keeps m
      → I db
      → I (all_or_nothing m faults db).0
  unfolding all_or_nothing
  all_or_nothing-Keeps {A} m faults db h i =
      (elim (run m faults db) as (λ r. Answers r → I (settle r).0) [
        | err e ↦ λ j. i
        | ok (a, d) ↦ λ j. j
      ])
        (run-Keeps m faults db h i)
    where
      settle : Result (A × Db T) → Db T × Result A
      settle r = elim r [ err e ↦ (db, err e) | ok (a, d) ↦ (d, ok a) ]

  pub transact-Keeps :
      {A : Type 0} (m : Tx T A) (faults : List Bool) (db : Db T)
      → Keeps m
      → I db
      → I (transact m faults db).0
  unfolding transact
  transact-Keeps m faults db h i =
      all_or_nothing-Keeps (do boundary; a ← m; boundary; done a) faults db
        ((λ d j. j), λ u. Keeps-bind m _ h (λ a. ((λ d j. j), λ v. tt))) i

-- The primary keys of the messages.
unfoldable pub ids : {T : Type 0} → List (Row T) → List Str
ids [] = []
ids (r ∷ rows) = r.id ∷ ids rows

module _ {T : Type 0} where
  ids-append : (rows : List (Row T)) (r : Row T) → ids (rows ++ r ∷ []) ≡ ids rows ++ r.id ∷ []
  unfolding ids
  ids-append [] r = refl
  ids-append (x ∷ rows) r = ap (λ l. x.id ∷ l) (ids-append rows r)

  -- No two messages have the same identifier.
  abbrev pub DistinctIds : Db T → Type 0
  DistinctIds db = Nodup (ids db.rows)

  pub has_id-Mem : (id : Str) (rows : List (Row T)) → has_id id rows ≡ false → ¬ Mem id (ids rows)
  unfolding has_id ids
  has_id-Mem id [] h = not-mem-nil
  has_id-Mem id (r ∷ rows) h = λ m.
      Or.elim (λ x y. absurd x) (mem-cons.0 m)
        (λ e. let bad : true ≡ false = rw (sym e, str_eq_refl id) at h in cc)
        (has_id-Mem id rows (ground (arith)))

  pub insert_row-DistinctIds :
      (r : Row T) (db : Db T) → DistinctIds db → Answers DistinctIds (insert_row r db)
  unfolding insert_row
  insert_row-DistinctIds r db n = elim (Bool-cases (has_id r.id db.rows)) [
    | inl e ↦ rw e tt
    | inr e ↦
        rw (e, ids-append db.rows r)
          (Perm.nodup (Perm.symm (perm_middle (ids db.rows) []))
            (rw append-nil (Nodup-cons.1 (has_id-Mem r.id db.rows e, n))))
  ]

  where-Mem :
      (p : Row T → Bool) (rows : List (Row T)) (id : Str)
      → Mem id (ids (where_rows p rows))
      → Mem id (ids rows)
  unfolding where_rows ids
  where-Mem p [] id m = m
  where-Mem p (r ∷ rows) id m = elim (Bool-cases (p r)) [
    | inl e ↦
        Or.elim Mem-prop
          (mem-cons.0 (
            subst (λ t. Mem id (ids (if t then r ∷ where_rows p rows else where_rows p rows))) e m))
          (λ same. mem-cons.1 (Or.inl same)) (λ h. mem-cons.1 (Or.inr (where-Mem p rows id h)))
    | inr e ↦ mem-cons.1 (
        Or.inr (
          where-Mem p rows id (
            subst (λ t. Mem id (ids (if t then r ∷ where_rows p rows else where_rows p rows))) e
              m)))
  ]

  where-Nodup :
      (p : Row T → Bool) (rows : List (Row T)) → Nodup (ids rows) → Nodup (ids (where_rows p rows))
  unfolding where_rows ids
  where-Nodup p [] n = n
  where-Nodup p (r ∷ rows) n =
      if_elim (λ l. Nodup (ids l)) (p r) (r ∷ where_rows p rows) (where_rows p rows)
        (λ e. Nodup-cons.1 (
          (λ m. (Nodup-cons.0 n).0 (where-Mem p rows r.id m)),
          where-Nodup p rows (Nodup-cons.0 n).1,
        ))
        (λ e. where-Nodup p rows (Nodup-cons.0 n).1)

  pub delete_where-DistinctIds :
      (p : Row T → Bool) (db : Db T) → DistinctIds db → Answers DistinctIds (delete_where p db)
  unfolding delete_where
  delete_where-DistinctIds p db n = where-Nodup (λ r. not (p r)) db.rows n

  update-ids :
      (p : Row T → Bool) (f : Row T → Row T)
      → ((r : Row T) → (f r).id ≡ r.id)
      → (rows : List (Row T)) → ids (update_rows p f rows) ≡ ids rows
  unfolding update_rows ids
  update-ids p f same [] = refl
  update-ids p f same (r ∷ rows) = elim (Bool-cases (p r)) [
    | inl e ↦ rw (e, same r, update-ids p f same rows) refl
    | inr e ↦ rw (e, update-ids p f same rows) refl
  ]

  pub update_where-DistinctIds :
      (p : Row T → Bool) (f : Row T → Row T)
      → ((r : Row T) → (f r).id ≡ r.id)
      → (db : Db T) → DistinctIds db
      → Answers DistinctIds (update_where p f db)
  unfolding update_where
  update_where-DistinctIds p f same db n = subst Nodup (sym (update-ids p f same db.rows)) n
