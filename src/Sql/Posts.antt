-- ===== src/Sql/Posts.antt =====
-- internal/storage/sqlite.go: what a transaction establishes if it commits, and a message that the tables hold.
use shoebox.Base.{
  ◌≡◌, ◌≢◌, refl, sym, subst, Bool, true, not, ◌||◌, List, [], ◌∷◌, ◌++◌, arith, inl, inr,
  Bool-cases,
}
use shoebox.Base.Text.{Str, str_eq, str_eq_iff}
use shoebox.Storage.{Result, ok, err}
use shoebox.Sql.{
  Row, Db, Tx, done, fail, statement, ◌>>=◌, ◌>>◌, run, boundary, autocommit, all_or_nothing,
  transact, has_id, insert_row, where_rows, update_rows, update_where, delete_where, row_is, Status,
}
use shoebox.Sql.Keys.{Answers}
use shoebox.Sql.Atomic.{Single, autocommit_atomic, all_or_nothing_atomic, transact_atomic}

abbrev pub After : {T B : Type 0} → (B → Db T → Type 0) → Result (B × Db T) → Type 0
After Q (err e) = Unit
After Q (ok (b, db)) = Q b db

-- Where the transaction commits with a, it leaves Q a.
abbrev pub Post : {T A : Type 0} → (A → Db T → Type 0) → Tx T A → Db T → Type 0
Post Q (done a) db = Q a db
Post Q (fail e) db = Unit
Post Q (statement f k) db = After (λ b d. Post Q (k b) d) (f db)

-- What a call that has ended leaves, if it ended well.
abbrev pub Returned : {T A : Type 0} → (A → Db T → Type 0) → Db T × Result A → Type 0
Returned Q (db, err e) = Unit
Returned Q (db, ok a) = Q a db

module _ {T : Type 0} where
  pub After-mono :
      {B : Type 0} (P Q : B → Db T → Type 0)
      → ((b : B) (db : Db T) → P b db → Q b db)
      → (r : Result (B × Db T)) → After P r
      → After Q r
  After-mono P Q h (err e) j = tt
  After-mono P Q h (ok (b, db)) j = h b db j

  pub Post-mono :
      {A : Type 0} (P Q : A → Db T → Type 0)
      → ((a : A) (db : Db T) → P a db → Q a db)
      → (m : Tx T A) (db : Db T) → Post P m db
      → Post Q m db
  Post-mono P Q h (done a) db j = h a db j
  Post-mono P Q h (fail e) db j = tt
  Post-mono P Q h (statement f k) db j =
      After-mono _ _ (λ b d i. Post-mono P Q h (k b) d i) (f db) j

  pub Post-bind :
      {A B : Type 0} (Q : B → Db T → Type 0) (m : Tx T A) (k : A → Tx T B) (db : Db T)
      → Post (λ a d. Post Q (k a) d) m db
      → Post Q (m >>= k) db
  Post-bind Q (done a) k db h = h
  Post-bind Q (fail e) k db h = tt
  Post-bind Q (statement f l) k db h = After-mono _ _ (λ b d j. Post-bind Q (l b) k d j) (f db) h

  run-Post :
      {A : Type 0} (Q : A → Db T → Type 0) (m : Tx T A) (db : Db T)
      → Post Q m db
      → After Q (run m [] db)
  unfolding run
  run-Post Q (done a) db h = h
  run-Post Q (fail e) db h = tt
  run-Post Q (statement f k) db h =
      (elim (f db)
          as (λ r.
            After (λ b d. Post Q (k b) d) r
            → After Q (elim r [ err e ↦ err e | ok (b, d) ↦ run (k b) [] d ])) [
              | err e ↦ λ j. tt
              | ok (b, d) ↦ λ j. run-Post Q (k b) d j
            ])
        h

  autocommit-Post :
      {A : Type 0} (Q : A → Db T → Type 0) (m : Tx T A) (db : Db T)
      → Post Q m db
      → Returned Q (autocommit m [] db)
  unfolding autocommit
  autocommit-Post Q (done a) db h = h
  autocommit-Post Q (fail e) db h = tt
  autocommit-Post Q (statement f k) db h =
      (elim (f db)
          as (λ r.
            After (λ b d. Post Q (k b) d) r
            → Returned Q (elim r [ err e ↦ (db, err e) | ok (b, d) ↦ autocommit (k b) [] d ])) [
              | err e ↦ λ j. tt
              | ok (b, d) ↦ λ j. autocommit-Post Q (k b) d j
            ])
        h

  committed :
      {A : Type 0} (Q : A → Db T → Type 0) (m : Tx T A) (db : Db T)
      → Post Q m db
      → Returned Q (all_or_nothing m [] db)
  unfolding all_or_nothing
  committed {A} Q m db h =
      (elim (run m [] db) as (λ r. After Q r → Returned Q (settle r)) [
        | err e ↦ λ j. tt
        | ok (a, d) ↦ λ j. j
      ])
        (run-Post Q m db h)
    where
      settle : Result (A × Db T) → Db T × Result A
      settle r = elim r [ err e ↦ (db, err e) | ok (a, d) ↦ (d, ok a) ]

  pub all_or_nothing-Returned :
      {A : Type 0} (Q : A → Db T → Type 0) (m : Tx T A) (faults : List Bool) (db : Db T)
      → Post Q m db
      → Returned Q (all_or_nothing m faults db)
  all_or_nothing-Returned Q m faults db h = elim (all_or_nothing_atomic m faults db) [
    | inl e ↦ subst (Returned Q) (sym e) tt
    | inr e ↦ subst (Returned Q) (sym e) (committed Q m db h)
  ]

  pub autocommit-Returned :
      {A : Type 0} (Q : A → Db T → Type 0) (m : Tx T A) (faults : List Bool) (db : Db T)
      → Single m
      → Post Q m db
      → Returned Q (autocommit m faults db)
  autocommit-Returned Q m faults db s h = elim (autocommit_atomic m faults db s) [
    | inl e ↦ subst (Returned Q) (sym e) tt
    | inr e ↦ subst (Returned Q) (sym e) (autocommit-Post Q m db h)
  ]

  pub transact-Returned :
      {A : Type 0} (Q : A → Db T → Type 0) (m : Tx T A) (faults : List Bool) (db : Db T)
      → Post Q m db
      → Returned Q (transact m faults db)
  unfolding transact
  transact-Returned Q m faults db h = elim (transact_atomic m faults db) [
    | inl e ↦ subst (Returned Q) (sym e) tt
    | inr e ↦
        subst (Returned Q) (sym e)
          (committed Q (do boundary; a ← m; boundary; done a) db (Post-bind Q m _ db h))
  ]

  -- A transaction that does not commit changes nothing.
  pub transact-Post :
      {A : Type 0} (I : Db T → Type 0) (m : Tx T A) (faults : List Bool) (db : Db T)
      → Post (λ a. I) m db
      → I db
      → I (transact m faults db).0
  unfolding transact all_or_nothing
  transact-Post {A} I m faults db h i = elim (transact_atomic m faults db) [
    | inl e ↦ rw e i
    | inr e ↦ rw e (
        (elim (run whole [] db) as (λ r. After (λ a. I) r → I (settle r).0) [
          | err e ↦ λ j. i
          | ok (a, d) ↦ λ j. j
        ])
          (run-Post (λ a. I) whole db (Post-bind (λ a. I) m _ db h)))
  ]
    where
      whole : Tx T A
      whole = do boundary; a ← m; boundary; done a

      settle : Result (A × Db T) → Db T × Result A
      settle r = elim r [ err e ↦ (db, err e) | ok (a, d) ↦ (d, ok a) ]

module _ {T : Type 0} (id : Str) where
  -- The tables hold a message with the identifier.
  abbrev pub Holds : Db T → Type 0
  Holds db = has_id id db.rows ≡ true

  has_id-append :
      (rows : List (Row T)) (r : Row T)
      → has_id id (rows ++ r ∷ []) ≡ (has_id id rows || str_eq r.id id)
  unfolding has_id
  has_id-append [] r = ground arith
  has_id-append (x ∷ rows) r = ground (arith, has_id-append rows r)

  pub insert_row-Holds : (r : Row T) (db : Db T) → Holds db → Answers Holds (insert_row r db)
  unfolding insert_row
  insert_row-Holds r db h = elim (Bool-cases (has_id r.id db.rows)) [
    | inl e ↦ rw e tt
    | inr e ↦ rw (e, has_id-append db.rows r, h) refl
  ]

  pub insert_row-establishes : (r : Row T) (db : Db T) → r.id ≡ id → Answers Holds (insert_row r db)
  unfolding insert_row
  insert_row-establishes r db same = elim (Bool-cases (has_id r.id db.rows)) [
    | inl e ↦ rw e tt
    | inr e ↦ rw (e, has_id-append db.rows r) (ground (arith, str_eq_iff r.id id))
  ]

  pub update-Holds :
      (p : Row T → Bool) (f : Row T → Row T)
      → ((r : Row T) → (f r).id ≡ r.id)
      → (rows : List (Row T)) → has_id id (update_rows p f rows) ≡ has_id id rows
  unfolding update_rows has_id
  update-Holds p f same [] = refl
  update-Holds p f same (r ∷ rows) = elim (Bool-cases (p r)) [
    | inl e ↦ rw (e, same r, update-Holds p f same rows) refl
    | inr e ↦ rw (e, update-Holds p f same rows) refl
  ]

  pub update_where-Holds :
      (p : Row T → Bool) (f : Row T → Row T)
      → ((r : Row T) → (f r).id ≡ r.id)
      → (db : Db T) → Holds db
      → Answers Holds (update_where p f db)
  unfolding update_where
  update_where-Holds p f same db h = rw (update-Holds p f same db.rows) h

  -- Deleting the row of another message.
  delete-Holds :
      (other q : Str) (s : Status) (rows : List (Row T))
      → other ≢ id
      → has_id id rows ≡ true
      → has_id id (where_rows (λ r. not (row_is other q s r)) rows) ≡ true
  unfolding where_rows has_id
  delete-Holds other q s [] d h = h
  delete-Holds other q s (r ∷ rows) d h =
      ground (arith, delete-Holds other q s rows d, str_eq_iff r.id id, str_eq_iff r.id other)

  pub delete_where-Holds :
      (other q : Str) (s : Status)
      → other ≢ id
      → (db : Db T) → Holds db
      → Answers Holds (delete_where (row_is other q s) db)
  unfolding delete_where
  delete_where-Holds other q s d db h = delete-Holds other q s db.rows d h
