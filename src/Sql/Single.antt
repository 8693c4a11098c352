-- ===== src/Sql/Single.antt =====
-- internal/storage/sqlite.go: the row that an identifier selects, where identifiers are distinct.
use mathlib.Core.List.{Mem, Nodup, Nodup-cons, mem-cons}
use mathlib.Core.Logic.Or
use shoebox.Base.{
  ◌≡◌, refl, sym, subst, ◌∙◌, Bool, true, false, not, ◌||◌, List, [], ◌∷◌, ◌++◌, arith, inl, inr,
  Bool-cases, is_nil, if◌then◌else◌, length, ◌==◌,
}
use shoebox.Base.Text.{Str, str_eq, str_eq_iff}
use shoebox.Sql.{
  Row, has_id, where_rows, update_rows, row_is, Status, status_eq, pending, processing, dead,
}
use shoebox.Sql.Keys.{ids}

module _ {T : Type 0} (id q : Str) (s : Status) where
  -- Whether a row has the identifier, the queue and the status.
  unfoldable pub stands : List (Row T) → Bool
  stands rows = not (is_nil (where_rows (row_is id q s) rows))

  absent_none :
      (rows : List (Row T)) → has_id id rows ≡ false → where_rows (row_is id q s) rows ≡ []
  unfolding where_rows has_id
  absent_none [] h = refl
  absent_none (r ∷ rows) h = ground (arith, absent_none rows)

  absent_all :
      (rows : List (Row T))
      → has_id id rows ≡ false
      → where_rows (λ r. not (row_is id q s r)) rows ≡ rows
  unfolding where_rows has_id
  absent_all [] h = refl
  absent_all (r ∷ rows) h = ground (arith, absent_all rows)

  not-Mem-has_id : (rows : List (Row T)) → ¬ Mem id (ids rows) → has_id id rows ≡ false
  unfolding has_id ids
  not-Mem-has_id [] h = refl
  not-Mem-has_id (r ∷ rows) h = elim (Bool-cases (str_eq r.id id)) [
    | inl e ↦ absurd (h (mem-cons.1 (Or.inl (sym ((str_eq_iff r.id id).0 e)))))
    | inr e ↦ rw (e, not-Mem-has_id rows (λ m. h (mem-cons.1 (Or.inr m)))) refl
  ]

  tail_absent :
      (r : Row T) (rows : List (Row T))
      → Nodup (ids (r ∷ rows))
      → str_eq r.id id ≡ true
      → has_id id rows ≡ false
  unfolding ids
  tail_absent r rows n e =
      not-Mem-has_id rows
        (subst (λ t. ¬ Mem t (ids rows)) ((str_eq_iff r.id id).0 e) (Nodup-cons.0 n).0)

  rest_absent :
      (r : Row T) (rows : List (Row T))
      → Nodup (ids (r ∷ rows))
      → row_is id q s r ≡ true
      → has_id id rows ≡ false
  rest_absent r rows n e = tail_absent r rows n (ground (arith, e))

  -- It selects one row or none, and when that row is taken away the identifier is free.
  pub one-stands :
      (rows : List (Row T))
      → Nodup (ids rows)
      → (length (where_rows (row_is id q s) rows) == 1) ≡ stands rows
  unfolding where_rows stands ids
  one-stands [] n = refl
  one-stands (r ∷ rows) n = elim (Bool-cases (row_is id q s r)) [
    | inl e ↦ rw (e, absent_none rows (rest_absent r rows n e)) refl
    | inr e ↦ rw e (one-stands rows (Nodup-cons.0 n).1)
  ]

  pub freed :
      (rows : List (Row T))
      → Nodup (ids rows)
      → stands rows ≡ true
      → has_id id (where_rows (λ r. not (row_is id q s r)) rows) ≡ false
  unfolding where_rows stands has_id ids
  freed [] n h = cc
  freed (r ∷ rows) n h = elim (Bool-cases (row_is id q s r)) [
    | inl e ↦ rw (e, absent_all rows (rest_absent r rows n e)) (rest_absent r rows n e)
    | inr e ↦
        let later : stands rows ≡ true =
          subst
            (λ t.
              not (
                is_nil (
                  if t
                  then r ∷ where_rows (row_is id q s) rows
                  else where_rows (row_is id q s) rows))
              ≡ true)
            e h in
        let apart : str_eq r.id id ≡ false = elim (Bool-cases (str_eq r.id id)) [
          | inl same ↦
              let none_left = tail_absent r rows n same in
              let bad : false ≡ true =
                subst (λ l. not (is_nil l) ≡ true) (absent_none rows none_left) later in
              cc
          | inr d ↦ d
        ] in
        rw (e, apart) (freed rows (Nodup-cons.0 n).1 later)
  ]

  -- A row with another status is not selected.
  pub where-other :
      (rows : List (Row T)) (d : Row T)
      → row_is id q s d ≡ false
      → where_rows (row_is id q s) (rows ++ d ∷ []) ≡ where_rows (row_is id q s) rows
  unfolding where_rows
  where-other [] d h = ground arith
  where-other (r ∷ rows) d h = rw (where-other rows d h) refl

  pub update-other :
      (f : Row T → Row T) (rows : List (Row T)) (d : Row T)
      → row_is id q s d ≡ false
      → update_rows (row_is id q s) f (rows ++ d ∷ [])
        ≡ update_rows (row_is id q s) f rows ++ d ∷ []
  unfolding update_rows
  update-other f [] d h = ground arith
  update-other f (r ∷ rows) d h = rw (update-other f rows d h) (ground arith)

waiting_not_dead : (s : Status) → status_eq s pending ≡ true → status_eq s dead ≡ false
waiting_not_dead pending h = refl
waiting_not_dead processing h = cc
waiting_not_dead dead h = cc

pub nothing_stands : (T : Type 0) (id q : Str) (s : Status) → stands {T = T} id q s [] ≡ false
unfolding stands where_rows
nothing_stands T id q s = refl

module _ {T : Type 0} (id q : Str) where
  pub cons_stands :
      (s : Status) (r : Row T) (rows : List (Row T))
      → stands id q s (r ∷ rows) ≡ (row_is id q s r || stands id q s rows)
  unfolding stands where_rows
  cons_stands s r rows = elim (Bool-cases (row_is id q s r)) [
    | inl e ↦ rw e refl
    | inr e ↦ rw e refl
  ]

  tail_stands :
      (s : Status) (r : Row T) (rows : List (Row T))
      → row_is id q s r ≡ false
      → stands id q s (r ∷ rows) ≡ stands id q s rows
  tail_stands s r rows e = cons_stands s r rows ∙ rw e refl

  head_stands :
      (s : Status) (r : Row T) (rows : List (Row T))
      → Nodup (ids (r ∷ rows))
      → str_eq r.id id ≡ true
      → stands id q s (r ∷ rows) ≡ row_is id q s r
  unfolding stands where_rows
  head_stands s r rows n same = elim (Bool-cases (row_is id q s r)) [
    | inl e ↦ rw e refl
    | inr e ↦ rw (e, absent_none id q s rows (tail_absent id q s r rows n same)) refl
  ]

  rest_Nodup : (r : Row T) (rows : List (Row T)) → Nodup (ids (r ∷ rows)) → Nodup (ids rows)
  unfolding ids
  rest_Nodup r rows n = (Nodup-cons.0 n).1

  -- Where a row waits, none under its identifier is dead.
  pub waiting_is_alone :
      (rows : List (Row T))
      → Nodup (ids rows)
      → stands id q pending rows ≡ true
      → stands id q dead rows ≡ false
  waiting_is_alone [] n h = nothing_stands T id q dead
  waiting_is_alone (r ∷ rows) n h = elim (Bool-cases (str_eq r.id id)) [
    | inl e ↦
        let waits : row_is id q pending r ≡ true = sym (head_stands pending r rows n e) ∙ h in
        head_stands dead r rows n e ∙ ground (arith, waiting_not_dead r.status, waits)
    | inr e ↦
        tail_stands dead r rows (ground (arith, e))
        ∙ waiting_is_alone rows (rest_Nodup r rows n)
            (sym (tail_stands pending r rows (ground (arith, e))) ∙ h)
  ]
