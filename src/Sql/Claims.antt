-- ===== src/Sql/Claims.antt =====
-- internal/storage/sqlite.go and internal/storage/postgres.go: the rows that a dequeue selects and marks.
use mathlib.Core.List.{Mem, Mem-prop, mem-cons, not-mem-nil}
use mathlib.Core.List.Perm
use mathlib.Core.Logic.Or
use shoebox.Base.{
  ℕ, zero, suc, ◌≡◌, refl, ap, sym, subst, ◌∙◌, Bool, true, false, not, ◌||◌, ◌&&◌, List, [], ◌∷◌,
  map, Perm, arith, inl, inr, Bool-cases, take, if◌then◌else◌, if_elim,
}
use shoebox.Base.Text.{Str, str_eq, str_eq_iff}
use shoebox.Base.Maps.{contains}
use shoebox.Storage.{Message, Result, ok, err}
use shoebox.Sql.{Row, pending, processing, row_is, has_id, where_rows, update_rows}
use shoebox.Sql.Keys.{ids, has_id-Mem}
use shoebox.Sql.Single.{stands}

abbrev pub message_ids : List Message → List Str
message_ids = map λ m. m.id

-- Whether a call delivers the message.
abbrev pub Delivers : Str → Result (List Message) → Type 0
Delivers id (err e) = ⊥
Delivers id (ok ms) = contains id (message_ids ms) ≡ true

module _ {T : Type 0} where
  ids-map : (rows : List (Row T)) → ids rows ≡ map (λ r. r.id) rows
  unfolding ids
  ids-map [] = refl
  ids-map (r ∷ rows) = ap (λ l. r.id ∷ l) (ids-map rows)

  take-Mem :
      (n : ℕ) (id : Str) (rows : List (Row T)) → Mem id (ids (take n rows)) → Mem id (ids rows)
  unfolding ids
  take-Mem zero id rows m = absurd (not-mem-nil m)
  take-Mem (suc n) id [] m = m
  take-Mem (suc n) id (r ∷ rows) m =
      Or.elim Mem-prop (mem-cons.0 m) (λ e. mem-cons.1 (Or.inl e))
        (λ h. mem-cons.1 (Or.inr (take-Mem n id rows h)))

  -- Rows that are all of a queue and waiting.
  where-stands :
      (p : Row T → Bool) (id q : Str) (rows : List (Row T))
      → ((r : Row T) → p r ≡ true → str_eq r.id id ≡ true → row_is id q pending r ≡ true)
      → has_id id (where_rows p rows) ≡ true
      → stands id q pending rows ≡ true
  unfolding where_rows has_id stands
  where-stands p id q [] w h = h
  where-stands p id q (r ∷ rows) w h = elim (Bool-cases (row_is id q pending r)) [
    | inl e ↦ rw e refl
    | inr e ↦ rw e (
        where-stands p id q rows w (elim (Bool-cases (p r)) [
          | inl d ↦
              let step : (str_eq r.id id || has_id id (where_rows p rows)) ≡ true =
                subst
                  (λ t. has_id id (if t then r ∷ where_rows p rows else where_rows p rows) ≡ true) d
                  h in
              elim (Bool-cases (str_eq r.id id)) [
                | inl same ↦ let bad : true ≡ false = sym (w r d same) ∙ e in cc
                | inr o ↦ ground (arith, step, o)
              ]
          | inr d ↦
              subst (λ t. has_id id (if t then r ∷ where_rows p rows else where_rows p rows) ≡ true)
                d h
        ]))
  ]

  -- No row with the identifier meets the condition.
  pub where_none :
      (p : Row T → Bool) (id : Str) (rows : List (Row T))
      → ((r : Row T) → str_eq r.id id ≡ true → p r ≡ false)
      → has_id id (where_rows p rows) ≡ false
  unfolding where_rows has_id
  where_none p id [] w = refl
  where_none p id (r ∷ rows) w =
      if_elim (λ l. has_id id l ≡ false) (p r) (r ∷ where_rows p rows) (where_rows p rows)
        (λ e. elim (Bool-cases (str_eq r.id id)) [
          | inl same ↦ let bad : true ≡ false = sym e ∙ w r same in cc
          | inr d ↦ ground (arith, d, where_none p id rows w)
        ])
        (λ e. where_none p id rows w)

  -- The rows that ORDER BY and LIMIT leave were selected.
  pub chosen-selected :
      (p : Row T → Bool) (arranged : List (Row T)) (id : Str) (limit : ℕ) (rows : List (Row T))
      → Perm arranged (where_rows p rows)
      → Mem id (ids (take limit arranged))
      → has_id id (where_rows p rows) ≡ true
  chosen-selected p arranged id limit rows law m =
      let chosen : Mem id (map (λ r. r.id) arranged) =
        subst (Mem id) (ids-map arranged) (take-Mem limit id arranged m) in
      let selected : Mem id (ids (where_rows p rows)) =
        subst (Mem id) (sym (ids-map (where_rows p rows)))
          ((Perm.mem_iff (Perm.map (λ r. r.id) law)).0 chosen) in
      elim (Bool-cases (has_id id (where_rows p rows))) [
        | inl e ↦ e
        | inr e ↦ absurd (has_id-Mem id (where_rows p rows) e selected)
      ]

  -- They stand waiting.
  pub chosen-stands :
      (p : Row T → Bool) (arranged : List (Row T)) (id q : Str) (limit : ℕ) (rows : List (Row T))
      → ((r : Row T) → p r ≡ true → str_eq r.id id ≡ true → row_is id q pending r ≡ true)
      → Perm arranged (where_rows p rows)
      → Mem id (ids (take limit arranged))
      → stands id q pending rows ≡ true
  chosen-stands p arranged id q limit rows w law m =
      where-stands p id q rows w (chosen-selected p arranged id limit rows law m)

  -- Whether a row waits under the identifier, after the row of another, or of it, is marked.
  pub marked-stands :
      (id other q : Str) (rows : List (Row T))
      → stands id q pending (
          update_rows
            (λ r. str_eq r.id other && str_eq r.queue q)
            (λ r. record r { status = processing })
            rows)
        ≡ (stands id q pending rows && not (str_eq other id))
  unfolding where_rows update_rows stands
  marked-stands id other q [] = refl
  marked-stands id other q (r ∷ rows) = ground (
    arith,
    marked-stands id other q rows,
    str_eq_iff r.id other,
    str_eq_iff r.id id,
    str_eq_iff other id,
  )

module _ {T : Type 0} where
  -- The rows of the queue with one of the identifiers are processing.
  abbrev pub marked : Str → List Str → List (Row T) → List (Row T)
  marked q ids [] = []
  marked q ids (r ∷ rows) =
      (if str_eq r.queue q && contains r.id ids then record r { status = processing } else r)
      ∷ marked q ids rows

  pub marked-nil : (q : Str) (rows : List (Row T)) → marked q [] rows ≡ rows
  unfolding contains
  marked-nil q [] = refl
  marked-nil q (r ∷ rows) = ground (arith, marked-nil q rows)

  pub marked-update :
      (q id : Str) (ids : List Str) (rows : List (Row T))
      → marked q ids (
          update_rows
            (λ r. str_eq r.id id && str_eq r.queue q)
            (λ r. record r { status = processing })
            rows)
        ≡ marked q (id ∷ ids) rows
  unfolding contains update_rows
  marked-update q id ids [] = refl
  marked-update q id ids (r ∷ rows) = ground (arith, marked-update q id ids rows)
