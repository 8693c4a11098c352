-- ===== src/Postgres/InFlight.antt =====
-- internal/storage/postgres.go: the key of a message in flight is its own.
use shoebox.Base.{
  ◌≡◌, refl, sym, ap, ◌∙◌, true, false, not, List, [], ◌∷◌, arith, inl, inr, Bool-cases, is_nil,
}
use shoebox.Base.Text.{Str, str_eq, str_eq_iff}
use shoebox.Storage.{Time}
use shoebox.Sql.{Row, processing, row_is, where_rows}
use shoebox.Sql.Single.{stands, cons_stands, nothing_stands}
use shoebox.Postgres.{indexed, clashes, has_clash}
use shoebox.Postgres.Calls.Keeping.{in_flight_not_dead}
use shoebox.Postgres.Unique.{Unclashed, where-clash}

-- Every row that is processing in the queue under the identifier has the key.
abbrev pub InFlightKeyed : Str → Str → Str → List (Row Time) → Type 0
InFlightKeyed id queue key [] = Unit
InFlightKeyed id queue key (r ∷ rows) =
    (row_is id queue processing r ≡ true → r.dedupe_key ≡ key) × InFlightKeyed id queue key rows

same_clash :
    (r r' : Row Time) (rows : List (Row Time))
    → r.queue ≡ r'.queue
    → r.dedupe_key ≡ r'.dedupe_key
    → has_clash r rows ≡ has_clash r' rows
unfolding has_clash clashes
same_clash r r' [] q k = refl
same_clash r r' (s ∷ rows) q k = ground (
  arith,
  same_clash r r' rows q k,
  ap (λ t. str_eq s.queue t) q,
  ap (λ t. str_eq s.dedupe_key t) k,
)

clash_indexed : (r s : Row Time) → clashes r s ≡ true → indexed s ≡ true
unfolding clashes
clash_indexed r s c = ground (arith, c)

-- The row that is to be added to a queue, with the key of the row that is processing there.
module _ (id : Str) (r : Row Time) (keyed : indexed r ≡ true) where
  processing_indexed :
      (s : Row Time)
      → row_is id r.queue processing s ≡ true
      → s.dedupe_key ≡ r.dedupe_key
      → indexed s ≡ true
  unfolding indexed
  processing_indexed s h k =
      ground (arith, keyed, ap is_nil k, in_flight_not_dead s.status (ground (arith, h)))

  -- It clashes with the row that is processing, and so with no other.
  in_flight_clash :
      (x : Row Time) (rows : List (Row Time))
      → InFlightKeyed id r.queue r.dedupe_key rows
      → stands id r.queue processing rows ≡ true
      → clashes r x ≡ true
      → has_clash x rows ≡ true
  unfolding has_clash clashes
  in_flight_clash x [] f h c =
      let bad : true ≡ false = sym h ∙ nothing_stands Time id r.queue processing in cc
  in_flight_clash x (s ∷ rows) f h c = elim (Bool-cases (row_is id r.queue processing s)) [
    | inl e ↦
        let key : str_eq s.dedupe_key x.dedupe_key ≡ true =
          (str_eq_iff s.dedupe_key x.dedupe_key).1
            (f.0 e ∙ sym ((str_eq_iff x.dedupe_key r.dedupe_key).0 (ground (arith, c)))) in
        let place : str_eq s.queue x.queue ≡ true = (str_eq_iff s.queue x.queue).1 (
          (str_eq_iff s.queue r.queue).0 (ground (arith, e))
          ∙ sym ((str_eq_iff x.queue r.queue).0 (ground (arith, c)))) in
        ground (arith, key, place, processing_indexed s e (f.0 e))
    | inr e ↦
        let later : stands id r.queue processing rows ≡ true =
          ground (arith, sym (cons_stands id r.queue processing s rows) ∙ h, e) in
        ground (arith, in_flight_clash x rows f.1 later c)
  ]

  pub others-Unclashed :
      (rows : List (Row Time))
      → Unclashed rows
      → InFlightKeyed id r.queue r.dedupe_key rows
      → stands id r.queue processing rows ≡ true
      → has_clash r (where_rows (λ s. not (row_is id r.queue processing s)) rows) ≡ false
  unfolding has_clash where_rows Unclashed
  others-Unclashed [] u f h = refl
  others-Unclashed (s ∷ rows) u f h = elim (Bool-cases (row_is id r.queue processing s)) [
    | inl e ↦
        let same : r.queue ≡ s.queue = sym ((str_eq_iff s.queue r.queue).0 (ground (arith, e))) in
        rw e (
          where-clash (λ s. not (row_is id r.queue processing s)) r rows
            (same_clash r s rows same (sym (f.0 e)) ∙ u.0 (processing_indexed s e (f.0 e))))
    | inr e ↦
        let later : stands id r.queue processing rows ≡ true =
          ground (arith, sym (cons_stands id r.queue processing s rows) ∙ h, e) in
        let apart : clashes r s ≡ false = elim (Bool-cases (clashes r s)) [
          | inl c ↦
              let bad : true ≡ false =
                sym (in_flight_clash s rows f.1 later c) ∙ u.0 (clash_indexed r s c) in
              cc
          | inr d ↦ d
        ] in
        rw (e, apart) (others-Unclashed rows u.1 f.1 later)
  ]
