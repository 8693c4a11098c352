-- ===== src/Postgres/Quoting.antt =====
-- internal/storage/postgres.go: the name of the schema in the statements that cannot have it as a parameter.
use shoebox.Base.{
  ◌≡◌, refl, ap, sym, ◌∙◌, Bool, true, false, ◌||◌, [], ◌∷◌, ◌++◌, Option, none, some, ◌==◌,
  if◌then◌else◌, is_nil, arith, append_assoc, ℕ, if_elim, subst,
}
use shoebox.Base.Text.{Str, bytes}
use shoebox.Storage.{Error, backend, Result, ok, err}

abbrev pub quote_mark : ℕ
quote_mark = 34

unfoldable pub has_nul : Str → Bool
has_nul [] = false
has_nul (b ∷ s) = (b == 0) || has_nul s

-- `strings.ReplaceAll(identifier, "\"", "\"\"")`.
unfoldable pub double_quotes : Str → Str
double_quotes [] = []
double_quotes (b ∷ s) =
    let rest = double_quotes s in
    if b == quote_mark then quote_mark ∷ quote_mark ∷ rest else b ∷ rest

abbrev pub bad_identifier : Error
bad_identifier = backend (bytes "must be a non-empty identifier without NUL bytes")

-- `quotePostgresIdentifier`.
unfoldable pub quote_identifier : Str → Result Str
unfolding has_nul double_quotes
quote_identifier identifier =
    if is_nil identifier || has_nul identifier
    then err bad_identifier
    else ok ((quote_mark ∷ []) ++ double_quotes identifier ++ (quote_mark ∷ []))

abbrev more : ℕ → Option (Str × Str) → Option (Str × Str)
more b none = none
more b (some (s, rest)) = some (b ∷ s, rest)

-- PostgreSQL's reading of a quoted identifier, independently of the code: after the opening quote, two
-- quotes are one, and one ends the identifier. With the text that follows it. The Boolean tells whether
-- a quote has been read whose meaning is still open.
unfoldable read_body : Bool → Str → Option (Str × Str)
read_body false [] = none
read_body true [] = some ([], [])
read_body false (b ∷ s) = elim (b == quote_mark) [
  | true ↦ read_body true s
  | false ↦ more b (read_body false s)
]
read_body true (b ∷ s) = elim (b == quote_mark) [
  | true ↦ more quote_mark (read_body false s)
  | false ↦ some ([], b ∷ s)
]

unfoldable pub read_quoted : Str → Option (Str × Str)
unfolding read_body
read_quoted [] = none
read_quoted (b ∷ s) = if b == quote_mark then read_body false s else none

abbrev pub starts_with_quote : Str → Bool
starts_with_quote [] = false
starts_with_quote (b ∷ s) = b == quote_mark

read_body_closing :
    (rest : Str) → starts_with_quote rest ≡ false → read_body true rest ≡ some ([], rest)
unfolding read_body
read_body_closing [] h = refl
read_body_closing (b ∷ rest) h = subst (λ t. closing t ≡ some ([], b ∷ rest)) (sym h) refl
  where
    closing : Bool → Option (Str × Str)
    closing t = elim t [
      | true ↦ more quote_mark (read_body false rest)
      | false ↦ some ([], b ∷ rest)
    ]

read_body_plain :
    (b : ℕ) (s : Str)
    → (b == quote_mark) ≡ false
    → read_body false (b ∷ s) ≡ more b (read_body false s)
unfolding read_body
read_body_plain b s h = subst (λ t. going t ≡ more b (read_body false s)) (sym h) refl
  where
    going : Bool → Option (Str × Str)
    going t = elim t [ true ↦ read_body true s | false ↦ more b (read_body false s) ]

read_body_opened : (s : Str) → read_body false (quote_mark ∷ s) ≡ read_body true s
unfolding read_body
read_body_opened s = refl

read_body_doubled :
    (s : Str) → read_body false (quote_mark ∷ quote_mark ∷ s) ≡ more quote_mark (read_body false s)
unfolding read_body
read_body_doubled s = refl

read_body-double_quotes :
    (s rest : Str)
    → starts_with_quote rest ≡ false
    → read_body false (double_quotes s ++ quote_mark ∷ rest) ≡ some (s, rest)
unfolding double_quotes
read_body-double_quotes [] rest h = read_body_opened rest ∙ read_body_closing rest h
read_body-double_quotes (b ∷ s) rest h =
    let kept = read_body-double_quotes s rest h in
    if_elim (λ text. read_body false (text ++ quote_mark ∷ rest) ≡ some (b ∷ s, rest))
      (b == quote_mark) (quote_mark ∷ quote_mark ∷ double_quotes s) (b ∷ double_quotes s)
      (λ e.
        let same : b ≡ quote_mark = ground arith in
        read_body_doubled _ ∙ ap (more quote_mark) kept ∙ ap (λ c. some (c ∷ s, rest)) (sym same))
      (λ e. read_body_plain b _ e ∙ ap (more b) kept)

-- An identifier that is quoted and put before a text that does not start with a quote is read back as
-- it is, and the text is what follows it: no byte of an identifier ends it early.
pub read_quoted-quote_identifier :
    (identifier quoted rest : Str)
    → quote_identifier identifier ≡ ok quoted
    → starts_with_quote rest ≡ false
    → read_quoted (quoted ++ rest) ≡ some (identifier, rest)
unfolding quote_identifier read_quoted
read_quoted-quote_identifier identifier quoted rest q h =
    (if_elim (λ r. r ≡ ok quoted → read_quoted (quoted ++ rest) ≡ some (identifier, rest))
        (is_nil identifier || has_nul identifier) (err bad_identifier)
        (ok ((quote_mark ∷ []) ++ double_quotes identifier ++ (quote_mark ∷ []))) (λ e r. cc)
        (λ e r.
          subst (λ t. read_quoted (t ++ rest) ≡ some (identifier, rest)) (of_ok r)
            (subst (λ t. read_body false t ≡ some (identifier, rest))
              (sym (append_assoc (double_quotes identifier) (quote_mark ∷ []) rest))
              (read_body-double_quotes identifier rest h))))
      q
  where
    of_ok : {a b : Str} → ok a ≡ ok b → a ≡ b
    of_ok e = cc
