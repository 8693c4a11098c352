-- ===== src/Sqlite/Texts.antt =====
-- internal/storage/sqlite.go: times that are compared as texts. time.RFC3339Nano drops the trailing zeros of
-- the fraction of a second, and the letter Z, 90, ends the text of a time in UTC.
use shoebox.Base.{ℕ, ◌≡◌, ◌<◌, refl, ◌∙◌, true, false, [], ◌∷◌, ◌++◌, arith}
use shoebox.Base.Text.{Str, str_ltb}
use shoebox.Storage.{Time}
use shoebox.Sql.{Row}
use shoebox.Sqlite.{Engine, row_due}

str_ltb-append : (p a b : Str) → str_ltb (p ++ a) (p ++ b) ≡ str_ltb a b
unfolding str_ltb
str_ltb-append [] a b = refl
str_ltb-append (c ∷ p) a b = ground (arith, str_ltb-append p a b)

before_z : (c : ℕ) (r : Str) → c < 90 → str_ltb (c ∷ r) (90 ∷ []) ≡ true
unfolding str_ltb
before_z c r h = ground arith

-- A message is not due at a time whose text goes on where that of its own time ends in Z, with a digit or
-- any other character below Z: at .51 of a second for a message of .5, or at any fraction of a second for
-- a message of the whole second.
pub row_due-late :
    (g : Engine) (queue : Str) (r : Row Str) (t now : Time) (p rest : Str) (c : ℕ)
    → r.scheduled_at ≡ g.format t
    → g.format t ≡ p ++ 90 ∷ []
    → g.format now ≡ p ++ c ∷ rest
    → c < 90
    → row_due queue (g.format now) r ≡ false
unfolding row_due
row_due-late g queue r t now p rest c s e f l =
    let earlier : str_ltb (g.format now) r.scheduled_at ≡ true =
      rw (s, e, f) (str_ltb-append p (c ∷ rest) (90 ∷ []) ∙ before_z c rest l) in
    ground (arith, earlier)
