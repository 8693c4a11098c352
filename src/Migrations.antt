-- ===== src/Migrations.antt =====
-- migrations/migrations.go: the embedded migration files and their order. `files` is the embedded
-- directory, with the contents of each file.
pub mod Running
pub mod Resuming
pub mod Reopening
use shoebox.Base.{
  ℕ, suc, ◌+◌, ◌-◌, ◌*◌, Bool, true, false, not, ◌&&◌, ◌||◌, List, [], ◌∷◌, ◌++◌, Option, none,
  some, ltb, leb, ◌==◌, if◌then◌else◌, is_nil,
}
use shoebox.Base.Text.{Str, str_eq, str_ltb, bytes}

pub record Migration : Type 0 where
  pub version : ℕ
  pub dialect : Str
  pub up : Bool
  pub name : Str
  pub sql : Str

-- `\d`, and `[a-z0-9_]`.
unfoldable pub is_digit : ℕ → Bool
is_digit c = leb 48 c && leb c 57

unfoldable pub is_word : ℕ → Bool
unfolding is_digit
is_word c = is_digit c || leb 97 c && leb c 122 || c == 95

-- `[a-z0-9_]+\.`: the text after the first other character, which must be a dot; `seen` tells that
-- there was a character.
unfoldable pub after_words : Bool → Str → Option Str
unfolding is_word
after_words seen [] = none
after_words seen (c ∷ s) =
    let rest = after_words true s in
    if is_word c then rest else (if seen && (c == 46) then some s else none)

-- `(postgres|sqlite)\.(up|down)\.sql$`.
unfoldable pub ending : Str → Option (Str × Bool)
ending s =
    if str_eq s (bytes "postgres.up.sql")
    then some (bytes "postgres", true)
    else (if str_eq s (bytes "postgres.down.sql")
        then some (bytes "postgres", false)
        else (if str_eq s (bytes "sqlite.up.sql")
            then some (bytes "sqlite", true)
            else (if str_eq s (bytes "sqlite.down.sql")
                then some (bytes "sqlite", false)
                else none)))

-- `nameRe` and `strconv.Atoi` on its first group.
unfoldable pub match_name : Str → Option (ℕ × Str × Bool)
unfolding is_digit after_words ending
match_name (a ∷ b ∷ c ∷ d ∷ e ∷ s) =
    if is_digit a && is_digit b && is_digit c && is_digit d && (e == 95)
    then elim (after_words false s) [
      | none ↦ none
      | some t ↦ elim (ending t) [
        | none ↦ none
        | some (dialect, up) ↦
            some (1000 * (a - 48) + 100 * (b - 48) + 10 * (c - 48) + (d - 48), dialect, up)
      ]
    ]
    else none
match_name _ = none

unfoldable pub parse : Str → Str → Option Migration
unfolding match_name
parse name sql = elim (match_name name) [
  | none ↦ none
  | some (version, dialect, up) ↦
      some (record { version = version; dialect = dialect; up = up; name = name; sql = sql })
]

unfoldable pub precedes : Migration → Migration → Bool
precedes a b =
    if not (a.version == b.version)
    then ltb a.version b.version
    else (if a.up && not b.up || b.up && not a.up then a.up else str_ltb a.name b.name)

unfoldable pub insert_migration : Migration → List Migration → List Migration
insert_migration m [] = m ∷ []
insert_migration m (x ∷ xs) =
    let rest = insert_migration m xs in if precedes x m then x ∷ rest else m ∷ x ∷ xs

-- The files of a dialect; a file whose name does not parse is passed over.
unfoldable pub all : Str → List (Str × Str) → List Migration
unfolding parse insert_migration
all dialect [] = []
all dialect ((name, sql) ∷ files) =
    let rest = all dialect files in
    elim (parse name sql) [
      | none ↦ rest
      | some m ↦ if str_eq m.dialect dialect then insert_migration m rest else rest
    ]

unfoldable pub ups_of : List Migration → List Migration
ups_of [] = []
ups_of (m ∷ ms) = let rest = ups_of ms in if m.up then m ∷ rest else rest

unfoldable pub up : Str → List (Str × Str) → List Migration
unfolding ups_of
up dialect files = ups_of (all dialect files)

-- The version of the last one.
unfoldable pub last_version : List Migration → Option ℕ
last_version [] = none
last_version (m ∷ []) = some m.version
last_version (m ∷ n ∷ ms) = last_version (n ∷ ms)

unfoldable pub latest : Str → List (Str × Str) → Option ℕ
unfolding last_version
latest dialect files = last_version (up dialect files)
