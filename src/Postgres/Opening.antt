-- ===== src/Postgres/Opening.antt =====
-- internal/storage/postgres.go: NewPostgres and the migration runner. S is the state of the tables; what
-- the runner asks of the live schema, and the running of a script, which may fail, are a `Catalog`. One
-- transaction holds the whole run; a fault interrupts one of its statements, or the commit.
pub mod Leaving
pub mod Twice
pub mod Reclaimed
use shoebox.Base.{
  ℕ, ◌≡◌, Bool, true, false, not, ◌&&◌, List, [], ◌∷◌, ◌++◌, Option, none, some, ltb, leb, ◌==◌,
  if◌then◌else◌, is_nil, ◌||◌,
}
use shoebox.Base.Text.{Str, bytes}
use shoebox.Storage.{Error, Result, ok, err}
use shoebox.Migrations.{Migration, last_version}
use shoebox.Migrations.Running.{out_of_range, script_failed, faulty, rest_of}
use shoebox.Sql.{
  interrupted, key_taken, exec, autocommit, update_where, status_eq, pending, processing,
}
use shoebox.Postgres.{Database}
use shoebox.Postgres.Quoting.{quote_identifier}

-- `versions` has the rows of shoebox_schema_migrations.
pub record Schema (S : Type 0) : Type 0 where
  pub tables : S
  pub versions : List ℕ

pub record Catalog (S : Type 0) : Type 0 where
  pub execute : Str → S → Option S
  pub has_messages : S → Bool
  pub has_priority : S → Bool
  pub has_schedules : S → Bool
  pub has_dedupe : S → Bool
  pub has_dedupe_index : S → Bool

-- An error ends the run.
infixl 5 ◌>>=◌
abbrev pub ◌>>=◌ : {A B : Type 0} → Result A → (A → Result B) → Result B
ok a >>= k = k a
err e >>= k = err e

-- A statement is sent, or interrupted.
abbrev pub sent : List Bool → Result (List Bool)
sent [] = ok []
sent (true ∷ faults) = err interrupted
sent (false ∷ faults) = ok faults

unfoldable pub max_version : List ℕ → ℕ
max_version [] = 0
max_version (v ∷ vs) = let rest = max_version vs in if ltb rest v then v else rest

unfoldable pub has_version : ℕ → List ℕ → Bool
has_version v [] = false
has_version v (w ∷ vs) = (v == w) || has_version v vs

-- `INSERT INTO shoebox_schema_migrations`: the version is the primary key.
unfoldable pub record_version : ℕ → List ℕ → Result (List ℕ)
unfolding has_version
record_version v vs = if has_version v vs then err key_taken else ok (vs ++ v ∷ [])

abbrev pub ran : {S : Type 0} → Option S → Result S
ran none = err script_failed
ran (some s) = ok s

module _ {S : Type 0} (c : Catalog S) where
  -- The highest complete legacy migration that the live schema shows.
  unfoldable pub baseline : S → ℕ → ℕ
  baseline s latest =
      let full = c.has_priority s && c.has_schedules s && c.has_dedupe s && c.has_dedupe_index s in
      let found =
        if full
        then 4
        else (if c.has_priority s && c.has_schedules s
            then 3
            else (if c.has_priority s then 2 else 1)) in
      if ltb latest found then latest else found

  -- `appliedPostgresVersion`, after it has counted the rows of the version table.
  unfoldable pub version_from : ℕ → List Bool → S → List ℕ → Result (ℕ × List Bool × Schema S)
  unfolding baseline max_version record_version
  version_from latest faults s (v ∷ vs) = do
    faults ← sent faults
    ok (max_version (v ∷ vs), faults, record { tables = s; versions = v ∷ vs })
  version_from latest faults s [] = do
    faults ← sent faults
    if not (c.has_messages s) then ok (0, faults, record { tables = s; versions = [] }) else (do
      faults ← sent faults
      faults ← sent faults
      versions ← record_version (baseline s latest) []
      ok (baseline s latest, faults, record { tables = s; versions = versions }))

  unfoldable pub applied_version : ℕ → List Bool → Schema S → Result (ℕ × List Bool × Schema S)
  unfolding version_from
  applied_version latest faults d = do
    faults ← sent faults
    version_from latest faults d.tables d.versions

  -- The loop over the migrations.
  unfoldable pub apply_each :
      ℕ → List Migration → List Bool → Schema S → Result (List Bool × Schema S)
  unfolding record_version
  apply_each applied [] faults d = ok (faults, d)
  apply_each applied (m ∷ ups) faults d = elim (leb m.version applied) [
    | true ↦ apply_each applied ups faults d
    | false ↦ do
      faults ← sent faults
      tables ← ran (c.execute m.sql d.tables)
      faults ← sent faults
      versions ← record_version m.version d.versions
      apply_each applied ups faults (record { tables = tables; versions = versions })
  ]

  -- The transaction: the advisory lock, the version table, the version, the migrations, the commit.
  unfoldable pub migrate : ℕ → List Migration → List Bool → Schema S → Result (Schema S)
  unfolding applied_version apply_each
  migrate latest ups faults d = do
    faults ← sent faults
    faults ← sent faults
    (applied, faults, d) ← applied_version latest faults d
    (faults, d) ← apply_each applied ups faults d
    faults ← sent faults
    ok d

  -- `initPostgresSchema`: on an error the transaction is rolled back. Without migrations,
  -- `ups[len(ups)-1]` panics.
  unfoldable pub init_schema : List Migration → List Bool → Schema S → Schema S × Option Error
  unfolding migrate
  init_schema ups faults d = elim (last_version ups) [
    | none ↦ (d, some out_of_range)
    | some latest ↦ elim (migrate latest ups faults d) [ err e ↦ (d, some e) | ok d' ↦ (d', none) ]
  ]

-- The optional schema, "public" if there is none.
unfoldable pub schema_name : List Str → Str
schema_name [] = bytes "public"
schema_name (s ∷ schemas) = if is_nil s then bytes "public" else s

-- `UPDATE shoebox_messages SET status = 'pending' WHERE status = 'processing'`.
unfoldable pub reclaim_all : List Bool → Database → Database × Result ℕ
reclaim_all faults db =
    autocommit
      (exec
        (update_where (λ r. status_eq r.status processing) (λ r. record r { status = pending })))
      faults db

-- The end of `NewPostgres`.
unfoldable pub reclaim_opened :
    List Bool → Schema Database × Option Error → Schema Database × Option Error
unfolding reclaim_all
reclaim_opened faults (d, some e) = (d, some e)
reclaim_opened faults (d, none) =
    let x = reclaim_all faults d.tables in
    elim x.1 [
      | err e ↦ (record d { tables = x.0 }, some e)
      | ok n ↦ (record d { tables = x.0 }, none)
    ]

-- `connect` is the error of what the database does before: the data source name, the creation of the
-- schema by its quoted name, and the pool.
unfoldable pub new_postgres :
    Catalog Database
    → List Migration
    → (Str → Option Error)
    → List Bool
    → List Bool
    → List Str
    → Schema Database
    → Schema Database × Option Error
unfolding schema_name quote_identifier init_schema reclaim_opened
new_postgres c ups connect faults last_faults schemas d =
    elim (quote_identifier (schema_name schemas)) [
      | err e ↦ (d, some e)
      | ok quoted ↦ elim (connect quoted) [
        | some e ↦ (d, some e)
        | none ↦ reclaim_opened last_faults (init_schema c ups faults d)
      ]
    ]
