-- ===== src/Migrations/Running.antt =====
-- internal/storage/sqlite.go: the migration runner. S is the state of the tables; `execute` runs a
-- script, which may fail; a fault interrupts the transaction of a migration, or the recording of the
-- baseline. The pool has a single connection (`SetMaxOpenConns(1)`): once a query keeps it, whatever
-- statement comes next waits for ever.
use shoebox.Base.{
  ℕ, Bool, true, false, not, List, [], ◌∷◌, Option, none, some, ltb, leb, ◌==◌, if◌then◌else◌,
}
use shoebox.Base.Text.{Str, bytes}
use shoebox.Storage.{Error, backend}
use shoebox.Sql.{interrupted}
use shoebox.Migrations.{Migration, last_version}

pub record Schema (S : Type 0) : Type 0 where
  pub tables : S
  pub version : ℕ

pub record Scripts (S : Type 0) : Type 0 where
  pub execute : Str → S → Option S
  pub has_messages : S → Bool
  pub has_priority : S → Bool

abbrev pub script_failed : Error
script_failed = backend (bytes "migration")

abbrev pub out_of_range : Error
out_of_range = backend (bytes "index out of range")

-- What a call does in the end: it returns, with or without an error, or waits for ever.
pub data Ending : Type 0 where
  returns : Option Error → Ending
  waits : Ending

abbrev pub waiting : Ending → Bool
waiting (returns e) = false
waiting waits = true

abbrev pub ending : {S : Type 0} → S × Option Error → S × Ending
ending (d, e) = (d, returns e)

abbrev pub rest_of : List Bool → List Bool
rest_of [] = []
rest_of (b ∷ faults) = faults

abbrev pub faulty : List Bool → Bool
faulty [] = false
faulty (b ∷ faults) = b

module _ {S : Type 0} (c : Scripts S) where
  -- `detectSQLiteBaseline`, with whether it keeps the connection: it leaves the loop over the columns when it
  -- finds the priority, without closing the rows; a loop that reaches its end closes them.
  unfoldable pub detect : S → ℕ → ℕ × Bool
  detect s latest =
      if not (c.has_messages s)
      then (0, false)
      else (if c.has_priority s then (latest, true) else (1, false))

  -- The loop over the migrations; `version` is not advanced by it.
  unfoldable pub apply_each : ℕ → List Migration → List Bool → Schema S → Schema S × Option Error
  apply_each version [] faults d = (d, none)
  apply_each version (m ∷ ups) faults d = elim (leb m.version version) [
    | true ↦ apply_each version ups faults d
    | false ↦ elim (faulty faults) [
      | true ↦ (d, some interrupted)
      | false ↦ elim (c.execute m.sql d.tables) [
        | none ↦ (d, some script_failed)
        | some s ↦
            apply_each version ups (rest_of faults) (record { tables = s; version = m.version })
      ]
    ]
  ]

  -- A baseline is recorded, if there is one, and then counts as the version. Where the connection is kept,
  -- the next statement waits: this one, or a later one of this function or of NewSQLite.
  unfoldable pub from_baseline :
      ℕ × Bool → List Migration → List Bool → Schema S → Schema S × Ending
  unfolding apply_each
  from_baseline (baseline, true) ups faults d = (d, waits)
  from_baseline (baseline, false) ups faults d = elim (ltb 0 baseline) [
    | false ↦ ending (apply_each 0 ups faults d)
    | true ↦ elim (faulty faults) [
      | true ↦ (d, returns (some interrupted))
      | false ↦ ending (
          apply_each baseline ups (rest_of faults)
            (record { tables = d.tables; version = baseline }))
    ]
  ]

  -- `initSQLiteSchema`; without migrations, `ups[len(ups)-1]` panics.
  unfoldable pub init_schema : List Migration → List Bool → Schema S → Schema S × Ending
  unfolding detect from_baseline apply_each
  init_schema ups faults d = elim (last_version ups) [
    | none ↦ (d, returns (some out_of_range))
    | some latest ↦ elim (d.version == 0) [
      | true ↦ from_baseline (detect d.tables latest) ups faults d
      | false ↦ ending (apply_each d.version ups faults d)
    ]
  ]
