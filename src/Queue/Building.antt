-- ===== src/Queue/Building.antt =====
-- shoebox.go: `New` and `buildStorage` for every kind of storage. What NewSQLite and NewPostgres report is
-- a record `Backends`; the Queue module has the queue that `New` makes over the memory backend.
use shoebox.Base.{
  ◌≡◌, refl, Bool, true, false, not, ◌&&◌, Option, none, some, if◌then◌else◌, is_nil, ℕ,
}
use shoebox.Base.Text.{Str, str_eq, bytes}
use shoebox.Queue.{known_policy}

pub data StorageOptions : Type 0 where
  use_memory : StorageOptions
  use_sqlite : Str → StorageOptions
  use_postgres : Str → Str → StorageOptions
  use_other : ℕ → StorageOptions

pub data BuildError : Type 0 where
  policy_unsupported durable_elsewhere : BuildError
  path_missing dsn_missing kind_unknown : BuildError
  backend_failed : Str → BuildError

pub record Backends : Type 0 where
  pub new_sqlite : Str → Option Str
  pub new_postgres : Str → Str → Option Str

abbrev pub of_backend : Option Str → Option BuildError
of_backend none = none
of_backend (some e) = some (backend_failed e)

-- `buildStorage`, with its error.
unfoldable pub build_storage : Backends → StorageOptions → Option BuildError
build_storage b use_memory = none
build_storage b (use_sqlite path) =
    if is_nil path then some path_missing else of_backend (b.new_sqlite path)
build_storage b (use_postgres dsn schema) =
    if is_nil dsn then some dsn_missing else of_backend (b.new_postgres dsn schema)
build_storage b (use_other n) = some kind_unknown

abbrev pub on_postgres : StorageOptions → Bool
on_postgres (use_postgres dsn schema) = true
on_postgres _ = false

-- The checks of `New` and the storage, with its error.
unfoldable pub open_queue : Backends → Str → StorageOptions → Option BuildError
unfolding known_policy build_storage
open_queue b policy o =
    if not (known_policy policy)
    then some policy_unsupported
    else if str_eq policy (bytes "durable") && not (on_postgres o)
    then some durable_elsewhere
    else build_storage b o

-- Durable deduplication only runs on PostgreSQL.
durable_is_on_postgres :
    (b : Backends) (o : StorageOptions)
    → open_queue b (bytes "durable") o ≡ none
    → on_postgres o ≡ true
unfolding open_queue known_policy str_eq
durable_is_on_postgres b use_memory h = cc
durable_is_on_postgres b (use_sqlite path) h = cc
durable_is_on_postgres b (use_postgres dsn schema) h = refl
durable_is_on_postgres b (use_other n) h = cc
