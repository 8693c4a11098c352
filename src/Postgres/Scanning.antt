-- ===== src/Postgres/Scanning.antt =====
-- internal/storage/postgres.go: `pgxType`, the wrapper of a column that may be NULL. A column of type
-- TIMESTAMPTZ has NULL or an instant; 0 is the zero time of Go.
use shoebox.Base.{Bool, true, false, Option, none, some, ◌==◌, if◌then◌else◌}
use shoebox.Storage.{Time}

-- What the database hands to Scan.
pub data Source : Type 0 where
  null other : Source
  timestamp : Time → Source

pub record PgxType : Type 0 where
  pub val : Source
  pub set : Bool
  pub time : Time

-- `var deadAt pgxType`.
abbrev pub new_pgx : PgxType
new_pgx = record { val = null; set = false; time = 0 }

-- The column of a row, where 0 stands for NULL.
unfoldable pub column : Time → Source
column t = if t == 0 then null else timestamp t

-- `(*pgxType).Scan`; none is its error.
unfoldable pub scan : PgxType → Source → Option PgxType
scan p null = some (record p { set = false })
scan p (timestamp t) = some (record p { time = t; set = true })
scan p other = none

-- What scanning into `&p.val`, of type `*any`, does: the field takes the value, whatever it is.
unfoldable pub scan_val : PgxType → Source → PgxType
scan_val p src = record p { val = src }

-- `(*pgxType).Time`.
unfoldable pub time_of : PgxType → Time
time_of p = if p.set then p.time else 0
