-- ===== src/Tests/Consuming.antt =====
-- Applications of the theorems on the PostgreSQL backend.
use mathlib.Core.List.{Nodup-cons, Nodup-nil}
use shoebox.Base.{
  ◌≡◌, ◌≤◌, refl, Bool, true, false, List, [], ◌∷◌, ◌++◌, none, some, if◌then◌else◌, All, ◌&&◌,
  arith,
}
use shoebox.Base.Text.{Str, bytes, str_eq}
use shoebox.Base.Int.{pos}
use shoebox.Base.Maps.{contains}
use shoebox.Storage.{Time, Message, ok, err, empty, dlq_name, replay_message}
use shoebox.Sql.{
  Row, has_id, pending, processing, dead, where_rows, row_is, autocommit, update_where,
}
use shoebox.Sql.Keys.{ids, DistinctIds}
use shoebox.Sql.Single.{stands}
use shoebox.Migrations.{Migration, last_version}
use shoebox.Postgres.{
  Engine, Database, indexed, clashes, has_clash, skipped, scan_rows, scan_message, message_of,
  read_metadata, dequeue,
}
use shoebox.Postgres.Settle.{list, retry, replay, first_message}
use shoebox.Postgres.Quoting.{
  quote_identifier, has_nul, double_quotes, read_quoted, read_quoted-quote_identifier,
}
use shoebox.Postgres.Unique.{UniqueKeys, Unclashed}
use shoebox.Postgres.Calls.{Call, enqueuing, dequeuing, retrying, replaying, history}
use shoebox.Postgres.Calls.Keys.{history-UniqueKeys}
use shoebox.Postgres.Calls.Custody.{spared_stays}
use shoebox.Postgres.Consumers.{begin_claim, commit_claim, moves, count_claims}
use shoebox.Postgres.Consumers.Exclusive.{moves_deliver_once}
use shoebox.Postgres.Delivering.{offered, selected, dequeue_claims}
use shoebox.Postgres.Opening.{
  Schema, Catalog, init_schema, new_postgres, migrate, applied_version, version_from, apply_each,
  baseline, record_version, has_version, max_version, reclaim_opened, reclaim_all, schema_name,
}
use shoebox.Postgres.Opening.Twice.{init_schema_twice}
use shoebox.Postgres.Opening.Reclaimed.{new_postgres_settles}
use shoebox.Postgres.Outcomes.{counted, others, letters_left, retry_outcome, replay_outcome}
use shoebox.Postgres.Running.{stored_row}
use shoebox.Postgres.InFlight.{InFlightKeyed}
use shoebox.Postgres.Scanning.{PgxType, new_pgx, column, scan, scan_val, time_of}
use shoebox.Postgres.Reading.{listed_dead_at_lost}
use shoebox.Tests.Storing.{not-Mem}
use shoebox.Tests.Databases.{in_order, in_order-perm}
use shoebox.Tests.{mails, low}

-- A server that stores whole seconds, and messages without metadata.
abbrev plain_server : Engine
plain_server = record {
  round = λ t. t;
  marshal = λ m. bytes "{}";
  unmarshal = λ s. none;
  jsonb = λ s. some s;
  arrange = in_order;
}

abbrev waiting : Row Time
waiting = record {
  id = bytes "a";
  queue = mails;
  payload = bytes "hello";
  attempts = 0;
  max_retries = pos 0;
  created_at = 5;
  scheduled_at = 5;
  priority = pos 0;
  dedupe_key = [];
  metadata = bytes "{}";
  error = [];
  dead_at = 0;
  status = pending;
}

-- A message waits, one with a key is in flight, and a dead letter has the same key.
abbrev in_flight : Row Time
in_flight = record waiting { id = bytes "b"; dedupe_key = bytes "k"; status = processing }

abbrev letter_row : Row Time
letter_row = record waiting {
  id = bytes "d";
  queue = bytes "mails.dlq";
  dedupe_key = bytes "k";
  dead_at = 7;
  status = dead;
}

abbrev tables : Database
tables = record {
  rows = waiting ∷ in_flight ∷ letter_row ∷ [];
  counters = λ q. record { processed = 0; errors = 0; retries = 0; dead = 0 };
  schedules = [];
}

abbrev borrowed : Message
borrowed = record low { id = bytes "b"; dedupe_key = bytes "k" }

moves_deliver_once_example :
    count_claims
      (bytes "a")
      mails
      (moves plain_server
        (record { tables = tables; claims = []; delivered = [] })
        (begin_claim mails 1 9
          ∷ begin_claim mails 1 9
          ∷ commit_claim 1 []
          ∷ commit_claim 0 (false ∷ [])
          ∷ [])).delivered
    ≤ 1
moves_deliver_once_example =
    moves_deliver_once plain_server (bytes "a") mails in_order-perm tables
      (begin_claim mails 1 9
        ∷ begin_claim mails 1 9
        ∷ commit_claim 1 []
        ∷ commit_claim 0 (false ∷ [])
        ∷ [])
      (tt, (tt, (tt, (tt, tt))))

dequeue_claims_example :
    dequeue plain_server [] tables mails 3 (bytes "b" ∷ []) 9
    ≡ offered tables mails
        (scan_rows plain_server mails (selected plain_server tables mails 3 (bytes "b" ∷ []) 9))
dequeue_claims_example = dequeue_claims plain_server tables mails 3 (bytes "b" ∷ []) 9

tables_distinct : DistinctIds tables
unfolding ids contains str_eq
tables_distinct =
    Nodup-cons.1 (
      not-Mem _ _ refl,
      Nodup-cons.1 (not-Mem _ _ refl, Nodup-cons.1 (not-Mem _ _ refl, Nodup-nil)),
    )

tables-Unclashed : Unclashed tables.rows
unfolding Unclashed has_clash clashes indexed str_eq
tables-Unclashed = ((λ i. refl), ((λ i. refl), ((λ i. refl), tt)))

abbrev day : List (Call × List Bool)
day =
    (dequeuing mails 1 [] 9, [])
    ∷ (enqueuing mails (record borrowed { id = bytes "e" }) 9, [])
    ∷ (retrying mails borrowed 9, false ∷ false ∷ true ∷ [])
    ∷ (replaying mails (bytes "d") 9, [])
    ∷ []

history-UniqueKeys_example : UniqueKeys (history plain_server tables day)
history-UniqueKeys_example =
    history-UniqueKeys plain_server in_order-perm tables day (tables_distinct, tables-Unclashed)

b_there : has_id (bytes "b") tables.rows ≡ true
unfolding has_id str_eq
b_there = refl

spared_stays_example : has_id (bytes "b") (history plain_server tables day).rows ≡ true
spared_stays_example =
    spared_stays plain_server (bytes "b") tables day (tt, (tt, (tt, (tt, tt)))) b_there

b_keyed : InFlightKeyed (bytes "b") mails (bytes "k") tables.rows
unfolding str_eq
b_keyed = ((λ e. cc), ((λ e. refl), ((λ e. cc), tt)))

retry_outcome_example : retry plain_server [] tables mails borrowed 9 ≡ (
    if stands (bytes "b") mails processing tables.rows
    then (
      record tables {
        rows =
            others tables mails (bytes "b")
            ++ stored_row plain_server mails borrowed 9 (bytes "{}") ∷ [];
        counters =
            counted tables mails (record { processed = 0; errors = 1; retries = 1; dead = 0 });
      },
      ok tt,
    )
    else (tables, err empty))
retry_outcome_example =
    retry_outcome plain_server tables mails borrowed 9 (bytes "{}")
      (tables_distinct, tables-Unclashed) b_keyed refl

abbrev letter : Message
letter = record low {
  id = bytes "d";
  queue = bytes "mails.dlq";
  payload = bytes "hello";
  created_at = 5;
  scheduled_at = 5;
  dedupe_key = bytes "k";
}

letter_found :
    first_message plain_server
      (dlq_name mails)
      (where_rows (row_is (bytes "d") (dlq_name mails) dead) tables.rows)
    ≡ ok letter
unfolding first_message where_rows scan_message message_of read_metadata dlq_name str_eq
letter_found = refl

replay_outcome_example : replay plain_server [] tables mails (bytes "d") 9 ≡ (
    let r = stored_row plain_server mails (replay_message mails letter 9) 9 (bytes "{}") in
    let left = letters_left plain_server tables (dlq_name mails) (bytes "d") in
    if indexed r && has_clash r left then (tables, err skipped) else (
      record tables {
        rows = left ++ r ∷ [];
        counters =
            counted tables
              (dlq_name mails)
              (record { processed = 1; errors = 0; retries = 0; dead = 0 });
      },
      ok tt,
    ))
replay_outcome_example =
    replay_outcome plain_server tables mails (bytes "d") 9 letter (bytes "{}") tables_distinct
      letter_found refl refl

listed : list plain_server tables (bytes "mails.dlq") 5 ≡ ok (letter ∷ [])
unfolding list scan_rows where_rows scan_message message_of read_metadata str_eq scan_val time_of
listed = refl

listed_dead_at_lost_example :
    All (λ m. m.dead_at ≡ 0) (letter ∷ [])
    × ((p : PgxType) × (scan new_pgx (column 30) ≡ some p) × (time_of p ≡ 30))
listed_dead_at_lost_example =
    listed_dead_at_lost plain_server tables (bytes "mails.dlq") 5 (letter ∷ []) 30 listed

-- The name `a"b`.
abbrev odd_name : Str
odd_name = 97 ∷ 34 ∷ 98 ∷ []

odd_name_quoted : quote_identifier odd_name ≡ ok (34 ∷ 97 ∷ 34 ∷ 34 ∷ 98 ∷ 34 ∷ [])
unfolding quote_identifier has_nul double_quotes
odd_name_quoted = refl

read_quoted-quote_identifier_example :
    read_quoted ((34 ∷ 97 ∷ 34 ∷ 34 ∷ 98 ∷ 34 ∷ []) ++ bytes ";") ≡ some (odd_name, bytes ";")
read_quoted-quote_identifier_example =
    read_quoted-quote_identifier odd_name (34 ∷ 97 ∷ 34 ∷ 34 ∷ 98 ∷ 34 ∷ []) (bytes ";")
      odd_name_quoted refl

-- Two scripts that leave the tables as they are.
abbrev idle_catalog : Catalog Database
idle_catalog = record {
  execute = λ sql db. some db;
  has_messages = λ db. true;
  has_priority = λ db. false;
  has_schedules = λ db. false;
  has_dedupe = λ db. false;
  has_dedupe_index = λ db. false;
}

abbrev scripts : List Migration
scripts =
    record { version = 1; dialect = bytes "postgres"; up = true; name = bytes "one"; sql = [] }
    ∷ record { version = 2; dialect = bytes "postgres"; up = true; name = bytes "two"; sql = [] }
    ∷ []

migrated :
    init_schema idle_catalog scripts [] (record { tables = tables; versions = [] })
    ≡ (record { tables = tables; versions = 1 ∷ 2 ∷ [] }, none)
unfolding init_schema last_version migrate applied_version version_from apply_each baseline
    record_version has_version max_version
migrated = refl

init_schema_twice_example :
    init_schema idle_catalog scripts [] (record { tables = tables; versions = 1 ∷ 2 ∷ [] })
    ≡ (record { tables = tables; versions = 1 ∷ 2 ∷ [] }, none)
init_schema_twice_example =
    init_schema_twice idle_catalog scripts [] (record { tables = tables; versions = [] })
      (record { tables = tables; versions = 1 ∷ 2 ∷ [] }) (omega arith, (omega arith, tt)) migrated

abbrev reopened : Schema Database
reopened = record { tables = (reclaim_all [] tables).0; versions = 1 ∷ 2 ∷ [] }

opening :
    new_postgres idle_catalog scripts
      (λ q. none)
      []
      []
      []
      (record { tables = tables; versions = [] })
    ≡ (reopened, none)
unfolding new_postgres schema_name quote_identifier has_nul double_quotes init_schema last_version
    migrate applied_version version_from apply_each baseline record_version has_version max_version
    reclaim_opened reclaim_all autocommit update_where
opening = refl

new_postgres_settles_example : stands (bytes "b") mails processing reopened.tables.rows ≡ false
new_postgres_settles_example =
    new_postgres_settles idle_catalog scripts (λ q. none) [] [] []
      (record { tables = tables; versions = [] }) reopened (bytes "b") mails opening
