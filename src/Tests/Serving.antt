-- ===== src/Tests/Serving.antt =====
-- Applications of the theorems on the migrations, on opening a database, the HTTP API and webhooks.

use shoebox.Base.{
  ℕ, ◌≡◌, ◌⊎◌, refl, true, false, not, List, [], ◌∷◌, ◌++◌, none, some, arith, is_nil, ◌||◌,
  if◌then◌else◌,
}
use shoebox.Base.Text.{Str, bytes, str_eq, str_ltb}
use shoebox.Base.Int.{pos}
use shoebox.Storage.{Message}
use shoebox.Storage.Interface.{Moment}
use shoebox.Memory.Backend.{memory_store}
use shoebox.Sqlite.{Database}
use shoebox.Migrations.{
  Migration, up, all, ups_of, parse, match_name, is_digit, is_word, after_words, ending, precedes,
  insert_migration,
}
use shoebox.Migrations.Running.{Scripts, init_schema}
use shoebox.Broker.Handling.Lives.{life, Buried}
use shoebox.Migrations.Resuming.{Ascending}
use shoebox.Migrations.Reopening.{init_schema_resumed}
use shoebox.Broker.{Handler}
use shoebox.Webhook.{Client, replied, webhook_handler}
use shoebox.Webhook.Verdicts.{bad_target_is_Buried}
use shoebox.Api.{Decoding, enqueue}
use shoebox.Api.Behaviour.{Acceptable, posted, enqueue_outcome}
use shoebox.Config.{Config, empty_config}
use shoebox.Api.Guards.{Request, Handler as Endpoint, provided_key, presents, unauthorized}
use shoebox.Daemon.{guarded_api, guarded_dashboard}
use shoebox.Daemon.Starting.{answered, traced, guards_outcome}
use shoebox.Tests.{mails, office}
use shoebox.Tests.Databases.{shelf, second}

-- The files of the directory of migrations; a script stands for its number.
abbrev embedded : List (Str × Str)
embedded =
    (bytes "0001_init_schema.postgres.down.sql", [])
    ∷ (bytes "0001_init_schema.postgres.up.sql", bytes "0001")
    ∷ (bytes "0001_init_schema.sqlite.down.sql", [])
    ∷ (bytes "0001_init_schema.sqlite.up.sql", bytes "0001")
    ∷ (bytes "0002_add_priority.postgres.down.sql", [])
    ∷ (bytes "0002_add_priority.postgres.up.sql", bytes "0002")
    ∷ (bytes "0002_add_priority.sqlite.down.sql", [])
    ∷ (bytes "0002_add_priority.sqlite.up.sql", bytes "0002")
    ∷ (bytes "0003_periodic_jobs.postgres.down.sql", [])
    ∷ (bytes "0003_periodic_jobs.postgres.up.sql", bytes "0003")
    ∷ (bytes "0003_periodic_jobs.sqlite.down.sql", [])
    ∷ (bytes "0003_periodic_jobs.sqlite.up.sql", bytes "0003")
    ∷ (bytes "0004_durable_dedupe.postgres.down.sql", [])
    ∷ (bytes "0004_durable_dedupe.postgres.up.sql", bytes "0004")
    ∷ (bytes "0004_durable_dedupe.sqlite.down.sql", [])
    ∷ (bytes "0004_durable_dedupe.sqlite.up.sql", bytes "0004")
    ∷ (bytes "0005_repair_postgres_schema.postgres.down.sql", [])
    ∷ (bytes "0005_repair_postgres_schema.postgres.up.sql", bytes "0005")
    ∷ (bytes "migrations.go", [])
    ∷ []

embedded-Ascending : Ascending 0 (up (bytes "sqlite") embedded)
unfolding up all ups_of parse match_name is_digit is_word after_words ending precedes
    insert_migration str_eq str_ltb
embedded-Ascending = (omega arith, (omega arith, (omega arith, (omega arith, tt))))

-- Two scripts that always succeed.
abbrev step_one : Migration
step_one = record { version = 1; dialect = bytes "sqlite"; up = true; name = []; sql = bytes "1" }

abbrev step_two : Migration
step_two = record { version = 2; dialect = bytes "sqlite"; up = true; name = []; sql = bytes "2" }

abbrev steps : List Migration
steps = step_one ∷ step_two ∷ []

-- The tables are the scripts that have been run.
abbrev recorder : Scripts (List Str)
recorder = record {
  execute = λ sql done. some (done ++ sql ∷ []);
  has_messages = λ s. not (is_nil s);
  has_priority = λ s. not (is_nil s);
}

init_schema_resumed_example :
    init_schema recorder
      (up (bytes "sqlite") embedded)
      []
      (init_schema recorder
        (up (bytes "sqlite") embedded)
        (false ∷ true ∷ [])
        (record { tables = []; version = 0 })).0
    ≡ init_schema recorder (up (bytes "sqlite") embedded) [] (record { tables = []; version = 0 })
init_schema_resumed_example =
    init_schema_resumed recorder (up (bytes "sqlite") embedded) (false ∷ true ∷ [])
      (record { tables = []; version = 0 }) embedded-Ascending

-- Scripts that leave the messages as they are, and a database with a priority.
abbrev idle : Scripts Database
idle = record { execute = λ sql db. some db; has_messages = λ db. true; has_priority = λ db. true }

-- Every body is a request without a delay.
abbrev lenient : Decoding
lenient = record {
  decode = λ limit body. some (record { payload = body; delay = []; metadata = [] });
  parse_duration = λ s. none;
  atoi = λ s. none;
}

abbrev noon : Moment
noon = record { now = 12; fresh = bytes "f" }

enqueue_outcome_example :
    (((enqueue memory_store lenient noon office mails (bytes "hi")).0 ≡ office)
      × ((enqueue memory_store lenient noon office mails (bytes "hi")).1.status ≡ 400))
    ⊎ ((msg : Message) × Acceptable noon mails msg
        × (enqueue memory_store lenient noon office mails (bytes "hi")
            ≡ posted msg (memory_store.enqueue noon office mails msg)))
enqueue_outcome_example = enqueue_outcome memory_store lenient noon office mails (bytes "hi")

-- A client that reaches nothing, and a target that it cannot parse.
abbrev lost : Client Database
lost = record {
  parses = λ url. is_nil url;
  post = λ s req. (s, replied (record { status_code = 204; body = [] }));
  hmac_hex = λ key text. [];
  itoa = λ n. [];
  trim_space = λ s. s;
}

abbrev patient : Handler Database
patient = record {
  max_retries = pos 3;
  backoff = λ n. pos 7;
  timeout = pos 0;
  chain = λ s m. (s, none);
}

bad_target_is_Buried_example :
    ◌≡◌ {A = ℕ → Database} (λ a. (webhook_handler lost (bytes "?") [] shelf second).0) (λ a. shelf)
    × Buried second 3 4
        (λ a. bytes "webhook: " ++ (bytes "?" ++ bytes ": build request"))
        (life 4 patient (λ a. (webhook_handler lost (bytes "?") [] shelf second).1) (λ a. a) second)
bad_target_is_Buried_example =
    bad_target_is_Buried lost patient (bytes "?") [] (λ a. shelf) (λ a. second) (λ a. a) 3 second
      refl refl refl

-- A daemon with a token and a dashboard for `ann`, and a request that presents nothing.
abbrev locked_config : Config
locked_config = record empty_config {
  server = record {
    addr = [];
    auth_token = bytes "secret";
    dashboard_user = bytes "ann";
    dashboard_password = bytes "pw";
  };
}

abbrev stranger : Request
stranger = record {
  api_key = [];
  authorization = [];
  request_id = [];
  basic_auth = none;
  correlation = [];
}

-- An endpoint that empties the store.
abbrev emptying : Endpoint (List Str)
emptying s r = ([], none)

guards_outcome_example :
    (guarded_api locked_config (bytes "id") emptying (bytes "x" ∷ []) stranger ≡ (
      if is_nil (bytes "secret") || str_eq (provided_key stranger) (bytes "secret")
      then answered (emptying (bytes "x" ∷ []) (traced (bytes "id") stranger))
      else (bytes "x" ∷ [], some unauthorized)))
    × (guarded_dashboard locked_config (bytes "id") emptying (bytes "x" ∷ []) stranger ≡ (
        if is_nil (bytes "ann") || presents (bytes "ann") (bytes "pw") none
        then answered (emptying (bytes "x" ∷ []) (traced (bytes "id") stranger))
        else (bytes "x" ∷ [], some unauthorized)))
guards_outcome_example =
    guards_outcome locked_config (bytes "id") emptying (bytes "x" ∷ []) stranger
