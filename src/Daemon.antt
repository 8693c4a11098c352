-- ===== src/Daemon.antt =====
-- cmd/shoeboxd/main.go: what the daemon makes of its flags and of its configuration, and the middleware
-- around its endpoints. `read` reads a file and `parse` its YAML. The server, the signals, the logging
-- middleware, which writes a log, and the metrics are left out.
pub mod Starting
use shoebox.Base.{ℕ, Bool, List, [], ◌∷◌, ◌++◌, Option, none, some, if◌then◌else◌, is_nil}
use shoebox.Base.Int.{ℤ, pos, ltb_ℤ}
use shoebox.Base.Text.{Str, str_eq, bytes}
use shoebox.Config.{Config, WebhookConfig, Loaded, loaded, refused, or_else, load_with}
use shoebox.Queue.Building.{
  StorageOptions, Backends, use_memory, use_sqlite, use_postgres, open_queue,
}
use shoebox.Webhook.{WebhookOption, with_timeout, with_content_type, with_secret}
use shoebox.Api.Guards.{Handler, chain, auth, basic_auth, request_id, recovery}

pub record Flags : Type 0 where
  pub config : Str
  pub addr : Str
  pub storage : Str
  pub path : Str
  pub dsn : Str
  pub schema : Str
  pub auth_token : Str

-- The flags that are given override the configuration.
unfoldable pub override : Flags → Config → Config
override f c = record c {
  server = record c.server {
    addr = or_else f.addr c.server.addr;
    auth_token = or_else f.auth_token c.server.auth_token;
  };
  storage = record {
    kind = or_else f.storage c.storage.kind;
    path = or_else f.path c.storage.path;
    dsn = or_else f.dsn c.storage.dsn;
    schema = or_else f.schema c.storage.schema;
  };
}

-- The storage of the engine; an unknown kind is none.
unfoldable pub engine_options : Config → Option StorageOptions
engine_options c =
    if str_eq c.storage.kind (bytes "memory")
    then some use_memory
    else if str_eq c.storage.kind (bytes "sqlite")
    then some (use_sqlite c.storage.path)
    else if str_eq c.storage.kind (bytes "postgres")
    then some (use_postgres c.storage.dsn c.storage.schema)
    else none

-- The options of the handler of a webhook.
unfoldable pub webhook_options : WebhookConfig → List WebhookOption
webhook_options wh =
    (if ltb_ℤ (pos 0) wh.timeout then with_timeout wh.timeout ∷ [] else [])
    ++ (if is_nil wh.content_type then [] else with_content_type wh.content_type ∷ [])
    ++ (if is_nil wh.secret then [] else with_secret wh.secret ∷ [])

-- The handlers that are registered: the queue, the URL and the options.
unfoldable pub hooks : List (Str × WebhookConfig) → List (Str × Str × List WebhookOption)
unfolding webhook_options
hooks [] = []
hooks ((queue, wh) ∷ whs) = (queue, wh.url, webhook_options wh) ∷ hooks whs

pub data Start : Type 0 where
  exited : ℕ → Start
  serving : Config → StorageOptions → List (Str × Str × List WebhookOption) → Start

unfoldable pub build : Backends → Config → Start
unfolding engine_options hooks open_queue
build backends c = elim (engine_options c) [
  | none ↦ exited 2
  | some o ↦ elim (open_queue backends [] o) [
    | some e ↦ exited 1
    | none ↦ serving c o (hooks c.webhooks)
  ]
]

unfoldable pub start : (Str → Option Str) → (Str → Option Config) → Backends → Flags → Start
unfolding load_with override build
start read parse backends f = elim (load_with read parse f.config) [
  | refused e ↦ exited 1
  | loaded c ↦ build backends (override f c)
]

module _ {S : Type 0} where
  -- Recovery, correlation and authentication around the API.
  unfoldable pub guarded_api : Config → Str → Handler S → Handler S
  unfolding chain auth request_id recovery
  guarded_api c fresh final =
      chain (recovery ∷ request_id fresh ∷ auth c.server.auth_token ∷ []) final

  -- And around the dashboard.
  unfoldable pub guarded_dashboard : Config → Str → Handler S → Handler S
  unfolding chain basic_auth request_id recovery
  guarded_dashboard c fresh final =
      chain
        (recovery
          ∷ request_id fresh
          ∷ basic_auth c.server.dashboard_user c.server.dashboard_password
          ∷ [])
        final
