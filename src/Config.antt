-- ===== src/Config.antt =====
-- internal/config/config.go: the defaults of a configuration and its validation. Webhooks are kept by name;
-- durations are nanoseconds.
pub mod Laws
use shoebox.Base.{
  ℕ, Bool, true, false, not, ◌&&◌, ◌||◌, List, [], ◌∷◌, map, Option, none, some, if◌then◌else◌,
  is_nil, ◌==◌,
}
use shoebox.Base.Text.{Str, str_eq, bytes}
use shoebox.Base.Int.{ℤ, pos, eq_ℤ}

pub record ServerConfig : Type 0 where
  pub addr : Str
  pub auth_token : Str
  pub dashboard_user : Str
  pub dashboard_password : Str

pub record StorageConfig : Type 0 where
  pub kind : Str
  pub path : Str
  pub dsn : Str
  pub schema : Str

pub record WebhookConfig : Type 0 where
  pub url : Str
  pub timeout : ℤ
  pub content_type : Str
  pub secret : Str

pub record Config : Type 0 where
  pub server : ServerConfig
  pub storage : StorageConfig
  pub webhooks : List (Str × WebhookConfig)

abbrev pub or_else : Str → Str → Str
or_else s t = if is_nil s then t else s

unfoldable pub webhook_defaults : WebhookConfig → WebhookConfig
webhook_defaults wh = record wh {
  timeout = if eq_ℤ wh.timeout (pos 0) then pos 10000000000 else wh.timeout;
  content_type = or_else wh.content_type (bytes "application/json");
}

unfoldable pub each_default : List (Str × WebhookConfig) → List (Str × WebhookConfig)
unfolding webhook_defaults
each_default [] = []
each_default ((name, wh) ∷ whs) = (name, webhook_defaults wh) ∷ each_default whs

unfoldable pub defaults : Config → Config
unfolding each_default
defaults c = record {
  server = record c.server { addr = or_else c.server.addr (bytes "127.0.0.1:8080") };
  storage = record c.storage {
    kind = or_else c.storage.kind (bytes "memory");
    path = or_else c.storage.path (bytes "shoebox.db");
    schema = or_else c.storage.schema (bytes "public");
  };
  webhooks = each_default c.webhooks;
}

pub data Problem : Type 0 where
  unknown_kind : Problem
  path_required dsn_required : Problem
  webhook_url_empty : Str → Problem

-- The first webhook without a URL, if there is one.
unfoldable pub without_url : List (Str × WebhookConfig) → Option Problem
without_url [] = none
without_url ((name, wh) ∷ whs) =
    let rest = without_url whs in if is_nil wh.url then some (webhook_url_empty name) else rest

unfoldable pub known_kind : Str → Bool
known_kind kind =
    str_eq kind (bytes "memory") || str_eq kind (bytes "sqlite") || str_eq kind (bytes "postgres")

unfoldable pub validate : Config → Option Problem
unfolding known_kind without_url
validate c =
    if not (known_kind c.storage.kind)
    then some unknown_kind
    else (if str_eq c.storage.kind (bytes "sqlite") && is_nil c.storage.path
        then some path_required
        else (if str_eq c.storage.kind (bytes "postgres") && is_nil c.storage.dsn
            then some dsn_required
            else without_url c.webhooks))

pub data LoadError : Type 0 where
  unreadable unparsable : LoadError
  invalid : Problem → LoadError

pub data Loaded : Type 0 where
  loaded : Config → Loaded
  refused : LoadError → Loaded

abbrev pub empty_config : Config
empty_config = record {
  server = record { addr = []; auth_token = []; dashboard_user = []; dashboard_password = [] };
  storage = record { kind = []; path = []; dsn = []; schema = [] };
  webhooks = [];
}

abbrev pub checked : Config → Loaded
checked c = elim (validate c) [ none ↦ loaded c | some p ↦ refused (invalid p) ]

-- `read` reads a file and `parse` its YAML.
unfoldable pub load_with : (Str → Option Str) → (Str → Option Config) → Str → Loaded
unfolding defaults validate
load_with read parse path =
    if is_nil path then loaded (defaults empty_config) else elim (read path) [
      | none ↦ refused unreadable
      | some text ↦ elim (parse text) [ none ↦ refused unparsable | some c ↦ checked (defaults c) ]
    ]
