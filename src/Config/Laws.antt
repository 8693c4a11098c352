-- ===== src/Config/Laws.antt =====
-- internal/config/config.go: what a configuration that was loaded is like.
use shoebox.Base.{
  ◌≡◌, refl, true, false, List, [], ◌∷◌, Option, none, some, arith, All, if_elim, is_nil,
  if◌then◌else◌,
}
use shoebox.Base.Int.{ℤ, pos, eq_ℤ}
use shoebox.Base.Text.{Str, str_eq, bytes}
use shoebox.Config.{
  Config, WebhookConfig, Loaded, loaded, refused, invalid, unreadable, unparsable, defaults,
  validate, load_with, known_kind, without_url, each_default, webhook_defaults, checked, or_else,
  empty_config,
}

-- What the daemon relies on.
pub record Usable (c : Config) : Type 0 where
  pub addressed : is_nil c.server.addr ≡ false
  pub kind : known_kind c.storage.kind ≡ true
  pub path : is_nil c.storage.path ≡ false
  pub dsn : str_eq c.storage.kind (bytes "postgres") ≡ true → is_nil c.storage.dsn ≡ false
  pub urls : All (λ w. (is_nil w.1.url ≡ false) × (eq_ℤ w.1.timeout (pos 0) ≡ false)) c.webhooks

-- What a load leaves.
abbrev pub Loads : (Config → Type 0) → Loaded → Type 0
Loads P (loaded c) = P c
Loads P (refused e) = Unit

or_else_filled : (s t : Str) → is_nil t ≡ false → is_nil (or_else s t) ≡ false
or_else_filled [] t h = h
or_else_filled (c ∷ s) t h = refl

timed : (z : ℤ) → eq_ℤ (if eq_ℤ z (pos 0) then pos 10000000000 else z) (pos 0) ≡ false
timed z =
    if_elim (λ t. eq_ℤ t (pos 0) ≡ false) (eq_ℤ z (pos 0)) (pos 10000000000) z (λ e. refl) (λ e. e)

has_url :
    (name : Str) (wh : WebhookConfig) (whs : List (Str × WebhookConfig))
    → without_url ((name, wh) ∷ whs) ≡ none
    → (is_nil wh.url ≡ false) × (without_url whs ≡ none)
unfolding without_url
has_url name wh whs h = (ground (arith, h), ground (arith, h))

filled :
    (whs : List (Str × WebhookConfig))
    → without_url (each_default whs) ≡ none
    → All (λ w. (is_nil w.1.url ≡ false) × (eq_ℤ w.1.timeout (pos 0) ≡ false)) (each_default whs)
unfolding without_url each_default webhook_defaults
filled [] h = tt
filled ((name, wh) ∷ whs) h =
    let (e, rest) = has_url name (webhook_defaults wh) (each_default whs) h in
    ((e, timed wh.timeout), filled whs rest)

-- The four tests of a validation.
passed :
    (c : Config)
    → validate c ≡ none
    → (known_kind c.storage.kind ≡ true)
      × (str_eq c.storage.kind (bytes "postgres") ≡ true → is_nil c.storage.dsn ≡ false)
      × (without_url c.webhooks ≡ none)
unfolding validate
passed c h = (ground (arith, h), (λ k. ground (arith, h, k)), ground (arith, h))

valid-Usable : (c : Config) → validate (defaults c) ≡ none → Usable (defaults c)
unfolding defaults
valid-Usable c h =
    let (kind, dsn, urls) = passed (defaults c) h in
    record {
      addressed = or_else_filled c.server.addr (bytes "127.0.0.1:8080") refl;
      kind = kind;
      path = or_else_filled c.storage.path (bytes "shoebox.db") refl;
      dsn = dsn;
      urls = filled c.webhooks urls;
    }

checked-Usable : (c : Config) → Loads Usable (checked (defaults c))
checked-Usable c =
    (elim (validate (defaults c))
        as (λ o.
          (validate (defaults c) ≡ o)
          → Loads Usable (elim o [ none ↦ loaded (defaults c) | some p ↦ refused (invalid p) ])) [
            | none ↦ λ e. valid-Usable c e
            | some p ↦ λ e. tt
          ])
      refl

read-Usable :
    (parse : Str → Option Config) (text : Str)
    → Loads Usable (elim (parse text) [ none ↦ refused unparsable | some c ↦ checked (defaults c) ])
read-Usable parse text =
    elim (parse text)
      as (λ o.
        Loads Usable (elim o [ none ↦ refused unparsable | some c ↦ checked (defaults c) ])) [
          | none ↦ tt
          | some c ↦ checked-Usable c
        ]

-- A configuration that is loaded, from a file or from none, has an address, one of the three kinds of
-- storage, a path, a DSN where the storage is postgres, and for each webhook a URL and a timeout that is
-- not zero.
load_with-Usable :
    (read : Str → Option Str) (parse : Str → Option Config) (path : Str)
    → Loads Usable (load_with read parse path)
unfolding load_with validate without_url known_kind str_eq defaults each_default
load_with-Usable read parse path =
    if_elim (Loads Usable) (is_nil path) _ _ (λ e. valid-Usable empty_config refl)
      (λ e.
        elim (read path)
          as (λ o. Loads Usable (elim o [
            | none ↦ refused unreadable
            | some text ↦ elim (parse text) [
              | none ↦ refused unparsable
              | some c ↦ checked (defaults c)
            ]
          ])) [ none ↦ tt | some text ↦ read-Usable parse text ])
