-- ===== src/Daemon/Starting.antt =====
-- cmd/shoeboxd/main.go: what a daemon that serves has, and who reaches its endpoints.
use shoebox.Base.{
  ◌≡◌, refl, ap, sym, subst, ◌∙◌, Bool, true, false, ◌||◌, [], Option, none, some, if◌then◌else◌,
  if_elim, is_nil, arith,
}
use shoebox.Base.Text.{Str, str_eq, bytes}
use shoebox.Api.{Response, write_error}
use shoebox.Api.Guards.{
  Request, Handler, provided_key, presents, unauthorized, chain, auth, basic_auth, request_id,
  recovery,
}
use shoebox.Config.{Config, known_kind, loaded, refused, load_with}
use shoebox.Queue.Building.{StorageOptions, Backends, open_queue}
use shoebox.Daemon.{
  Flags, Start, exited, serving, engine_options, hooks, build, start, override, guarded_api,
  guarded_dashboard,
}

-- A handler that panics answers with status 500.
abbrev pub answered : {S : Type 0} → S × Option Response → S × Option Response
answered (s, some resp) = (s, some resp)
answered (s, none) = (s, some (write_error 500 (bytes "internal panic")))

module _ {S : Type 0} where
  caught : S × Option Response → S × Option Response
  caught x = (
    x.0,
    elim x.1 [ some resp ↦ some resp | none ↦ some (write_error 500 (bytes "internal panic")) ],
  )

  caught-answered : (x : S × Option Response) → caught x ≡ answered x
  unfolding caught
  caught-answered (t, some resp) = refl
  caught-answered (t, none) = refl

  -- An open door, or a key.
  caught_guard :
      (free key : Bool) (x : S × Option Response) (s : S) (resp : Response)
      → caught (if free then x else (if key then x else (s, some resp)))
        ≡ (if free || key then answered x else (s, some resp))
  caught_guard true key x s resp = caught-answered x
  caught_guard false true x s resp = caught-answered x
  caught_guard false false x s resp = caught-answered (s, some resp)

-- The request under its identifier.
abbrev pub traced : Str → Request → Request
traced fresh r = record r { correlation = if is_nil r.request_id then fresh else r.request_id }

module _ {S : Type 0} (c : Config) (fresh : Str) (final : Handler S) (s : S) (r : Request) where
  -- Whatever the endpoints do, a request to the API that does not present the token of a daemon that has
  -- one is answered with status 401 and leaves the store as it is, and so is a request to the dashboard
  -- that does not present the user and password. Any other request reaches the endpoint, traced under
  -- an identifier, and a panic there is answered with status 500.
  pub guards_outcome :
      (guarded_api c fresh final s r ≡ (
        if is_nil c.server.auth_token || str_eq (provided_key r) c.server.auth_token
        then answered (final s (traced fresh r))
        else (s, some unauthorized)))
      × (guarded_dashboard c fresh final s r ≡ (
          if is_nil c.server.dashboard_user
            || presents c.server.dashboard_user c.server.dashboard_password r.basic_auth
          then answered (final s (traced fresh r))
          else (s, some unauthorized)))
  unfolding guarded_api guarded_dashboard chain auth basic_auth request_id recovery provided_key
      caught
  guards_outcome = (
    caught_guard _ _ (final s (traced fresh r)) s unauthorized,
    caught_guard _ _ (final s (traced fresh r)) s unauthorized,
  )

-- The kinds of storage that the engine is built for are those that a configuration may name.
engine_options_known :
    (c : Config) (o : StorageOptions) → engine_options c ≡ some o → known_kind c.storage.kind ≡ true
unfolding engine_options known_kind
engine_options_known c o h =
    let kind = c.storage.kind in
    (if_elim (λ x. x ≡ some o → known_kind kind ≡ true) (str_eq kind (bytes "memory")) _ _
        (λ e k. ground (arith, e))
        (λ e.
          if_elim (λ x. x ≡ some o → known_kind kind ≡ true) (str_eq kind (bytes "sqlite")) _ _
            (λ f k. ground (arith, f))
            (λ f.
              if_elim (λ x. x ≡ some o → known_kind kind ≡ true) (str_eq kind (bytes "postgres")) _
                _ (λ p k. ground (arith, p)) (λ p k. cc))))
      h

-- A start that serves.
abbrev Serves : Config → Start → Type 0
Serves c (exited n) = Unit
Serves c (serving d o hs) = (d ≡ c) × (engine_options c ≡ some o) × (hs ≡ hooks c.webhooks)

build-Serves : (backends : Backends) (c : Config) → Serves c (build backends c)
unfolding build
build-Serves backends c =
    (elim (engine_options c)
        as (λ x.
          engine_options c ≡ x
          → Serves c (elim x [
            | none ↦ exited 2
            | some o ↦ elim (open_queue backends [] o) [
              | some e ↦ exited 1
              | none ↦ serving c o (hooks c.webhooks)
            ]
          ])) [
            | none ↦ λ h. tt
            | some o ↦ λ h.
                elim (open_queue backends [] o)
                  as (λ y.
                    Serves c
                      (elim y [ some e ↦ exited 1 | none ↦ serving c o (hooks c.webhooks) ])) [
                        | some e ↦ tt
                        | none ↦ (refl, h, refl)
                      ]
          ])
      refl

-- The storage is of a known kind, which the flag names if it is given, and each webhook has a handler.
abbrev pub Known : Flags → Start → Type 0
Known f (exited n) = Unit
Known f (serving c o hs) =
    (known_kind c.storage.kind ≡ true)
    × (is_nil f.storage ≡ false → c.storage.kind ≡ f.storage)
    × (hs ≡ hooks c.webhooks)

Serves-Known : (f : Flags) (c : Config) (x : Start) → Serves (override f c) x → Known f x
unfolding override
Serves-Known f c (exited n) h = tt
Serves-Known f c (serving d o hs) (same, e, k) = (
  engine_options_known d o (subst (λ t. engine_options t ≡ some o) (sym same) e),
  λ given. ap (λ t. t.storage.kind) same ∙ rw given refl,
  k ∙ ap (λ t. hooks t.webhooks) (sym same),
)

-- However the configuration is read, a daemon that ends up serving has a storage of a kind that
-- a configuration may name, the one of the flag where it is given, and registers a handler for each webhook
-- of its configuration; otherwise it exits.
pub start-Known :
    (read : Str → Option Str) (parse : Str → Option Config) (backends : Backends) (f : Flags)
    → Known f (start read parse backends f)
unfolding start
start-Known read parse backends f =
    elim (load_with read parse f.config)
      as (λ x.
        Known f (elim x [ refused e ↦ exited 1 | loaded c ↦ build backends (override f c) ])) [
          | refused e ↦ tt
          | loaded c ↦ Serves-Known f c _ (build-Serves backends (override f c))
        ]
