-- ===== src/Webhook.antt =====
-- webhook.go: a handler that posts a message to a URL. S is the state of the world outside; what the
-- code takes of Go's library is a `Client`: whether a URL parses, one request with its response or the
-- text of its error, the hexadecimal HMAC-SHA256 of a text under a key, and decimal numbers. The options
-- of a handler are applied in order.
pub mod Verdicts
use shoebox.Base.{
  ℕ, suc, ◌+◌, Bool, true, false, not, ◌&&◌, ◌||◌, List, [], ◌∷◌, ◌++◌, Option, none, some,
  if◌then◌else◌, is_nil, ltb, leb, take,
}
use shoebox.Base.Int.{ℤ, pos, ltb_ℤ}
use shoebox.Base.Text.{Str, bytes}
use shoebox.Storage.{Message}
use shoebox.Broker.{HandlerFunc}

pub record WebhookConfig : Type 0 where
  pub timeout : ℤ
  pub content_type : Str
  pub secret : Str
  pub max_idle_conns : ℤ

-- `WithWebhookTimeout`, `WithWebhookContentType`, `WithWebhookSecret`, `WithWebhookMaxIdleConns`.
pub data WebhookOption : Type 0 where
  with_timeout : ℤ → WebhookOption
  with_content_type with_secret : Str → WebhookOption
  with_max_idle_conns : ℤ → WebhookOption

unfoldable pub apply_option : WebhookConfig → WebhookOption → WebhookConfig
apply_option c (with_timeout d) = record c { timeout = d }
apply_option c (with_content_type ct) = record c { content_type = ct }
apply_option c (with_secret secret) = record c { secret = secret }
apply_option c (with_max_idle_conns n) = record c { max_idle_conns = n }

unfoldable pub apply_options : WebhookConfig → List WebhookOption → WebhookConfig
unfolding apply_option
apply_options c [] = c
apply_options c (o ∷ opts) = apply_options (apply_option c o) opts

abbrev pub default_config : WebhookConfig
default_config = record {
  timeout = pos 10000000000;
  content_type = bytes "application/json";
  secret = [];
  max_idle_conns = pos 16;
}

-- The connections that the default client keeps warm.
unfoldable pub idle_conns : ℤ → ℤ
idle_conns n = if ltb_ℤ (pos 0) n then n else pos 16

pub record HttpRequest : Type 0 where
  pub url : Str
  pub body : Str
  pub headers : List (Str × Str)

pub record HttpResponse : Type 0 where
  pub status_code : ℕ
  pub body : Str

pub data Reply : Type 0 where
  replied : HttpResponse → Reply
  unreachable : Str → Reply

pub record Client (S : Type 0) : Type 0 where
  pub parses : Str → Bool
  pub post : S → HttpRequest → S × Reply
  pub hmac_hex : Str → Str → Str
  pub itoa : ℕ → Str
  pub trim_space : Str → Str

module _ {S : Type 0} (cl : Client S) where
  unfoldable pub signature_headers : WebhookConfig → Str → List (Str × Str)
  signature_headers cfg payload =
      if is_nil cfg.secret
      then []
      else (bytes "X-Shoebox-Signature", cl.hmac_hex cfg.secret payload) ∷ []

  unfoldable pub delivery_request : WebhookConfig → Str → Message → HttpRequest
  unfolding signature_headers
  delivery_request cfg target m = record {
    url = target;
    body = m.payload;
    headers =
        ((bytes "Content-Type", cfg.content_type)
          ∷ (bytes "X-Shoebox-Message-ID", m.id)
          ∷ (bytes "X-Shoebox-Queue", m.queue)
          ∷ (bytes "X-Shoebox-Attempt", cl.itoa (m.attempts + 1))
          ∷ [])
        ++ signature_headers cfg m.payload;
  }

  abbrev pub refusal : Str → HttpResponse → Str
  refusal target resp =
      bytes "webhook: "
      ++ (target
          ++ (bytes " returned "
              ++ (cl.itoa resp.status_code ++ (bytes ": " ++ cl.trim_space (take 4096 resp.body)))))

  -- The error that a reply amounts to: any status but 2xx.
  unfoldable pub reply_error : Str → Reply → Option Str
  reply_error target (unreachable e) =
      some (bytes "webhook: post " ++ (target ++ (bytes ": " ++ e)))
  reply_error target (replied resp) =
      if ltb resp.status_code 200 || leb 300 resp.status_code
      then some (refusal target resp)
      else none

  unfoldable pub deliver : WebhookConfig → Str → HandlerFunc S
  unfolding delivery_request reply_error
  deliver cfg target s m =
      if not (cl.parses target)
      then (s, some (bytes "webhook: " ++ (target ++ bytes ": build request")))
      else let r = cl.post s (delivery_request cfg target m) in (r.0, reply_error target r.1)

  unfoldable pub webhook_handler : Str → List WebhookOption → HandlerFunc S
  unfolding apply_options deliver
  webhook_handler target opts = deliver (apply_options default_config opts) target
