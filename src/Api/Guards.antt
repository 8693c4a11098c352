-- ===== src/Api/Guards.antt =====
-- internal/api/middleware.go: authentication, correlation and recovery around a handler. A handler may
-- panic, which is none; what the loggers write is left out.
use shoebox.Base.{
  ℕ, suc, zero, Bool, false, ◌&&◌, List, [], ◌∷◌, Option, none, some, if◌then◌else◌, is_nil, ltb,
  length, take,
}
use shoebox.Base.Text.{Str, str_eq, bytes}
use shoebox.Api.{Response, write_error}

pub record Request : Type 0 where
  pub api_key : Str
  pub authorization : Str
  pub request_id : Str
  pub basic_auth : Option (Str × Str)
  pub correlation : Str

abbrev pub Handler : Type 0 → Type 0
Handler S = S → Request → S × Option Response

abbrev pub skip : ℕ → Str → Str
skip zero s = s
skip (suc n) [] = []
skip (suc n) (c ∷ s) = skip n s

-- The key that a request presents.
unfoldable pub provided_key : Request → Str
provided_key r =
    if is_nil r.api_key
    then (if ltb 7 (length r.authorization) && str_eq (take 7 r.authorization) (bytes "Bearer ")
        then skip 7 r.authorization
        else [])
    else r.api_key

abbrev pub unauthorized : Response
unauthorized = write_error 401 (bytes "unauthorized")

-- Whether the request presents the user and the password.
unfoldable pub presents : Str → Str → Option (Str × Str) → Bool
presents username password none = false
presents username password (some (u, p)) = str_eq u username && str_eq p password

module _ {S : Type 0} where
  -- `Chain`: the first is the outermost.
  unfoldable pub chain : List (Handler S → Handler S) → Handler S → Handler S
  chain [] final = final
  chain (mw ∷ mws) final = mw (chain mws final)

  unfoldable pub auth : Str → Handler S → Handler S
  unfolding provided_key
  auth token next s r =
      if is_nil token
      then next s r
      else (if str_eq (provided_key r) token then next s r else (s, some unauthorized))

  unfoldable pub basic_auth : Str → Str → Handler S → Handler S
  unfolding presents
  basic_auth username password next s r =
      if is_nil username
      then next s r
      else (if presents username password r.basic_auth then next s r else (s, some unauthorized))

  -- `fresh` is what `newCorrelationID` returns.
  unfoldable pub request_id : Str → Handler S → Handler S
  request_id fresh next s r =
      next s (record r { correlation = if is_nil r.request_id then fresh else r.request_id })

  unfoldable pub recovery : Handler S → Handler S
  recovery next s r =
      let x = next s r in
      (
        x.0,
        elim x.1 [ some resp ↦ some resp | none ↦ some (write_error 500 (bytes "internal panic")) ],
      )
