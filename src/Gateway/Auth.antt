-- ===== src/Gateway/Auth.antt =====
-- observe-gateway/internal/auth/authenticator.go.
-- `Jwx` is the package lestrrat-go/jwx: fetching a key set, and reading and checking a token.
pub mod Claims
pub mod Keys
use xscope_hub.Prelude.{
  ℕ, ◌+◌, ◌-◌, Bytes, codes, Bool, true, false, not, Option, none, some, List, [], ◌∷◌, ◌++◌,
  Outcome, ok, err, if◌then◌else◌, ltb, ℤ, pos, negsuc, is_nonpos, is_empty, Time, Duration, drop,
}
use xscope_hub.Prelude.Clock.{hour}
use xscope_hub.Gateway.Text.{has_prefix, to_lower, trim_space, trim_by, drop_while}

pub record AuthConfig : Type 0 where
  pub enabled : Bool
  pub jwks_url : Bytes
  pub audience : List Bytes
  pub issuer : Bytes
  pub tenant_claim : Bytes
  pub user_claim : Bytes
  pub cache_ttl : Duration
  pub insecure_tls : Bool

-- A claim's value by its Go type. `other` holds its text under `%v`.
pub data Claim : Type 0 where
  string : Bytes → Claim
  stringer : Bytes → Claim
  strings : List Bytes → Claim
  other : Bytes → Claim

-- `jwt.WithAudience` and `jwt.WithIssuer`
pub data ParseOption : Type 0 where
  with_audience : Bytes → ParseOption
  with_issuer : Bytes → ParseOption

pub record Jwx : Type 1 where
  pub Set : Type 0
  pub fetch : Bytes → Outcome Bytes Set
  -- The claims of a token that the set verifies and that is valid.
  pub parse_string : Set → List ParseOption → Bytes → Outcome Bytes (Bytes → Option Claim)

-- The headers that are read, "" where missing.
pub record Headers : Type 0 where
  pub authorization : Bytes
  pub x_tenant : Bytes
  pub x_user : Bytes

abbrev pub first_or_empty : List Bytes → Bytes
first_or_empty [] = []
first_or_empty (s ∷ _) = s

abbrev pub claim_text : Option Claim → Bytes
claim_text none = []
claim_text (some (Claim.string s)) = s
claim_text (some (Claim.stringer s)) = s
claim_text (some (Claim.strings l)) = first_or_empty l
claim_text (some (Claim.other s)) = s

abbrev pub or_else : Bytes → Bytes → Bytes
or_else s def = if is_empty s then def else s

-- `claimAsString`
unfoldable pub claim_as_string : (Bytes → Option Claim) → Bytes → Bytes → Bytes
claim_as_string claims claim fallback =
    let name = or_else claim fallback in if is_empty name then [] else claim_text (claims name)

-- The options for each audience that is not empty.
unfoldable pub audience_options : List Bytes → List ParseOption
audience_options [] = []
audience_options (a ∷ as_) =
    let rest = audience_options as_ in
    if is_empty a then rest else ParseOption.with_audience a ∷ rest

unfoldable pub options : AuthConfig → List ParseOption
unfolding audience_options
options cfg =
    audience_options cfg.audience
    ++ (if is_empty cfg.issuer then [] else ParseOption.with_issuer cfg.issuer ∷ [])

-- The token text of the header, or the error's text.
unfoldable pub bearer_token : Bytes → Outcome Bytes Bytes
unfolding has_prefix to_lower drop_while
bearer_token header =
    let token = trim_space (drop 7 header) in
    if is_empty header
    then err (codes "authorization header required")
    else if not (has_prefix (codes "bearer ") (to_lower header))
    then err (codes "authorization header must be bearer token")
    else if is_empty token
    then err (codes "empty bearer token")
    else ok token

module _ (jwx : Jwx) where
  pub record Authenticator : Type 0 where
    pub cfg : AuthConfig
    pub set : Option jwx.Set
    pub fetched_at : Time

  abbrev pub fetched :
      Time → Authenticator → Outcome Bytes jwx.Set → Outcome Bytes jwx.Set × Authenticator
  fetched now a (ok s) = (ok s, record a { set = some s; fetched_at = now })
  fetched now a (err e) = (err (codes "fetch jwks: " ++ e), a)

  -- `refresh`, with the set that it loads
  unfoldable pub refresh : Time → Authenticator → Outcome Bytes jwx.Set × Authenticator
  refresh now a = fetched now a (jwx.fetch a.cfg.jwks_url)

  abbrev pub ttl_of : AuthConfig → ℕ
  ttl_of cfg = elim cfg.cache_ttl [
    | pos n ↦ if is_nonpos (pos n) then hour else n
    | negsuc _ ↦ hour
  ]

  -- `getKeySet`, for the set that is held
  unfoldable pub held_or_fetched :
      Time → Authenticator → Option jwx.Set → Outcome Bytes jwx.Set × Authenticator
  unfolding refresh
  held_or_fetched now a none = refresh now a
  held_or_fetched now a (some s) =
      if ltb now.nanos (a.fetched_at.nanos + ttl_of a.cfg) then (ok s, a) else refresh now a

  unfoldable pub get_key_set : Time → Authenticator → Outcome Bytes jwx.Set × Authenticator
  unfolding held_or_fetched
  get_key_set now a = held_or_fetched now a a.set

  -- The tenant and the user of a token, each from its header where the token has none.
  abbrev pub identity : AuthConfig → Headers → (Bytes → Option Claim) → Bytes × Bytes
  identity cfg h claims = (
    or_else (claim_as_string claims cfg.tenant_claim (codes "tenant")) h.x_tenant,
    or_else (claim_as_string claims cfg.user_claim (codes "sub")) h.x_user,
  )

  abbrev pub checked :
      AuthConfig → Headers → Outcome Bytes (Bytes → Option Claim) → Outcome Bytes (Bytes × Bytes)
  checked cfg h (ok claims) = ok (identity cfg h claims)
  checked cfg h (err e) = err e

  abbrev pub with_keys :
      AuthConfig → Headers → Bytes → Outcome Bytes jwx.Set → Outcome Bytes (Bytes × Bytes)
  with_keys cfg h token (err e) = err e
  with_keys cfg h token (ok s) = checked cfg h (jwx.parse_string s (options cfg) token)

  abbrev pub with_token :
      Time
      → Headers
      → Outcome Bytes Bytes
      → Authenticator
      → Outcome Bytes (Bytes × Bytes) × Authenticator
  with_token now h (err e) a = (err e, a)
  with_token now h (ok token) a =
      let (keys, a') = get_key_set now a in (with_keys a.cfg h token keys, a')

  -- `Verify`, on an authenticator that is not nil
  unfoldable pub verify :
      Time → Headers → Authenticator → Outcome Bytes (Bytes × Bytes) × Authenticator
  unfolding bearer_token get_key_set claim_as_string options
  verify now h a =
      if a.cfg.enabled
      then with_token now h (bearer_token h.authorization) a
      else (ok (h.x_tenant, h.x_user), a)

  abbrev pub loaded : Outcome Bytes jwx.Set × Authenticator → Outcome Bytes Authenticator
  loaded (ok _, a) = ok a
  loaded (err e, a) = err e

  -- `New`
  unfoldable pub new : Time → AuthConfig → Outcome Bytes Authenticator
  unfolding refresh
  new now cfg =
      let a : Authenticator = record { cfg = cfg; set = none; fetched_at = now } in
      if not cfg.enabled
      then ok a
      else if is_empty cfg.jwks_url
      then err (codes "jwks_url required when auth enabled")
      else loaded (refresh now a)
