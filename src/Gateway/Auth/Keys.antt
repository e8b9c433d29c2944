-- ===== src/Gateway/Auth/Keys.antt =====
-- Which keys and which tenants the authenticator lets through.
use xscope_hub.Prelude.{
  ℕ, codes, List, ap, ◌+◌, ◌<◌, Bytes, true, Option, none, some, Outcome, ok, err, if◌then◌else◌,
  ltb, pos, negsuc, is_nonpos, Time, ◌≡◌, refl, arith, Bool-cases, inl, inr, ltb→lt, Duration, sym,
  subst,
}
use xscope_hub.Prelude.Clock.{hour}
use xscope_hub.Gateway.Auth.{
  Jwx, Authenticator, AuthConfig, Headers, Claim, ttl_of, held_or_fetched, get_key_set, refresh,
  ParseOption, fetched, verify, bearer_token, options, identity, with_token, with_keys, checked,
}
use xscope_hub.Gateway.Auth.Claims.{Lives, Says, Demands, claim-Says, options-Demands, Lives-ttl}

module _ (jwx : Jwx) where
  -- The set stands in the authenticator and was fetched less than the time to live ago.
  abbrev Fresh : Time → jwx.Set → Authenticator jwx → Type 0
  Fresh now s a = (a.set ≡ some s) × (now.nanos < a.fetched_at.nanos + ttl_of jwx a.cfg)

  -- The set stands in the authenticator, and its time to live has not passed.
  abbrev pub IsYoung : Time → jwx.Set → Authenticator jwx → Type 0
  IsYoung now keys a =
      (a.set ≡ some keys) × (n : ℕ) × Lives a.cfg.cache_ttl n × (now.nanos < a.fetched_at.nanos + n)

  abbrev Usable : Time → Authenticator jwx → Outcome Bytes jwx.Set × Authenticator jwx → Type 0
  Usable now a (ok s, a') = Fresh now s a' × (a'.cfg ≡ a.cfg)
  Usable now a (err e, a') = a' ≡ a

  duration-pos :
      (d : Duration)
      → 0 < elim d [ pos n ↦ if is_nonpos (pos n) then hour else n | negsuc _ ↦ hour ]
  duration-pos (pos n) = ground arith
  duration-pos (negsuc n) = omega arith

  fetched-Usable :
      (now : Time) (a : Authenticator jwx) (r : Outcome Bytes jwx.Set)
      → Usable now a (fetched jwx now a r)
  fetched-Usable now a (ok s) = ((refl, omega (arith, duration-pos a.cfg.cache_ttl)), refl)
  fetched-Usable now a (err e) = refl

  refresh-Usable : (now : Time) (a : Authenticator jwx) → Usable now a (refresh jwx now a)
  unfolding refresh
  refresh-Usable now a = fetched-Usable now a (jwx.fetch a.cfg.jwks_url)

  held-Usable :
      (now : Time) (a : Authenticator jwx) (o : Option jwx.Set)
      → a.set ≡ o
      → Usable now a (held_or_fetched jwx now a o)
  unfolding held_or_fetched
  held-Usable now a none h = refresh-Usable now a
  held-Usable now a (some s) h =
      elim (Bool-cases (ltb now.nanos (a.fetched_at.nanos + ttl_of jwx a.cfg))) [
        | inl young ↦ rw young ((h, ltb→lt _ _ young), refl)
        | inr old ↦ rw old (refresh-Usable now a)
      ]

  get_key_set-Usable : (now : Time) (a : Authenticator jwx) → Usable now a (get_key_set jwx now a)
  unfolding get_key_set
  get_key_set-Usable now a = held-Usable now a a.set refl

  -- What stands behind an identity, in the words of the code.
  abbrev Checked :
      Time → Headers → AuthConfig → Outcome Bytes (Bytes × Bytes) × Authenticator jwx → Type 0
  Checked now h cfg (err e, a) = Unit
  Checked now h cfg (ok who, a) =
      (token : Bytes) × (s : jwx.Set) × (claims : (Bytes → Option Claim)) × (bearer_token
          h.authorization
        ≡ ok token)
      × Fresh now s a
      × (jwx.parse_string s (options cfg) token ≡ ok claims)
      × (who ≡ identity jwx cfg h claims)

  checked-Checked :
      (now : Time) (h : Headers) (a : Authenticator jwx) (s : jwx.Set) (token : Bytes)
      (r : Outcome Bytes (Bytes → Option Claim)) (a' : Authenticator jwx)
      → bearer_token h.authorization ≡ ok token
      → Fresh now s a'
      → jwx.parse_string s (options a.cfg) token ≡ r
      → Checked now h a.cfg (checked jwx a.cfg h r, a')
  checked-Checked now h a s token (err e) a' found fresh parsed = tt
  checked-Checked now h a s token (ok claims) a' found fresh parsed =
      (token, s, claims, found, fresh, parsed, refl)

  keys-Checked :
      (now : Time) (h : Headers) (a : Authenticator jwx) (token : Bytes)
      (r : Outcome Bytes jwx.Set × Authenticator jwx)
      → bearer_token h.authorization ≡ ok token
      → Usable now a r
      → Checked now h a.cfg (with_keys jwx a.cfg h token r.0, r.1)
  keys-Checked now h a token (ok s, a') found (fresh, _) =
      checked-Checked now h a s token _ a' found fresh refl
  keys-Checked now h a token (err e, a') found u = tt

  token-Checked :
      (now : Time) (h : Headers) (a : Authenticator jwx) (t : Outcome Bytes Bytes)
      → bearer_token h.authorization ≡ t
      → Checked now h a.cfg (with_token jwx now h t a)
  token-Checked now h a (err e) found = tt
  token-Checked now h a (ok token) found =
      keys-Checked now h a token (get_key_set jwx now a) found (get_key_set-Usable now a)

  verify-Checked :
      (now : Time) (h : Headers) (a : Authenticator jwx)
      → a.cfg.enabled ≡ true
      → Checked now h a.cfg (verify jwx now h a)
  unfolding verify
  verify-Checked now h a enabled =
      subst
        (λ b. Checked now h a.cfg (
          if b
          then with_token jwx now h (bearer_token h.authorization) a
          else (ok (h.x_tenant, h.x_user), a)))
        (sym enabled) (token-Checked now h a _ refl)

  -- An identity that was given comes from a token of the Authorization header, that a set of keys,
  -- which is younger than the time to live, verifies with all that the configuration asks for: each
  -- audience and the issuer. Its tenant and its user are what the token's claims say, and where they
  -- say nothing what the headers say.
  abbrev pub Trusted :
      Time → Headers → AuthConfig → Outcome Bytes (Bytes × Bytes) × Authenticator jwx → Type 0
  Trusted now h cfg (err e, a) = Unit
  Trusted now h cfg (ok who, a) =
      (token : Bytes) × (keys : jwx.Set) × (claims : (Bytes → Option Claim)) × (asked : List
        ParseOption)
      × (bearer_token h.authorization ≡ ok token)
      × IsYoung now keys a
      × Demands cfg asked
      × (jwx.parse_string keys asked token ≡ ok claims)
      × Says claims cfg.tenant_claim (codes "tenant") h.x_tenant who.0
      × Says claims cfg.user_claim (codes "sub") h.x_user who.1

  Trusted-of-Checked :
      (now : Time) (h : Headers) (cfg : AuthConfig)
      (x : Outcome Bytes (Bytes × Bytes) × Authenticator jwx)
      → Checked now h cfg x
      → Trusted now h cfg x
  unfolding options
  Trusted-of-Checked now h cfg (err e, a) c = tt
  Trusted-of-Checked now h cfg (ok who, a) (token, s, claims, found, (set_is, age), parsed, is) = (
    token,
    s,
    claims,
    options cfg,
    found,
    (set_is, ttl_of jwx a.cfg, Lives-ttl a.cfg.cache_ttl, age),
    options-Demands cfg,
    parsed,
    subst (Says claims cfg.tenant_claim (codes "tenant") h.x_tenant) (ap (λ w. w.0) (sym is))
        (claim-Says claims cfg.tenant_claim 116 (codes "enant") h.x_tenant),
    subst (Says claims cfg.user_claim (codes "sub") h.x_user) (ap (λ w. w.1) (sym is))
        (claim-Says claims cfg.user_claim 115 (codes "ub") h.x_user),
  )

  -- Where authentication is enabled, an identity that `Verify` gives comes from a bearer token of the
  -- Authorization header, verified by a set of keys younger than its time to live and with each
  -- audience and the issuer that the configuration names. The tenant and the user are what the
  -- token's claims of the configured names say, or the default names where none is configured, and
  -- the headers' only where the token says nothing.
  pub verify-Trusted :
      (now : Time) (h : Headers) (a : Authenticator jwx)
      → a.cfg.enabled ≡ true
      → Trusted now h a.cfg (verify jwx now h a)
  verify-Trusted now h a enabled =
      Trusted-of-Checked now h a.cfg (verify jwx now h a) (verify-Checked now h a enabled)
