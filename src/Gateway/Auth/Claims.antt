-- ===== src/Gateway/Auth/Claims.antt =====
-- What a configuration asks of a token and of the keys, and what a token says, apart from the code.
use xscope_hub.Prelude.{
  ℕ, zero, suc, List, [], ◌∷◌, ◌++◌, is_empty, ◌≢◌, ◌⊎◌, In, In-append_right, Bytes, Option, none,
  some, if◌then◌else◌, pos, negsuc, is_nonpos, ◌≡◌, refl, arith, inl, inr, Duration, sym, subst,
}
use xscope_hub.Prelude.Clock.{hour}
use xscope_hub.Gateway.Auth.{
  AuthConfig, Claim, ParseOption, claim_as_string, claim_text, or_else, audience_options, options,
}

-- How long a set of keys lives: the configured time, or an hour.
abbrev pub Lives : Duration → ℕ → Type 0
Lives (pos zero) n = n ≡ 3600000000000
Lives (pos (suc d)) n = n ≡ suc d
Lives (negsuc d) n = n ≡ 3600000000000

-- The text of a claim: a list's is its first, a claim that is missing has none.
pub data NamedBy : Option Claim → Bytes → Type 0 where
  missing : NamedBy none []
  string : (s : Bytes) → NamedBy (some (Claim.string s)) s
  stringer : (s : Bytes) → NamedBy (some (Claim.stringer s)) s
  no_string : NamedBy (some (Claim.strings [])) []
  first_string : (s : Bytes) (ss : List Bytes) → NamedBy (some (Claim.strings (s ∷ ss))) s
  printed : (s : Bytes) → NamedBy (some (Claim.other s)) s

-- The first of two texts unless it is empty, and else the second.
abbrev pub Preferred : Bytes → Bytes → Bytes → Type 0
Preferred first second s = ((first ≢ []) × (s ≡ first)) ⊎ ((first ≡ []) × (s ≡ second))

-- What the claim of the configured name, or of the default one, says, and else what the header says.
abbrev pub Says : (Bytes → Option Claim) → Bytes → Bytes → Bytes → Bytes → Type 0
Says claims configured default header who =
    (name : Bytes) × (said : Bytes) × Preferred configured default name
    × NamedBy (claims name) said
    × Preferred said header who

abbrev AsksAudience : List Bytes → List ParseOption → Type 0
AsksAudience [] asked = Unit
AsksAudience (a ∷ rest) asked =
    ((a ≡ []) ⊎ In (ParseOption.with_audience a) asked) × AsksAudience rest asked

-- Each audience and the issuer of the configuration that are not empty are asked for.
abbrev pub Demands : AuthConfig → List ParseOption → Type 0
Demands cfg asked =
    AsksAudience cfg.audience asked
    × ((cfg.issuer ≡ []) ⊎ In (ParseOption.with_issuer cfg.issuer) asked)

or_else-Preferred : (first second : Bytes) → Preferred first second (or_else first second)
or_else-Preferred [] second = inr (refl, refl)
or_else-Preferred (c ∷ first) second = inl ((λ e. cc e), refl)

claim_text-NamedBy : (c : Option Claim) → NamedBy c (claim_text c)
claim_text-NamedBy none = missing
claim_text-NamedBy (some (Claim.string s)) = NamedBy.string s
claim_text-NamedBy (some (Claim.stringer s)) = NamedBy.stringer s
claim_text-NamedBy (some (Claim.strings [])) = no_string
claim_text-NamedBy (some (Claim.strings (s ∷ ss))) = first_string s ss
claim_text-NamedBy (some (Claim.other s)) = printed s

named_claim :
    (claims : Bytes → Option Claim) (configured : Bytes) (c : ℕ) (default : Bytes)
    → claim_as_string claims configured (c ∷ default)
      ≡ claim_text (claims (or_else configured (c ∷ default)))
unfolding claim_as_string
named_claim claims [] c default = refl
named_claim claims (d ∷ configured) c default = refl

pub claim-Says :
    (claims : Bytes → Option Claim) (configured : Bytes) (c : ℕ) (default header : Bytes)
    → Says claims configured
        (c ∷ default)
        header
        (or_else (claim_as_string claims configured (c ∷ default)) header)
claim-Says claims configured c default header =
    let name = or_else configured (c ∷ default) in
    (
      name,
      claim_text (claims name),
      or_else-Preferred configured (c ∷ default),
      claim_text-NamedBy (claims name),
      subst (λ t. Preferred (claim_text (claims name)) header (or_else t header))
          (sym (named_claim claims configured c default))
          (or_else-Preferred (claim_text (claims name)) header),
    )

AsksAudience-more :
    (audiences : List Bytes) (o : ParseOption) (asked : List ParseOption)
    → AsksAudience audiences asked
    → AsksAudience audiences (o ∷ asked)
AsksAudience-more [] o asked h = tt
AsksAudience-more (a ∷ rest) o asked (inl e, later) = (inl e, AsksAudience-more rest o asked later)
AsksAudience-more (a ∷ rest) o asked (inr i, later) =
    (inr (inr i), AsksAudience-more rest o asked later)

audience_options-Asks :
    (audiences : List Bytes) (more : List ParseOption)
    → AsksAudience audiences (audience_options audiences ++ more)
unfolding audience_options
audience_options-Asks [] more = tt
audience_options-Asks ([] ∷ rest) more = (inl refl, audience_options-Asks rest more)
audience_options-Asks ((c ∷ a) ∷ rest) more = (
  inr (inl refl),
  AsksAudience-more rest (ParseOption.with_audience (c ∷ a)) (audience_options rest ++ more)
      (audience_options-Asks rest more),
)

issuer_asked :
    (audiences : List ParseOption) (issuer : Bytes)
    → (issuer ≡ [])
      ⊎ In
          (ParseOption.with_issuer issuer)
          (audiences ++ (if is_empty issuer then [] else ParseOption.with_issuer issuer ∷ []))
issuer_asked audiences [] = inl refl
issuer_asked audiences (c ∷ issuer) = inr (In-append_right _ audiences _ (inl refl))

pub options-Demands : (cfg : AuthConfig) → Demands cfg (options cfg)
unfolding options
options-Demands cfg =
    (audience_options-Asks cfg.audience _, issuer_asked (audience_options cfg.audience) cfg.issuer)

pub Lives-ttl :
    (d : Duration)
    → Lives d (elim d [ pos n ↦ if is_nonpos (pos n) then hour else n | negsuc _ ↦ hour ])
Lives-ttl (pos zero) = refl
Lives-ttl (pos (suc n)) = ground arith
Lives-ttl (negsuc n) = refl
