-- ===== src/Mcp/Server/Answers.antt =====
-- The shape of the answers.
use xscope_hub.Prelude.{codes, none, some, Outcome, ok, err, ◌≡◌, ◌⊎◌, inl, inr, refl}
use xscope_hub.Mcp.Registry.{Registry}
use xscope_hub.Mcp.Server.{Request, Response, Error, Codec, respond, handle, handle_request}

-- A result and no error, or an error and no result.
abbrev pub HasOne : {J : Type 0} → Response J → Type 0
HasOne {J} r =
    ((x : J) × (r.result ≡ some x) × (r.error ≡ none))
    ⊎ ((e : Error) × (r.error ≡ some e) × (r.result ≡ none))

module _ (J : Type 0) (codec : Codec J) (registry : Registry J) where
  abbrev pub Answers : Request J → Response J → Type 0
  Answers req r = (r.jsonrpc ≡ codes "2.0") × (r.id ≡ req.id) × HasOne r

  respond-Answers :
      (req : Request J) (o : Outcome Error J) → Answers req (respond J codec registry req o)
  respond-Answers req (ok x) = (refl, refl, inl (x, refl, refl))
  respond-Answers req (err e) = (refl, refl, inr (e, refl, refl))

  -- Every request is answered under version 2.0 and its own id, with a result and no error or an error
  -- and no result.
  pub handle_request-Answers : (req : Request J) → Answers req (handle_request J codec registry req)
  unfolding handle_request
  handle_request-Answers req = respond-Answers req (handle J codec registry req)
