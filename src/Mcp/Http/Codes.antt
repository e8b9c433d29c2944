-- ===== src/Mcp/Http/Codes.antt =====
-- When each error code is given, and over HTTP each status.
use xscope_hub.Prelude.{
  Bytes, codes, true, false, Option, none, some, List, [], ◌∷◌, Outcome, ok, err, is_ok, ◌++◌, sym,
  subst, ◌≡◌, refl, ◌⊎◌, inl, inr, same, same_iff, All, Bool-cases, ap, ◌∙◌,
}
use xscope_hub.Mcp.Registry.{Registry, resource, invoke_tool}
use xscope_hub.Mcp.Server.{
  Request, Error, Codec, method_not_found, invalid_params, server_error, checked_params,
  decode_params, failed_call, and_then, or_empty, handle,
}

-- The parameters are missing or cannot be decoded.
abbrev pub Undecoded : {A : Type 0} → (Bytes → Outcome Bytes A) → Option Bytes → Type 0
Undecoded decode none = Unit
Undecoded decode (some raw) = is_ok (decode raw) ≡ false

-- The parameters are decoded.
abbrev pub Decoded : {A : Type 0} → (Bytes → Outcome Bytes A) → Option Bytes → A → Type 0
Decoded decode none a = ⊥
Decoded decode (some raw) a = decode raw ≡ ok a

checked_params-cases :
    {A : Type 0} (o : Outcome Bytes A)
    → ((a : A) × (checked_params o ≡ ok a) × (o ≡ ok a))
      ⊎ ((e : Error) × (checked_params o ≡ err e) × (e.code ≡ invalid_params) × (is_ok o ≡ false))
checked_params-cases (ok a) = inl (a, refl, refl)
checked_params-cases (err e) = inr (_, refl, refl, refl)

decode_params-cases :
    {A : Type 0} (decode : Bytes → Outcome Bytes A) (params : Option Bytes)
    → ((a : A) × (decode_params decode params ≡ ok a) × Decoded decode params a)
      ⊎ ((e : Error) × (decode_params decode params ≡ err e)
          × (e.code ≡ invalid_params)
          × Undecoded decode params)
unfolding decode_params
decode_params-cases decode none = inr (_, refl, refl, tt)
decode_params-cases decode (some raw) = checked_params-cases (decode raw)

-- What a call that needs parameters does with an error.
pub data CallFails {A B : Type 0} (decode : Bytes → Outcome Bytes A) (run : A → Outcome Bytes B)
    (params : Option Bytes) (e : Error) : Type 0 where
  bad_params : e.code ≡ invalid_params → Undecoded decode params → CallFails decode run params e
  call_failed :
      (a : A)
      → e.code ≡ server_error
      → Decoded decode params a
      → run a ≡ err e.message
      → CallFails decode run params e

module _ {A B J : Type 0} (decode : Bytes → Outcome Bytes A) (run : A → Outcome Bytes B)
    (show : B → J) where
  run_fails :
      (a : A) (params : Option Bytes) (o : Outcome Bytes B) (e : Error)
      → run a ≡ o
      → Decoded decode params a
      → and_then (failed_call o) (λ b. Outcome.ok (show b)) ≡ err e
      → CallFails decode run params e
  run_fails a params (ok b) e is d h = cc h
  run_fails a params (err x) e is d h =
      let e_is : record { code = server_error; message = x } ≡ e = cc h in
      call_failed a (sym (ap (λ (y : Error). y.code) e_is)) d
        (is ∙ ap (λ (y : Error). err y.message) e_is)

  call_fails :
      (params : Option Bytes) (e : Error)
      → and_then
          (decode_params decode params)
          (λ a. and_then (failed_call (run a)) (λ b. Outcome.ok (show b)))
        ≡ err e
      → CallFails decode run params e
  call_fails params e h = elim (decode_params-cases decode params) [
    | inl (a, is, d) ↦ run_fails a params (run a) e refl d (rw (is) at h)
    | inr (x, is, code, u) ↦
        let same_error : Outcome.err x ≡ err e = rw (is) at h in
        let error_is : x ≡ e = cc same_error in
        bad_params (subst (λ (y : Error). y.code ≡ invalid_params) error_is code) u
  ]

abbrev pub methods : List Bytes
methods =
    codes "resources/list"
    ∷ codes "resources/get"
    ∷ codes "tools/list"
    ∷ codes "tools/call"
    ∷ codes "manifest/get"
    ∷ []

module _ (J : Type 0) (codec : Codec J) (registry : Registry J) where
  -- Why a request is answered with an error: its method is none of the five, or it is a call whose
  -- parameters cannot be decoded or to which the registry gives an error, with the code of each.
  pub data Fails (req : Request J) (e : Error) : Type 0 where
    unknown_method :
        e.code ≡ method_not_found → All (λ m. same req.method m ≡ false) methods → Fails req e
    bad_resource :
        req.method ≡ codes "resources/get"
        → CallFails codec.decode_name (λ name. resource J name registry) req.params e
        → Fails req e
    bad_tool :
        req.method ≡ codes "tools/call"
        → CallFails codec.decode_call
            (λ call. invoke_tool J call.0 (or_empty J codec registry call.1) registry)
            req.params
            e
        → Fails req e

  is_method : (s t : Bytes) → same s t ≡ true → s ≡ t
  is_method s t h = (same_iff s t).0 h

  abbrev refusal : Bytes → Outcome Error J
  refusal method = err (record {
    code = method_not_found;
    message = codes "method " ++ method ++ codes " not found";
  })

  refused_code : (method : Bytes) (e : Error) → refusal method ≡ err e → e.code ≡ method_not_found
  refused_code method e h =
      let is : record {
        code = method_not_found;
        message = codes "method " ++ method ++ codes " not found";
      }
          ≡ e =
        cc h in
      sym (ap (λ (y : Error). y.code) is)

  -- An error that a request is answered with has the code -32601 exactly where the method is none of
  -- the five, -32602 where the parameters of a call cannot be decoded, and -32000 with the registry's
  -- text where the registry gives an error.
  pub handle-Fails :
      (req : Request J) (e : Error) → handle J codec registry req ≡ err e → Fails req e
  unfolding handle
  handle-Fails req e h = elim (Bool-cases (same req.method (codes "resources/list"))) [
    | inl a ↦ cc (rw (a) at h)
    | inr a ↦ elim (Bool-cases (same req.method (codes "resources/get"))) [
      | inl b ↦ bad_resource (is_method _ _ b) (
          call_fails codec.decode_name (λ name. resource J name registry) codec.resource_json
            req.params e (rw (a, b) at h))
      | inr b ↦ elim (Bool-cases (same req.method (codes "tools/list"))) [
        | inl c ↦ cc (rw (a, b, c) at h)
        | inr c ↦ elim (Bool-cases (same req.method (codes "tools/call"))) [
          | inl d ↦ bad_tool (is_method _ _ d) (
              call_fails codec.decode_call
                (λ call. invoke_tool J call.0 (or_empty J codec registry call.1) registry)
                codec.tool_json req.params e (rw (a, b, c, d) at h))
          | inr d ↦ elim (Bool-cases (same req.method (codes "manifest/get"))) [
            | inl f ↦ cc (rw (a, b, c, d, f) at h)
            | inr f ↦
                unknown_method (refused_code req.method e (rw (a, b, c, d, f) at h))
                  (a, (b, (c, (d, (f, tt)))))
          ]
        ]
      ]
    ]
  ]
