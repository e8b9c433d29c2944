-- ===== src/Case/Routes/Answers.antt =====
-- What an answer over HTTP says of the tables.
use xscope_hub.Prelude.{
  ℕ, Bytes, none, List, [], ◌∷◌, Outcome, ok, err, ◌≡◌, ◌⊎◌, refl, inl, inr, Bool-cases, ◌&&◌, same,
  ℤ,
}
use xscope_hub.Case.Tables.{OpsCase}
use xscope_hub.Case.Session.{RepoError, no_rows, failed, refused, World}
use xscope_hub.Case.Repository.{Codec, Call, transition_call, create_case_call}
use xscope_hub.Case.Repository.Calls.{Ends, transition_call-Ends}
use xscope_hub.Case.Repository.Creations.{CreationEnds, create_case_call-Ends}
use xscope_hub.Case.Handlers.{
  Wire, HttpCall, error, created, moved, create_args, transition_args, create_case_handler,
  create_bound, create_reply, transition_reply, answered, transition_with_id, transition_bound,
  transition_case,
}
use xscope_hub.Case.Routes.{
  Answer, metrics, text, replied, not_found, replying, Route, serve_routes, register_routes, serve,
}

module _ (wire : Wire) (codec : Codec) (call : Call) (r : HttpCall) (w : World) where
  -- What an error with a status says of the tables.
  abbrev pub Failed : ℕ → World → Type 0
  Failed n w' =
      ((n ≡ 400) × (w' ≡ w))
      ⊎ (((n ≡ 409) ⊎ ((n ≡ 412) ⊎ (n ≡ 500)))
          × ((w'.tx ≡ none) × (w'.committed ≡ call.others w.committed)))

  -- What each answer says.
  abbrev pub Says : Answer × World → Type 0
  Says (metrics, w') = w' ≡ w
  Says (text t, w') = w' ≡ w
  Says (not_found, w') = w' ≡ w
  Says (replied (error n m), w') = Failed n w'
  Says (replied (created row), w') =
      (req : ℤ × Bytes) × ((wire.bind_create r.body ≡ ok req)
        × CreationEnds codec call (create_args wire codec call r req) w (ok row, w'))
  Says (replied (moved row), w') =
      (event : Bytes) × (uid : ℕ) × ((wire.bind_transition r.body ≡ ok event)
        × ((wire.parse_uuid r.id ≡ ok uid)
            × Ends codec call (transition_args r uid event) w (ok row, w')))

  creation-Says :
      (req : ℤ × Bytes) (x : Outcome RepoError OpsCase × World)
      → wire.bind_create r.body ≡ ok req
      → CreationEnds codec call (create_args wire codec call r req) w x
      → Says (replying (answered wire codec call (create_reply wire codec call) x))
  creation-Says req (ok row, w') bound ends = (req, (bound, ends))
  creation-Says req (err e, w') bound ends = inr (inr (inr refl), ends)

  transition-Says :
      (event : Bytes) (uid : ℕ) (x : Outcome RepoError OpsCase × World)
      → wire.bind_transition r.body ≡ ok event
      → wire.parse_uuid r.id ≡ ok uid
      → Ends codec call (transition_args r uid event) w x
      → Says (replying (answered wire codec call (transition_reply wire codec call) x))
  transition-Says event uid (ok row, w') bound parsed ends = (event, uid, (bound, (parsed, ends)))
  transition-Says event uid (err (refused e), w') bound parsed ends = inr (inl refl, ends)
  transition-Says event uid (err no_rows, w') bound parsed ends = inr (inr (inl refl), ends)
  transition-Says event uid (err failed, w') bound parsed ends = inr (inr (inr refl), ends)

  module _ (closed : w.tx ≡ none) where
    create_bound-Says :
        (o : Outcome Bytes (ℤ × Bytes))
        → wire.bind_create r.body ≡ o
        → Says (replying (create_bound wire codec call r o w))
    unfolding create_bound
    create_bound-Says (err e) bound = inl (refl, refl)
    create_bound-Says (ok req) bound =
        creation-Says req (create_case_call codec call (create_args wire codec call r req) w) bound
          (create_case_call-Ends codec call (create_args wire codec call r req) w closed)

    transition_with_id-Says :
        (event : Bytes) (o : Outcome Bytes ℕ)
        → wire.bind_transition r.body ≡ ok event
        → wire.parse_uuid r.id ≡ o
        → Says (replying (transition_with_id wire codec call r event o w))
    unfolding transition_with_id
    transition_with_id-Says event (err e) bound parsed = inl (refl, refl)
    transition_with_id-Says event (ok uid) bound parsed =
        transition-Says event uid (transition_call codec call (transition_args r uid event) w) bound
          parsed (transition_call-Ends codec call (transition_args r uid event) w closed)

    transition_bound-Says :
        (o : Outcome Bytes Bytes)
        → wire.bind_transition r.body ≡ o
        → Says (replying (transition_bound wire codec call r o w))
    unfolding transition_bound
    transition_bound-Says (err e) bound = inl (refl, refl)
    transition_bound-Says (ok event) bound =
        transition_with_id-Says event (wire.parse_uuid r.id) bound refl

  abbrev AllSay : List Route → Type 0
  AllSay [] = Unit {0}
  AllSay (h ∷ hs) = Says (h.handler r w) × AllSay hs

  serve_routes-Says :
      (method path : Bytes) (rs : List Route) → AllSay rs → Says (serve_routes method path rs r w)
  unfolding serve_routes
  serve_routes-Says method path [] _ = refl
  serve_routes-Says method path (p ∷ ps) (here, later) =
      elim (Bool-cases (same p.method method && same p.path path)) [
        | inl hit ↦ rw (hit) here
        | inr miss ↦ rw (miss) (serve_routes-Says method path ps later)
      ]

  -- Whatever calls to the server fail and whatever others commit meanwhile, a request to the agent
  -- leaves all as it was where no route is its own, on a route that is not about cases, and with the
  -- status 400; with the status 409, 412 or 500 nothing of it is in the database; and with a row, its
  -- body and, for a move, its id could be read, and the call of CreateCase or Transition made of it
  -- has stored that row or has answered again what was stored under its key.
  pub serve-Says :
      (method path : Bytes) → w.tx ≡ none → Says (serve wire codec call method path r w)
  unfolding serve register_routes create_case_handler transition_case
  serve-Says method path closed = serve_routes-Says method path (register_routes wire codec call) (
    refl,
    (
      refl,
      (
        create_bound-Says closed (wire.bind_create r.body) refl,
        (transition_bound-Says closed (wire.bind_transition r.body) refl, tt),
      ),
    ),
  )
