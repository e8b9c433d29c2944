-- ===== src/Case/Repository/Outcomes.antt =====
-- How a call of `Transition` ends where no call to the server fails.
use xscope_hub.Prelude.{
  ◌+◌, is_empty, true, false, none, some, [], Outcome, ok, err, ◌≡◌, ◌⊎◌, inl, inr, refl, sym, ap,
  ◌∙◌, ℤ, pos, eq_ℤ, eq_ℤ_iff, Bool-cases, subst,
}
use xscope_hub.Workflow.State
use xscope_hub.Workflow.State.{State}
use xscope_hub.Workflow.Decide.{DecideError, TransitionIntent, decide}
use xscope_hub.Workflow.Steps.{Step, Step-of-decide}
use xscope_hub.Workflow.Refusals.{Allowed, Refusal, not-Allowed, decide-Refusal}
use xscope_hub.Case.Tables.{OpsCase, find_case, find_idempotency}
use xscope_hub.Case.Session.{RepoError, World, no_rows, refused}
use xscope_hub.Case.Repository.{Codec, Call, TransitionArgs, version_conflicts, transition_call}
use xscope_hub.Case.Repository.Calls.{Ends, transition_call-Ends}
use xscope_hub.Case.Repository.Calm.{transition_stale, transition_refused}
use xscope_hub.Case.Repository.Success.{WritesJson, transition_succeeds}

-- The version that is asked for is none, written 0, or the row's.
abbrev pub Fits : ℤ → OpsCase → Type 0
Fits want c = (want ≡ pos 0) ⊎ (want ≡ pos c.version)

conflict-or-Fits :
    (want : ℤ) (c : OpsCase)
    → ((version_conflicts want c ≡ false) × Fits want c)
      ⊎ ((version_conflicts want c ≡ true) × ¬ Fits want c)
conflict-or-Fits want c = elim (Bool-cases (eq_ℤ want (pos 0))) [
  | inl zero ↦ inl (rw (zero) refl, inl ((eq_ℤ_iff want (pos 0)).0 zero))
  | inr other ↦ elim (Bool-cases (eq_ℤ (pos c.version) want)) [
    | inl same ↦ inl (rw (other, same) refl, inr (sym ((eq_ℤ_iff (pos c.version) want).0 same)))
    | inr stale ↦ inr (
      rw (other, stale) refl,
      λ f. elim f [
        | inl is ↦ cc (other, (eq_ℤ_iff want (pos 0)).1 is)
        | inr is ↦ cc (stale, (eq_ℤ_iff (pos c.version) want).1 (sym is))
      ],
    )
  ]
]

module _ (codec : Codec) (call : Call) (laws : WritesJson codec call.pg) (args : TransitionArgs)
    (w : World) (current : OpsCase) where
  -- The row comes back in the state that the event leads to, one version later.
  abbrev pub Stepped : Outcome RepoError OpsCase → Type 0
  Stepped (ok row) =
      (to : State) × Step args.ctx (State.of_text current.status) args.event to
      × (row.status ≡ State.to_text to)
      × (row.version ≡ current.version + 1)
  Stepped (err e) = ⊥

  abbrev pub Refused : Outcome RepoError OpsCase → Type 0
  Refused r =
      (e : DecideError) × (r ≡ err (refused e))
      × Refusal (State.of_text current.status) args.event e
      × ¬ Allowed args.ctx (State.of_text current.status) args.event

  abbrev pub Decided : Outcome RepoError OpsCase → Type 0
  Decided r =
      (Fits args.if_match current × (Stepped r ⊎ Refused r))
      ⊎ (¬ Fits args.if_match current × (r ≡ err no_rows))

  Stepped-of-Ends :
      (row : OpsCase) (w' : World)
      → find_idempotency args.idem_key w.committed.idempotency ≡ none
      → find_case args.case_id (call.others w.committed).cases ≡ some current
      → Ends codec call args w (ok row, w')
      → Stepped (ok row)
  Stepped-of-Ends row w' unseen found (_, inl (r, _)) = absurd (cc (unseen, r.found))
  Stepped-of-Ends row w' unseen found (_, inr m) =
      let same : m.current ≡ current = cc (found, m.found) in
      (
        m.to,
        subst (λ (c : OpsCase). Step args.ctx (State.of_text c.status) args.event m.to) same
            m.legal,
        ap (λ (c : OpsCase). c.status) m.row_is,
        ap (λ (c : OpsCase). c.version) m.row_is ∙ ap (λ (c : OpsCase). c.version + 1) same,
      )

  ended-Stepped :
      (x : Outcome RepoError OpsCase × World) (row : OpsCase) (w' : World)
      → x ≡ (ok row, w')
      → Ends codec call args w x
      → find_idempotency args.idem_key w.committed.idempotency ≡ none
      → find_case args.case_id (call.others w.committed).cases ≡ some current
      → Stepped x.0
  ended-Stepped x row w' is ends unseen found =
      subst (λ (y : Outcome RepoError OpsCase × World). Stepped y.0) (sym is)
        (Stepped-of-Ends row w' unseen found (subst (Ends codec call args w) is ends))

  by_decision :
      w.tx ≡ none
      → w.faults ≡ []
      → find_idempotency args.idem_key w.committed.idempotency ≡ none
      → find_idempotency args.idem_key (call.others w.committed).idempotency ≡ none
      → (is_empty args.idem_key ≡ false → call.pg.is_json args.request ≡ true)
      → find_case args.case_id (call.others w.committed).cases ≡ some current
      → version_conflicts args.if_match current ≡ false
      → (o : Outcome DecideError TransitionIntent)
      → decide (State.of_text current.status) args.event args.ctx (codec.uuid_text current.case_id)
        ≡ o
      → Stepped (transition_call codec call args w).0
        ⊎ Refused (transition_call codec call args w).0
  by_decision closed calm unseen unused json found fresh (ok intent) chosen =
      let legal =
        (Step-of-decide (State.of_text current.status) args.event args.ctx
          (codec.uuid_text current.case_id) chosen).0 in
      let (row, w', is) =
        transition_succeeds codec call laws args w current intent.to calm unseen unused json found
          fresh legal in
      inl (
        ended-Stepped (transition_call codec call args w) row w' is
          (transition_call-Ends codec call args w closed) unseen found)
  by_decision closed calm unseen unused json found fresh (err e) chosen = inr (
    e,
    transition_refused codec call args w current e calm unseen found fresh chosen,
    decide-Refusal (State.of_text current.status) args.event args.ctx
        (codec.uuid_text current.case_id) e chosen,
    not-Allowed (State.of_text current.status) args.event args.ctx (codec.uuid_text current.case_id)
        e chosen,
  )

  -- Where the server takes what the encoding writes as JSON and no call to it fails: a transition, made
  -- outside a transaction, of a case that exists, whose key is not in use and whose request is JSON
  -- unless the key is empty, ends in one of three ways. The version asked for is none, written 0, or
  -- the row's, the event leads on in its context, and the row comes back in the new state, one version
  -- later; or such a version is asked for, the event does not lead on, and the error says whether it
  -- would in another context; or another version is asked for, and the error is ErrNoRows.
  pub transition_call-Decided :
      w.tx ≡ none
      → w.faults ≡ []
      → find_idempotency args.idem_key w.committed.idempotency ≡ none
      → find_idempotency args.idem_key (call.others w.committed).idempotency ≡ none
      → (is_empty args.idem_key ≡ false → call.pg.is_json args.request ≡ true)
      → find_case args.case_id (call.others w.committed).cases ≡ some current
      → Decided (transition_call codec call args w).0
  transition_call-Decided closed calm unseen unused json found =
      elim (conflict-or-Fits args.if_match current) [
        | inr (stale, misfit) ↦
            inr (misfit, transition_stale codec call args w current calm unseen found stale)
        | inl (fresh, fits) ↦
            inl (fits, by_decision closed calm unseen unused json found fresh _ refl)
      ]
