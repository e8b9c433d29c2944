-- ===== src/Gateway/Limiter/Tenants.antt =====
-- What one tenant's requests mean to another's.
use xscope_hub.Prelude.{
  ℕ, Bytes, codes, Bool, true, false, Option, none, some, ◌++◌, ok, ◌≡◌, ◌≢◌, refl, ◌∙◌, ap, same,
  same_iff, lookup, insert, lookup-insert, Dict, Time, Bool-cases, inl, inr,
}
use xscope_hub.Gateway.Limiter.{
  Rate, Limits, Buckets, allow_local, allow_redis, after_local, answer, allow_tenant, bucket_of,
  redis_script, window_ms, at_least_one, to_ℕ, members_of,
}

not_same : (t u : Bytes) → t ≢ u → same t u ≡ false
not_same t u other = elim (Bool-cases (same t u)) [
  | inl e ↦ absurd (other ((same_iff t u).0 e))
  | inr e ↦ e
]

lookup-insert_other :
    {V : Type 0} (t u : Bytes) (v : V) (m : Dict V)
    → same t u ≡ false
    → lookup u (insert t v m) ≡ lookup u m
lookup-insert_other t u v m other = lookup-insert t u v m ∙ rw other refl

module _ (rate : Rate) where
  -- The two states hold the same for a tenant.
  abbrev Agree : Bytes → Buckets rate → Buckets rate → Type 0
  Agree u s s' =
      (lookup u s.buckets ≡ lookup u s'.buckets)
      × (lookup (codes "rate:" ++ u) s.windows ≡ lookup (codes "rate:" ++ u) s'.windows)

  redis-Agree :
      (l : Limits rate) (failure : Option Bytes) (ms : ℕ) (u : Bytes) (s s' : Buckets rate)
      → lookup (codes "rate:" ++ u) s.windows ≡ lookup (codes "rate:" ++ u) s'.windows
      → (allow_redis rate l failure ms u s).0 ≡ (allow_redis rate l failure ms u s').0
  unfolding allow_redis
  redis-Agree l none ms u s s' e = λ i.
      ok
        (redis_script ms (window_ms rate l) (to_ℕ rate (at_least_one rate l.burst))
          (members_of rate (e i))).0
  redis-Agree l (some f) ms u s s' e = refl

  after_local-Agree :
      (l : Limits rate) (failure : Option Bytes) (ms : ℕ) (u : Bytes) (b : Bool)
      (s s' : Buckets rate)
      → lookup (codes "rate:" ++ u) s.windows ≡ lookup (codes "rate:" ++ u) s'.windows
      → (after_local rate l failure ms u b s).0 ≡ (after_local rate l failure ms u b s').0
  unfolding after_local
  after_local-Agree l failure ms u false s s' e = refl
  after_local-Agree l failure ms u true s s' e = elim (Bool-cases l.has_redis) [
    | inl h ↦ rw h (ap (λ r. answer rate r) (redis-Agree l failure ms u s s' e))
    | inr h ↦ rw h refl
  ]

  allow_tenant-Agree :
      (l : Limits rate) (failure : Option Bytes) (now : Time) (ms : ℕ) (u : Bytes)
      (s s' : Buckets rate)
      → Agree u s s'
      → (allow_tenant rate l failure now ms u s).0 ≡ (allow_tenant rate l failure now ms u s').0
  unfolding allow_tenant allow_local
  allow_tenant-Agree l failure now ms u s s' (e, f) =
      after_local-Agree l failure ms u (rate.allow now (bucket_of rate l (lookup u s.buckets))).0
        (allow_local rate l now u s).1 (allow_local rate l now u s').1 f
      ∙ ap
          (λ o.
            (after_local rate l failure ms u (rate.allow now (bucket_of rate l o)).0
              (allow_local rate l now u s').1).0)
          e

  local-Agree :
      (l : Limits rate) (now : Time) (t u : Bytes) (s : Buckets rate)
      → same t u ≡ false
      → Agree u (allow_local rate l now t s).1 s
  unfolding allow_local
  local-Agree l now t u s other = (
    lookup-insert_other t u (rate.allow now (bucket_of rate l (lookup t s.buckets))).1 s.buckets
        other,
    refl,
  )

  redis_other-Agree :
      (l : Limits rate) (failure : Option Bytes) (ms : ℕ) (t u : Bytes) (s : Buckets rate)
      → same t u ≡ false
      → Agree u (allow_redis rate l failure ms t s).1 s
  unfolding allow_redis same
  redis_other-Agree l (some f) ms t u s other = (refl, refl)
  redis_other-Agree l none ms t u s other =
      (refl, lookup-insert_other (codes "rate:" ++ t) (codes "rate:" ++ u) _ s.windows other)

  after_local_other-Agree :
      (l : Limits rate) (failure : Option Bytes) (ms : ℕ) (t u : Bytes) (b : Bool)
      (s : Buckets rate)
      → same t u ≡ false
      → Agree u (after_local rate l failure ms t b s).1 s
  unfolding after_local
  after_local_other-Agree l failure ms t u false s other = (refl, refl)
  after_local_other-Agree l failure ms t u true s other = elim (Bool-cases l.has_redis) [
    | inl h ↦ rw h (redis_other-Agree l failure ms t u s other)
    | inr h ↦ rw h (refl, refl)
  ]

  -- A request of one tenant, at whatever time and whether or not Redis fails in it, changes no answer
  -- that the limiter gives another tenant's request.
  pub allow_tenant-isolated :
      (l : Limits rate) (failure failure' : Option Bytes) (now now' : Time) (ms ms' : ℕ)
      (t u : Bytes) (s : Buckets rate)
      → t ≢ u
      → (allow_tenant rate l failure' now' ms' u (allow_tenant rate l failure now ms t s).1).0
        ≡ (allow_tenant rate l failure' now' ms' u s).0
  unfolding allow_tenant
  allow_tenant-isolated l failure failure' now now' ms ms' t u s differ =
      let other = not_same t u differ in
      let mid = (allow_local rate l now t s).1 in
      let (e, f) = local-Agree l now t u s other in
      let (e', f') =
        after_local_other-Agree l failure ms t u (allow_local rate l now t s).0 mid other in
      allow_tenant-Agree l failure' now' ms' u (allow_tenant rate l failure now ms t s).1 s
        (e' ∙ e, f' ∙ f)
