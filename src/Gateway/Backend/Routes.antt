-- ===== src/Gateway/Backend/Routes.antt =====
-- Where a query is sent, and to whom a tenant's data belongs.
use xscope_hub.Prelude.{ℕ, Bytes, some, ok, err, ◌≡◌, ◌⊎◌}
use xscope_hub.Gateway.Query.{Request}
use xscope_hub.Gateway.Backend.{
  Platform, Client, PromFallback, unsupported, Result, query_fallback, query_oo,
}

abbrev pub IsRefusal : ℕ → Type 0
IsRefusal n = (n ≡ 404) ⊎ ((n ≡ 400) ⊎ (n ≡ 501))

module _ (p : Platform) where
  -- OpenObserve answers a query as it is, or refuses it with 404, 400 or 501 and the fallback, which is
  -- configured, answers.
  abbrev pub Routed : Client p → Bytes → Request → Bytes → Result → Type 0
  Routed c tenant req org res =
      (query_oo p c.oo org tenant req ≡ ok res)
      ⊎ ((fb : PromFallback p) × (n : ℕ) × (m : Bytes) × (c.fallback ≡ some fb)
          × (query_oo p c.oo org tenant req ≡ err (unsupported n m))
          × IsRefusal n
          × (query_fallback p fb tenant req ≡ ok res))
