-- ===== src/Gateway/Server/Examples.antt =====
-- A query that is asked twice, the second time while the back end is down.
use xscope_hub.Prelude.{
  Bytes, codes, some, [], ◌∷◌, err, ◌≡◌, ◌⊎◌, inl, inr, refl, sym, ℤ, Duration, pos, lookup, insert,
  lookup-insert, same, same_iff, Bool-cases, true,
}
use xscope_hub.Gateway.Backend.{failure}
use xscope_hub.Gateway.Cache
use xscope_hub.Gateway.Cache.{Ristretto, StoreConfig, CacheConfig}
use xscope_hub.Gateway.Server.{Server, handle_query}
use xscope_hub.Gateway.Examples.{keep_all, outside, idle, ask}
use xscope_hub.Gateway.Server.Origins.{
  Lawful, Moment, Cached, at_start, by_request, Answered, handle_query-Answered, over,
}

keeps_values :
    (k v : Bytes) (cost : ℤ) (ttl : Duration) (s : keep_all.S) (j p : Bytes)
    → keep_all.get (keep_all.set_with_ttl k v cost ttl s) j ≡ some p
    → ((j ≡ k) × (p ≡ v)) ⊎ (keep_all.get s j ≡ some p)
keeps_values k v cost ttl s j p e = elim (Bool-cases (same k j)) [
  | inl hit ↦
      let is : some v ≡ some p = rw (lookup-insert k j v s, hit) at e in
      inl (sym ((same_iff k j).0 hit), cc is)
  | inr miss ↦ inr (rw (lookup-insert k j v s, miss) at e)
]

keep_all-Lawful : Lawful keep_all
unfolding lookup
keep_all-Lawful = record { fresh = λ cfg s made k. cc made; kept = keeps_values }

abbrev switched_on : CacheConfig
switched_on = record {
  enabled = true;
  num_counters = pos 100;
  max_cost = pos 100;
  buffer_items = pos 64;
  ttl = pos 60;
}

abbrev first : Moment keep_all
first = record { out = outside; request = ask }

abbrev second : Moment keep_all
second = record {
  out = record outside { prom_ql = λ t r. err (failure (codes "down")) };
  request = ask;
}

-- The server behind the first request, when the second comes.
abbrev warm : Server (over keep_all second.out)
warm = record {
  active_requests = 0;
  cache = (handle_query outside ask idle).1.cache;
  deps = tt;
  audit_log = record { enabled = true; out = [] };
  dispatched = [];
}

idle-Cached : Cached keep_all idle.cache []
unfolding Cache.new_cache
idle-Cached = at_start switched_on idle.cache refl

warm-Cached : Cached keep_all warm.cache (first ∷ [])
warm-Cached = by_request first idle [] idle-Cached

from_cache : (handle_query (over keep_all second.out) ask warm).0.status ≡ 200
unfolding handle_query lookup insert
from_cache = refl

handle_query-Answered_example :
    Answered keep_all second warm.deps
      (first ∷ [])
      (handle_query (over keep_all second.out) ask warm).0
handle_query-Answered_example =
    handle_query-Answered keep_all keep_all-Lawful second (first ∷ []) warm warm-Cached from_cache
