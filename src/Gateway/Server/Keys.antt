-- ===== src/Gateway/Server/Keys.antt =====
-- The keys of the cache: one text of which the parts are not marked off.
use xscope_hub.Prelude.{Bytes, codes, List, [], ◌∷◌, ◌++◌, ◌≡◌, refl, ap, append_assoc, Time}
use xscope_hub.Gateway.Text.{join, to_lower}
use xscope_hub.Gateway.Query.{Request}
use xscope_hub.Gateway.Server.{build_cache_key}

join-cons-cons :
    (p q : Bytes) (ps : List Bytes) (sep : Bytes)
    → join (p ∷ q ∷ ps) sep ≡ p ++ sep ++ join (q ∷ ps) sep
unfolding join
join-cons-cons p q ps sep = refl

-- Two parts that stand side by side can be cut anew at a separator.
join-recut :
    (q mid t sep : Bytes) (ps : List Bytes)
    → join ((q ++ sep ++ mid) ∷ t ∷ ps) sep ≡ join (q ∷ (mid ++ sep ++ t) ∷ ps) sep
unfolding join
join-recut q mid t sep [] = simp append_assoc
join-recut q mid t sep (p ∷ ps) = simp append_assoc

-- Whatever the times, the step and the flag: a query that ends in `|` and a text, asked by one tenant,
-- has the key of the shorter query asked by the tenant whose name begins with that text and `|`.
build_cache_key-collides :
    (format_time : Time → Bytes) (req : Request) (query middle tenant : Bytes)
    → build_cache_key format_time (record req { query = query ++ codes "|" ++ middle }) tenant
      ≡ build_cache_key format_time (record req { query = query }) (middle ++ codes "|" ++ tenant)
unfolding build_cache_key join
build_cache_key-collides format_time req query middle tenant =
    ap (λ k. to_lower req.lang ++ codes "|" ++ k) (join-recut query middle tenant (codes "|") _)
