-- ===== src/Gateway/Server/Origins.antt =====
-- Where an answer comes from that the gateway takes from its cache. `over` is the outside at one
-- moment, with the store that all of the moments share.
use xscope_hub.Prelude.{
  Bytes, none, some, List, [], ◌∷◌, Outcome, ok, ◌≡◌, ◌⊎◌, inl, inr, refl, sym, ap, subst, ◌∙◌, ℤ,
  Duration, length, pos, Bool-cases, err,
}
use xscope_hub.Gateway.Query.{Request}
use xscope_hub.Gateway.Backend.{Result}
use xscope_hub.Gateway.Cache
use xscope_hub.Gateway.Cache.{Ristretto, Cache, CacheConfig, StoreConfig, on, off, with_ttl}
use xscope_hub.Gateway.Server.{
  Outside, Server, Reply, HttpRequest, response, dispatch, handle_query,
}
use xscope_hub.Gateway.Server.Answers.{Admitted, Served, key_of, handle_query-Served}
use xscope_hub.Gateway.Server.Parts.{Alike, same_key}

-- What ristretto promises: a new store has nothing, and a store that is given a value under a key gives
-- that value under it or what it gave before. It may forget at any time.
pub record Lawful (R : Ristretto) : Type 0 where
  pub fresh :
      (cfg : StoreConfig) (s : R.S) → R.new_cache cfg ≡ ok s → (k : Bytes) → R.get s k ≡ none
  pub kept :
      (k v : Bytes) (cost : ℤ) (ttl : Duration) (s : R.S) (j p : Bytes)
      → R.get (R.set_with_ttl k v cost ttl s) j ≡ some p
      → ((j ≡ k) × (p ≡ v)) ⊎ (R.get s j ≡ some p)

module _ (R : Ristretto) where
  abbrev pub over : Outside → Outside
  over out = record out { store = R }

  -- A request, with the outside when it came.
  pub record Moment : Type 1 where
    pub out : Outside
    pub request : HttpRequest

  -- The caches that any number of requests leave, with the requests, the last one first. Between them
  -- the store may forget.
  pub data Cached : Cache R → List {1} Moment → Type 1 where
    at_start : (cfg : CacheConfig) (c : Cache R) → Cache.new_cache R cfg ≡ ok c → Cached c []
    by_request :
        (m : Moment) (s : Server (over m.out)) (ms : List {1} Moment)
        → Cached s.cache ms
        → Cached (handle_query (over m.out) m.request s).1.cache (m ∷ ms)
    forgets :
        (c c' : Cache R) (ms : List {1} Moment)
        → Cached c ms
        → ((k p : Bytes) → Cache.get R c' k ≡ some p → Cache.get R c k ≡ some p)
        → Cached c' ms

  -- At one of the moments the back end gave a result whose encoding is the body, to a request that was
  -- admitted then and whose key is the key.
  pub data Known (k p : Bytes) : List {1} Moment → Type 1 where
    now :
        (m : Moment) (ms : List {1} Moment) (l : m.out.L) (tenant : Bytes) (req : Request)
        (result : Result)
        → Admitted (over m.out) m.request l tenant req
        → dispatch (over m.out) tenant req ≡ ok result
        → m.out.encode_response (response (over m.out) tenant req result) ≡ ok p
        → key_of (over m.out) m.request tenant req ≡ k
        → Known k p (m ∷ ms)
    earlier : (m : Moment) (ms : List {1} Moment) → Known k p ms → Known k p (m ∷ ms)

  -- At one of the moments the back end gave a result whose encoding is the body, to a request that was
  -- admitted then and is alike.
  pub data From (tenant : Bytes) (req : Request) (p : Bytes) : List {1} Moment → Type 1 where
    given :
        (m : Moment) (ms : List {1} Moment) (l : m.out.L) (tenant' : Bytes) (req' : Request)
        (result : Result)
        → Admitted (over m.out) m.request l tenant' req'
        → dispatch (over m.out) tenant' req' ≡ ok result
        → m.out.encode_response (response (over m.out) tenant' req' result) ≡ ok p
        → Alike tenant req tenant' req'
        → From tenant req p (m ∷ ms)
    before : (m : Moment) (ms : List {1} Moment) → From tenant req p ms → From tenant req p (m ∷ ms)

  abbrev Knows : Cache R → List {1} Moment → Type 1
  Knows c ms = (k p : Bytes) → Cache.get R c k ≡ some p → Known k p ms

  set_gives :
      (c : Cache R) (k v : Bytes) (cost : ℤ) (j p : Bytes)
      → Lawful R
      → Cache.get R (Cache.set R k v cost c) j ≡ some p
      → ((j ≡ k) × (p ≡ v)) ⊎ (Cache.get R c j ≡ some p)
  unfolding Cache.get Cache.set
  set_gives off k v cost j p law e = cc e
  set_gives (on ttl s) k v cost j p law e = law.kept k v _ ttl s j p e

  made_empty :
      (ttl : Duration) (cfg : StoreConfig) (o : Outcome Bytes R.S) (c : Cache R) (k : Bytes)
      → Lawful R
      → R.new_cache cfg ≡ o
      → with_ttl R ttl o ≡ ok c
      → Cache.get R c k ≡ none
  unfolding Cache.get
  made_empty ttl cfg (ok s) c k law made e =
      let is : on ttl s ≡ c = cc e in
      subst (λ d. Cache.get R d k ≡ none) is (law.fresh cfg s made k)
  made_empty ttl cfg (err m) c k law made e = cc e

  new_empty :
      (cfg : CacheConfig) (c : Cache R) (k : Bytes)
      → Lawful R
      → Cache.new_cache R cfg ≡ ok c
      → Cache.get R c k ≡ none
  unfolding Cache.new_cache Cache.get
  new_empty cfg c k law e = elim (Bool-cases cfg.enabled) [
    | inl enabled ↦ made_empty _ _ _ c k law refl (rw (enabled) at e)
    | inr disabled ↦
        let is : off ≡ c = cc (rw (disabled) at e) in subst (λ d. Cache.get R d k ≡ none) is refl
  ]

  module _ (m : Moment) (ms : List {1} Moment) where
    same-Knows : (c c' : Cache R) → c' ≡ c → Knows c ms → Knows c' (m ∷ ms)
    same-Knows c c' same h k p e =
        earlier m ms (h k p (subst (λ d. Cache.get R d k ≡ some p) same e))

    step-Knows :
        (s : Server (over m.out)) (x : Reply × Server (over m.out))
        → Lawful R
        → Served (over m.out) m.request s.deps s x
        → Knows s.cache ms
        → Knows x.1.cache (m ∷ ms)
    step-Knows s (reply, s') law (_, inl (_, same, _)) h = same-Knows s.cache s'.cache same h
    step-Knows s (reply, s') law (_, inr (tenant, req, inl (_, _, _, same, _))) h =
        same-Knows s.cache s'.cache same h
    step-Knows s (reply, s') law (_, inr (tenant, req, inr (_, _, _, inr (_, same)))) h =
        same-Knows s.cache s'.cache same h
    step-Knows s (reply, s') law
          (_, inr (tenant, req, inr (admitted, _, _, inl (result, done, encoded, _, stored)))) h =
        λ k p e.
          elim (set_gives s.cache (key_of (over m.out) m.request tenant req) reply.body
            (pos (length reply.body)) k p law (subst (λ d. Cache.get R d k ≡ some p) stored e)) [
              | inl (key, body) ↦
                  now m ms s.deps tenant req result admitted done
                    (encoded ∙ ap (λ b. ok b) (sym body)) (sym key)
              | inr old ↦ earlier m ms (h k p old)
            ]

  Cached-Knows : {c : Cache R} {ms : List {1} Moment} → Lawful R → Cached c ms → Knows c ms
  Cached-Knows law (at_start cfg c made) = λ k p e. absurd (cc (new_empty cfg c k law made, e))
  Cached-Knows law (by_request m s ms reached) =
      step-Knows m ms s (handle_query (over m.out) m.request s) law
        (handle_query-Served (over m.out) m.request s) (Cached-Knows law reached)
  Cached-Knows law (forgets c c' ms reached less) =
      λ k p e. Cached-Knows law reached k p (less k p e)

  module _ (m : Moment) (l : m.out.L) (tenant : Bytes) (req : Request)
      (admitted : Admitted (over m.out) m.request l tenant req) where
    From-of-Known :
        (p : Bytes) {ms : List {1} Moment}
        → Known (key_of (over m.out) m.request tenant req) p ms
        → From tenant req p ms
    From-of-Known p (now m' ms l' tenant' req' result admitted' done encoded key) =
        given m' ms l' tenant' req' result admitted' done encoded (
          same_key m.out.format_time m'.out.format_time req req' tenant tenant' admitted.2
            admitted'.2 (sym key))
    From-of-Known p (earlier m' ms known) = before m' ms (From-of-Known p known)

  -- An answer with a success, and where it is from.
  abbrev pub Answered : (m : Moment) → m.out.L → List {1} Moment → Reply → Type 1
  Answered m l ms reply =
      (tenant : Bytes) × (req : Request) × (Admitted (over m.out) m.request l tenant req
        × From tenant req reply.body (m ∷ ms))

  Served-Answered :
      (m : Moment) (ms : List {1} Moment) (s : Server (over m.out))
      (x : Reply × Server (over m.out))
      → Served (over m.out) m.request s.deps s x
      → Knows s.cache ms
      → x.0.status ≡ 200
      → Answered m s.deps ms x.0
  Served-Answered m ms s (reply, s') (_, inl (fails, _, _)) h success = absurd (fails success)
  Served-Answered m ms s (reply, s') (_, inr (tenant, req, inl (admitted, found, _, _, _))) h
        success =
      (
        tenant,
        req,
        (
          admitted,
          before m ms (From-of-Known m s.deps tenant req admitted reply.body (h _ _ found)),
        ),
      )
  Served-Answered m ms s (reply, s') (_, inr (tenant, req, inr (_, _, _, inr (fails, _)))) h
        success =
      absurd (fails success)
  Served-Answered m ms s (reply, s')
        (_, inr (tenant, req, inr (admitted, _, _, inl (result, done, encoded, _, _)))) h success =
      (
        tenant,
        req,
        (
          admitted,
          From-of-Known m s.deps tenant req admitted reply.body
              (now m ms s.deps tenant req result admitted done encoded refl),
        ),
      )

  -- Over any number of requests, whatever the outside answers to each and whatever the store forgets: an
  -- answer with a success is to an admitted request, and its body encodes a result that the back end
  -- gave to that request or to an earlier one that was admitted too, which had the same language,
  -- query and tenant unless a query or a tenant of the two has a `|`.
  pub handle_query-Answered :
      (law : Lawful R) (m : Moment) (ms : List {1} Moment) (s : Server (over m.out))
      → Cached s.cache ms
      → (handle_query (over m.out) m.request s).0.status ≡ 200
      → Answered m s.deps ms (handle_query (over m.out) m.request s).0
  handle_query-Answered law m ms s reached success =
      Served-Answered m ms s (handle_query (over m.out) m.request s)
        (handle_query-Served (over m.out) m.request s) (Cached-Knows law reached) success
