-- ===== src/Bridge/Stream/Labels.antt =====
-- The type and the tenant that `Stream` writes into a record.
use mathlib.Core.List.{map-append}
use xscope_hub.Prelude.{
  Bytes, codes, Option, none, some, List, [], ◌∷◌, Outcome, ok, err, Dict, insert, same_refl, ◌≡◌,
  refl, sym, ap, is_empty, false, map, arith, subst,
}
use xscope_hub.Bridge.Window.{Window}
use xscope_hub.Bridge.Stream.{
  Source, Streamed, End, finished, failed, panicked, Reply, Request, tag, typed, take_line,
  stream_lines, read_reply, requested, stream_type, stream_types, stream, go_on, before, scan_lines,
  search_url, type_request, types,
}

insert-insert :
    {J : Type 0} (k : Bytes) (v w : J) (m : Dict J) → insert k v (insert k w m) ≡ insert k v m
unfolding insert
insert-insert k v w [] = ground (arith, same_refl k)
insert-insert k v w ((j, u) ∷ m) = ground (arith, same_refl k, insert-insert k v w m)

module _ {J : Type 0} (source : Source J) where
  abbrev pub relabel : Bytes → Dict J → Dict J
  relabel tenant rec = insert (codes "tenant") (source.text tenant) rec

  -- The second stream is the first with another tenant in each record.
  abbrev pub Relabelled : Bytes → Streamed J → Streamed J → Type 0
  Relabelled tenant s t = (t.records ≡ map (relabel tenant) s.records) × (t.end ≡ s.end)

  tag-relabel :
      (typ a b : Bytes) (rec : Dict J)
      → is_empty a ≡ false
      → is_empty b ≡ false
      → tag source typ b rec ≡ relabel b (tag source typ a rec)
  unfolding tag
  tag-relabel typ a b rec ha hb = rw (
    ha,
    hb,
    insert-insert (codes "tenant") (source.text b) (source.text a) (typed source typ rec),
  )

  module _ (a b : Bytes) (a_given : is_empty a ≡ false) (b_given : is_empty b ≡ false) where
    before-Relabelled :
        (recs recs' : List (Dict J)) (s t : Streamed J)
        → recs' ≡ map (relabel b) recs
        → Relabelled b s t
        → Relabelled b (before recs s) (before recs' t)
    before-Relabelled recs recs' s t e (h, q) =
        (rw (e, h, map-append (relabel b) recs s.records), q)

    take_line-Relabelled :
        (typ : Bytes) (d : Outcome Bytes (Option (Dict J))) (s t : Streamed J)
        → Relabelled b s t
        → Relabelled b (take_line source typ a d s) (take_line source typ b d t)
    take_line-Relabelled typ (err _) s t h = h
    take_line-Relabelled typ (ok none) s t h = (refl, refl)
    take_line-Relabelled typ (ok (some rec)) s t h =
        before-Relabelled (tag source typ a rec ∷ []) (tag source typ b rec ∷ []) s t
          (ap (λ r. r ∷ []) (tag-relabel typ a b rec a_given b_given)) h

    stream_lines-Relabelled :
        (typ : Bytes) (lines : List Bytes)
        → Relabelled b (stream_lines source typ a lines) (stream_lines source typ b lines)
    unfolding stream_lines
    stream_lines-Relabelled typ [] = (refl, refl)
    stream_lines-Relabelled typ (line ∷ lines) =
        take_line-Relabelled typ (source.decode line) _ _ (stream_lines-Relabelled typ lines)

    read_reply-Relabelled :
        (typ : Bytes) (o : Outcome Bytes Reply)
        → Relabelled b (read_reply source typ a o) (read_reply source typ b o)
    read_reply-Relabelled typ (err e) = (refl, refl)
    read_reply-Relabelled typ (ok reply) = stream_lines-Relabelled typ (scan_lines reply.body)

    requested-Relabelled :
        (typ : Bytes) (refused : Option Bytes) (req : Request)
        → Relabelled b (requested source typ a refused req) (requested source typ b refused req)
    requested-Relabelled typ (some e) req = (refl, refl)
    requested-Relabelled typ none req = read_reply-Relabelled typ (source.send req)

    go_on-Relabelled :
        (recs recs' : List (Dict J)) (e : End) (s t : Streamed J)
        → recs' ≡ map (relabel b) recs
        → Relabelled b s t
        → Relabelled b (go_on recs e s) (go_on recs' e t)
    go_on-Relabelled recs recs' finished s t q h = before-Relabelled recs recs' s t q h
    go_on-Relabelled recs recs' (failed e) s t q h = (q, refl)
    go_on-Relabelled recs recs' panicked s t q h = (q, refl)

    stream_types-Relabelled :
        (endpoint : Bytes) (headers : Dict Bytes) (w : Window) (typs : List Bytes)
        → Relabelled b
            (stream_types source endpoint headers a w typs)
            (stream_types source endpoint headers b w typs)
    unfolding stream_types stream_type
    stream_types-Relabelled endpoint headers w [] = (refl, refl)
    stream_types-Relabelled endpoint headers w (typ ∷ typs) =
        let later = stream_types source endpoint headers a w typs in
        let later' = stream_types source endpoint headers b w typs in
        let s = stream_type source endpoint headers a w typ in
        let t = stream_type source endpoint headers b w typ in
        let here =
          requested-Relabelled typ (source.refused_url (search_url endpoint typ w))
            (type_request source endpoint headers w typ) in
        subst (λ e. Relabelled b (go_on s.records s.end later) (go_on t.records e later'))
          (sym here.1)
          (go_on-Relabelled s.records t.records s.end _ _ here.0
            (stream_types-Relabelled endpoint headers w typs))

    -- What Stream passes on for one tenant is what it passes on for any other, each record with the
    -- one tenant written over the other: the window's requests do not name a tenant.
    pub stream-Relabelled :
        (endpoint : Bytes) (headers : Dict Bytes) (w : Window)
        → Relabelled b (stream source endpoint headers a w) (stream source endpoint headers b w)
    unfolding stream
    stream-Relabelled [] headers w = (refl, refl)
    stream-Relabelled (c ∷ endpoint) headers w =
        stream_types-Relabelled (c ∷ endpoint) headers w types
