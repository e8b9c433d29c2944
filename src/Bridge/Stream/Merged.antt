-- ===== src/Bridge/Stream/Merged.antt =====
-- What `Stream` passes on, against the records of all the answers one after another.
use xscope_hub.Prelude.{
  Bytes, Option, none, some, List, [], ◌∷◌, ◌++◌, Outcome, ok, err, Dict, ◌≡◌, refl, sym, ap, ◌∙◌,
  append_assoc, ◌≢◌, subst, map,
}
use xscope_hub.Bridge.Window.{Window}
use xscope_hub.Bridge.Stream.{
  Source, Streamed, End, finished, failed, panicked, Reply, Request, tag, take_line, stream_lines,
  read_reply, requested, stream_type, stream_types, stream, go_on, before, scan_lines, type_request,
  types,
}

module _ {J : Type 0} where
  pub IsPrefix : List (Dict J) → List (Dict J) → Type 0
  IsPrefix xs ys = (zs : List (Dict J)) × (xs ++ zs ≡ ys)

  -- All of `full` where the stream came to its end, and else what stands at its beginning.
  abbrev pub Part : Streamed J → List (Dict J) → Type 0
  Part s full = IsPrefix s.records full × (s.end ≡ finished → s.records ≡ full)

  nothing-Part :
      (e : End) (full : List (Dict J)) → e ≢ finished → Part (record { records = []; end = e }) full
  unfolding IsPrefix
  nothing-Part e full h = ((full, refl), λ q. absurd (h q))

  longer-IsPrefix : (xs ys more : List (Dict J)) → IsPrefix xs ys → IsPrefix xs (ys ++ more)
  unfolding IsPrefix
  longer-IsPrefix xs ys more (zs, e) =
      (zs ++ more, sym (append_assoc xs zs more) ∙ ap (λ l. l ++ more) e)

  behind-IsPrefix :
      (front xs ys : List (Dict J)) → IsPrefix xs ys → IsPrefix (front ++ xs) (front ++ ys)
  unfolding IsPrefix
  behind-IsPrefix front xs ys (zs, e) = (zs, append_assoc front xs zs ∙ ap (λ l. front ++ l) e)

  before-Part :
      (front : List (Dict J)) (s : Streamed J) (full : List (Dict J))
      → Part s full
      → Part (before front s) (front ++ full)
  before-Part front s full (p, h) =
      (behind-IsPrefix front s.records full p, λ q. ap (λ l. front ++ l) (h q))

  go_on-Part :
      (records : List (Dict J)) (e : End) (later : Streamed J) (a b : List (Dict J))
      → Part (record { records = records; end = e }) a
      → Part later b
      → Part (go_on records e later) (a ++ b)
  go_on-Part records finished later a b p q =
      subst (λ l. Part (before records later) (l ++ b)) (p.1 refl) (before-Part records later b q)
  go_on-Part records (failed e) later a b p q = (longer-IsPrefix records a b p.0, λ h. cc h)
  go_on-Part records panicked later a b p q = (longer-IsPrefix records a b p.0, λ h. cc h)

module _ {J : Type 0} (source : Source J) where
  -- The records that the lines of one answer hold, those that are no JSON object passed over.
  abbrev pub keep_line : Outcome Bytes (Option (Dict J)) → List (Dict J) → List (Dict J)
  keep_line (err _) later = later
  keep_line (ok none) later = later
  keep_line (ok (some rec)) later = rec ∷ later

  unfoldable pub kept : List Bytes → List (Dict J)
  kept [] = []
  kept (line ∷ lines) = keep_line (source.decode line) (kept lines)

  abbrev pub lines_of : Outcome Bytes Reply → List Bytes
  lines_of (err _) = []
  lines_of (ok reply) = scan_lines reply.body

  -- The records of one type, with the type and the tenant set.
  abbrev pub of_type : Bytes → Dict Bytes → Bytes → Window → Bytes → List (Dict J)
  of_type endpoint headers tenant w typ =
      map (tag source typ tenant)
        (kept (lines_of (source.send (type_request source endpoint headers w typ))))

  unfoldable pub of_types : Bytes → Dict Bytes → Bytes → Window → List Bytes → List (Dict J)
  unfolding kept
  of_types endpoint headers tenant w [] = []
  of_types endpoint headers tenant w (typ ∷ typs) =
      of_type endpoint headers tenant w typ ++ of_types endpoint headers tenant w typs

  take_line-Part :
      (typ tenant : Bytes) (d : Outcome Bytes (Option (Dict J))) (later : Streamed J)
      (recs : List (Dict J))
      → Part later (map (tag source typ tenant) recs)
      → Part (take_line source typ tenant d later) (map (tag source typ tenant) (keep_line d recs))
  take_line-Part typ tenant (err _) later recs p = p
  take_line-Part typ tenant (ok none) later recs p = nothing-Part panicked _ (λ h. cc h)
  take_line-Part typ tenant (ok (some rec)) later recs p =
      before-Part (tag source typ tenant rec ∷ []) later _ p

  stream_lines-Part :
      (typ tenant : Bytes) (lines : List Bytes)
      → Part (stream_lines source typ tenant lines) (map (tag source typ tenant) (kept lines))
  unfolding kept stream_lines IsPrefix
  stream_lines-Part typ tenant [] = (([], refl), λ _. refl)
  stream_lines-Part typ tenant (line ∷ lines) =
      take_line-Part typ tenant (source.decode line) _ _ (stream_lines-Part typ tenant lines)

  read_reply-Part :
      (typ tenant : Bytes) (o : Outcome Bytes Reply)
      → Part (read_reply source typ tenant o) (map (tag source typ tenant) (kept (lines_of o)))
  read_reply-Part typ tenant (err e) = nothing-Part (failed e) _ (λ h. cc h)
  read_reply-Part typ tenant (ok reply) = stream_lines-Part typ tenant (scan_lines reply.body)

  requested-Part :
      (typ tenant : Bytes) (refused : Option Bytes) (req : Request)
      → Part
          (requested source typ tenant refused req)
          (map (tag source typ tenant) (kept (lines_of (source.send req))))
  requested-Part typ tenant none req = read_reply-Part typ tenant (source.send req)
  requested-Part typ tenant (some e) req = nothing-Part (failed e) _ (λ h. cc h)

  stream_types-Part :
      (endpoint : Bytes) (headers : Dict Bytes) (tenant : Bytes) (w : Window) (typs : List Bytes)
      → Part
          (stream_types source endpoint headers tenant w typs)
          (of_types endpoint headers tenant w typs)
  unfolding stream_types stream_type of_types IsPrefix
  stream_types-Part endpoint headers tenant w [] = (([], refl), λ _. refl)
  stream_types-Part endpoint headers tenant w (typ ∷ typs) =
      go_on-Part _ _ _ _ _ (requested-Part typ tenant _ _)
        (stream_types-Part endpoint headers tenant w typs)

  pub stream-Merged :
      (endpoint : Bytes) (headers : Dict Bytes) (tenant : Bytes) (w : Window)
      → Part (stream source endpoint headers tenant w) (of_types endpoint headers tenant w types)
  unfolding stream IsPrefix
  stream-Merged [] headers tenant w = nothing-Part (failed _) _ (λ h. cc h)
  stream-Merged (c ∷ endpoint) headers tenant w =
      stream_types-Part (c ∷ endpoint) headers tenant w types
