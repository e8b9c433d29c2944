-- ===== src/Gateway/Server/Parts.antt =====
-- The parts of a key of the cache, read back from it.
use xscope_hub.Prelude.{
  Bytes, codes, Bool, true, false, ◌||◌, List, [], ◌∷◌, ◌++◌, ◌≡◌, ◌⊎◌, inl, inr, refl, sym, ap,
  ◌∙◌, Time, none, if◌then◌else◌, ◌==◌, arith, same, same_iff, Bool-cases,
}
use xscope_hub.Gateway.Text.{join, to_lower}
use xscope_hub.Gateway.Query.{Request}
use xscope_hub.Gateway.Server.{build_cache_key, validate}

-- Whether a text has the byte `|`.
unfoldable pub has_bar : Bytes → Bool
has_bar [] = false
has_bar (c ∷ s) = c == 124 || has_bar s

-- What stands before the first `|`, and behind it.
first_part : Bytes → Bytes
first_part [] = []
first_part (c ∷ s) = if c == 124 then [] else c ∷ first_part s

behind : Bytes → Bytes
behind [] = []
behind (c ∷ s) = if c == 124 then s else behind s

first_whole : (s : Bytes) → has_bar s ≡ false → first_part s ≡ s
unfolding has_bar first_part
first_whole [] h = refl
first_whole (c ∷ s) h = ground (arith, first_whole s)

first_cut : (s t : Bytes) → has_bar s ≡ false → first_part (s ++ codes "|" ++ t) ≡ s
unfolding has_bar first_part
first_cut [] t h = refl
first_cut (c ∷ s) t h = ground (arith, first_cut s t)

behind_cut : (s t : Bytes) → has_bar s ≡ false → behind (s ++ codes "|" ++ t) ≡ t
unfolding has_bar behind
behind_cut [] t h = refl
behind_cut (c ∷ s) t h = ground (arith, behind_cut s t)

first-join :
    (p : Bytes) (ps : List Bytes) → has_bar p ≡ false → first_part (join (p ∷ ps) (codes "|")) ≡ p
unfolding join
first-join p [] h = first_whole p h
first-join p (q ∷ ps) h = first_cut p (join (q ∷ ps) (codes "|")) h

behind-join :
    (p q : Bytes) (ps : List Bytes)
    → has_bar p ≡ false
    → behind (join (p ∷ q ∷ ps) (codes "|")) ≡ join (q ∷ ps) (codes "|")
unfolding join
behind-join p q ps h = behind_cut p (join (q ∷ ps) (codes "|")) h

-- Three parts with no `|` can be read back, whatever follows them.
parts_read :
    (l q t l' q' t' : Bytes) (ps ps' : List Bytes)
    → has_bar l ≡ false
    → has_bar q ≡ false
    → has_bar t ≡ false
    → has_bar l' ≡ false
    → has_bar q' ≡ false
    → has_bar t' ≡ false
    → join (l ∷ q ∷ t ∷ ps) (codes "|") ≡ join (l' ∷ q' ∷ t' ∷ ps') (codes "|")
    → (l' ≡ l) × (q' ≡ q) × (t' ≡ t)
parts_read l q t l' q' t' ps ps' hl hq ht hl' hq' ht' e =
    let e1 : join (q ∷ t ∷ ps) (codes "|") ≡ join (q' ∷ t' ∷ ps') (codes "|") =
      sym (behind-join l q (t ∷ ps) hl) ∙ ap behind e ∙ behind-join l' q' (t' ∷ ps') hl' in
    let e2 : join (t ∷ ps) (codes "|") ≡ join (t' ∷ ps') (codes "|") =
      sym (behind-join q t ps hq) ∙ ap behind e1 ∙ behind-join q' t' ps' hq' in
    (
      sym (
          sym (first-join l (q ∷ t ∷ ps) hl) ∙ ap first_part e ∙ first-join l' (q' ∷ t' ∷ ps') hl'),
      sym (sym (first-join q (t ∷ ps) hq) ∙ ap first_part e1 ∙ first-join q' (t' ∷ ps') hq'),
      sym (sym (first-join t ps ht) ∙ ap first_part e2 ∙ first-join t' ps' ht'),
    )

-- The language of a valid request is one of three, in lower case and with no `|`.
valid_lang :
    (req : Request)
    → validate req ≡ none
    → (to_lower req.lang ≡ req.lang) × (has_bar req.lang ≡ false)
unfolding validate to_lower has_bar
valid_lang req h = elim (Bool-cases (same req.lang (codes "promql"))) [
  | inl e ↦ let is = (same_iff req.lang (codes "promql")).0 e in rw is (refl, refl)
  | inr e ↦ elim (Bool-cases (same req.lang (codes "logql"))) [
    | inl e' ↦ let is = (same_iff req.lang (codes "logql")).0 e' in rw is (refl, refl)
    | inr e' ↦ elim (Bool-cases (same req.lang (codes "traceql"))) [
      | inl e'' ↦ let is = (same_iff req.lang (codes "traceql")).0 e'' in rw is (refl, refl)
      | inr e'' ↦ absurd (cc (rw (e, e', e'') at h))
    ]
  ]
]

-- The same language, query and tenant; or a `|` in one of the queries or tenants.
abbrev pub Alike : Bytes → Request → Bytes → Request → Type 0
Alike tenant req tenant' req' =
    ((req'.lang ≡ req.lang) × (req'.query ≡ req.query) × (tenant' ≡ tenant))
    ⊎ ((has_bar req.query ≡ true)
        ⊎ ((has_bar tenant ≡ true) ⊎ ((has_bar req'.query ≡ true) ⊎ (has_bar tenant' ≡ true))))

pub same_key :
    (format_time format_time' : Time → Bytes) (req req' : Request) (tenant tenant' : Bytes)
    → validate req ≡ none
    → validate req' ≡ none
    → build_cache_key format_time req tenant ≡ build_cache_key format_time' req' tenant'
    → Alike tenant req tenant' req'
unfolding build_cache_key
same_key format_time format_time' req req' tenant tenant' valid valid' e =
    elim (Bool-cases (has_bar req.query)) [
      | inl b ↦ inr (inl b)
      | inr hq ↦ elim (Bool-cases (has_bar tenant)) [
        | inl b ↦ inr (inr (inl b))
        | inr ht ↦ elim (Bool-cases (has_bar req'.query)) [
          | inl b ↦ inr (inr (inr (inl b)))
          | inr hq' ↦ elim (Bool-cases (has_bar tenant')) [
            | inl b ↦ inr (inr (inr (inr b)))
            | inr ht' ↦
                let (low, hl) = valid_lang req valid in
                let (low', hl') = valid_lang req' valid' in
                let e' = rw (low, low') at e in
                inl (
                  parts_read req.lang req.query tenant req'.lang req'.query tenant' _ _ hl hq ht hl'
                    hq' ht' e')
          ]
        ]
      ]
    ]
