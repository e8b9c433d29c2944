-- ===== src/Gateway/Text.antt =====
-- The functions of Go's `strings` that the translators of observe-gateway call, on byte strings.
-- `trim_space` and `to_lower` act on ASCII, so a text is meant whose other letters have no spaces or
-- capitals. `index` counts bytes.
use xscope_hub.Prelude.{
  ℕ, zero, suc, ◌+◌, ◌-◌, Bytes, Bool, true, false, ◌&&◌, ◌||◌, Option, none, some, List, [], ◌∷◌,
  ◌++◌, if◌then◌else◌, ◌==◌, leb, length, drop, reverse, is_empty,
}

unfoldable pub has_prefix : Bytes → Bytes → Bool
has_prefix [] s = true
has_prefix (c ∷ p) [] = false
has_prefix (c ∷ p) (d ∷ s) = c == d && has_prefix p s

-- `strings.Index`
unfoldable pub index : Bytes → Bytes → Option ℕ
unfolding has_prefix
index sep [] = if is_empty sep then some 0 else none
index sep (c ∷ s) =
    let later = index sep s in
    if has_prefix sep (c ∷ s) then some 0 else elim later [ none ↦ none | some i ↦ some (suc i) ]

abbrev pub contains : Bytes → Bytes → Bool
contains sep s = elim (index sep s) [ none ↦ false | some _ ↦ true ]

abbrev pub cons_fst : ℕ → Bytes × Bytes → Bytes × Bytes
cons_fst c (a, b) = (c ∷ a, b)

-- `strings.SplitN(s, sep, 2)` where `sep` occurs: what stands before and after the first one.
unfoldable pub cut : Bytes → Bytes → Option (Bytes × Bytes)
unfolding has_prefix
cut sep [] = if is_empty sep then some ([], []) else none
cut sep (c ∷ s) =
    let later = cut sep s in
    if has_prefix sep (c ∷ s)
    then some ([], drop (length sep) (c ∷ s))
    else elim later [ none ↦ none | some p ↦ some (cons_fst c p) ]

abbrev pub cons_first : ℕ → List Bytes → List Bytes
cons_first c [] = (c ∷ []) ∷ []
cons_first c (p ∷ ps) = (c ∷ p) ∷ ps

-- `strings.Split`, with how many bytes of a separator are still to be passed over.
unfoldable pub split_from : Bytes → ℕ → Bytes → List Bytes
unfolding has_prefix
split_from sep n [] = [] ∷ []
split_from sep (suc n) (c ∷ s) = split_from sep n s
split_from sep zero (c ∷ s) = elim (has_prefix sep (c ∷ s)) [
  | true ↦ [] ∷ split_from sep (length sep - 1) s
  | false ↦ cons_first c (split_from sep 0 s)
]

abbrev pub split : Bytes → Bytes → List Bytes
split s sep = split_from sep 0 s

unfoldable pub join : List Bytes → Bytes → Bytes
join [] sep = []
join (p ∷ []) sep = p
join (p ∷ q ∷ ps) sep = p ++ sep ++ join (q ∷ ps) sep

-- Tab, line feed, vertical tab, form feed, carriage return and space.
abbrev pub is_space : ℕ → Bool
is_space c = c == 32 || (leb 9 c && leb c 13)

unfoldable pub drop_while : (ℕ → Bool) → Bytes → Bytes
drop_while p [] = []
drop_while p (c ∷ s) = if p c then drop_while p s else c ∷ s

abbrev pub trim_by : (ℕ → Bool) → Bytes → Bytes
trim_by p s = reverse (drop_while p (reverse (drop_while p s)))

abbrev pub trim_space : Bytes → Bytes
trim_space s = trim_by is_space s

-- `"`, a backquote and `'`
abbrev pub is_quote : ℕ → Bool
is_quote c = c == 34 || c == 96 || c == 39

-- The words between white space: `word` is the one that is being read.
unfoldable pub fields_from : Bytes → Bytes → List Bytes
fields_from word [] = if is_empty word then [] else reverse word ∷ []
fields_from word (c ∷ s) = elim (is_space c) [
  | true ↦ if is_empty word then fields_from [] s else reverse word ∷ fields_from [] s
  | false ↦ fields_from (c ∷ word) s
]

abbrev pub fields : Bytes → List Bytes
fields s = fields_from [] s

abbrev pub lower : ℕ → ℕ
lower c = if leb 65 c && leb c 90 then c + 32 else c

unfoldable pub to_lower : Bytes → Bytes
to_lower [] = []
to_lower (c ∷ s) = lower c ∷ to_lower s

-- `strings.ReplaceAll` for a one-byte text.
unfoldable pub replace_all : Bytes → ℕ → Bytes → Bytes
replace_all [] old new_text = []
replace_all (c ∷ s) old new_text =
    let rest = replace_all s old new_text in if c == old then new_text ++ rest else c ∷ rest
