-- ===== src/Gateway/Translate/Lexed.antt =====
-- A text as SQL reads it: what stands outside of its string literals. Two quotes within a literal, which
-- stand for one, end it and begin it again, which comes to the same here.
use mathlib.Core.List.{reverse-cons}
use xscope_hub.Prelude.{
  ℕ, Bytes, codes, Bool, true, false, not, ◌||◌, List, [], ◌∷◌, ◌++◌, if◌then◌else◌, ◌==◌, ◌≡◌,
  refl, sym, ap, subst, ◌∙◌, Bool-cases, inl, inr, All, All-append, reverse, map,
}
use xscope_hub.Gateway.Text.{replace_all, drop_while, trim_by, join}

-- Whether a literal is open behind a byte.
abbrev pub toggled : Bool → ℕ → Bool
toggled b c = if c == 39 then not b else b

abbrev pub seen : Bool → ℕ → Bytes → Bytes
seen b c rest = if b || c == 39 then rest else c ∷ rest

-- What stands outside of literals, where one is open before the text or not.
unfoldable pub outside : Bool → Bytes → Bytes
outside b [] = []
outside b (c ∷ s) = seen b c (outside (toggled b c) s)

-- Whether a literal is open behind the text.
unfoldable pub is_open : Bool → Bytes → Bool
is_open b [] = b
is_open b (c ∷ s) = is_open (toggled b c) s

abbrev pub NotQuote : ℕ → Type 0
NotQuote c = (c == 39) ≡ false

abbrev pub Unquoted : Bytes → Type 0
Unquoted s = All NotQuote s

seen-append : (b : Bool) (c : ℕ) (s t : Bytes) → seen b c s ++ t ≡ seen b c (s ++ t)
seen-append b c s t = elim (Bool-cases (b || c == 39)) [ inl e ↦ rw (e) refl | inr e ↦ rw (e) refl ]

pub outside-append :
    (b : Bool) (s t : Bytes) → outside b (s ++ t) ≡ outside b s ++ outside (is_open b s) t
unfolding outside is_open
outside-append b [] t = refl
outside-append b (c ∷ s) t =
    ap (seen b c) (outside-append (toggled b c) s t)
    ∙ sym (seen-append b c (outside (toggled b c) s) (outside (is_open (toggled b c) s) t))

pub open-append : (b : Bool) (s t : Bytes) → is_open b (s ++ t) ≡ is_open (is_open b s) t
unfolding is_open
open-append b [] t = refl
open-append b (c ∷ s) t = open-append (toggled b c) s t

-- A text with no quote lies within a literal, or out of one, as a whole.
pub outside-plain : (s : Bytes) → Unquoted s → outside false s ≡ s
unfolding outside
outside-plain [] h = refl
outside-plain (c ∷ s) (here, later) = rw (here) (ap (λ l. c ∷ l) (outside-plain s later))

pub inside-plain : (s : Bytes) → Unquoted s → outside true s ≡ []
unfolding outside
inside-plain [] h = refl
inside-plain (c ∷ s) (here, later) = rw (here) (inside-plain s later)

pub open-plain : (b : Bool) (s : Bytes) → Unquoted s → is_open b s ≡ b
unfolding is_open
open-plain b [] h = refl
open-plain b (c ∷ s) (here, later) = rw (here) (open-plain b s later)

-- So does, within a literal, a text whose quotes are doubled.
pub inside-doubled : (s : Bytes) → outside true (replace_all s 39 (codes "''")) ≡ []
unfolding outside replace_all
inside-doubled [] = refl
inside-doubled (c ∷ s) = elim (Bool-cases (c == 39)) [
  | inl e ↦ rw (e) (inside-doubled s)
  | inr e ↦ rw (e) (rw (e) (inside-doubled s))
]

pub open-doubled : (s : Bytes) → is_open true (replace_all s 39 (codes "''")) ≡ true
unfolding is_open replace_all
open-doubled [] = refl
open-doubled (c ∷ s) = elim (Bool-cases (c == 39)) [
  | inl e ↦ rw (e) (open-doubled s)
  | inr e ↦ rw (e) (rw (e, is_open) (open-doubled s))
]

drop_while-Unquoted : (p : ℕ → Bool) (s : Bytes) → Unquoted s → Unquoted (drop_while p s)
unfolding drop_while
drop_while-Unquoted p [] h = tt
drop_while-Unquoted p (c ∷ s) (here, later) = elim (Bool-cases (p c)) [
  | inl e ↦ rw (e) (drop_while-Unquoted p s later)
  | inr e ↦ rw (e) (here, later)
]

reverse-Unquoted : (s : Bytes) → Unquoted s → Unquoted (reverse s)
reverse-Unquoted [] h = tt
reverse-Unquoted (c ∷ s) (here, later) =
    subst Unquoted (sym (reverse-cons c s))
      (All-append NotQuote (reverse s) (c ∷ []) (reverse-Unquoted s later) (here, tt))

pub trim_by-Unquoted : (p : ℕ → Bool) (s : Bytes) → Unquoted s → Unquoted (trim_by p s)
trim_by-Unquoted p s h = reverse-Unquoted _ (
    drop_while-Unquoted p (reverse (drop_while p s))
      (reverse-Unquoted _ (drop_while-Unquoted p s h)))

pub underscored-Unquoted : (s : Bytes) → Unquoted s → Unquoted (replace_all s 32 (codes "_"))
unfolding replace_all
underscored-Unquoted [] h = tt
underscored-Unquoted (c ∷ s) (here, later) = elim (Bool-cases (c == 32)) [
  | inl e ↦ rw (e) (refl, underscored-Unquoted s later)
  | inr e ↦ rw (e) (here, underscored-Unquoted s later)
]

-- A text that opens no literal for what follows it.
abbrev pub Closed : Bytes → Type 0
Closed s = is_open false s ≡ false

pub Closed-append : (s t : Bytes) → Closed s → Closed t → Closed (s ++ t)
Closed-append s t hs ht = open-append false s t ∙ ap (λ b. is_open b t) hs ∙ ht

pub outside-Closed :
    (s t : Bytes) → Closed s → outside false (s ++ t) ≡ outside false s ++ outside false t
outside-Closed s t h = outside-append false s t ∙ ap (λ b. outside false s ++ outside b t) h

pub join-Closed :
    (ss : List Bytes) (sep : Bytes) → Closed sep → All Closed ss → Closed (join ss sep)
unfolding join is_open
join-Closed [] sep h k = refl
join-Closed (s ∷ []) sep h (k, _) = k
join-Closed (s ∷ t ∷ ss) sep h (k, ks) =
    Closed-append (s ++ sep) (join (t ∷ ss) sep) (Closed-append s sep k h)
      (join-Closed (t ∷ ss) sep h ks)

pub outside-join :
    (ss : List Bytes) (sep : Bytes)
    → Closed sep
    → All Closed ss
    → outside false (join ss sep) ≡ join (map (outside false) ss) (outside false sep)
unfolding join outside
outside-join [] sep h k = refl
outside-join (s ∷ []) sep h (k, _) = refl
outside-join (s ∷ t ∷ ss) sep h (k, ks) =
    outside-Closed (s ++ sep) (join (t ∷ ss) sep) (Closed-append s sep k h)
    ∙ ap (λ l. l ++ outside false (join (t ∷ ss) sep)) (outside-Closed s sep k)
    ∙ ap (λ l. outside false s ++ outside false sep ++ l) (outside-join (t ∷ ss) sep h ks)
