-- ===== src/Prelude/Print/Round.antt =====
-- `strconv.ParseInt` reads what `%d` prints.
use xscope_hub.Prelude.Print.{digits_before, format_nat, format_int}
use xscope_hub.Prelude.{
  ℕ, zero, suc, ◌+◌, ◌*◌, ◌/◌, ◌%◌, ◌^◌, ◌<◌, ◌≡◌, refl, Bytes, [], ◌∷◌, arith, some, true, false,
  ltb, ℤ, pos, negsuc, ok, ap, ◌∙◌, sym, Bool-cases, inl, inr,
}
use xscope_hub.Prelude.Strconv.{digits, digits_from, parse_int, in_range, int64_cutoff}

digits_from-digit :
    (m d : ℕ) (s : Bytes) → d < 10 → digits_from m ((48 + d) ∷ s) ≡ digits_from (m * 10 + d) s
unfolding digits_from
digits_from-digit m d s h = grind (arith, h)

-- Reading the digits of a number gives the number before the rest is read.
digits_from-digits_before :
    (fuel n : ℕ) (s : Bytes)
    → n < 10 ^ fuel
    → digits_from 0 (digits_before fuel n s) ≡ digits_from n s
unfolding digits_before
digits_from-digits_before zero n s h =
    let e : 0 ≡ n = omega (arith, h) in ap (λ k. digits_from k s) e
digits_from-digits_before (suc fuel) n s h =
    let later = digits_from-digits_before fuel (n / 10) ((48 + n % 10) ∷ s) (omega (arith, h)) in
    let last = digits_from-digit (n / 10) (n % 10) s (omega arith) in
    let alone : 0 * 10 + n ≡ n = omega arith in
    let whole : n / 10 * 10 + n % 10 ≡ n = omega arith in
    elim (Bool-cases (ltb n 10)) [
      | inl e ↦
          rw (e) (digits_from-digit 0 n s (ground (arith, e)) ∙ ap (λ k. digits_from k s) alone)
      | inr e ↦ rw (e) (later ∙ last ∙ ap (λ k. digits_from k s) whole)
    ]

-- A printed number begins with a digit.
digits_before-head :
    (fuel n : ℕ) (s : Bytes)
    → (d : ℕ) × (rest : Bytes) × (d < 10) × (digits_before (suc fuel) n s ≡ (48 + d) ∷ rest)
unfolding digits_before
digits_before-head zero n s = elim (Bool-cases (ltb n 10)) [
  | inl e ↦ (n, s, ground (arith, e), rw (e) refl)
  | inr e ↦ (n % 10, s, omega arith, rw (e) refl)
]
digits_before-head (suc fuel) n s = elim (Bool-cases (ltb n 10)) [
  | inl e ↦ (n, s, ground (arith, e), rw (e) refl)
  | inr e ↦ rw (e) (digits_before-head fuel (n / 10) ((48 + n % 10) ∷ s))
]

digits-cons : (d : ℕ) (rest : Bytes) → digits (d ∷ rest) ≡ digits_from 0 (d ∷ rest)
unfolding digits
digits-cons d rest = refl

-- A text that begins with a digit is read without a sign.
parse_int-digit :
    (d : ℕ) (rest : Bytes)
    → d < 10
    → parse_int ((48 + d) ∷ rest) ≡ in_range false (digits ((48 + d) ∷ rest))
unfolding parse_int
parse_int-digit d rest h = ground (arith, h)

digits_from-nil : (n : ℕ) → digits_from n [] ≡ some n
unfolding digits_from
digits_from-nil n = refl

digits-digits_before :
    (fuel n : ℕ) → n < 10 ^ suc fuel → digits (digits_before (suc fuel) n []) ≡ some n
digits-digits_before fuel n h =
    let (d, rest, _, e) = digits_before-head fuel n [] in
    rw (e) (digits-cons (48 + d) rest)
    ∙ ap (digits_from 0) (sym e)
    ∙ digits_from-digits_before (suc fuel) n [] h
    ∙ digits_from-nil n

-- A signed 64-bit integer.
abbrev pub IsInt64 : ℤ → Type 0
IsInt64 (pos n) = n < int64_cutoff
IsInt64 (negsuc n) = n < int64_cutoff

parse_int-printed :
    (fuel n : ℕ)
    → n < 10 ^ suc fuel
    → parse_int (digits_before (suc fuel) n []) ≡ in_range false (some n)
parse_int-printed fuel n h =
    let (d, rest, small, e) = digits_before-head fuel n [] in
    ap parse_int e
    ∙ parse_int-digit d rest small
    ∙ ap (λ t. in_range false (digits t)) (sym e)
    ∙ ap (in_range false) (digits-digits_before fuel n h)

parse_int-minus : (s : Bytes) → parse_int (45 ∷ s) ≡ in_range true (digits s)
unfolding parse_int
parse_int-minus s = refl

pub parse_int-format_int : (v : ℤ) → IsInt64 v → parse_int (format_int v) ≡ ok v
unfolding format_int format_nat
parse_int-format_int (pos n) h = parse_int-printed 19 n (omega (arith, h)) ∙ ground (arith, h)
parse_int-format_int (negsuc n) h =
    parse_int-minus (digits_before 20 (suc n) [])
    ∙ ap (in_range true) (digits-digits_before 19 (suc n) (omega (arith, h)))
    ∙ ground (arith, h)
