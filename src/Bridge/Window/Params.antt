-- ===== src/Bridge/Window/Params.antt =====
-- Which windows `parseWindowParams` makes, and how their bounds stand in a request.
use xscope_hub.Prelude.{
  ℕ, suc, ◌+◌, ◌-◌, ◌*◌, ◌/◌, ◌≤◌, ◌<◌, Bytes, false, Option, none, some, Outcome, ok, err, ◌≡◌,
  ◌↔◌, ◌⊎◌, inl, inr, refl, is_empty, [], ◌∷◌, arith, ℤ, pos, negsuc,
}
use xscope_hub.Prelude.Strconv.{parse_int}
use xscope_hub.Bridge.Window.{
  Instant, Window, TimeParser, parse_instant, parse_window_params, window_of, signed, unix_milli,
  milli, first_of,
}

-- What a text means: a time of RFC 3339, or else a number of seconds since 1970.
abbrev pub Means : TimeParser → Bytes → Instant → Type 0
Means rfc3339 s t =
    (rfc3339 s ≡ some t)
    ⊎ ((i : ℤ) × (rfc3339 s ≡ none)
        × (parse_int s ≡ ok i)
        × (t ≡ record { seconds = i; nanos = 0 }))

first_of_iff :
    (s : Bytes) (t : Instant) (number : Outcome ℤ ℤ) (o : Option Instant)
    → (first_of s number o ≡ ok t) ↔ (
        (o ≡ some t)
        ⊎ ((i : ℤ) × (o ≡ none) × (number ≡ ok i) × (t ≡ record { seconds = i; nanos = 0 })))
first_of_iff s t number (some u) =
    (λ h. inl (cc h), λ h. elim h [ inl e ↦ cc e | inr (i, e, _, _) ↦ cc e ])
first_of_iff s t (ok i) none =
    (λ h. inr (i, refl, refl, cc h), λ h. elim h [ inl e ↦ cc e | inr (j, _, e, e') ↦ cc (e, e') ])
first_of_iff s t (err e) none = (λ h. cc h, λ h. elim h [ inl e ↦ cc e | inr (i, _, e, _) ↦ cc e ])

parse_instant_iff :
    (rfc3339 : TimeParser) (s : Bytes) (t : Instant)
    → (parse_instant rfc3339 s ≡ ok t) ↔ Means rfc3339 s t
unfolding parse_instant
parse_instant_iff rfc3339 s t = first_of_iff s t (parse_int s) (rfc3339 s)

window_of_iff :
    (w : Window) (from to : Outcome Bytes Instant)
    → (window_of from to ≡ ok w) ↔ ((from ≡ ok w.from) × (to ≡ ok w.to))
window_of_iff w (err e) to = (λ h. cc h, λ h. cc h.0)
window_of_iff w (ok from) (err e) = (λ h. cc h, λ h. cc h.1)
window_of_iff w (ok from) (ok to) = (λ h. (cc h, cc h), λ h. cc (h.0, h.1))

-- A window is made exactly when both texts are given and each means the instant at its end.
pub parse_window_params_iff :
    (rfc3339 : TimeParser) (from to : Bytes) (w : Window)
    → (parse_window_params rfc3339 from to ≡ ok w) ↔ (
        (is_empty from ≡ false)
        × (is_empty to ≡ false)
        × Means rfc3339 from w.from
        × Means rfc3339 to w.to)
unfolding parse_window_params
parse_window_params_iff rfc3339 [] to w = (λ h. cc h, λ h. cc h.0)
parse_window_params_iff rfc3339 (c ∷ from) [] w = (λ h. cc h, λ h. cc h.1)
parse_window_params_iff rfc3339 (c ∷ from) (d ∷ to) w =
    let ends =
      window_of_iff w (parse_instant rfc3339 (c ∷ from)) (parse_instant rfc3339 (d ∷ to)) in
    let start = parse_instant_iff rfc3339 (c ∷ from) w.from in
    let end = parse_instant_iff rfc3339 (d ∷ to) w.to in
    (
      λ h. (refl, refl, start.0 (ends.0 h).0, end.0 (ends.0 h).1),
      λ h. ends.1 (start.1 h.2, end.1 h.3),
    )

-- The number of milliseconds since 1970 as it is, not as 64 bits hold it.
abbrev pub true_milli : ℤ → ℕ → ℤ
true_milli (pos a) nanos = pos (a * 1000 + nanos / 1000000)
true_milli (negsuc a) nanos = negsuc (suc a * 1000 - nanos / 1000000 - 1)

-- 9223372036854774
abbrev pub last_second : ℕ
last_second = 9223372036854774

-- How far a number of seconds is from 0, a negative one by one less.
abbrev pub size : ℤ → ℕ
size (pos a) = a
size (negsuc a) = a

milli-exact :
    (s : ℤ) (nanos : ℕ)
    → nanos < 1000000000
    → size s ≤ last_second
    → milli s nanos ≡ true_milli s nanos
unfolding signed
milli-exact (pos a) nanos h k = ground arith
milli-exact (negsuc a) nanos h k = ground arith

-- Up to 9223372036854774 seconds before or behind 1970, UnixMilli gives the number of
-- milliseconds itself: nothing wraps around.
pub unix_milli-exact :
    (t : Instant)
    → t.nanos < 1000000000
    → size t.seconds ≤ last_second
    → unix_milli t ≡ true_milli t.seconds t.nanos
unfolding unix_milli
unix_milli-exact t h k = milli-exact t.seconds t.nanos h k
