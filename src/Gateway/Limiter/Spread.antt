-- ===== src/Gateway/Limiter/Spread.antt =====
-- Requests at different milliseconds: the script keeps to its limit in every window of time.
use xscope_hub.Prelude.{
  ℕ, suc, ◌+◌, ◌-◌, ◌≤◌, ◌<◌, true, false, List, [], ◌∷◌, length, All, leb, ltb, ◌==◌,
  if◌then◌else◌, ◌≡◌, refl, arith, Bool-cases, inl, inr,
}
use xscope_hub.Gateway.Limiter.{Members, remove_up_to, add_member, redis_script}
use xscope_hub.Gateway.Limiter.Window.{run_script, run_script-le}

-- Times that rise, from `t` on and before `hi`.
abbrev pub Rising : ℕ → ℕ → List ℕ → Type 0
Rising t hi [] = Unit
Rising t hi (now ∷ times) = (t ≤ now) × (now < hi) × Rising (suc now) hi times

-- A member, and its score, before a time.
abbrev pub Before : ℕ → ℕ × ℕ → Type 0
Before t (m, s) = (m < t) × (s < t)

-- How many members have a score from `lo` on.
unfoldable pub count_from : ℕ → Members → ℕ
count_from lo [] = 0
count_from lo ((m, s) ∷ ms) = let rest = count_from lo ms in if leb lo s then suc rest else rest

count_from-le : (lo : ℕ) (ms : Members) → count_from lo ms ≤ length ms
unfolding count_from
count_from-le lo [] = omega arith
count_from-le lo ((m, s) ∷ ms) = ground (arith, count_from-le lo ms)

count_from-Before : (lo : ℕ) (ms : Members) → All (Before lo) ms → count_from lo ms ≡ 0
unfolding count_from
count_from-Before lo [] h = refl
count_from-Before lo ((m, s) ∷ ms) h = ground (arith, count_from-Before lo ms h.1)

count_from-remove_up_to :
    (lo to : ℕ) (ms : Members) → to < lo → count_from lo (remove_up_to to ms) ≡ count_from lo ms
unfolding count_from remove_up_to
count_from-remove_up_to lo to [] h = refl
count_from-remove_up_to lo to ((m, s) ∷ ms) h = ground (arith, count_from-remove_up_to lo to ms h)

count_from-add_member :
    (lo now : ℕ) (ms : Members)
    → All (Before now) ms
    → lo ≤ now
    → count_from lo (add_member now now ms) ≡ suc (count_from lo ms)
unfolding count_from add_member
count_from-add_member lo now [] h k = ground arith
count_from-add_member lo now ((m, s) ∷ ms) h k =
    ground (arith, count_from-add_member lo now ms h.1 k)

later-Before : (t hi : ℕ) (ms : Members) → t ≤ hi → All (Before t) ms → All (Before hi) ms
later-Before t hi [] k h = tt
later-Before t hi ((m, s) ∷ ms) k (here, later) = (ground arith, later-Before t hi ms k later)

remove_up_to-Before :
    (t to : ℕ) (ms : Members) → All (Before t) ms → All (Before t) (remove_up_to to ms)
unfolding remove_up_to
remove_up_to-Before t to [] h = tt
remove_up_to-Before t to ((m, s) ∷ ms) (here, later) = elim (Bool-cases (leb s to)) [
  | inl out ↦ rw (out) (remove_up_to-Before t to ms later)
  | inr kept ↦ rw (kept) (here, remove_up_to-Before t to ms later)
]

add_member-Before :
    (now : ℕ) (ms : Members)
    → All (Before (suc now)) ms
    → All (Before (suc now)) (add_member now now ms)
unfolding add_member
add_member-Before now [] h = (ground arith, tt)
add_member-Before now ((m, s) ∷ ms) (here, later) = elim (Bool-cases (m == now)) [
  | inl hit ↦ rw (hit) (ground arith, later)
  | inr miss ↦ rw (miss) (here, add_member-Before now ms later)
]

-- What the script keeps of the set.
unfoldable kept : ℕ → ℕ → Members → Members
unfolding remove_up_to
kept now window ms = if ltb now window then ms else remove_up_to (now - window) ms

kept-Before :
    (t now window : ℕ) (ms : Members) → All (Before t) ms → All (Before t) (kept now window ms)
unfolding kept
kept-Before t now window ms h = elim (Bool-cases (ltb now window)) [
  | inl early ↦ rw (early) h
  | inr late ↦ rw (late) (remove_up_to-Before t (now - window) ms h)
]

count_from-kept :
    (lo now window : ℕ) (ms : Members)
    → now < lo + window
    → count_from lo (kept now window ms) ≡ count_from lo ms
unfolding kept
count_from-kept lo now window ms h = elim (Bool-cases (ltb now window)) [
  | inl early ↦ rw (early) refl
  | inr late ↦ rw (late) (count_from-remove_up_to lo (now - window) ms (ground arith))
]

script_lem :
    (now window limit : ℕ) (ms : Members)
    → redis_script now window limit ms ≡ (
        if leb limit (length (kept now window ms))
        then (false, kept now window ms)
        else (true, add_member now now (kept now window ms)))
unfolding redis_script kept
script_lem now window limit ms = refl

script-Before :
    (t now window limit : ℕ) (ms : Members)
    → t ≤ now
    → All (Before t) ms
    → All (Before (suc now)) (redis_script now window limit ms).1
script-Before t now window limit ms h k =
    let rest = later-Before t (suc now) _ (omega (arith, h)) (kept-Before t now window ms k) in
    elim (Bool-cases (leb limit (length (kept now window ms)))) [
      | inl full ↦ rw (script_lem now window limit ms, full) rest
      | inr room ↦ rw (script_lem now window limit ms, room) (add_member-Before now _ rest)
    ]

run-Before :
    (t hi window limit : ℕ) (times : List ℕ) (ms : Members)
    → t ≤ hi
    → Rising t hi times
    → All (Before t) ms
    → All (Before hi) (run_script window limit times ms).1
unfolding run_script
run-Before t hi window limit [] ms le r h = later-Before t hi ms le h
run-Before t hi window limit (now ∷ times) ms le (after_t, before_hi, r) h =
    run-Before (suc now) hi window limit times (redis_script now window limit ms).1
      (omega (arith, before_hi)) r (script-Before t now window limit ms after_t h)

-- Within the window, what is allowed is counted in the set, and nothing of it is removed.
run-count :
    (t lo window limit : ℕ) (times : List ℕ) (ms : Members)
    → lo ≤ t
    → Rising t (lo + window) times
    → All (Before t) ms
    → (run_script window limit times ms).0 + count_from lo ms
      ≡ count_from lo (run_script window limit times ms).1
unfolding run_script
run-count t lo window limit [] ms le r h = omega arith
run-count t lo window limit (now ∷ times) ms le (after_t, before_hi, r) h =
    let k = kept now window ms in
    let counted = count_from-kept lo now window ms before_hi in
    let rest =
      run-count (suc now) lo window limit times (redis_script now window limit ms).1
        (omega (arith, le, after_t)) r (script-Before t now window limit ms after_t h) in
    elim (Bool-cases (leb limit (length k))) [
      | inl full ↦
          let later = rw (script_lem now window limit ms, full) at rest in
          rw (script_lem now window limit ms, full) (omega (arith, later, counted))
      | inr room ↦
          let later = rw (script_lem now window limit ms, room) at rest in
          let added =
            count_from-add_member lo now k
              (later-Before t now k after_t (kept-Before t now window ms h))
              (omega (arith, le, after_t)) in
          rw (script_lem now window limit ms, room) (omega (arith, later, counted, added))
    ]

-- From an empty set, however many requests have run the script before a time: of any requests in
-- the window from that time on, the script allows at most the limit, where all times rise.
pub run_script-bound :
    (lo window limit : ℕ) (earlier times : List ℕ)
    → Rising 0 lo earlier
    → Rising lo (lo + window) times
    → (run_script window limit times (run_script window limit earlier []).1).0 ≤ limit
run_script-bound lo window limit earlier times before r =
    let ms = (run_script window limit earlier []).1 in
    let fits = run_script-le window limit earlier [] (omega arith) in
    let full = run_script-le window limit times ms fits in
    let old = run-Before 0 lo window limit earlier [] (omega arith) before tt in
    let counted = run-count lo lo window limit times ms (omega arith) r old in
    let le = count_from-le lo (run_script window limit times ms).1 in
    omega (arith, counted, le, full)
