-- ===== src/Gateway/Limiter/Window.antt =====
-- The Redis script over time: bounds on its set, and what it lets through.
use xscope_hub.Prelude.{
  ℕ, zero, suc, ◌-◌, ◌≤◌, ◌<◌, true, List, [], ◌∷◌, length, if◌then◌else◌, ◌≡◌, refl, arith,
}
use xscope_hub.Gateway.Limiter.{Members, remove_up_to, add_member, redis_script}

length-remove_up_to-le : (to : ℕ) (ms : Members) → length (remove_up_to to ms) ≤ length ms
unfolding remove_up_to
length-remove_up_to-le to [] = omega arith
length-remove_up_to-le to ((m, s) ∷ ms) = ground (arith, length-remove_up_to-le to ms)

length-add_member-le : (m s : ℕ) (ms : Members) → length (add_member m s ms) ≤ suc (length ms)
unfolding add_member
length-add_member-le m s [] = omega arith
length-add_member-le m s ((m', s') ∷ ms) = ground (arith, length-add_member-le m s ms)

-- Runs of the script at given times, and how many of them it allowed.
unfoldable pub run_script : ℕ → ℕ → List ℕ → Members → ℕ × Members
run_script window limit [] ms = (0, ms)
run_script window limit (now ∷ times) ms =
    let (allowed, after) = redis_script now window limit ms in
    let (n, last) = run_script window limit times after in (if allowed then suc n else n, last)

-- A run of the script leaves at most as many members as the limit, if it found no more.
script-le :
    (now window limit : ℕ) (ms : Members)
    → length ms ≤ limit
    → length ((redis_script now window limit ms).1) ≤ limit
unfolding redis_script
script-le now window limit ms h = ground (
  arith,
  length-remove_up_to-le (now - window) ms,
  length-add_member-le now now ms,
  length-add_member-le now now (remove_up_to (now - window) ms),
)

-- However often and whenever the script runs, a set that held no more members than the limit holds no more.
pub run_script-le :
    (window limit : ℕ) (times : List ℕ) (ms : Members)
    → length ms ≤ limit
    → length ((run_script window limit times ms).1) ≤ limit
unfolding run_script
run_script-le window limit [] ms h = h
run_script-le window limit (now ∷ times) ms h =
    run_script-le window limit times (redis_script now window limit ms).1
      (script-le now window limit ms h)

unfoldable pub same_time : ℕ → ℕ → List ℕ
same_time zero now = []
same_time (suc n) now = now ∷ same_time n now

script_first :
    (now window limit : ℕ)
    → 0 < window
    → window ≤ now
    → 1 < limit
    → redis_script now window limit [] ≡ (true, (now, now) ∷ [])
unfolding redis_script remove_up_to add_member
script_first now window limit h1 h2 h3 = ground arith

script_again :
    (now window limit : ℕ)
    → 0 < window
    → window ≤ now
    → 1 < limit
    → redis_script now window limit ((now, now) ∷ []) ≡ (true, (now, now) ∷ [])
unfolding redis_script remove_up_to add_member
script_again now window limit h1 h2 h3 = ground arith

run_again :
    (n now window limit : ℕ)
    → 0 < window
    → window ≤ now
    → 1 < limit
    → run_script window limit (same_time n now) ((now, now) ∷ []) ≡ (n, (now, now) ∷ [])
unfolding run_script same_time
run_again zero now window limit h1 h2 h3 = refl
run_again (suc n) now window limit h1 h2 h3 =
    rw (script_again now window limit h1 h2 h3, run_again n now window limit h1 h2 h3) refl

-- With a limit of 2 or more and a positive window no longer than the time since 1970, all of any number
-- of requests that run the script in the same millisecond, from an empty set, are allowed.
pub run_script-same_time :
    (n now window limit : ℕ)
    → 0 < window
    → window ≤ now
    → 1 < limit
    → (run_script window limit (same_time n now) []).0 ≡ n
unfolding run_script same_time
run_script-same_time zero now window limit h1 h2 h3 = refl
run_script-same_time (suc n) now window limit h1 h2 h3 =
    rw (script_first now window limit h1 h2 h3, run_again n now window limit h1 h2 h3) refl
