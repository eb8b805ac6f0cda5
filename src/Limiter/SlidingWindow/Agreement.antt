-- ===== src/Limiter/SlidingWindow/Agreement.antt =====
-- `RateLimiter.get_usage` of policyd_py/ratelimit/limiter.py computes in Python what the Lua script
-- computes in Redis.
use policyd_py.Base.{
  ℕ, ◌+◌, ◌-◌, ◌*◌, ◌/◌, ◌%◌, ◌≤◌, ◌<◌, ◌≡◌, sym, ap, ◌∙◌, inl, inr, true, false, some, arith, ltb,
  leb, ◌==◌, Bool-cases,
}
use policyd_py.Limiter.SlidingWindow.{
  Counter, current_window_start, roll, effective, ceil, get_usage, weight, round_up, weighted_usage,
}

pub start_of_window :
    (d k now : ℕ) → k * d ≤ now → now < k * d + d → current_window_start d now ≡ k * d
unfolding current_window_start
start_of_window d k now h l = grind arith

pub start_bounds :
    (d now : ℕ)
    → 0 < d
    → (current_window_start d now ≤ now) × (now < current_window_start d now + d)
unfolding current_window_start
start_bounds d now h = grind arith

div_one : (d n : ℕ) → d ≤ n → n < d + d → n / d ≡ 1
div_one d n h k = grind arith

div_many : (d n : ℕ) → 0 < d → d + d ≤ n → 2 ≤ n / d
div_many d n p h = grind arith

ceil_zero : (d : ℕ) → 0 < d → ceil d 0 ≡ 0
unfolding ceil
ceil_zero d h = grind arith

-- `window_start` is the beginning of an aligned window.
abbrev pub IsAligned : ℕ → ℕ → Type 0
IsAligned d start = (k : ℕ) × (start ≡ k * d)

start_later :
    (d k now : ℕ) → 0 < d → k * d + d + d ≤ now → k * d + d + d ≤ current_window_start d now
unfolding current_window_start
start_later d k now p h = grind arith

-- Rolled on at a time in the same window, at the next, and at any later one.
pub roll_same :
    (d now : ℕ) (c : Counter)
    → IsAligned d c.window_start
    → c.window_start ≤ now
    → now < c.window_start + d
    → roll d now (some c) ≡ c
unfolding roll
roll_same d now c (k, e) h l =
    let same : current_window_start d now ≡ c.window_start =
      start_of_window d k now (omega arith) (omega arith) ∙ sym e in
    rw same (ground arith)

roll_next :
    (d now : ℕ) (c : Counter)
    → 0 < d
    → IsAligned d c.window_start
    → c.window_start + d ≤ now
    → now < c.window_start + d + d
    → roll d now (some c) ≡ record {
      previous_count = c.current_count;
      current_count = 0;
      window_start = c.window_start + d;
    }
unfolding roll
roll_next d now c p (k, e) h l =
    let step : (k + 1) * d ≡ k * d + d = grind arith in
    let next : current_window_start d now ≡ c.window_start + d =
      start_of_window d (k + 1) now (omega arith) (omega arith)
      ∙ step
      ∙ ap (λ (t : ℕ). t + d) (sym e) in
    let one : (c.window_start + d - c.window_start) / d ≡ 1 =
      div_one d (c.window_start + d - c.window_start) (omega arith) (omega arith) in
    rw next (ground (arith, one))

roll_later :
    (d now : ℕ) (c : Counter)
    → 0 < d
    → IsAligned d c.window_start
    → c.window_start + d + d ≤ now
    → effective d now (roll d now (some c)) ≡ 0
unfolding roll effective
roll_later d now c p (k, e) h =
    let far = start_later d k now p (omega arith) in
    let moved : ltb c.window_start (current_window_start d now) ≡ true = ground arith in
    let many = div_many d (current_window_start d now - c.window_start) p (omega arith) in
    let not_one : (((current_window_start d now - c.window_start) / d) == 1) ≡ false =
      ground arith in
    rw (moved, not_one) (omega arith)

weight_same : (d start now : ℕ) → weight d start now ≡ d + start - now
unfolding weight
weight_same d start now = ground arith

divides : (d x : ℕ) → 0 < d → x % d ≡ 0 → (x + (d - 1)) / d ≡ x / d
divides d x p h = grind arith

leaves : (d x : ℕ) → 0 < d → 0 < x % d → (x + (d - 1)) / d ≡ x / d + 1
leaves d x p h = grind arith

round_up-ceil : (d x : ℕ) → 0 < d → round_up d x ≡ ceil d x
unfolding round_up ceil
round_up-ceil d x p = elim (Bool-cases (x % d == 0)) [
  | inl whole ↦ rw whole (sym (divides d x p (ground arith)))
  | inr part ↦ rw part (sym (leaves d x p (ground arith)))
]

-- The arithmetic of the client and that of the script.
weighted_same :
    (d now : ℕ) (c : Counter)
    → 0 < d
    → weighted_usage d c.previous_count c.current_count c.window_start now
      ≡ ceil d (effective d now c)
unfolding weighted_usage effective
weighted_same d now c p =
    round_up-ceil d (c.current_count * d + c.previous_count * weight d c.window_start now) p
    ∙ ap (λ w. ceil d (c.current_count * d + c.previous_count * w))
        (weight_same d c.window_start now)

-- For a positive duration, and a counter whose window is aligned, as the script always leaves it, and begins
-- after the time 0, at a time that is not before the window: `get_usage` is the ceiling of the effective count
-- that the script compares with the limit, whichever window `now` falls in.
pub get_usage_agrees :
    (d now : ℕ) (c : Counter)
    → 0 < d
    → IsAligned d c.window_start
    → 0 < c.window_start
    → c.window_start ≤ now
    → get_usage d now (some c) ≡ ceil d (effective d now (roll d now (some c)))
unfolding get_usage
get_usage_agrees d now c p a q h =
    let running : (c.window_start == 0) ≡ false = ground arith in
    let positive : (d == 0) ≡ false = ground arith in
    rw (running, positive)
      (elim (Bool-cases (leb d (now - c.window_start))) [
        | inr same ↦ rw (same, roll_same d now c a h (ground arith)) (weighted_same d now c p)
        | inl over ↦ elim (Bool-cases (ltb now (c.window_start + d + d))) [
          | inl next ↦
              let one = div_one d (now - c.window_start) (ground arith) (ground arith) in
              let is_one : (((now - c.window_start) / d) == 1) ≡ true = ground arith in
              rw (over, is_one, roll_next d now c p a (ground arith) (ground arith))
                (weighted_same d now
                  (record {
                    previous_count = c.current_count;
                    current_count = 0;
                    window_start = c.window_start + d;
                  })
                  p)
          | inr later ↦
              let many = div_many d (now - c.window_start) p (ground arith) in
              let not_one : (((now - c.window_start) / d) == 1) ≡ false = ground arith in
              rw (over, not_one, roll_later d now c p a (ground arith)) (sym (ceil_zero d p))
        ]
      ])
