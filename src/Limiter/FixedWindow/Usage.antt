-- ===== src/Limiter/FixedWindow/Usage.antt =====
-- `get_usage` against the script, and the replies inside one window (policyd_py/ratelimit/limiter.py).
use policyd_py.Base.{
  ℕ, zero, suc, ◌+◌, ◌≤◌, ◌<◌, ◌≡◌, refl, ap, ◌↔◌, Bool, true, false, Option, none, some, List, [],
  ◌∷◌, map, arith, leb, All, if◌then◌else◌,
}
use policyd_py.Limiter.Reply.{Reply}
use policyd_py.Limiter.FixedWindow.{Window, script, replies, get_usage}

-- The usage that `get_usage` reports decides the script: it reaches the limit exactly if a request
-- at that time is denied; and the script's own usage is one more if it lets the request through, and
-- the same if not.
pub get_usage_decides :
    (limit d now : ℕ) (stored : Option Window)
    → ((limit ≤ get_usage d now stored) ↔ ((script limit d now stored).0.allowed ≡ false))
      × ((script limit d now stored).0.usage ≡ (
          if (script limit d now stored).0.allowed
          then get_usage d now stored + 1
          else get_usage d now stored))
unfolding script get_usage
get_usage_decides limit d now none = ground arith
get_usage_decides limit d now (some w) = ground arith

abbrev pub allowed_of : Reply → Bool
allowed_of r = r.allowed

abbrev pub AllBelow : ℕ → List ℕ → Type 0
AllBelow t times = All (λ now. now < t) times

-- The first `room` requests are let through, and no other.
abbrev pub grants : ℕ → List ℕ → List Bool
grants room [] = []
grants zero (now ∷ times) = false ∷ grants zero times
grants (suc room) (now ∷ times) = true ∷ grants room times

in_window :
    (limit d room : ℕ) (w : Window) (times : List ℕ)
    → w.count + room ≡ limit
    → AllBelow (w.window_start + d) times
    → map allowed_of (replies limit d (some w) times) ≡ grants room times
unfolding replies script
in_window limit d room w [] e h = refl
in_window limit d zero w (now ∷ times) e (lt, h) =
    let still : leb (w.window_start + d) now ≡ false = ground arith in
    let full : leb limit w.count ≡ true = ground arith in
    rw (still, full) (ap (λ l. false ∷ l) (in_window limit d zero w times e h))
in_window limit d (suc room) w (now ∷ times) e (lt, h) =
    let still : leb (w.window_start + d) now ≡ false = ground arith in
    let free : leb limit w.count ≡ false = ground arith in
    rw (still, free)
      (ap (λ l. true ∷ l)
        (in_window limit d room (record { count = w.count + 1; window_start = w.window_start })
          times (omega arith) h))

without_limit : (d : ℕ) (times : List ℕ) → map allowed_of (replies 0 d none times) ≡ grants 0 times
unfolding replies script
without_limit d [] = refl
without_limit d (now ∷ times) = ap (λ l. false ∷ l) (without_limit d times)

-- On a fresh key the first `limit` requests are let through and no other, as long as all of them
-- come before the window that the first one begins is over.
pub window_grants_limit :
    (limit d first : ℕ) (times : List ℕ)
    → AllBelow (first + d) times
    → map allowed_of (replies limit d none (first ∷ times)) ≡ grants limit (first ∷ times)
unfolding replies script
window_grants_limit zero d first times h = without_limit d (first ∷ times)
window_grants_limit (suc limit) d first times h =
    let free : leb (suc limit) 0 ≡ false = ground arith in
    rw free (
      ap (λ l. true ∷ l)
        (in_window (suc limit) d limit (record { count = 1; window_start = first }) times
          (omega arith) h))
