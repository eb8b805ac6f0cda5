-- ===== src/Limiter/FixedWindow/Quota.antt =====
-- How many requests FIXED_WINDOW_LUA lets through (policyd_py/ratelimit/limiter.py).
use policyd_py.Base.{
  ℕ, ◌+◌, ◌≤◌, ◌≡◌, inl, inr, true, Option, none, some, List, [], ◌∷◌, arith, leb, Bool-cases,
}
use policyd_py.Limiter.Reply.{IsOrdered, allowed_within, none_after}
use policyd_py.Limiter.FixedWindow.{Window, script, replies}

module _ (limit d from : ℕ) where
  -- A window that began in the interval outlasts it.
  within_window :
      (times : List ℕ) (w : Window) (lo : ℕ)
      → from ≤ w.window_start
      → w.count ≤ limit
      → IsOrdered lo times
      → allowed_within from d times (replies limit d (some w) times) + w.count ≤ limit
  unfolding allowed_within replies script
  within_window [] w lo h c o = omega arith
  within_window (now ∷ times) w lo h c (le, o) = elim (Bool-cases (leb (w.window_start + d) now)) [
    | inl over ↦ omega (
      arith,
      none_after d from (now ∷ times) (replies limit d (some w) (now ∷ times)) now (ground arith)
          (omega arith, o),
    )
    | inr still ↦ ground (
      arith,
      within_window times w now h c o,
      within_window times (record { count = w.count + 1; window_start = w.window_start }) now h,
    )
  ]

  -- From the start of the interval on, the window of before and one more count.
  from_start :
      (times : List ℕ) (w : Window) (lo : ℕ)
      → from ≤ lo
      → w.count ≤ limit
      → IsOrdered lo times
      → allowed_within from d times (replies limit d (some w) times) + w.count ≤ limit + limit
  unfolding allowed_within replies script
  from_start [] w lo h c o = omega arith
  from_start (now ∷ times) w lo h c (le, o) = elim (Bool-cases (leb (w.window_start + d) now)) [
    | inl over ↦ ground (
      arith,
      within_window times (record { count = 1; window_start = now }) now (omega arith),
      from_start times w now (omega arith) c o,
    )
    | inr still ↦ ground (
      arith,
      from_start times w now (omega arith) c o,
      from_start times (record { count = w.count + 1; window_start = w.window_start }) now
          (omega arith),
    )
  ]

  -- From a key that is not there yet.
  from_nothing :
      (times : List ℕ) (lo : ℕ)
      → from ≤ lo
      → IsOrdered lo times
      → allowed_within from d times (replies limit d none times) ≤ limit + limit
  unfolding allowed_within replies script
  from_nothing [] lo h o = omega arith
  from_nothing (now ∷ times) lo h (le, o) = ground (
    arith,
    within_window times (record { count = 1; window_start = now }) now (omega arith),
    from_nothing times now (omega arith) o,
  )

-- The count that is stored never passes the limit.
abbrev pub IsCapped : ℕ → Option Window → Type 0
IsCapped limit none = Unit
IsCapped limit (some w) = w.count ≤ limit

script-IsCapped :
    (limit d now : ℕ) (stored : Option Window)
    → IsCapped limit stored
    → IsCapped limit (script limit d now stored).1
unfolding script
script-IsCapped limit d now none h = elim (Bool-cases (leb limit 0)) [
  | inl full ↦ rw full tt
  | inr room ↦ rw room (ground arith)
]
script-IsCapped limit d now (some w) h = elim (Bool-cases (leb (w.window_start + d) now)) [
  | inl over ↦ elim (Bool-cases (leb limit 0)) [
    | inl full ↦ rw (over, full) h
    | inr room ↦ rw (over, room) (ground arith)
  ]
  | inr still ↦ elim (Bool-cases (leb limit w.count)) [
    | inl full ↦ rw (still, full) h
    | inr room ↦ rw (still, room) (ground arith)
  ]
]

-- In any interval as long as the window, wherever it begins, the requests that a key lets through
-- are at most twice the limit: for requests at times that never decrease, on a key whose stored
-- count is not above the limit.
pub allowed_at_most_twice_limit :
    (limit d from lo : ℕ) (times : List ℕ) (stored : Option Window)
    → IsOrdered lo times
    → IsCapped limit stored
    → allowed_within from d times (replies limit d stored times) ≤ limit + limit
unfolding allowed_within replies
allowed_at_most_twice_limit limit d from lo [] stored o c = omega arith
allowed_at_most_twice_limit limit d from lo (now ∷ times) stored (le, o) c =
    elim (Bool-cases (leb from now)) [
      | inl late ↦ started stored c late
      | inr early ↦ ground (
        arith,
        allowed_at_most_twice_limit limit d from now times (script limit d now stored).1 o
            (script-IsCapped limit d now stored c),
      )
    ]
  where
    started :
        (st : Option Window)
        → IsCapped limit st
        → leb from now ≡ true
        → allowed_within from d (now ∷ times) (replies limit d st (now ∷ times)) ≤ limit + limit
    started none c e = from_nothing limit d from (now ∷ times) now (ground arith) (omega arith, o)
    started (some w) c e =
        omega (arith, from_start limit d from (now ∷ times) w now (ground arith) c (omega arith, o))
