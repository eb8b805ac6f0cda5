-- ===== src/Limiter/SlidingWindow/Quota.antt =====
-- How many requests SLIDING_WINDOW_COUNTER_LUA lets through (policyd_py/ratelimit/limiter.py).
use policyd_py.Base.{
  ℕ, ◌+◌, ◌*◌, ◌/◌, ◌≤◌, ◌<◌, ◌≡◌, refl, ap, ◌∙◌, ◌&&◌, inl, inr, true, false, Option, none, some,
  List, [], ◌∷◌, arith, leb, ltb, Bool-cases,
}
use policyd_py.Limiter.Reply.{Reply, IsOrdered, allowed_within, counts_at, none_after}
use policyd_py.Limiter.SlidingWindow.{
  Counter, current_window_start, roll, effective, ceil, script, replies, get_usage,
}
use policyd_py.Limiter.SlidingWindow.Agreement.{
  IsAligned, start_of_window, roll_same, get_usage_agrees,
}

limit-le-ceil : (limit d x : ℕ) → 0 < d → limit * d ≤ x → limit ≤ ceil d x
unfolding ceil
limit-le-ceil limit d x p h = grind arith

denied_reaches :
    (limit d now : ℕ) (stored : Option Counter)
    → (script limit d now stored).0.allowed ≡ false
    → limit * d ≤ effective d now (roll d now stored)
unfolding script
denied_reaches limit d now stored h = ground arith

-- For an aligned counter at a time that is not before its window, a request that the script denies
-- finds `get_usage` at the limit or above.
pub denied-reaches_limit :
    (limit d now : ℕ) (c : Counter)
    → 0 < d
    → IsAligned d c.window_start
    → 0 < c.window_start
    → c.window_start ≤ now
    → (script limit d now (some c)).0.allowed ≡ false
    → limit ≤ get_usage d now (some c)
denied-reaches_limit limit d now c p a q h denied = rw (get_usage_agrees d now c p a q h) (
    limit-le-ceil limit d (effective d now (roll d now (some c))) p
      (denied_reaches limit d now (some c) denied))

-- What the script keeps at a key by `now`: a window that is aligned and has begun, and a count that
-- is not above the limit.
abbrev pub IsSound : ℕ → ℕ → ℕ → Option Counter → Type 0
IsSound limit d now none = Unit
IsSound limit d now (some c) =
    IsAligned d c.window_start × (c.window_start ≤ now) × (c.current_count ≤ limit)

below_limit :
    (limit d now : ℕ) (c : Counter) → effective d now c < limit * d → c.current_count + 1 ≤ limit
unfolding effective
below_limit limit d now c h = grind arith

decide_count :
    (limit d now : ℕ) (c : Counter)
    → 0 < d
    → leb (limit * d) (effective d now c) ≡ false
    → c.current_count + 1 ≤ limit
decide_count limit d now c p h = below_limit limit d now c (ground arith)

IsAligned-start : (d now : ℕ) → IsAligned d (current_window_start d now)
unfolding current_window_start
IsAligned-start d now = (now / d, grind arith)

mul_mono : (a b d : ℕ) → a ≤ b → a * d ≤ b * d
mul_mono a b d h = grind arith

start-le : (d k m now : ℕ) → m * d ≤ now → now < k * d + d → m * d ≤ k * d
start-le d k m now h l = elim (Bool-cases (leb m k)) [
  | inl le ↦ mul_mono m k d (ground arith)
  | inr lt ↦
      let above : (k + 1) * d ≤ m * d = mul_mono (k + 1) m d (ground arith) in absurd (omega arith)
]

-- At a time in the window `k`, the counts that hold are those of the window `k`.
roll_window :
    (limit d k now : ℕ) (stored : Option Counter)
    → k * d ≤ now
    → now < k * d + d
    → IsSound limit d now stored
    → ((roll d now stored).window_start ≡ k * d) × ((roll d now stored).current_count ≤ limit)
unfolding roll
roll_window limit d k now none h l s = (start_of_window d k now h l, omega arith)
roll_window limit d k now (some c) h l ((m, e), begun, count) =
    let start = start_of_window d k now h l in
    let le = start-le d k m now (omega arith) l in
    elim (Bool-cases (ltb c.window_start (current_window_start d now))) [
      | inl moved ↦ rw moved (start, omega arith)
      | inr here ↦ rw here (ground arith, count)
    ]

IsSound-later :
    (limit d last now : ℕ) (stored : Option Counter)
    → last ≤ now
    → IsSound limit d last stored
    → IsSound limit d now stored
IsSound-later limit d last now none le h = tt
IsSound-later limit d last now (some c) le (a, begun, count) = (a, omega arith, count)

denied_keeps :
    (limit d now : ℕ) (stored : Option Counter)
    → (script limit d now stored).0.allowed ≡ false
    → (script limit d now stored).1 ≡ stored
unfolding script
denied_keeps limit d now stored h = ground arith

counts-le-one : (from span now : ℕ) (r : Reply) → counts_at from span now r ≤ 1
counts-le-one from span now r = ground arith

denied-counts : (from span now : ℕ) (r : Reply) → r.allowed ≡ false → counts_at from span now r ≡ 0
denied-counts from span now r h = ground arith

module _ (limit d k : ℕ) (p : 0 < d) where
  -- A request in the window that is let through leaves a counter of that window with one more.
  admitted_in_window :
      (now : ℕ) (stored : Option Counter)
      → k * d ≤ now
      → now < k * d + d
      → IsSound limit d now stored
      → (script limit d now stored).0.allowed ≡ true
      → (c : Counter) × ((script limit d now stored).1 ≡ some c)
        × (c.window_start ≡ k * d)
        × (1 ≤ c.current_count)
        × (c.current_count ≤ limit)
        × (c.current_count ≡ (roll d now stored).current_count + 1)
  unfolding script
  admitted_in_window now stored h l s allowed =
      let (at, le) = roll_window limit d k now stored h l s in
      let c = roll d now stored in
      elim (Bool-cases (leb (limit * d) (effective d now (roll d now stored)))) [
        | inl full ↦ absurd (ground arith)
        | inr room ↦ (
          record (roll d now stored) { current_count = (roll d now stored).current_count + 1 },
          rw room refl,
          at,
          omega arith,
          decide_count limit d now (roll d now stored) p room,
          refl,
        )
      ]

  -- In the window itself: what is let through comes on top of the stored count.
  within_window :
      (times : List ℕ) (c : Counter) (lo : ℕ)
      → k * d ≤ lo
      → c.window_start ≡ k * d
      → c.current_count ≤ limit
      → IsOrdered lo times
      → allowed_within (k * d) d times (replies limit d (some c) times) + c.current_count ≤ limit
  unfolding allowed_within replies
  within_window [] c lo h at le o = omega arith
  within_window (now ∷ times) c lo h at le (later, o) =
      let first = script limit d now (some c) in
      elim (Bool-cases (leb (k * d + d) now)) [
        | inl over ↦ omega (
          arith,
          none_after d (k * d) (now ∷ times) (replies limit d (some c) (now ∷ times)) now
              (ground arith) (omega arith, o),
        )
        | inr still ↦ elim (Bool-cases (script limit d now (some c)).0.allowed) [
          | inl yes_allowed ↦
              let (c', left, at', some_count, le', one_more) =
                admitted_in_window now (some c) (omega arith) (ground arith)
                  ((k, at), omega arith, le) yes_allowed in
              let same = roll_same d now c (k, at) (omega arith) (ground arith) in
              let counted : c'.current_count ≡ c.current_count + 1 =
                one_more ∙ ap (λ (x : Counter). x.current_count + 1) same in
              rw left (
                omega (
                  arith,
                  counts-le-one (k * d) d now first.0,
                  within_window times c' now (omega arith) at' le' o,
                ))
          | inr refused ↦ rw (denied_keeps limit d now (some c) refused) (
              omega (
                arith,
                denied-counts (k * d) d now first.0 refused,
                within_window times c now (omega arith) at le o,
              ))
        ]
      ]

window_of : (d now : ℕ) → 0 < d → (now / d * d ≤ now) × (now < now / d * d + d)
window_of d now p = grind arith

script-IsSound :
    (limit d now : ℕ) (stored : Option Counter)
    → 0 < d
    → IsSound limit d now stored
    → IsSound limit d now (script limit d now stored).1
script-IsSound limit d now stored p s = elim (Bool-cases (script limit d now stored).0.allowed) [
  | inl allowed ↦
      let (l, h) = window_of d now p in
      let (c', left, at, some_count, le, one_more) =
        admitted_in_window limit d (now / d) p now stored l h s allowed in
      rw left ((now / d, at), omega arith, le)
  | inr refused ↦ rw (denied_keeps limit d now stored refused) s
]

-- The requests that a key lets through in one aligned window [k * d, k * d + d) are at most the
-- limit: for requests at times that never decrease, on a key as the script leaves it.
pub allowed_in_window_at_most_limit :
    (limit d k lo : ℕ) (times : List ℕ) (stored : Option Counter)
    → 0 < d
    → IsOrdered lo times
    → IsSound limit d lo stored
    → allowed_within (k * d) d times (replies limit d stored times) ≤ limit
unfolding allowed_within replies
allowed_in_window_at_most_limit limit d k lo [] stored p o s = omega arith
allowed_in_window_at_most_limit limit d k lo (now ∷ times) stored p (later, o) s =
    let first = script limit d now stored in
    let s' = IsSound-later limit d lo now stored later s in
    let rest =
      allowed_in_window_at_most_limit limit d k now times (script limit d now stored).1 p o
        (script-IsSound limit d now stored p s') in
    elim (Bool-cases (first.0.allowed && (leb (k * d) now && ltb now (k * d + d)))) [
      | inr uncounted ↦ ground (arith, rest)
      | inl counted ↦
          let (c', left, at, some_count, le, one_more) =
            admitted_in_window limit d k p now stored (ground arith) (ground arith) s'
              (ground arith) in
          rw left (
            omega (
              arith,
              counts-le-one (k * d) d now first.0,
              within_window limit d k p times c' now (ground arith) at le o,
            ))
    ]
