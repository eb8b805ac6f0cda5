-- ===== src/Breaker/History.antt =====
-- When a breaker trips (storage/circuit_breaker.py), from the results of the calls alone.
use policyd_py.Base.{
  ℕ, zero, suc, ◌+◌, ◌≤◌, ◌<◌, ◌≡◌, refl, ap, subst, ◌↔◌, ◌⊎◌, inl, inr, List, [], ◌∷◌, ◌++◌, arith,
  length, All, leb, Bool-cases,
}
use policyd_py.Breaker.{CircuitBreaker, closed, open_circuit, new, record_success, record_failure}

-- The result of a call, and when it was recorded if it failed.
pub data Result : Type 0 where
  success : Result
  failure : ℕ → Result

unfoldable pub feed_one : Result → CircuitBreaker → CircuitBreaker
feed_one success b = record_success b
feed_one (failure now) b = record_failure now b

-- The results in the order in which they are recorded.
unfoldable pub feed : List Result → CircuitBreaker → CircuitBreaker
unfolding feed_one
feed [] b = b
feed (r ∷ rs) b = feed rs (feed_one r b)

abbrev pub IsFailure : Result → Type 0
IsFailure success = ⊥
IsFailure (failure now) = Unit

-- Some `n` results in a row are failures.
abbrev pub HasStreak : ℕ → List Result → Type 0
HasStreak n rs =
    (before : List Result) × (streak : List Result) × (after : List Result) × (rs
      ≡ before ++ streak ++ after)
    × (length streak ≡ n)
    × All IsFailure streak

-- The first `n` results are failures.
abbrev StartsWithStreak : ℕ → List Result → Type 0
StartsWithStreak n rs =
    (streak : List Result) × (after : List Result) × (rs ≡ streak ++ after)
    × (length streak ≡ n)
    × All IsFailure streak

feed_open :
    (rs : List Result) (b : CircuitBreaker)
    → b.state ≡ open_circuit
    → (feed rs b).state ≡ open_circuit
unfolding feed record_success record_failure
feed_open [] b h = h
feed_open (success ∷ rs) b h = feed_open rs (feed_one success b) (ground arith)
feed_open (failure now ∷ rs) b h = feed_open rs (feed_one (failure now) b) (ground arith)

-- A closed breaker that has counted `c` failures.
record IsCounting (t c : ℕ) (b : CircuitBreaker) : Type 0 where
  is_closed : b.state ≡ closed
  threshold : b.failure_threshold ≡ t
  counted : b.failure_count ≡ c

IsCounting-success :
    (t c : ℕ) (b : CircuitBreaker) → IsCounting t c b → IsCounting t 0 (feed_one success b)
unfolding feed_one record_success
IsCounting-success t c b h = ground arith

IsCounting-failure :
    (t c now : ℕ) (b : CircuitBreaker)
    → IsCounting t c b
    → suc c < t
    → IsCounting t (suc c) (feed_one (failure now) b)
unfolding feed_one record_failure
IsCounting-failure t c now b h k = ground arith

counting_trip :
    (t c now : ℕ) (b : CircuitBreaker)
    → IsCounting t c b
    → t ≤ suc c
    → (feed_one (failure now) b).state ≡ open_circuit
unfolding feed_one record_failure
counting_trip t c now b h k = ground arith

-- Feeding enough failures to complete the count, whatever follows, opens the breaker.
trip_by_start :
    (t c : ℕ) (streak after : List Result) (b : CircuitBreaker)
    → IsCounting t c b
    → c < t
    → t ≤ c + length streak
    → All IsFailure streak
    → (feed (streak ++ after) b).state ≡ open_circuit
unfolding feed
trip_by_start t c [] after b h lt le fs = absurd (omega arith)
trip_by_start t c (success ∷ rs) after b h lt le fs = absurd fs.0
trip_by_start t c (failure now ∷ rs) after b h lt le fs = elim (Bool-cases (leb t (suc c))) [
  | inl now_full ↦
      feed_open (rs ++ after) (feed_one (failure now) b) (counting_trip t c now b h (ground arith))
  | inr room ↦
      trip_by_start t (suc c) rs after (feed_one (failure now) b)
        (IsCounting-failure t c now b h (ground arith)) (ground arith) (omega arith) fs.1
]

trip_by_streak :
    (t c : ℕ) (before streak after : List Result) (b : CircuitBreaker)
    → IsCounting t c b
    → c < t
    → length streak ≡ t
    → All IsFailure streak
    → (feed (before ++ streak ++ after) b).state ≡ open_circuit
unfolding feed
trip_by_streak t c [] streak after b h lt e fs =
    trip_by_start t c streak after b h lt (omega arith) fs
trip_by_streak t c (success ∷ rs) streak after b h lt e fs =
    trip_by_streak t 0 rs streak after (feed_one success b) (IsCounting-success t c b h)
      (omega arith) e fs
trip_by_streak t c (failure now ∷ rs) streak after b h lt e fs = elim (Bool-cases (leb t (suc c))) [
  | inl full ↦
      feed_open (rs ++ streak ++ after) (feed_one (failure now) b)
        (counting_trip t c now b h (ground arith))
  | inr room ↦
      trip_by_streak t (suc c) rs streak after (feed_one (failure now) b)
        (IsCounting-failure t c now b h (ground arith)) (ground arith) e fs
]

HasStreak-cons : (n : ℕ) (r : Result) (rs : List Result) → HasStreak n rs → HasStreak n (r ∷ rs)
HasStreak-cons n r rs (before, streak, after, e, len, fs) =
    (r ∷ before, streak, after, ap (λ l. r ∷ l) e, len, fs)

StartsWithStreak-cons :
    (n now : ℕ) (rs : List Result)
    → StartsWithStreak n rs
    → StartsWithStreak (suc n) (failure now ∷ rs)
StartsWithStreak-cons n now rs (streak, after, e, len, fs) =
    (failure now ∷ streak, after, ap (λ l. failure now ∷ l) e, ap suc len, (tt, fs))

HasStreak-of_start : (n : ℕ) (rs : List Result) → StartsWithStreak n rs → HasStreak n rs
HasStreak-of_start n rs (streak, after, e, len, fs) = ([], streak, after, e, len, fs)

shut_is_not_closed : (t c : ℕ) (b : CircuitBreaker) → IsCounting t c b → b.state ≡ open_circuit → ⊥
shut_is_not_closed t c b h o = cc h.is_closed

-- With `m` failures missing, an open breaker has seen them at once, or a whole streak later.
streak_of_open :
    (t c m : ℕ) (rs : List Result) (b : CircuitBreaker)
    → IsCounting t c b
    → c + suc m ≡ t
    → (feed rs b).state ≡ open_circuit
    → StartsWithStreak (suc m) rs ⊎ HasStreak t rs
unfolding feed
streak_of_open t c m [] b h e o = absurd (shut_is_not_closed t c b h o)
streak_of_open t c m (success ∷ rs) b h e o =
    let size : suc (c + m) ≡ t = omega arith in
    inr (
      HasStreak-cons t success rs
        (elim (streak_of_open t 0 (c + m) rs (feed_one success b) (IsCounting-success t c b h)
          (omega arith) o) [
            | inl s ↦ subst (λ k. HasStreak k rs) size (HasStreak-of_start (suc (c + m)) rs s)
            | inr s ↦ s
          ]))
streak_of_open t c zero (failure now ∷ rs) b h e o =
    inl (failure now ∷ [], rs, refl, refl, (tt, tt))
streak_of_open t c (suc m) (failure now ∷ rs) b h e o =
    elim (streak_of_open t (suc c) m rs (feed_one (failure now) b)
      (IsCounting-failure t c now b h (omega arith)) (omega arith) o) [
        | inl s ↦ inl (StartsWithStreak-cons (suc m) now rs s)
        | inr s ↦ inr (HasStreak-cons t (failure now) rs s)
      ]

-- A fresh breaker with a positive threshold is opened by the recorded results exactly when some
-- `failure_threshold` of them in a row are failures.
pub feed-opens_iff_streak :
    (f r s : ℕ) (rs : List Result)
    → 0 < f
    → ((feed rs (new f r s)).state ≡ open_circuit) ↔ HasStreak f rs
unfolding new
feed-opens_iff_streak zero r s rs h = elim h [ ]
feed-opens_iff_streak (suc f) r s rs h = (there, back)
  where
    fresh : IsCounting (suc f) 0 (new (suc f) r s)
    fresh = record { is_closed = refl; threshold = refl; counted = refl }

    there : (feed rs (new (suc f) r s)).state ≡ open_circuit → HasStreak (suc f) rs
    there o = elim (streak_of_open (suc f) 0 f rs (new (suc f) r s) fresh (omega arith) o) [
      | inl start ↦ HasStreak-of_start (suc f) rs start
      | inr streak ↦ streak
    ]

    back : HasStreak (suc f) rs → (feed rs (new (suc f) r s)).state ≡ open_circuit
    back (before, streak, after, e, len, fs) =
        rw e (
          trip_by_streak (suc f) 0 before streak after (new (suc f) r s) fresh (omega arith) len fs)
