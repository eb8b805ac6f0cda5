-- ===== src/Handler/Penalties.antt =====
-- The lock durations of repeated violations in policyd_py/policy/handler.py.
use policyd_py.Base.{
  ℕ, ◌≤◌, ◌<◌, zero, suc, max, ◌≡◌, refl, arith, inl, inr, Bool-cases, List, [], ◌∷◌, length,
  returned, ltb,
}
use policyd_py.Floats.{Floats}
use policyd_py.Outside.{Outside}
use policyd_py.Handler.{Engine, Handler}
use policyd_py.Handler.Locks.{get_step, step_index, penalty_duration}

abbrev pub IsSorted : List ℕ → Type 0
IsSorted [] = Unit
IsSorted (d ∷ []) = Unit
IsSorted (d ∷ e ∷ steps) = (d ≤ e) × IsSorted (e ∷ steps)

get_step-zero : (d : ℕ) (steps : List ℕ) → get_step (d ∷ steps) 0 ≡ d
unfolding get_step
get_step-zero d steps = refl

get_step-suc : (d : ℕ) (steps : List ℕ) (i : ℕ) → get_step (d ∷ steps) (suc i) ≡ get_step steps i
unfolding get_step
get_step-suc d steps i = ground arith

head_le :
    (d : ℕ) (steps : List ℕ) (j : ℕ)
    → IsSorted (d ∷ steps)
    → j < suc (length steps)
    → d ≤ get_step (d ∷ steps) j
head_le d steps zero s h = omega (arith, get_step-zero d steps)
head_le d [] (suc j) s h = absurd (omega arith)
head_le d (e ∷ steps) (suc j) s h =
    omega (arith, s.0, get_step-suc d (e ∷ steps) j, head_le e steps j s.1 (omega (arith, h)))

tail-IsSorted : (d : ℕ) (steps : List ℕ) → IsSorted (d ∷ steps) → IsSorted steps
tail-IsSorted d [] s = tt
tail-IsSorted d (e ∷ steps) s = s.1

get_step-monotone :
    (steps : List ℕ) (i j : ℕ)
    → IsSorted steps
    → i ≤ j
    → j < length steps
    → get_step steps i ≤ get_step steps j
get_step-monotone [] i j s le h = absurd (omega (arith, h))
get_step-monotone (d ∷ steps) zero j s le h =
    omega (arith, get_step-zero d steps, head_le d steps j s h)
get_step-monotone (d ∷ steps) (suc i) zero s le h = absurd (omega (arith, le))
get_step-monotone (d ∷ steps) (suc i) (suc j) s le h = omega (
  arith,
  get_step-suc d steps i,
  get_step-suc d steps j,
  get_step-monotone steps i j (tail-IsSorted d steps s) (omega (arith, le)) (omega (arith, h)),
)

duration_after : (steps : List ℕ) → ℕ → ℕ
unfolding step_index
duration_after steps n = max 1 (get_step steps (step_index n steps))

duration_after-monotone :
    (d : ℕ) (steps : List ℕ) (m n : ℕ)
    → IsSorted (d ∷ steps)
    → m ≤ n
    → duration_after (d ∷ steps) m ≤ duration_after (d ∷ steps) n
unfolding duration_after step_index
duration_after-monotone d steps m n s le = grind (
  arith,
  get_step-monotone (d ∷ steps) (step_index m (d ∷ steps)) (step_index n (d ∷ steps)) s
      (omega (arith, le)) (omega arith),
)

module _ (F : Floats) (o : Outside F.Float) (e : Engine F o.World) where
  open o use {World}

  penalty_duration-is :
      (steps : List ℕ) (n : ℕ) (h : Handler World)
      → (penalty_duration F o e steps n h).0 ≡ returned (duration_after steps n)
  unfolding penalty_duration duration_after
  penalty_duration-is steps n h = elim (Bool-cases (ltb 0 (step_index n steps))) [
    | inl later ↦ rw later refl
    | inr first ↦ rw first refl
  ]

  -- For the configured steps, if there are any and they do not fall: the duration of a penalty is
  -- always computed, it is at least one second, and after more violations it is not shorter, whatever the
  -- states are in which the two durations are computed.
  pub penalty_never_shrinks :
      (d : ℕ) (steps : List ℕ) (m n : ℕ) (h h' : Handler World)
      → IsSorted (d ∷ steps)
      → m ≤ n
      → (first : ℕ) × (later : ℕ) × (((penalty_duration F o e (d ∷ steps) m h).0 ≡ returned first)
          × ((penalty_duration F o e (d ∷ steps) n h').0 ≡ returned later)
          × (1 ≤ first)
          × (first ≤ later))
  unfolding duration_after
  penalty_never_shrinks d steps m n h h' s le = (
    duration_after (d ∷ steps) m,
    duration_after (d ∷ steps) n,
    (
      penalty_duration-is (d ∷ steps) m h,
      penalty_duration-is (d ∷ steps) n h',
      omega arith,
      duration_after-monotone d steps m n s le,
    ),
  )
