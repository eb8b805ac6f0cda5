-- ===== src/Limiter/Reply.antt =====
-- The reply of a Lua script of policyd_py/ratelimit/limiter.py, and the requests that a list of
-- replies lets through.
use policyd_py.Base.{
  ℕ, ◌+◌, ◌≤◌, ◌≡◌, refl, Bool, ◌&&◌, List, [], ◌∷◌, arith, leb, ltb, if◌then◌else◌,
}

-- The reply {allowed, usage}.
pub record Reply : Type 0 where
  pub allowed : Bool
  pub usage : ℕ

-- Times that never decrease, from `lo` on.
abbrev pub IsOrdered : ℕ → List ℕ → Type 0
IsOrdered lo [] = Unit
IsOrdered lo (now ∷ times) = (lo ≤ now) × IsOrdered now times

abbrev pub counts_at : ℕ → ℕ → ℕ → Reply → ℕ
counts_at from span now r = if r.allowed && (leb from now && ltb now (from + span)) then 1 else 0

-- How many of the replies let a request through at a time in [from, from + span).
unfoldable pub allowed_within : ℕ → ℕ → List ℕ → List Reply → ℕ
allowed_within from span [] rs = 0
allowed_within from span (now ∷ times) [] = 0
allowed_within from span (now ∷ times) (r ∷ rs) =
    counts_at from span now r + allowed_within from span times rs

module _ (d from : ℕ) where
  -- Nothing counts after the interval.
  pub none_after :
      (times : List ℕ) (rs : List Reply) (lo : ℕ)
      → from + d ≤ lo
      → IsOrdered lo times
      → allowed_within from d times rs ≡ 0
  unfolding allowed_within
  none_after [] rs lo h o = refl
  none_after (now ∷ times) [] lo h o = refl
  none_after (now ∷ times) (r ∷ rs) lo h (le, o) =
      ground (arith, none_after times rs now (omega arith) o)
