-- ===== src/Config/WellFormed.antt =====
-- What `parse_rate_limits` of policyd_py/config/settings.py puts into a rate limit.
use policyd_py.Base.{
  ℕ, ◌≡◌, refl, subst, inl, inr, ◌⊎◌, Bool-cases, ◌&&◌, Bool, true, false, Option, none, some, List,
  [], ◌∷◌, All, if◌then◌else◌, Text, codes, lower, text_eq, text_eq_iff, split_on, read_digits,
  Outcome, returned, raised,
}
use policyd_py.Floats.{Floats}
use policyd_py.Config.{RateLimit, token_bucket, fixed_window, sliding_window_counter}
use policyd_py.Config.Parse.{
  is_digits, ◌then◌, parse_duration_to_seconds, parse_name_list, first_suffix, without_suffix,
  suffixes_of_algorithms, split_algorithm, QuotaGroups, match_quota,
}
use policyd_py.Config.Quotas.{
  refill_of, limit_of, if_bucket, from_groups, old_refill, from_numbers, from_parts, from_match,
  parse_part, add_limit, parse_parts, parse_rate_limits,
}

module _ (F : Floats) where
  open F use {Float}

  abbrev pub IsAlgorithm : Text → Type 0
  IsAlgorithm algorithm =
      (algorithm ≡ token_bucket)
      ⊎ ((algorithm ≡ fixed_window) ⊎ (algorithm ≡ sliding_window_counter))

  -- One of the three algorithms; a refill rate other than 0 only for a token bucket; and a limit without
  -- bounds is a token bucket.
  pub record IsWellFormed (limit : RateLimit Float) : Type 0 where
    pub known : IsAlgorithm limit.algorithm
    pub refill : (limit.algorithm ≡ token_bucket) ⊎ (limit.refill_rate ≡ F.zero_float)
    pub free : limit.unlimited ≡ true → limit.algorithm ≡ token_bucket

  unfoldable pub Ensures : {A : Type 0} → (A → Type 0) → Outcome A → Type 0
  Ensures P (returned a) = P a
  Ensures P (raised exc) = Unit

  pub then-Ensures :
      {A B : Type 0} (P : A → Type 0) (Q : B → Type 0) (m : Outcome A) (f : A → Outcome B)
      → Ensures P m
      → ((a : A) → P a → Ensures Q (f a))
      → Ensures Q (m then f)
  unfolding Ensures
  then-Ensures P Q (returned a) f p q = q a p
  then-Ensures P Q (raised exc) f p q = tt

  Any : {A : Type 0} → A → Type 0
  Any a = Unit

  Ensures-Any : {A : Type 0} (m : Outcome A) → Ensures Any m
  unfolding Ensures Any
  Ensures-Any (returned a) = tt
  Ensures-Any (raised exc) = tt

  Optional : Option (RateLimit Float) → Type 0
  Optional none = Unit
  Optional (some limit) = IsWellFormed limit

  RefillFor : Text → Float → Type 0
  RefillFor algorithm x = (algorithm ≡ token_bucket) ⊎ (x ≡ F.zero_float)

  if_bucket-Refill :
      (algorithm : Text) (refill : Outcome Float)
      → Ensures (RefillFor algorithm) (if_bucket F algorithm refill)
  unfolding if_bucket Ensures RefillFor
  if_bucket-Refill algorithm refill = elim (Bool-cases (text_eq algorithm token_bucket)) [
    | inl bucket ↦ rw bucket (in_bucket refill ((text_eq_iff algorithm token_bucket).0 bucket))
    | inr window ↦ rw window (inr refl)
  ]
    where
      in_bucket : (r : Outcome Float) → algorithm ≡ token_bucket → Ensures (RefillFor algorithm) r
      in_bucket (returned x) p = inl p
      in_bucket (raised exc) p = tt

  limit_of-IsWellFormed :
      (algorithm : Text) (count duration : ℕ) (x : Float)
      → IsAlgorithm algorithm
      → RefillFor algorithm x
      → IsWellFormed (limit_of F algorithm count duration x)
  unfolding limit_of RefillFor
  limit_of-IsWellFormed algorithm count duration x k r = record {
    known = k;
    refill = r;
    free = λ h. cc;
  }

  with_refill :
      (algorithm : Text) (count duration : ℕ) (refill : Outcome Float)
      → IsAlgorithm algorithm
      → Ensures Optional (
          if_bucket F algorithm refill then λ x.
          returned (some (limit_of F algorithm count duration x)))
  unfolding Ensures Optional
  with_refill algorithm count duration refill k =
      then-Ensures (RefillFor algorithm) Optional (if_bucket F algorithm refill)
        (λ x. returned (some (limit_of F algorithm count duration x)))
        (if_bucket-Refill algorithm refill)
        (λ x r. limit_of-IsWellFormed algorithm count duration x k r)

  from_groups-Optional :
      (algorithm : Text) (m : QuotaGroups)
      → IsAlgorithm algorithm
      → Ensures Optional (from_groups F algorithm m)
  unfolding from_groups
  from_groups-Optional algorithm m k =
      then-Ensures Any Optional (parse_duration_to_seconds m.duration)
        (λ duration.
          if_bucket F algorithm (refill_of F (read_digits 0 m.count) duration m.refill) then λ x.
          returned (some (limit_of F algorithm (read_digits 0 m.count) duration x)))
        (Ensures-Any (parse_duration_to_seconds m.duration))
        (λ duration any.
          with_refill algorithm (read_digits 0 m.count) duration
            (refill_of F (read_digits 0 m.count) duration m.refill) k)

  if-Optional :
      (b : Bool) (m n : Outcome (Option (RateLimit Float)))
      → Ensures Optional m
      → Ensures Optional n
      → Ensures Optional (if b then m else n)
  if-Optional true m n p q = p
  if-Optional false m n p q = q

  from_parts-Optional :
      (algorithm : Text) (parts : List Text)
      → IsAlgorithm algorithm
      → Ensures Optional (from_parts F algorithm parts)
  unfolding from_parts from_numbers Ensures Optional
  from_parts-Optional algorithm [] k = tt
  from_parts-Optional algorithm (count ∷ []) k = tt
  from_parts-Optional algorithm (count ∷ duration ∷ rest) k =
      if-Optional (is_digits count && is_digits duration)
        (from_numbers F algorithm (read_digits 0 count) (read_digits 0 duration) rest)
        (returned none)
        (with_refill algorithm (read_digits 0 count) (read_digits 0 duration)
          (old_refill F (read_digits 0 count) (read_digits 0 duration) rest) k)
        tt

  from_match-Optional :
      (algorithm base : Text) (m : Option QuotaGroups)
      → IsAlgorithm algorithm
      → Ensures Optional (from_match F algorithm base m)
  unfolding from_match
  from_match-Optional algorithm base (some m) k = from_groups-Optional algorithm m k
  from_match-Optional algorithm base none k = from_parts-Optional algorithm (split_on b':' base) k

  first_suffix-IsAlgorithm :
      (part : Text) (suffixes : List (Text × Text))
      → All (λ s. IsAlgorithm s.1) suffixes
      → IsAlgorithm (first_suffix part suffixes).0
  unfolding first_suffix
  first_suffix-IsAlgorithm part [] k = inl refl
  first_suffix-IsAlgorithm part ((suffix, algorithm) ∷ suffixes) (k, ks) =
      at_suffix (without_suffix part suffix) (first_suffix-IsAlgorithm part suffixes ks)
    where
      at_suffix :
          (base : Option Text)
          → IsAlgorithm (first_suffix part suffixes).0
          → IsAlgorithm
              (elim base as (λ b. Text × Text) [
                | none ↦ first_suffix part suffixes
                | some base ↦ (algorithm, base)
              ]).0
      at_suffix none later = later
      at_suffix (some base) later = k

  split_algorithm-IsAlgorithm : (part : Text) → IsAlgorithm (split_algorithm part).0
  unfolding split_algorithm
  split_algorithm-IsAlgorithm part =
      first_suffix-IsAlgorithm part suffixes_of_algorithms
        (inr (inr refl), (inr (inr refl), (inr (inl refl), (inl refl, tt))))

  parse_part-Optional : (part : Text) → Ensures Optional (parse_part F part)
  unfolding parse_part limit_of Ensures Optional
  parse_part-Optional part =
      if-Optional (text_eq (lower part) (codes "unlimited"))
        (returned (some (record (limit_of F token_bucket 0 0 F.zero_float) { unlimited = true })))
        (from_match F (split_algorithm part).0 (split_algorithm part).1
          (match_quota (split_algorithm part).1))
        (record { known = inl refl; refill = inl refl; free = λ h. refl })
        (from_match-Optional (split_algorithm part).0 (split_algorithm part).1
          (match_quota (split_algorithm part).1) (split_algorithm-IsAlgorithm part))

  add_limit-All :
      (limit : Option (RateLimit Float)) (limits : List (RateLimit Float))
      → Optional limit
      → All IsWellFormed limits
      → All IsWellFormed (add_limit F limit limits)
  unfolding add_limit Optional
  add_limit-All none limits p ps = ps
  add_limit-All (some limit) limits p ps = (p, ps)

  pub parse_parts-All : (parts : List Text) → Ensures (All IsWellFormed) (parse_parts F parts)
  unfolding parse_parts Ensures
  parse_parts-All [] = tt
  parse_parts-All (part ∷ parts) =
      then-Ensures Optional (All IsWellFormed) (parse_part F part)
        (λ limit. parse_parts F parts then λ limits. returned (add_limit F limit limits))
        (parse_part-Optional part)
        (λ limit p.
          then-Ensures (All IsWellFormed) (All IsWellFormed) (parse_parts F parts)
            (λ limits. returned (add_limit F limit limits)) (parse_parts-All parts)
            (λ limits ps. add_limit-All limit limits p ps))

  -- For every value whose quotas can be read: each rate limit that is read has one of the three
  -- algorithms that the limiter has a script for, a refill rate other than 0 only if it is a token
  -- bucket, and is a token bucket if it is unlimited.
  parse_rate_limits-IsWellFormed :
      (value : Text) (limits : List (RateLimit Float))
      → parse_rate_limits F value ≡ returned limits
      → All IsWellFormed limits
  unfolding parse_rate_limits Ensures
  parse_rate_limits-IsWellFormed value limits h =
      subst (Ensures (All IsWellFormed)) h (parse_parts-All (parse_name_list value))
