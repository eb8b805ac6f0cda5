-- ===== src/Handler/Adapted.antt =====
-- What stays of the limits that policyd_py/policy/handler.py has adapted.
use policyd_py.Base.{
  ℕ, All, ◌≤◌, ◌≡◌, refl, inl, inr, arith, Bool-cases, Bool, true, false, List, [], ◌∷◌,
  if◌then◌else◌, Text, Outcome, returned, Eff, ◌>>=◌,
}
use policyd_py.Floats.{Floats}
use policyd_py.Config.{RateLimit}
use policyd_py.Config.Parse.{◌then◌}
use policyd_py.Models.{PolicyRequest}
use policyd_py.Outside.{Outside}
use policyd_py.Redis.{RedisClient}
use policyd_py.Handler.{Engine, Handler, on_redis}
use policyd_py.Handler.Adaptive.{
  is_trusted_request, scale_limit, scale_limits, resolve_adaptive_multiplier, adapt_with,
  apply_adaptive_limits,
}

module _ (F : Floats) where
  open F use {Float}

  -- A limit of the configuration and what it has become.
  pub record IsAdapted (before after : RateLimit Float) : Type 0 where
    pub duration : after.duration ≡ before.duration
    pub algorithm : after.algorithm ≡ before.algorithm
    pub unlimited : after.unlimited ≡ before.unlimited
    pub free : before.unlimited ≡ true → after ≡ before
    pub positive : before.unlimited ≡ false → 1 ≤ before.count → 1 ≤ after.count

  abbrev pub AreAdapted : List (RateLimit Float) → List (RateLimit Float) → Type 0
  AreAdapted [] [] = Unit
  AreAdapted [] (l ∷ ls) = ⊥
  AreAdapted (l ∷ ls) [] = ⊥
  AreAdapted (l ∷ ls) (k ∷ ks) = IsAdapted l k × AreAdapted ls ks

  AreAdapted-refl : (ls : List (RateLimit Float)) → AreAdapted ls ls
  AreAdapted-refl [] = tt
  AreAdapted-refl (l ∷ ls) = (
    record {
      duration = refl;
      algorithm = refl;
      unlimited = refl;
      free = λ h. refl;
      positive = λ h p. p;
    },
    AreAdapted-refl ls,
  )

  -- A result that satisfies a predicate is returned.
  abbrev pub Returns : {A : Type 0} → (A → Type 0) → Outcome A → Type 0
  Returns {A = A} P r = (a : A) × (r ≡ returned a) × P a

  then-Returns :
      {A B : Type 0} (P : A → Type 0) (Q : B → Type 0) (r : Outcome A) (f : A → Outcome B)
      → Returns P r
      → ((a : A) → P a → Returns Q (f a))
      → Returns Q (r then f)
  then-Returns P Q r f (a, h, p) k = rw h (k a p)

  -- The count of a limit times the multiplier is a finite number.
  abbrev pub IsScalable : Float → RateLimit Float → Type 0
  IsScalable x l = (n : ℕ) × (F.ceiling (F.times (F.of_ℕ l.count) x) ≡ returned n)

  if_scaled-Returns :
      (unlimited : Bool) (l : RateLimit Float) (r : Outcome ℕ) (f : ℕ → Outcome (RateLimit Float))
      → l.unlimited ≡ unlimited
      → ((n : ℕ) × (r ≡ returned n))
      → ((n : ℕ) → Returns (λ k. l.unlimited ≡ false → IsAdapted l k) (f n))
      → Returns (IsAdapted l) (if unlimited then returned l else r then f)
  if_scaled-Returns true l r f u (n, h) k = (l, refl, (AreAdapted-refl (l ∷ [])).0)
  if_scaled-Returns false l r f u (n, h) k = let (scaled, e, p) = k n in rw h (scaled, e, p u)

  scale_limit-Returns :
      (x : Float) (l : RateLimit Float) → IsScalable x l → Returns (IsAdapted l) (scale_limit F x l)
  unfolding scale_limit
  scale_limit-Returns x l s =
      if_scaled-Returns l.unlimited l (F.ceiling (F.times (F.of_ℕ l.count) x)) _ refl s (λ n. (
        _,
        refl,
        (λ u. record {
          duration = refl;
          algorithm = refl;
          unlimited = refl;
          free = λ h. cc;
          positive = λ h p. omega arith;
        }),
      ))

  scale_limits-Returns :
      (x : Float) (ls : List (RateLimit Float))
      → All (IsScalable x) ls
      → Returns (AreAdapted ls) (scale_limits F x ls)
  unfolding scale_limits
  scale_limits-Returns x [] s = ([], refl, tt)
  scale_limits-Returns x (l ∷ ls) (s, ss) =
      then-Returns (IsAdapted l) (AreAdapted (l ∷ ls)) (scale_limit F x l) _
        (scale_limit-Returns x l s)
        (λ k p.
          then-Returns (AreAdapted ls) (AreAdapted (l ∷ ls)) (scale_limits F x ls) _
            (scale_limits-Returns x ls ss) (λ ks ps. (k ∷ ks, refl, (p, ps))))

  bind-Returns :
      {S A B : Type 0} (P : B → Type 0) (m : Eff S A) (f : A → Eff S B) (s : S) (a : A)
      → (m s).0 ≡ returned a
      → ((s' : S) → Returns P (f a s').0)
      → Returns P ((m >>= f) s).0
  bind-Returns P m f s a h q = rw h (q (m s).1)

  module _ (o : Outside F.Float) (e : Engine F o.World) where
    open o use {World}

    adapt_with-AreAdapted :
        (limits : List (RateLimit Float)) (x : Float) (h : Handler World)
        → All (IsScalable x) limits
        → Returns (AreAdapted limits) (adapt_with F o limits x h).0
    unfolding adapt_with
    adapt_with-AreAdapted limits x h s = elim (Bool-cases (F.is_close_to_one x)) [
      | inl close ↦ rw close (limits, refl, AreAdapted-refl limits)
      | inr far ↦ rw far (scale_limits-Returns x limits s)
    ]

    if_adaptive :
        (enabled : Bool) (limits : List (RateLimit Float)) (m : Eff (RedisClient World) Float)
        (h : Handler World) (x : Float)
        → (m h.redis).0 ≡ returned x
        → All (IsScalable x) limits
        → Returns
            (AreAdapted limits)
            (if enabled
              then (on_redis m >>= λ x. adapt_with F o limits x) h
              else (returned limits, h)).0
    if_adaptive true limits m h x p s =
        bind-Returns (AreAdapted limits) (on_redis m) (adapt_with F o limits) h x p
          (λ h'. adapt_with-AreAdapted limits x h' s)
    if_adaptive false limits m h x p s = (limits, refl, AreAdapted-refl limits)

    multiplier-Returns :
        (req : PolicyRequest) (selector : Text) (local_domains : List Text) (c : RedisClient World)
        (trusted : Bool)
        → (is_trusted_request F o e req selector c).0 ≡ returned trusted
        → Returns (λ x. Unit {0}) (resolve_adaptive_multiplier F o e local_domains req selector c).0
    unfolding resolve_adaptive_multiplier
    multiplier-Returns req selector local_domains c trusted p =
        bind-Returns (λ x. Unit {0}) (is_trusted_request F o e req selector) _ c trusted p
          (λ s. (_, refl, tt))

    -- If Redis answers whether the sender of a request is trusted, and the count of every limit times the
    -- multiplier of the request is a finite number, the limits of the request are adapted without an error,
    -- and limit by limit: the duration, the algorithm and being unlimited stay, an unlimited one stays whole,
    -- and a limit that lets a request pass still lets one pass.
    pub adaptive_limits_keep_shape :
        (req : PolicyRequest) (selector : Text) (limits : List (RateLimit Float))
        (h : Handler World) (trusted : Bool)
        → (is_trusted_request F o e req selector h.redis).0 ≡ returned trusted
        → ((x : Float)
            → (resolve_adaptive_multiplier F o e h.local_domains req selector h.redis).0
              ≡ returned x
            → All (IsScalable x) limits)
        → Returns (AreAdapted limits) (apply_adaptive_limits F o e req selector limits h).0
    unfolding apply_adaptive_limits
    adaptive_limits_keep_shape req selector limits h trusted p s =
        let (x, e_x, u) = multiplier-Returns req selector h.local_domains h.redis trusted p in
        if_adaptive e.config.adaptive.enable limits
          (resolve_adaptive_multiplier F o e h.local_domains req selector) h x e_x (s x e_x)
