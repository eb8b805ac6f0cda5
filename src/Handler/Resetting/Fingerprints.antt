-- ===== src/Handler/Resetting/Fingerprints.antt =====
-- What `_all_configured_limits` of policyd_py/policy/handler.py collects: of limits with the same fields, one.
use policyd_py.Base.{
  ℕ, ◌≡◌, refl, inl, inr, ◌⊎◌, arith, Bool-cases, text_eq, text_eq_iff, ◌==◌, ◌&&◌, Bool, true,
  false, List, [], ◌∷◌, ◌++◌, All, if◌then◌else◌,
}
use policyd_py.Base.Dict.{values}
use policyd_py.Floats.{Floats}
use policyd_py.Config.{RateLimit}
use policyd_py.Outside.{Outside}
use policyd_py.Handler.{Engine}
use policyd_py.Handler.Manual.{
  same_bool, same_fingerprint, is_seen, collect_from, of_quotas, all_configured_limits,
}

-- Some element of a list satisfies a predicate.
abbrev pub AnyOf : {A : Type 0} → (A → Type 0) → List A → Type 0
AnyOf P [] = ⊥
AnyOf P (a ∷ rest) = P a ⊎ AnyOf P rest

split_true : (a b : Bool) → (a && b) ≡ true → (a ≡ true) × (b ≡ true)
split_true true b h = (refl, h)
split_true false b h = cc

same_bool-true : (a b : Bool) → same_bool a b ≡ true → a ≡ b
unfolding same_bool
same_bool-true true true h = refl
same_bool-true true false h = cc
same_bool-true false true h = cc
same_bool-true false false h = refl

same_bool_refl : (a b : Bool) → a ≡ b → same_bool a b ≡ true
unfolding same_bool
same_bool_refl true true h = refl
same_bool_refl true false h = cc
same_bool_refl false true h = cc
same_bool_refl false false h = refl

nat_eq : (a b : ℕ) → (a == b) ≡ true → a ≡ b
nat_eq a b h = ground arith

nat_refl : (a b : ℕ) → a ≡ b → (a == b) ≡ true
nat_refl a b h = ground arith

All-append : {A : Type 0} (P : A → Type 0) (xs ys : List A) → All P (xs ++ ys) → All P xs × All P ys
All-append P [] ys h = (tt, h)
All-append P (x ∷ xs) ys (h, hs) = let (l, r) = All-append P xs ys hs in ((h, l), r)

All-map :
    {A : Type 0} (P Q : A → Type 0) (xs : List A) → ((a : A) → P a → Q a) → All P xs → All Q xs
All-map P Q [] f h = tt
All-map P Q (x ∷ xs) f (h, hs) = (f x h, All-map P Q xs f hs)

if-All :
    {A : Type 0} (P : A → Type 0) (b : Bool) (x y : A)
    → (b ≡ true → P x)
    → (b ≡ false → P y)
    → P (if b then x else y)
if-All P true x y p q = p refl
if-All P false x y p q = q refl

module _ (F : Floats) (same_rate : F.Float → F.Float → Bool) (o : Outside F.Float)
    (e : Engine F o.World) where
  open F use {Float}
  open e use {config}

  -- The same fields, as floating point numbers compare.
  abbrev pub Same : RateLimit Float → RateLimit Float → Type 0
  Same a b =
      (a.algorithm ≡ b.algorithm)
      × (a.duration ≡ b.duration)
      × (a.count ≡ b.count)
      × (same_rate a.refill_rate b.refill_rate ≡ true)
      × (a.unlimited ≡ b.unlimited)

  -- No limit has the same fields as an earlier one.
  abbrev pub Distinct : List (RateLimit Float) → Type 0
  Distinct [] = Unit
  Distinct (l ∷ ls) = All (λ k. ¬ Same k l) ls × Distinct ls

  -- The limit itself, or one with the same fields, is in a list.
  abbrev pub StandsFor : RateLimit Float → RateLimit Float → Type 0
  StandsFor l k = (l ≡ k) ⊎ Same l k

  Same-true : (a b : RateLimit Float) → same_fingerprint F same_rate o e a b ≡ true → Same a b
  unfolding same_fingerprint
  Same-true a b h =
      let (t, h1) = split_true (text_eq a.algorithm b.algorithm) _ h in
      let (d, h2) = split_true (a.duration == b.duration) _ h1 in
      let (c, h3) = split_true (a.count == b.count) _ h2 in
      let (r, u) = split_true (same_rate a.refill_rate b.refill_rate) _ h3 in
      (
        (text_eq_iff a.algorithm b.algorithm).0 t,
        nat_eq a.duration b.duration d,
        nat_eq a.count b.count c,
        r,
        same_bool-true a.unlimited b.unlimited u,
      )

  true-Same : (a b : RateLimit Float) → Same a b → same_fingerprint F same_rate o e a b ≡ true
  unfolding same_fingerprint
  true-Same a b (t, d, c, r, u) =
      rw
        (
          (text_eq_iff a.algorithm b.algorithm).1 t,
          nat_refl a.duration b.duration d,
          nat_refl a.count b.count c,
          r,
          same_bool_refl a.unlimited b.unlimited u,
        )
        refl

  unseen :
      (l : RateLimit Float) (seen : List (RateLimit Float))
      → is_seen F same_rate o e l seen ≡ false
      → All (λ s. ¬ Same l s) seen
  unfolding is_seen
  unseen l [] h = tt
  unseen l (s ∷ seen) h = elim (Bool-cases (same_fingerprint F same_rate o e l s)) [
    | inl same ↦ cc (rw same at h)
    | inr other ↦ ((λ x. cc (true-Same l s x)), unseen l seen (rw other at h))
  ]

  seen_before :
      (l : RateLimit Float) (seen : List (RateLimit Float))
      → is_seen F same_rate o e l seen ≡ true
      → AnyOf (StandsFor l) seen
  unfolding is_seen
  seen_before l [] h = cc
  seen_before l (s ∷ seen) h = elim (Bool-cases (same_fingerprint F same_rate o e l s)) [
    | inl same ↦ inl (inr (Same-true l s same))
    | inr other ↦ inr (seen_before l seen (rw other at h))
  ]

  if-collected :
      (P : List (RateLimit Float) → Type 0) (l : RateLimit Float)
      (seen rest more : List (RateLimit Float))
      → (is_seen F same_rate o e l seen ≡ true → P rest)
      → (is_seen F same_rate o e l seen ≡ false → P (l ∷ more))
      → P (if is_seen F same_rate o e l seen then rest else l ∷ more)
  if-collected P l seen rest more p q =
      if-All P (is_seen F same_rate o e l seen) rest (l ∷ more) p q

  -- What is collected has not been seen.
  collect-unseen :
      (seen limits : List (RateLimit Float))
      → All (λ k. All (λ s. ¬ Same k s) seen) (collect_from F same_rate o e seen limits)
  unfolding collect_from
  collect-unseen seen [] = tt
  collect-unseen seen (l ∷ limits) =
      if-collected (All (λ k. All (λ s. ¬ Same k s) seen)) l seen
        (collect_from F same_rate o e seen limits) (collect_from F same_rate o e (l ∷ seen) limits)
        (λ h. collect-unseen seen limits)
        (λ h. (
          unseen l seen h,
          All-map (λ k. All (λ s. ¬ Same k s) (l ∷ seen)) (λ k. All (λ s. ¬ Same k s) seen)
              (collect_from F same_rate o e (l ∷ seen) limits) (λ k x. x.1)
              (collect-unseen (l ∷ seen) limits),
        ))

  collect-Distinct :
      (seen limits : List (RateLimit Float)) → Distinct (collect_from F same_rate o e seen limits)
  unfolding collect_from
  collect-Distinct seen [] = tt
  collect-Distinct seen (l ∷ limits) =
      if-collected Distinct l seen (collect_from F same_rate o e seen limits)
        (collect_from F same_rate o e (l ∷ seen) limits) (λ h. collect-Distinct seen limits)
        (λ h. (
          All-map (λ k. All (λ s. ¬ Same k s) (l ∷ seen)) (λ k. ¬ Same k l)
              (collect_from F same_rate o e (l ∷ seen) limits) (λ k x. x.0)
              (collect-unseen (l ∷ seen) limits),
          collect-Distinct (l ∷ seen) limits,
        ))

  -- A limit stands in a list, or in what was seen.
  abbrev Stands : List (RateLimit Float) → List (RateLimit Float) → RateLimit Float → Type 0
  Stands seen result l = AnyOf (StandsFor l) seen ⊎ AnyOf (StandsFor l) result

  moved :
      (l k : RateLimit Float) (seen result : List (RateLimit Float))
      → Stands (k ∷ seen) result l
      → Stands seen (k ∷ result) l
  moved l k seen result (inl (inl x)) = inr (inl x)
  moved l k seen result (inl (inr x)) = inl x
  moved l k seen result (inr x) = inr (inr x)

  collect-Stands :
      (seen limits : List (RateLimit Float))
      → All (Stands seen (collect_from F same_rate o e seen limits)) limits
  unfolding collect_from
  collect-Stands seen [] = tt
  collect-Stands seen (l ∷ limits) =
      if-collected (λ result. All (Stands seen result) (l ∷ limits)) l seen
        (collect_from F same_rate o e seen limits) (collect_from F same_rate o e (l ∷ seen) limits)
        (λ h. (inl (seen_before l seen h), collect-Stands seen limits))
        (λ h. (
          inr (inl (inl refl)),
          All-map (Stands (l ∷ seen) (collect_from F same_rate o e (l ∷ seen) limits))
              (Stands seen (l ∷ collect_from F same_rate o e (l ∷ seen) limits)) limits
              (λ k. moved k l seen (collect_from F same_rate o e (l ∷ seen) limits))
              (collect-Stands (l ∷ seen) limits),
        ))

  -- What is collected is among the limits that are gone through.
  collect-among :
      (seen limits : List (RateLimit Float))
      → All (λ k. AnyOf (λ l. k ≡ l) limits) (collect_from F same_rate o e seen limits)
  unfolding collect_from
  collect-among seen [] = tt
  collect-among seen (l ∷ limits) =
      if-collected (All (λ k. AnyOf (λ m. k ≡ m) (l ∷ limits))) l seen
        (collect_from F same_rate o e seen limits) (collect_from F same_rate o e (l ∷ seen) limits)
        (λ h. later (collect_from F same_rate o e seen limits) (collect-among seen limits))
        (λ h. (
          inl refl,
          later (collect_from F same_rate o e (l ∷ seen) limits) (collect-among (l ∷ seen) limits),
        ))
    where
      later :
          (ks : List (RateLimit Float))
          → All (λ k. AnyOf (λ m. k ≡ m) limits) ks
          → All (λ k. AnyOf (λ m. k ≡ m) (l ∷ limits)) ks
      later ks h =
          All-map (λ k. AnyOf (λ m. k ≡ m) limits) (λ k. AnyOf (λ m. k ≡ m) (l ∷ limits)) ks
            (λ k x. inr x) h

  in_quotas :
      (P : RateLimit Float → Type 0) (quotas : List (List (RateLimit Float)))
      → All P (of_quotas F same_rate o e quotas)
      → All (All P) quotas
  unfolding of_quotas
  in_quotas P [] h = tt
  in_quotas P (q ∷ quotas) h =
      let (l, r) = All-append P q (of_quotas F same_rate o e quotas) h in (l, in_quotas P quotas r)

  any-append :
      (P : RateLimit Float → Type 0) (xs ys : List (RateLimit Float))
      → AnyOf P (xs ++ ys)
      → AnyOf P xs ⊎ AnyOf P ys
  any-append P [] ys h = inr h
  any-append P (x ∷ xs) ys (inl h) = inl (inl h)
  any-append P (x ∷ xs) ys (inr h) = elim (any-append P xs ys h) [
    | inl l ↦ inl (inr l)
    | inr r ↦ inr r
  ]

  any_quota :
      (P : RateLimit Float → Type 0) (quotas : List (List (RateLimit Float)))
      → AnyOf P (of_quotas F same_rate o e quotas)
      → AnyOf (AnyOf P) quotas
  unfolding of_quotas
  any_quota P [] h = h
  any_quota P (q ∷ quotas) h = elim (any-append P q (of_quotas F same_rate o e quotas) h) [
    | inl l ↦ inl l
    | inr r ↦ inr (any_quota P quotas r)
  ]

  only_result :
      (result limits : List (RateLimit Float))
      → All (Stands [] result) limits
      → All (λ l. AnyOf (StandsFor l) result) limits
  only_result result limits h =
      All-map (Stands [] result) (λ l. AnyOf (StandsFor l) result) limits
        (λ l x. elim x [ inl none ↦ absurd none | inr found ↦ found ]) h

  -- The configured limits, each once: none twice, every one of the default quota and of the quotas, and no
  -- others.
  pub record IsEachOnce (limits : List (RateLimit Float)) : Type 0 where
    pub distinct : Distinct limits
    pub of_default : All (λ l. AnyOf (StandsFor l) limits) config.limits.default_quota
    pub of_every_quota : All (All (λ l. AnyOf (StandsFor l) limits)) (values config.limits.quotas)
    pub no_others :
        All
          (λ k.
            AnyOf (λ l. k ≡ l) config.limits.default_quota
            ⊎ AnyOf (AnyOf (λ l. k ≡ l)) (values config.limits.quotas))
          limits

  pub all_configured_limits-IsEachOnce : IsEachOnce (all_configured_limits F same_rate o e)
  unfolding all_configured_limits
  all_configured_limits-IsEachOnce =
      let quotas = values config.limits.quotas in
      let configured = config.limits.default_quota ++ of_quotas F same_rate o e quotas in
      let result = collect_from F same_rate o e [] configured in
      let (default, others) =
        All-append (λ l. AnyOf (StandsFor l) result) config.limits.default_quota
          (of_quotas F same_rate o e quotas)
          (only_result result configured (collect-Stands [] configured)) in
      record {
        distinct = collect-Distinct [] configured;
        of_default = default;
        of_every_quota = in_quotas (λ l. AnyOf (StandsFor l) result) quotas others;
        no_others =
            All-map (λ k. AnyOf (λ l. k ≡ l) configured)
              (λ k.
                AnyOf (λ l. k ≡ l) config.limits.default_quota ⊎ AnyOf (AnyOf (λ l. k ≡ l)) quotas)
              result
              (λ k x.
                elim (any-append (λ l. k ≡ l) config.limits.default_quota
                  (of_quotas F same_rate o e quotas) x) [
                    | inl d ↦ inl d
                    | inr q ↦ inr (any_quota (λ l. k ≡ l) quotas q)
                  ])
              (collect-among [] configured);
      }
