-- ===== src/Base/Splitting.antt =====
-- `split` against joining: what the parts are, and that they are the parts of what they join to.
use Prim.Native.Nat.{ℕ}
use mathlib.Core.Path.{◌≡◌, refl, ap, sym, ◌∙◌}
use mathlib.Core.Logic.{◌≢◌, inl, inr}
use mathlib.Core.Bool.{false}
use mathlib.Core.List.{List, [], ◌∷◌, ◌++◌}
use mathlib.Core.Option.{Option, none, some}
use policyd_py.Base.Tests.{◌==◌, Bool-cases, ==_iff}
use policyd_py.Base.Lists.{All}
use policyd_py.Base.Texts.{Text, split_on, split_once, cons_head, cons_fst}

-- sep.join(parts)
abbrev pub join_with : ℕ → List Text → Text
join_with sep [] = []
join_with sep (t ∷ []) = t
join_with sep (t ∷ u ∷ ts) = t ++ (sep ∷ join_with sep (u ∷ ts))

-- The separator does not occur.
abbrev pub IsFree : ℕ → Text → Type 0
IsFree sep [] = Unit
IsFree sep (c ∷ s) = ((c == sep) ≡ false) × IsFree sep s

-- The text that `split_once` has taken apart.
abbrev pub rejoin : ℕ → Text × Option Text → Text
rejoin sep (before, none) = before
rejoin sep (before, some after) = before ++ sep ∷ after

rejoin-cons_fst :
    (sep c : ℕ) (p : Text × Option Text) → rejoin sep (cons_fst c p) ≡ c ∷ rejoin sep p
rejoin-cons_fst sep c (before, none) = refl
rejoin-cons_fst sep c (before, some after) = refl

pub rejoin-split_once : (sep : ℕ) (s : Text) → rejoin sep (split_once sep s) ≡ s
unfolding split_once
rejoin-split_once sep [] = refl
rejoin-split_once sep (c ∷ s) = elim (Bool-cases (c == sep)) [
  | inl here ↦ rw here (cc (sym ((==_iff c sep).0 here)))
  | inr later ↦
      rw later
        (rejoin-cons_fst sep c (split_once sep s) ∙ ap (λ t. c ∷ t) (rejoin-split_once sep s))
]

pub split_once-append :
    (sep : ℕ) (before after : Text)
    → IsFree sep before
    → split_once sep (before ++ sep ∷ after) ≡ (before, some after)
unfolding split_once
split_once-append sep [] after h = rw ((==_iff sep sep).1 refl) refl
split_once-append sep (c ∷ before) after (ne, h) =
    rw (ne, split_once-append sep before after h) refl

join-cons_head :
    (sep c : ℕ) (ts : List Text) → join_with sep (cons_head c ts) ≡ c ∷ join_with sep ts
join-cons_head sep c [] = refl
join-cons_head sep c (t ∷ []) = refl
join-cons_head sep c (t ∷ u ∷ ts) = refl

cons_head-ne-nil : (c : ℕ) (ts : List Text) → cons_head c ts ≢ []
cons_head-ne-nil c [] h = cc
cons_head-ne-nil c (t ∷ ts) h = cc

pub split_on-ne-nil : (sep : ℕ) (s : Text) → split_on sep s ≢ []
unfolding split_on
split_on-ne-nil sep [] h = cc
split_on-ne-nil sep (c ∷ s) h = elim (Bool-cases (c == sep)) [
  | inl here ↦ cc (rw here at h)
  | inr later ↦ cons_head-ne-nil c (split_on sep s) (rw later at h)
]

join-nil_cons :
    (sep : ℕ) (ts : List Text) → ts ≢ [] → join_with sep ([] ∷ ts) ≡ sep ∷ join_with sep ts
join-nil_cons sep [] h = absurd (h refl)
join-nil_cons sep (t ∷ ts) h = refl

-- The parts of a split join to the text.
pub join-split_on : (sep : ℕ) (s : Text) → join_with sep (split_on sep s) ≡ s
unfolding split_on
join-split_on sep [] = refl
join-split_on sep (c ∷ s) = elim (Bool-cases (c == sep)) [
  | inl here ↦ rw here (
      join-nil_cons sep (split_on sep s) (split_on-ne-nil sep s)
      ∙ cc (join-split_on sep s, sym ((==_iff c sep).0 here)))
  | inr later ↦
      rw later (join-cons_head sep c (split_on sep s) ∙ ap (λ t. c ∷ t) (join-split_on sep s))
]

split_on-free : (sep : ℕ) (t : Text) → IsFree sep t → split_on sep t ≡ t ∷ []
unfolding split_on
split_on-free sep [] h = refl
split_on-free sep (c ∷ t) (ne, h) = rw (ne, split_on-free sep t h) refl

split_on-append :
    (sep : ℕ) (t s : Text) → IsFree sep t → split_on sep (t ++ sep ∷ s) ≡ t ∷ split_on sep s
unfolding split_on
split_on-append sep [] s h = rw ((==_iff sep sep).1 refl) refl
split_on-append sep (c ∷ t) s (ne, h) = rw (ne, split_on-append sep t s h) refl

-- Parts without the separator are what a split of their join finds.
pub split_on-join :
    (sep : ℕ) (t : Text) (ts : List Text)
    → All (IsFree sep) (t ∷ ts)
    → split_on sep (join_with sep (t ∷ ts)) ≡ t ∷ ts
split_on-join sep t [] h = split_on-free sep t h.0
split_on-join sep t (u ∷ ts) (free, h) =
    split_on-append sep t (join_with sep (u ∷ ts)) free ∙ ap (λ l. t ∷ l) (split_on-join sep u ts h)
