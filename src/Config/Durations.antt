-- ===== src/Config/Durations.antt =====
-- Which texts `parse_duration_to_seconds` of policyd_py/config/settings.py reads, and as what.
use policyd_py.Base.{
  ℕ, ◌*◌, ◌≡◌, ◌↔◌, refl, sym, ap, subst, ◌==◌, Bool, if◌then◌else◌, ◌∙◌, inl, inr, arith,
  Bool-cases, true, false, Option, none, some, [], ◌∷◌, ◌++◌, all-append, Text, lower, strip,
  read_digits, returned, raised,
}
use policyd_py.Config.Parse.{
  is_digit_code, is_digits, add_first, split_last, unit_seconds, seconds_of, with_unit, duration_of,
  parse_duration_to_seconds, invalid_duration,
}

-- The units, and the seconds of each.
pub data IsUnit : ℕ → ℕ → Type 0 where
  days : IsUnit b'd' 86400
  hours : IsUnit b'h' 3600
  minutes : IsUnit b'm' 60
  seconds : IsUnit b's' 1

-- What a text without white space around it and in lower case denotes.
pub data Denotes : Text → ℕ → Type 0 where
  empty : Denotes [] 0
  plain : (t : Text) → is_digits t ≡ true → Denotes t (read_digits 0 t)
  in_unit :
      (number : Text) (c unit : ℕ)
      → is_digits number ≡ true
      → IsUnit c unit
      → Denotes (number ++ c ∷ []) (read_digits 0 number * unit)

split_last-append : (t : Text) (c : ℕ) → split_last (t ++ c ∷ []) ≡ some (t, c)
unfolding split_last add_first
split_last-append [] c = refl
split_last-append (d ∷ t) c = ap (add_first d) (split_last-append t c)

-- The text that was taken apart.
whole : Option (Text × ℕ) → Text
whole none = []
whole (some (t, c)) = t ++ c ∷ []

whole-add_first : (c : ℕ) (o : Option (Text × ℕ)) → whole (add_first c o) ≡ c ∷ whole o
unfolding whole add_first
whole-add_first c none = refl
whole-add_first c (some (t, d)) = refl

whole-split_last : (t : Text) → whole (split_last t) ≡ t
unfolding split_last whole
whole-split_last [] = refl
whole-split_last (c ∷ t) = whole-add_first c (split_last t) ∙ ap (λ s. c ∷ s) (whole-split_last t)

read-IsUnit : {c unit : ℕ} → IsUnit c unit → unit_seconds c ≡ some unit
unfolding unit_seconds
read-IsUnit days = refl
read-IsUnit hours = refl
read-IsUnit minutes = refl
read-IsUnit seconds = refl

some_inj : {m n : ℕ} → some m ≡ some n → m ≡ n
some_inj {m = m} h = ap (λ o. elim o [ none ↦ m | some k ↦ k ]) h

IsUnit-at : (code s c unit : ℕ) → IsUnit code s → c ≡ code → some s ≡ some unit → IsUnit c unit
IsUnit-at code s c unit u e h =
    subst (λ x. IsUnit x unit) (sym e) (subst (IsUnit code) (some_inj h) u)

if_IsUnit :
    (b : Bool) (s c unit : ℕ) (rest : Option ℕ)
    → (b ≡ true → some s ≡ some unit → IsUnit c unit)
    → (rest ≡ some unit → IsUnit c unit)
    → (if b then some s else rest) ≡ some unit
    → IsUnit c unit
if_IsUnit true s c unit rest p q h = p refl h
if_IsUnit false s c unit rest p q h = q h

IsUnit-read : (c unit : ℕ) → unit_seconds c ≡ some unit → IsUnit c unit
unfolding unit_seconds
IsUnit-read c unit =
    if_IsUnit (c == b'd') 86400 c unit _ (λ e. IsUnit-at b'd' 86400 c unit days (ground arith))
      (if_IsUnit (c == b'h') 3600 c unit _ (λ e. IsUnit-at b'h' 3600 c unit hours (ground arith))
        (if_IsUnit (c == b'm') 60 c unit _ (λ e. IsUnit-at b'm' 60 c unit minutes (ground arith))
          (if_IsUnit (c == b's') 1 c unit none (λ e. IsUnit-at b's' 1 c unit seconds (ground arith))
            (λ h. cc))))

unit_not_digit : (c unit : ℕ) → unit_seconds c ≡ some unit → is_digit_code c ≡ false
unfolding unit_seconds
unit_not_digit c unit h = ground arith

not_digits-append : (t : Text) (c : ℕ) → is_digit_code c ≡ false → is_digits (t ++ c ∷ []) ≡ false
unfolding is_digits
not_digits-append [] c h = rw h refl
not_digits-append (d ∷ t) c h = rw (all-append is_digit_code t (c ∷ []), h) (ground arith)

read-Denotes : (t : Text) (n : ℕ) → Denotes t n → duration_of t ≡ returned n
unfolding duration_of with_unit is_digits split_last seconds_of
read-Denotes _ _ empty = refl
read-Denotes _ _ (plain t d) = rw d refl
read-Denotes _ _ (in_unit number c unit d u) =
    rw
      (
        not_digits-append number c (unit_not_digit c unit (read-IsUnit u)),
        split_last-append number c,
        read-IsUnit u,
        d,
      )
      refl

returned_inj : {m n : ℕ} → returned m ≡ returned n → m ≡ n
returned_inj {m = m} h = ap (λ o. elim o [ returned k ↦ k | raised x ↦ m ]) h

Denotes-seconds :
    (value number : Text) (c n : ℕ) (u : Option ℕ)
    → unit_seconds c ≡ u
    → seconds_of value u number ≡ returned n
    → Denotes (number ++ c ∷ []) n
unfolding seconds_of invalid_duration
Denotes-seconds value number c n none p h = cc
Denotes-seconds value number c n (some unit) p h = elim (Bool-cases (is_digits number)) [
  | inl d ↦
      subst (Denotes (number ++ c ∷ [])) (returned_inj (rw d at h))
        (in_unit number c unit d (IsUnit-read c unit p))
  | inr d ↦ cc (rw d at h)
]

Denotes-with_unit :
    (value : Text) (n : ℕ) (o : Option (Text × ℕ))
    → with_unit value o ≡ returned n
    → Denotes (whole o) n
unfolding with_unit whole
Denotes-with_unit value n none h = subst (Denotes []) (returned_inj h) empty
Denotes-with_unit value n (some (number, c)) h =
    Denotes-seconds value number c n (unit_seconds c) refl h

Denotes-read : (t : Text) (n : ℕ) → duration_of t ≡ returned n → Denotes t n
unfolding duration_of
Denotes-read t n h = elim (Bool-cases (is_digits t)) [
  | inl d ↦ subst (Denotes t) (returned_inj (rw d at h)) (plain t d)
  | inr d ↦
      subst (λ s. Denotes s n) (whole-split_last t)
        (Denotes-with_unit t n (split_last t) (rw d at h))
]

-- For every text and number: a duration is read as a number of seconds exactly if the text, without
-- white space around it and in lower case, is empty and the number 0, or is the digits of the number, or
-- is digits and one of the units `d`, `h`, `m` and `s`, with the number the product. Of any other text
-- no duration is read.
pub parse_duration_iff :
    (value : Text) (n : ℕ)
    → (parse_duration_to_seconds value ≡ returned n) ↔ Denotes (lower (strip value)) n
unfolding parse_duration_to_seconds
parse_duration_iff value n =
    (Denotes-read (lower (strip value)) n, read-Denotes (lower (strip value)) n)
