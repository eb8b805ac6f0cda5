-- ===== src/Validator/Syntax.antt =====
-- What EMAIL_RE of policyd_py/validation/validator.py accepts.
use policyd_py.Base.{
  ℕ, ◌≡◌, refl, sym, ap, subst, ◌↔◌, ◌⊎◌, inl, inr, Bool, true, false, ◌&&◌, Option, none, some,
  List, [], ◌∷◌, ◌++◌, ◌==◌, ==_iff, arith, all, All, Bool-cases, Text, split_on, split_once,
  join_with, IsFree, rejoin, rejoin-split_once, split_once-append, join-split_on, split_on-join,
}
use policyd_py.Validator.{
  is_label_char, is_local_char, run_of, is_domain, without_newline, address_parts, email_re_match,
}

-- The texts of the pattern between `^` and `$`: characters of the first class, at least one; an `@`;
-- and two or more labels joined by dots, each of at least one character of the second class.
abbrev pub IsAddress : Text → Type 0
IsAddress s =
    (user : Text) × (label : Text) × (next : Text) × (labels : List Text) × (s
      ≡ user ++ b'@' ∷ join_with b'.' (label ∷ next ∷ labels))
    × (run_of is_local_char user ≡ true)
    × (all (run_of is_label_char) (label ∷ next ∷ labels) ≡ true)

all-IsFree : (p : ℕ → Bool) (sep : ℕ) (s : Text) → p sep ≡ false → all p s ≡ true → IsFree sep s
all-IsFree p sep [] no_sep h = tt
all-IsFree p sep (c ∷ s) no_sep h = elim (Bool-cases (c == sep)) [
  | inl same ↦ absurd (clash p sep c no_sep ((==_iff c sep).0 same) (ground arith))
  | inr other ↦ (other, all-IsFree p sep s no_sep (ground arith))
]
  where
    clash : (q : ℕ → Bool) (x d : ℕ) → q x ≡ false → d ≡ x → q d ≡ true → ⊥
    clash q x d f e t = cc (rw e at t)

run_of-IsFree :
    (p : ℕ → Bool) (sep : ℕ) (s : Text) → p sep ≡ false → run_of p s ≡ true → IsFree sep s
run_of-IsFree p sep [] no_sep h = tt
run_of-IsFree p sep (c ∷ s) no_sep h = all-IsFree p sep (c ∷ s) no_sep h

labels-IsFree :
    (sep : ℕ) (ts : List Text)
    → is_label_char sep ≡ false
    → all (run_of is_label_char) ts ≡ true
    → All (IsFree sep) ts
labels-IsFree sep [] no_sep h = tt
labels-IsFree sep (t ∷ ts) no_sep h = (
  run_of-IsFree is_label_char sep t no_sep (ground arith),
  labels-IsFree sep ts no_sep (ground arith),
)

at_not_local : is_local_char b'@' ≡ false
unfolding is_local_char
at_not_local = refl

dot_not_label : is_label_char b'.' ≡ false
unfolding is_label_char
dot_not_label = refl

newline_not_local : is_local_char 10 ≡ false
unfolding is_local_char
newline_not_local = refl

newline_not_label : is_label_char 10 ≡ false
unfolding is_label_char
newline_not_label = refl

and_fst : (a b : Bool) → (a && b) ≡ true → a ≡ true
and_fst a b h = ground arith

and_snd : (a b : Bool) → (a && b) ≡ true → b ≡ true
and_snd a b h = ground arith

-- The scan of a text that has no newline at its end.
IsAddress-scan : (s : Text) → (address_parts (split_once b'@' s) ≡ true) ↔ IsAddress s
unfolding address_parts
IsAddress-scan s = (there s (split_once b'@' s) (rejoin-split_once b'@' s), back)
  where
    parts :
        (t : Text) (user domain : Text) (ts : List Text)
        → t ≡ user ++ b'@' ∷ domain
        → join_with b'.' ts ≡ domain
        → run_of is_local_char user ≡ true
        → is_domain ts ≡ true
        → IsAddress t
    parts t user domain [] e j u d = absurd (cc)
    parts t user domain (label ∷ []) e j u d = absurd (cc)
    parts t user domain (label ∷ next ∷ labels) e j u d = (user, label, next, labels, rw j e, u, d)

    there :
        (t : Text) (p : Text × Option Text)
        → rejoin b'@' p ≡ t
        → address_parts p ≡ true
        → IsAddress t
    there t (user, none) e h = absurd (cc)
    there t (user, some domain) e h =
        parts t user domain (split_on b'.' domain) (sym e) (join-split_on b'.' domain)
          (and_fst _ _ h) (and_snd _ _ h)

    back : IsAddress s → address_parts (split_once b'@' s) ≡ true
    back (user, label, next, labels, e, u, d) =
        let free = run_of-IsFree is_local_char b'@' user at_not_local u in
        let dots = labels-IsFree b'.' (label ∷ next ∷ labels) dot_not_label d in
        rw (e, split_once-append b'@' user (join_with b'.' (label ∷ next ∷ labels)) free)
          (rw (u, split_on-join b'.' label (next ∷ labels) dots) d)

IsFree-append : (sep : ℕ) (s t : Text) → IsFree sep s → IsFree sep t → IsFree sep (s ++ t)
IsFree-append sep [] t hs ht = ht
IsFree-append sep (c ∷ s) t hs ht = (hs.0, IsFree-append sep s t hs.1 ht)

IsFree-join_with :
    (sep dot : ℕ) (ts : List Text)
    → (dot == sep) ≡ false
    → All (IsFree sep) ts
    → IsFree sep (join_with dot ts)
IsFree-join_with sep dot [] ne h = tt
IsFree-join_with sep dot (t ∷ []) ne h = h.0
IsFree-join_with sep dot (t ∷ u ∷ ts) ne (free, h) =
    IsFree-append sep t (dot ∷ join_with dot (u ∷ ts)) free
      (ne, IsFree-join_with sep dot (u ∷ ts) ne h)

-- No address has a newline in it.
address_no_newline : (s : Text) → IsAddress s → IsFree 10 s
address_no_newline s (user, label, next, labels, e, u, d) = rw e (
    IsFree-append 10 user (b'@' ∷ join_with b'.' (label ∷ next ∷ labels))
      (run_of-IsFree is_local_char 10 user newline_not_local u)
      (
        refl,
        IsFree-join_with 10 b'.' (label ∷ next ∷ labels) refl
            (labels-IsFree 10 (label ∷ next ∷ labels) newline_not_label d),
      ))

newline-cases : (s : Text) → (without_newline s ≡ s) ⊎ (s ≡ without_newline s ++ 10 ∷ [])
unfolding without_newline
newline-cases [] = inl refl
newline-cases (c ∷ []) = elim (Bool-cases (c == 10)) [
  | inl newline ↦ rw newline (inr (cc ((==_iff c 10).0 newline)))
  | inr other ↦ rw other (inl refl)
]
newline-cases (c ∷ d ∷ s) = elim (newline-cases (d ∷ s)) [
  | inl same ↦ inl (ap (λ t. c ∷ t) same)
  | inr cut ↦ inr (ap (λ t. c ∷ t) cut)
]

without_newline-free : (s : Text) → IsFree 10 s → without_newline s ≡ s
unfolding without_newline
without_newline-free [] h = refl
without_newline-free (c ∷ []) h = rw h.0 refl
without_newline-free (c ∷ d ∷ s) h = ap (λ t. c ∷ t) (without_newline-free (d ∷ s) h.1)

without_newline-append : (s : Text) → without_newline (s ++ 10 ∷ []) ≡ s
unfolding without_newline
without_newline-append [] = refl
without_newline-append (c ∷ []) = refl
without_newline-append (c ∷ d ∷ s) = ap (λ t. c ∷ t) (without_newline-append (d ∷ s))

-- The scan accepts exactly the texts of the pattern: an address, or an address and one newline.
pub email_re_match_iff :
    (s : Text)
    → (email_re_match s ≡ true) ↔ (IsAddress s ⊎ ((t : Text) × (s ≡ t ++ 10 ∷ []) × IsAddress t))
unfolding email_re_match
email_re_match_iff s = (there, back)
  where
    there :
        address_parts (split_once b'@' (without_newline s)) ≡ true
        → IsAddress s ⊎ ((t : Text) × (s ≡ t ++ 10 ∷ []) × IsAddress t)
    there h = elim (newline-cases s) [
      | inl same ↦ inl (subst IsAddress same ((IsAddress-scan (without_newline s)).0 h))
      | inr cut ↦ inr (without_newline s, cut, (IsAddress-scan (without_newline s)).0 h)
    ]

    back :
        IsAddress s ⊎ ((t : Text) × (s ≡ t ++ 10 ∷ []) × IsAddress t)
        → address_parts (split_once b'@' (without_newline s)) ≡ true
    back (inl a) = rw (without_newline-free s (address_no_newline s a)) ((IsAddress-scan s).1 a)
    back (inr (t, e, a)) = rw (e, without_newline-append t) ((IsAddress-scan t).1 a)
