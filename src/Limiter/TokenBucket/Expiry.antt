-- ===== src/Limiter/TokenBucket/Expiry.antt =====
-- The EXPIRE of TOKEN_BUCKET_LUA (policyd_py/ratelimit/limiter.py): where the time to live fills a bucket, the key
-- is gone only when it would be full.
use policyd_py.Base.{
  ℕ, ◌+◌, ◌-◌, ◌*◌, ◌≤◌, ltb, leb, ◌≡◌, refl, inl, inr, arith, Bool-cases, true, false, Option,
  none, some, List, [], ◌∷◌,
}
use policyd_py.Limiter.Reply.{IsOrdered}
use policyd_py.Limiter.TokenBucket.{
  Bucket, Entry, live, bucket_of, stored_entry, credit, debit, available, decide, decisions, script,
  replies,
}
use policyd_py.Limiter.TokenBucket.Filling.{IsFilled, mul_le}

-- A key as the script leaves it: not overfull, last refilled before, and with the time to live from then on.
abbrev pub IsLeft : ℕ → ℕ → ℕ → ℕ → Option Entry → Type 0
IsLeft capacity unit ttl now none = Unit
IsLeft capacity unit ttl now (some e) =
    IsFilled capacity unit now (some e.bucket)
    × (e.expires_at_ms ≡ e.bucket.last_refill_ms + ttl * 1000)

pub IsLeft-IsFilled :
    (capacity unit ttl now : ℕ) (stored : Option Entry)
    → IsLeft capacity unit ttl now stored
    → IsFilled capacity unit now (bucket_of stored)
IsLeft-IsFilled capacity unit ttl now none s = tt
IsLeft-IsFilled capacity unit ttl now (some e) s = s.0

module _ (capacity refill unit ttl : ℕ) (room : capacity * unit ≤ refill * (ttl * 1000)) where
  -- By `now`, a bucket is full again.
  abbrev IsFull : ℕ → Bucket → Type 0
  IsFull now b = capacity * unit + refill * b.last_refill_ms ≤ b.tokens + refill * now

  -- The keys with and without expiry after a request at `last`: the same, or one that has expired and is full.
  abbrev Agrees : ℕ → Option Entry → Option Bucket → Type 0
  Agrees last none none = Unit
  Agrees last none (some b) = IsFull last b
  Agrees last (some e) none = ⊥
  Agrees last (some e) (some b) = (e.bucket ≡ b) × IsFull e.expires_at_ms e.bucket

  IsFull-later : (last now : ℕ) (b : Bucket) → last ≤ now → IsFull last b → IsFull now b
  IsFull-later last now b le f = omega (arith, f, mul_le refill last now le)

  IsFull-ttl :
      (now tokens : ℕ)
      → IsFull (now + ttl * 1000) (record { tokens = tokens; last_refill_ms = now })
  IsFull-ttl now tokens =
      let spread : refill * (now + ttl * 1000) ≡ refill * now + refill * (ttl * 1000) =
        grind arith in
      omega (arith, room, spread)

  -- A fresh key and a full one give the same reply.
  same_available :
      (now : ℕ) (b : Bucket)
      → IsFull now b
      → available capacity refill unit now (some b) ≡ available capacity refill unit now none
  unfolding available credit debit
  same_available now b f = omega (arith, f)

  none_used :
      (now : ℕ)
      → capacity * unit + debit capacity refill unit now none - credit capacity refill unit now none
        ≡ 0
  unfolding credit debit
  none_used now = omega arith

  full_used :
      (now : ℕ) (b : Bucket)
      → IsFull now b
      → capacity * unit
          + debit capacity refill unit now (some b)
          - credit capacity refill unit now (some b)
        ≡ 0
  unfolding credit debit
  full_used now b f = omega (arith, f)

  abbrev StepsAgree : ℕ → Option Entry → Option Bucket → Type 0
  StepsAgree now e w =
      ((script capacity refill unit ttl now e).0 ≡ (decide capacity refill unit now w).0)
      × Agrees now (script capacity refill unit ttl now e).1 (decide capacity refill unit now w).1

  step_full : (now : ℕ) (b : Bucket) → IsFull now b → StepsAgree now none (some b)
  unfolding script decide live stored_entry
  step_full now b f = elim (Bool-cases (ltb (available capacity refill unit now none) unit)) [
    | inl few ↦ rw (same_available now b f, few, none_used now, full_used now b f) (refl, f)
    | inr enough ↦ rw (same_available now b f, enough) (refl, (refl, IsFull-ttl now _))
  ]

  step_none : (now : ℕ) → StepsAgree now none none
  unfolding script decide live stored_entry
  step_none now = elim (Bool-cases (ltb (available capacity refill unit now none) unit)) [
    | inl few ↦ rw few (refl, tt)
    | inr enough ↦ rw enough (refl, (refl, IsFull-ttl now _))
  ]

  step_same :
      (now : ℕ) (e : Entry)
      → leb e.expires_at_ms now ≡ false
      → IsFull e.expires_at_ms e.bucket
      → StepsAgree now (some e) (some e.bucket)
  unfolding script decide live stored_entry
  step_same now e here f =
      elim (Bool-cases (ltb (available capacity refill unit now (some e.bucket)) unit)) [
        | inl few ↦ rw (here, few) (refl, (refl, f))
        | inr enough ↦ rw (here, enough) (refl, (refl, IsFull-ttl now _))
      ]

  step_expired :
      (now : ℕ) (e : Entry)
      → leb e.expires_at_ms now ≡ true
      → script capacity refill unit ttl now (some e) ≡ script capacity refill unit ttl now none
  unfolding script live
  step_expired now e h = rw h refl

  step_agree :
      (last now : ℕ) (e : Option Entry) (w : Option Bucket)
      → last ≤ now
      → Agrees last e w
      → StepsAgree now e w
  step_agree last now none none le a = step_none now
  step_agree last now none (some b) le a = step_full now b (IsFull-later last now b le a)
  step_agree last now (some e) none le a = absurd a
  step_agree last now (some e) (some b) le (same, f) = elim (Bool-cases (leb e.expires_at_ms now)) [
    | inl gone ↦ rw (← same) (
        rw (step_expired now e gone)
          (step_full now e.bucket (IsFull-later e.expires_at_ms now e.bucket (ground arith) f)))
    | inr here ↦ rw (← same) (step_same now e here f)
  ]

  replies_agree :
      (last : ℕ) (times : List ℕ) (e : Option Entry) (w : Option Bucket)
      → IsOrdered last times
      → Agrees last e w
      → replies capacity refill unit ttl e times ≡ decisions capacity refill unit w times
  unfolding replies decisions
  replies_agree last [] e w o a = refl
  replies_agree last (now ∷ times) e w (le, o) a =
      let (same, after) = step_agree last now e w le a in
      cc (
        same,
        replies_agree now times (script capacity refill unit ttl now e).1
            (decide capacity refill unit now w).1 o after,
      )

  left-Agrees :
      (now : ℕ) (stored : Option Entry)
      → IsLeft capacity unit ttl now stored
      → Agrees now stored (bucket_of stored)
  left-Agrees now none s = tt
  left-Agrees now (some e) (filled, expires) =
      (refl, rw expires (IsFull-ttl e.bucket.last_refill_ms e.bucket.tokens))

pub expiry_unobservable :
    (capacity refill unit ttl lo : ℕ) (times : List ℕ) (stored : Option Entry)
    → capacity * unit ≤ refill * (ttl * 1000)
    → IsOrdered lo times
    → IsLeft capacity unit ttl lo stored
    → replies capacity refill unit ttl stored times
      ≡ decisions capacity refill unit (bucket_of stored) times
expiry_unobservable capacity refill unit ttl lo times stored room o s =
    replies_agree capacity refill unit ttl room lo times stored (bucket_of stored) o
      (left-Agrees capacity refill unit ttl room lo stored s)
