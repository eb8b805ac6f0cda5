-- ===== src/Limiter/FixedWindow/Expiry.antt =====
-- The EXPIRE of FIXED_WINDOW_LUA (policyd_py/ratelimit/limiter.py): the key goes `ttl` seconds after
-- a request that was let through.
use policyd_py.Base.{
  ℕ, ◌+◌, ◌≤◌, ◌≡◌, refl, inl, inr, true, false, Option, none, some, List, [], ◌∷◌, arith, leb, ltb,
  le→leb, Bool-cases, if◌then◌else◌,
}
use policyd_py.Limiter.FixedWindow.{Window, script, replies}
use policyd_py.Limiter.Reply.{Reply, IsOrdered}

-- The hash, and when it expires.
pub record Entry : Type 0 where
  pub window : Window
  pub expires_at : ℕ

-- What a read at `now` finds.
unfoldable pub live : ℕ → Option Entry → Option Entry
live now none = none
live now (some e) = if leb e.expires_at now then none else some e

abbrev fields : Option Entry → Option Window
fields none = none
fields (some e) = some e.window

-- A request that is let through sets the time to live; one that is denied leaves the key as it is.
abbrev stored_entry : ℕ → ℕ → Reply → Option Entry → Option Window → Option Entry
stored_entry now ttl reply before none = none
stored_entry now ttl reply before (some w) =
    if reply.allowed then some (record { window = w; expires_at = now + ttl }) else before

unfoldable pub script_with_expiry : ℕ → ℕ → ℕ → ℕ → Option Entry → Reply × Option Entry
unfolding live
script_with_expiry limit window_duration ttl now stored =
    let found = live now stored in
    let (reply, w) = script limit window_duration now (fields found) in
    (reply, stored_entry now ttl reply found w)

unfoldable pub replies_with_expiry : ℕ → ℕ → ℕ → Option Entry → List ℕ → List Reply
replies_with_expiry limit window_duration ttl stored [] = []
replies_with_expiry limit window_duration ttl stored (now ∷ times) =
    let (reply, stored') = script_with_expiry limit window_duration ttl now stored in
    reply ∷ replies_with_expiry limit window_duration ttl stored' times

-- The two keys after a request at `last`: the same window, or one that has expired and is over.
abbrev Agrees : ℕ → ℕ → Option Entry → Option Window → Type 0
Agrees d last none none = Unit
Agrees d last none (some w) = w.window_start + d ≤ last
Agrees d last (some e) none = ⊥
Agrees d last (some e) (some w) =
    (e.window ≡ w) × (w.window_start + d ≤ e.expires_at) × (w.window_start ≤ last)

module _ (limit d ttl now : ℕ) (room : d ≤ ttl) where
  abbrev StepsAgree : Option Entry → Option Window → Type 0
  StepsAgree e w =
      ((script_with_expiry limit d ttl now e).0 ≡ (script limit d now w).0)
      × Agrees d now (script_with_expiry limit d ttl now e).1 (script limit d now w).1

  step_none-none : StepsAgree none none
  unfolding script_with_expiry script
  step_none-none = elim (Bool-cases (leb limit 0)) [
    | inl full ↦ rw full (refl, tt)
    | inr free ↦ rw free (refl, (refl, omega arith, omega arith))
  ]

  step_none_over : (w : Window) → w.window_start + d ≤ now → StepsAgree none (some w)
  unfolding script_with_expiry script
  step_none_over w h = rw (le→leb (w.window_start + d) now h) (elim (Bool-cases (leb limit 0)) [
    | inl full ↦ rw full (refl, h)
    | inr free ↦ rw free (refl, (refl, omega arith, omega arith))
  ])

  step_same :
      (w : Window) (e : ℕ)
      → w.window_start + d ≤ e
      → w.window_start ≤ now
      → ltb now e ≡ true
      → StepsAgree (some (record { window = w; expires_at = e })) (some w)
  unfolding script_with_expiry script
  step_same w e h before alive =
      let still_there : leb e now ≡ false = ground arith in
      rw still_there (elim (Bool-cases (leb (w.window_start + d) now)) [
        | inl over ↦ rw over (elim (Bool-cases (leb limit 0)) [
          | inl full ↦ rw full (refl, (refl, h, before))
          | inr free ↦ rw free (refl, (refl, omega arith, omega arith))
        ])
        | inr still ↦ rw still (elim (Bool-cases (leb limit w.count)) [
          | inl full ↦ rw full (refl, (refl, h, before))
          | inr free ↦ rw free (refl, (refl, omega arith, before))
        ])
      ])

  step_expired :
      (e : Entry)
      → leb e.expires_at now ≡ true
      → script_with_expiry limit d ttl now (some e) ≡ script_with_expiry limit d ttl now none
  unfolding script_with_expiry
  step_expired e h = rw h

  step_agree :
      (last : ℕ) (e : Option Entry) (w : Option Window)
      → last ≤ now
      → Agrees d last e w
      → StepsAgree e w
  step_agree last none none le h = step_none-none
  step_agree last none (some w) le h = step_none_over w (omega arith)
  step_agree last (some e) none le h = absurd h
  step_agree last (some e) (some w) le (same, later, before) =
      elim (Bool-cases (leb e.expires_at now)) [
        | inl gone ↦ rw (step_expired e gone) (step_none_over w (ground arith))
        | inr here ↦
            rw (← same) (
              step_same e.window e.expires_at (rw same later) (rw same (omega arith))
                (ground arith))
      ]

replies_agree :
    (limit d ttl last : ℕ) (times : List ℕ) (e : Option Entry) (w : Option Window)
    → d ≤ ttl
    → IsOrdered last times
    → Agrees d last e w
    → replies_with_expiry limit d ttl e times ≡ replies limit d w times
unfolding replies_with_expiry replies
replies_agree limit d ttl last [] e w room o h = refl
replies_agree limit d ttl last (now ∷ times) e w room (le, o) h =
    let (same, after) = step_agree limit d ttl now room last e w le h in
    cc (
      same,
      replies_agree limit d ttl now times (script_with_expiry limit d ttl now e).1
          (script limit d now w).1 room o after,
    )

-- That the key expires changes no reply: with any time to live that is not shorter than the window,
-- as `duration + 60` is, a fresh key gives the same replies to requests at times that never
-- decrease as a key that is kept for ever.
pub expiry_unobservable :
    (limit d ttl lo : ℕ) (times : List ℕ)
    → d ≤ ttl
    → IsOrdered lo times
    → replies_with_expiry limit d ttl none times ≡ replies limit d none times
expiry_unobservable limit d ttl lo times room o =
    replies_agree limit d ttl lo times none none room o tt
