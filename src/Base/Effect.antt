-- ===== src/Base/Effect.antt =====
-- Python code that keeps state and may raise. What was written before an exception stays written.
use mathlib.Core.Path.{◌≡◌, refl}
use policyd_py.Base.Texts.{Text}

-- The exceptions of the program: `CircuitBreakerError`, an error of the Redis connection or server,
-- `OSError` with its subclass `gaierror`, `RuntimeError`, `ValueError`, `KeyError` and `TypeError`.
pub data Exception : Type 0 where
  circuit_breaker_error : Exception
  redis_error os_error runtime_error value_error key_error type_error : Text → Exception

pub data Outcome {ℓ} (A : Type ℓ) : Type ℓ where
  returned : A → Outcome A
  raised : Exception → Outcome A

abbrev pub Eff {ℓ} : Type ℓ → Type ℓ → Type ℓ
Eff S A = S → Outcome A × S

module _ {ℓ} {S A : Type ℓ} where
  abbrev pub pure : A → Eff S A
  pure a s = (returned a, s)

  abbrev pub raise : Exception → Eff S A
  raise e s = (raised e, s)

  abbrev pub handle_with : (Exception → Eff S A) → Outcome A → S → Outcome A × S
  handle_with h (returned a) s = (returned a, s)
  handle_with h (raised e) s = h e s

  -- try: m; except Exception as exc: h exc
  abbrev pub try_except : Eff S A → (Exception → Eff S A) → Eff S A
  try_except m h s = let (r, s') = m s in handle_with h r s'

module _ {ℓ} {S A B : Type ℓ} where
  abbrev pub continue : (A → Eff S B) → Outcome A → S → Outcome B × S
  continue f (returned a) s = f a s
  continue f (raised e) s = (raised e, s)

  infixl 5 ◌>>=◌ ◌>>◌
  abbrev pub ◌>>=◌ : Eff S A → (A → Eff S B) → Eff S B
  ◌>>=◌ m f s = let (r, s') = m s in continue f r s'

  abbrev pub ◌>>◌ : Eff S A → Eff S B → Eff S B
  m >> k = m >>= λ _. k

-- A row of two steps that returns: what the first returned, and what the second then did.
pub continue-returned :
    {S A B : Type 0} (f : A → Eff S B) (o : Outcome A) (s : S) (b : B)
    → (continue f o s).0 ≡ returned b
    → (a : A) × (o ≡ returned a) × (continue f o s ≡ f a s)
continue-returned f (returned a) s b h = (a, refl, refl)
continue-returned f (raised exc) s b h = cc

-- What holds before a step and after it, whatever its outcome.
abbrev pub Guards {ℓ} : {S A : Type ℓ} → (S → Type ℓ) → Eff S A → Type ℓ
Guards {S = S} P m = (s : S) → P s → P (m s).1

-- The same for a step that raises.
abbrev pub GuardsRaised {ℓ} : {S A : Type ℓ} → (S → Type ℓ) → Eff S A → Type ℓ
GuardsRaised {S = S} P m = (s : S) (exc : Exception) → (m s).0 ≡ raised exc → P s → P (m s).1

module _ {ℓ} {S A B : Type ℓ} (P : S → Type ℓ) where
  continue-guards :
      (f : A → Eff S B) (o : Outcome A) (s : S)
      → ((a : A) → Guards P (f a))
      → P s
      → P (continue f o s).1
  continue-guards f (returned a) s g p = g a s p
  continue-guards f (raised exc) s g p = p

  pub bind-Guards :
      (m : Eff S A) (f : A → Eff S B) → Guards P m → ((a : A) → Guards P (f a)) → Guards P (m >>= f)
  bind-Guards m f g h s p = continue-guards f (m s).0 (m s).1 h (g s p)

  continue-guards_raised :
      (f : A → Eff S B) (o : Outcome A) (s : S) (exc : Exception)
      → ((a : A) → GuardsRaised P (f a))
      → (continue f o s).0 ≡ raised exc
      → P s
      → P (continue f o s).1
  continue-guards_raised f (returned a) s exc g r p = g a s exc r p
  continue-guards_raised f (raised e) s exc g r p = p

  pub bind-GuardsRaised :
      (m : Eff S A) (f : A → Eff S B)
      → Guards P m
      → ((a : A) → GuardsRaised P (f a))
      → GuardsRaised P (m >>= f)
  bind-GuardsRaised m f g h s exc r p = continue-guards_raised f (m s).0 (m s).1 exc h r (g s p)

module _ {ℓ} {S A : Type ℓ} (P : S → Type ℓ) where
  handled-guards_raised :
      (h : Exception → Eff S A) (o : Outcome A) (s : S) (exc : Exception)
      → ((e : Exception) → Guards P (h e))
      → ((e : Exception) → o ≡ raised e → P s)
      → (handle_with h o s).0 ≡ raised exc
      → P (handle_with h o s).1
  handled-guards_raised h (returned a) s exc g k r = cc
  handled-guards_raised h (raised e) s exc g k r = g e s (k e refl)

  pub try-GuardsRaised :
      (m : Eff S A) (h : Exception → Eff S A)
      → GuardsRaised P m
      → ((e : Exception) → Guards P (h e))
      → GuardsRaised P (try_except m h)
  try-GuardsRaised m h g k s exc r p =
      handled-guards_raised h (m s).0 (m s).1 exc k (λ e i. g s e i p) r
