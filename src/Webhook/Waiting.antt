-- ===== src/Webhook/Waiting.antt =====
-- How long `_execute_with_retry` of policyd_py/actions/webhook/provider.py may take.
use policyd_py.Base.{
  ℕ, zero, suc, ◌+◌, ◌*◌, ◌≤◌, ◌≡◌, refl, ap, arith, tests, true, Option, none, some, ltb, Text,
  Exception, Outcome, returned, raised, continue,
}
use native.Mathlib.Nat.{suc-mul, mul-add, add-zero}
use policyd_py.Webhook.{
  WebhookActionProvider, Web, Request, build_request, http_request, wait_before, attempts_from,
  execute_with_retry, retried, checked,
}

-- 1 + 2 + ... + n
unfoldable pub triangle : ℕ → ℕ
triangle zero = 0
triangle (suc n) = triangle n + suc n

module _ {World : Type 0} (web : Web World) (clock : World → ℕ) (most : ℕ)
    (slept : (n : ℕ) (w : World) → clock (web.sleep n w) ≡ clock w + n)
    (in_time : (r : Request) (w : World) (t : ℕ) → clock (web.urlopen r t w).1 ≤ clock w + most)
    (p : WebhookActionProvider) (method url body : Text) where
  checked-clock : (a : ℕ × Text) (w : World) → (checked web a w).1 ≡ w
  unfolding checked
  checked-clock (status, text) w = ground arith

  continue-clock : (o : Outcome (ℕ × Text)) (w : World) → (continue (checked web) o w).1 ≡ w
  continue-clock (returned a) w = checked-clock a w
  continue-clock (raised exc) w = refl

  if_later : (n : ℕ) → ltb 0 (suc n) ≡ true
  if_later n = omega tests

  waited : (n : ℕ) (w : World) → clock (wait_before web p n w) ≡ clock w + p.retry_delay_seconds * n
  unfolding wait_before
  waited zero w = omega arith
  waited (suc n) w = rw (if_later n) (slept (p.retry_delay_seconds * suc n) w)

  request_in_time : (w : World) → clock (http_request web p method url body w).1 ≤ clock w + most
  unfolding http_request
  request_in_time w =
      rw
        (continue-clock
          (web.urlopen (build_request web.hexdigest web.b64encode p method url body)
            p.timeout_seconds w).0
          (web.urlopen (build_request web.hexdigest web.b64encode p method url body)
            p.timeout_seconds w).1)
        (in_time (build_request web.hexdigest web.b64encode p method url body) w p.timeout_seconds)

  attempt_in_time :
      (n : ℕ) (w : World)
      → clock (http_request web p method url body (wait_before web p n w)).1
        ≤ clock w + p.retry_delay_seconds * n + most
  attempt_in_time n w = omega (arith, waited n w, request_in_time (wait_before web p n w))

  retried_in_time :
      (next : Option Exception → World → Outcome (Unit {0}) × World) (r : Outcome Text × World)
      (bound : ℕ)
      → clock r.1 ≤ bound
      → ((exc : Exception) → clock (next (some exc) r.1).1 ≤ bound)
      → clock (retried web next r).1 ≤ bound
  retried_in_time next (returned answer, w) bound a b = a
  retried_in_time next (raised exc, w) bound a b = b exc

  -- What is left to wait, from attempt `n` on.
  remaining : ℕ → ℕ → ℕ
  remaining n zero = 0
  remaining n (suc left) = p.retry_delay_seconds * n + most + remaining (suc n) left

  attempts_in_time :
      (n left : ℕ) (last : Option Exception) (w : World)
      → clock (attempts_from web p method url body n left last w).1 ≤ clock w + remaining n left
  unfolding attempts_from remaining
  attempts_in_time n zero last w = omega arith
  attempts_in_time n (suc left) last w =
      retried_in_time (attempts_from web p method url body (suc n) left)
        (http_request web p method url body (wait_before web p n w))
        (clock w + (p.retry_delay_seconds * n + most + remaining (suc n) left))
        (omega (arith, attempt_in_time n w))
        (λ exc. omega (
          arith,
          attempt_in_time n w,
          attempts_in_time (suc n) left (some exc)
              (http_request web p method url body (wait_before web p n w)).1,
        ))

  shifted :
      (n left : ℕ)
      → p.retry_delay_seconds * triangle (n + suc left)
        ≡ p.retry_delay_seconds * triangle (suc n + left)
  shifted n left = ap (λ k. p.retry_delay_seconds * triangle k) (omega arith)

  remaining-eq :
      (n left : ℕ)
      → p.retry_delay_seconds * triangle n + remaining (suc n) left
        ≡ p.retry_delay_seconds * triangle (n + left) + left * most
  unfolding triangle remaining
  remaining-eq n zero = rw (add-zero n) (omega arith)
  remaining-eq n (suc left) = omega (
    arith,
    remaining-eq (suc n) left,
    mul-add p.retry_delay_seconds (triangle n) (suc n),
    suc-mul left most,
    shifted n left,
  )

  remaining-first :
      (n left : ℕ)
      → remaining n (suc left) ≡ p.retry_delay_seconds * n + most + remaining (suc n) left
  unfolding remaining
  remaining-first n left = refl

  none_to_wait :
      p.retry_delay_seconds * triangle (0 + p.retry_count)
      ≡ p.retry_delay_seconds * triangle p.retry_count
  none_to_wait = ap (λ k. p.retry_delay_seconds * triangle k) (omega arith)

  -- If a pause takes as long as it says and a request at most `most`, then a call of `_execute_with_retry`
  -- takes at most `most` for each of the `1 + retry_count` attempts, and for the pauses the delay times
  -- 1 + 2 + ... + `retry_count`.
  pub execute_with_retry_in_time :
      (w : World)
      → clock (execute_with_retry web p method url body w).1
        ≤ clock w + (suc p.retry_count * most + p.retry_delay_seconds * triangle p.retry_count)
  unfolding execute_with_retry triangle
  execute_with_retry_in_time w = omega (
    arith,
    remaining-first 0 p.retry_count,
    none_to_wait,
    attempts_in_time 0 (suc p.retry_count) none w,
    remaining-eq 0 p.retry_count,
    suc-mul p.retry_count most,
  )
