-- ===== src/Webhook/Retries.antt =====
-- The attempts of `_execute_with_retry` of policyd_py/actions/webhook/provider.py.
use policyd_py.Base.{
  ℕ, zero, suc, ◌+◌, ◌≤◌, ◌≡◌, refl, subst, arith, Option, none, some, Text, Exception, Outcome,
  returned, raised,
}
use policyd_py.Webhook.{
  WebhookActionProvider, Web, http_request, wait_before, after_retries, attempts_from,
  execute_with_retry, retried,
}

module _ {World : Type 0} (web : Web World) (p : WebhookActionProvider)
    (method url body : Text) where
  -- One attempt, with the pause before it.
  unfoldable pub attempt : ℕ → World → Outcome Text × World
  attempt n w = http_request web p method url body (wait_before web p n w)

  -- The attempts before `n` that start in `start` have all raised; the world that they leave, and the
  -- last error.
  pub data Failing (start : World) : ℕ → World → Option Exception → Type 0 where
    none_yet : Failing start 0 start none
    one_more :
        {n : ℕ} {w w' : World} {last : Option Exception} (exc : Exception)
        → Failing start n w last
        → attempt n w ≡ (raised exc, w')
        → Failing start (suc n) w' (some exc)

  -- What a call that starts in `start` may come to.
  pub data Settled (start : World) : Outcome (Unit {0}) × World → Type 0 where
    succeeds :
        {n : ℕ} {w w' : World} {last : Option Exception} (answer : Text)
        → n ≤ p.retry_count
        → Failing start n w last
        → attempt n w ≡ (returned answer, w')
        → Settled start (returned tt, w')
    gives_up :
        {w : World} {last : Option Exception}
        → Failing start (suc p.retry_count) w last
        → Settled start (raised (after_retries web last), w)

  attempt-settles :
      (start : World) (n left : ℕ) (w : World) (last : Option Exception)
      (next : Option Exception → World → Outcome (Unit {0}) × World) (r : Outcome Text × World)
      → n ≤ p.retry_count
      → Failing start n w last
      → attempt n w ≡ r
      → ((exc : Exception) (w' : World)
          → Failing start (suc n) w' (some exc)
          → Settled start (next (some exc) w'))
      → Settled start (retried web next r)
  attempt-settles start n left w last next (returned answer, w') b f e k = succeeds answer b f e
  attempt-settles start n left w last next (raised exc, w') b f e k = k exc w' (one_more exc f e)

  attempts_from-settles :
      (start : World) (n left : ℕ) (w : World) (last : Option Exception)
      → n + left ≡ suc p.retry_count
      → Failing start n w last
      → Settled start (attempts_from web p method url body n left last w)
  unfolding attempts_from attempt
  attempts_from-settles start n zero w last e f =
      gives_up (subst (λ k. Failing start k w last) (omega (arith, e)) f)
  attempts_from-settles start n (suc left) w last e f =
      attempt-settles start n left w last (attempts_from web p method url body (suc n) left)
        (attempt n w) (omega (arith, e)) f refl
        (λ exc w' g. attempts_from-settles start (suc n) left w' (some exc) (omega (arith, e)) g)

  -- A call of `_execute_with_retry` ends in one of two ways, whatever the server does: an attempt among the
  -- first and the `retry_count` repeated ones returns, all before it having raised, and the call returns
  -- with no attempt after it; or all of these attempts have raised, and the call raises the error with the
  -- last of theirs.
  pub execute_with_retry-settles :
      (start : World) → Settled start (execute_with_retry web p method url body start)
  unfolding execute_with_retry
  execute_with_retry-settles start =
      attempts_from-settles start 0 (suc p.retry_count) start none (omega arith) none_yet
