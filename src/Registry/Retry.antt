-- ===== src/Registry/Retry.antt =====
-- apps/web/src/lib/utils/RetryUtils.ts: `withRetry`. `attempt i` is how the call of `fn` number i ends,
-- and the waits in milliseconds come out beside the outcome.
pub mod Laws
use sovereign_jedi.Prelude.{ℕ, zero, suc, ◌+◌, ◌*◌, List, [], ◌∷◌, Outcome, ok, err}

-- Math.pow(3, i)
unfoldable pub pow3 : ℕ → ℕ
pow3 zero = 1
pow3 (suc i) = 3 * pow3 i

module _ {E A : Type 0} (attempt : ℕ → Outcome E A) (backoff_ms : ℕ) where
  -- the loop from attempt `i` on, with `left` retries after it
  unfoldable pub retry_from : ℕ → ℕ → Outcome E A × List ℕ
  retry_from zero i = (attempt i, [])
  retry_from (suc left) i =
      let rest = retry_from left (i + 1) in
      elim (attempt i) [ ok a ↦ (ok a, []) | err e ↦ (rest.0, backoff_ms * pow3 i ∷ rest.1) ]

  unfoldable pub with_retry : ℕ → Outcome E A × List ℕ
  with_retry retries = retry_from retries 0
