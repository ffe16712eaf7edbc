-- ===== src/Registry/Retry/Laws.antt =====
-- Which attempt decides, and how long the loop waits.
use sovereign_jedi.Prelude.{
  ℕ, zero, suc, ◌+◌, ◌*◌, ◌≤◌, ◌<◌, ◌≡◌, refl, sym, List, [], ◌∷◌, Outcome, ok, err, arith, inl,
  inr, ◌⊎◌, subst,
}
use sovereign_jedi.Registry.Retry.{pow3, retry_from, with_retry}

-- backoff * 3^i, backoff * 3^(i+1), …, `n` of them
pub waits : ℕ → ℕ → ℕ → List ℕ
waits backoff_ms zero i = []
waits backoff_ms (suc n) i = backoff_ms * pow3 i ∷ waits backoff_ms n (i + 1)

abbrev pub Fails : {E A : Type 0} → Outcome E A → Type 0
Fails {E} r = (e : E) × (r ≡ err e)

module _ {E A : Type 0} (attempt : ℕ → Outcome E A) (backoff_ms : ℕ) where
  from-decides :
      (k left i : ℕ)
      → ((j : ℕ) → j < k → Fails (attempt (i + j)))
      → k ≤ left
      → ((k ≡ left) ⊎ ((a : A) × (attempt (i + k) ≡ ok a)))
      → retry_from attempt backoff_ms left i ≡ (attempt (i + k), waits backoff_ms k i)
  unfolding retry_from waits
  from-decides zero zero i failed bound last = let same : i + 0 ≡ i = omega arith in rw same refl
  from-decides zero (suc left) i failed bound (inl clash) = absurd (omega arith)
  from-decides zero (suc left) i failed bound (inr (a, done)) =
      let same : i + 0 ≡ i = omega arith in
      let here : attempt i ≡ ok a = subst (λ (n : ℕ). attempt n ≡ ok a) same done in
      rw (same, retry_from, here) refl
  from-decides (suc k) zero i failed bound last = absurd (omega arith)
  from-decides (suc k) (suc left) i failed bound last =
      let same : i + 0 ≡ i = omega arith in
      let next : (i + 1) + k ≡ i + suc k = omega arith in
      let (e, thrown) = failed 0 (omega arith) in
      let here : attempt i ≡ err e = subst (λ (n : ℕ). attempt n ≡ err e) same thrown in
      let rest =
        from-decides k left (i + 1) (later i k failed) (omega arith) (shifted i k left last) in
      rw (retry_from, here, rest, next) refl
    where
      later :
          (i k : ℕ)
          → ((j : ℕ) → j < suc k → Fails (attempt (i + j)))
          → (j : ℕ) → j < k
          → Fails (attempt ((i + 1) + j))
      later i k failed j small =
          let move : i + suc j ≡ (i + 1) + j = omega arith in
          subst (λ (n : ℕ). Fails (attempt n)) move (failed (suc j) (omega arith))

      shifted :
          (i k left : ℕ)
          → ((suc k ≡ suc left) ⊎ ((a : A) × (attempt (i + suc k) ≡ ok a)))
          → (k ≡ left) ⊎ ((a : A) × (attempt ((i + 1) + k) ≡ ok a))
      shifted i k left (inl same) = inl (omega arith)
      shifted i k left (inr (a, done)) =
          let move : i + suc k ≡ (i + 1) + k = omega arith in
          inr (a, subst (λ (n : ℕ). attempt n ≡ ok a) move done)

  from-start :
      (k retries : ℕ)
      → ((j : ℕ) → j < k → Fails (attempt j))
      → k ≤ retries
      → ((k ≡ retries) ⊎ ((a : A) × (attempt k ≡ ok a)))
      → retry_from attempt backoff_ms retries 0 ≡ (attempt k, waits backoff_ms k 0)
  from-start k retries failed bound last =
      let from_zero : (n : ℕ) → 0 + n ≡ n = λ n. omega arith in
      subst (λ (n : ℕ). retry_from attempt backoff_ms retries 0 ≡ (attempt n, waits backoff_ms k 0))
        (from_zero k)
        (from-decides k retries 0
          (λ j small. subst (λ (n : ℕ). Fails (attempt n)) (sym (from_zero j)) (failed j small))
          bound
          (subst (λ (n : ℕ). (k ≡ retries) ⊎ ((a : A) × (attempt n ≡ ok a))) (sym (from_zero k))
            last))

  -- If the attempts before number k fail and that one returns, k being at most the number of
  -- retries, withRetry returns its value after k waits, each three times the one before.
  pub with_retry-ok :
      (retries k : ℕ) (a : A)
      → ((j : ℕ) → j < k → Fails (attempt j))
      → k ≤ retries
      → attempt k ≡ ok a
      → with_retry attempt backoff_ms retries ≡ (ok a, waits backoff_ms k 0)
  unfolding with_retry
  with_retry-ok retries k a failed bound done =
      rw (sym done) (from-start k retries failed bound (inr (a, done)))

  -- If all the attempts fail, withRetry throws the error of the last one after as many waits as
  -- there are retries.
  pub with_retry-err :
      (retries : ℕ) (e : E)
      → ((j : ℕ) → j < retries → Fails (attempt j))
      → attempt retries ≡ err e
      → with_retry attempt backoff_ms retries ≡ (err e, waits backoff_ms retries 0)
  unfolding with_retry
  with_retry-err retries e failed last =
      rw (sym last) (from-start retries retries failed (omega arith) (inl refl))
