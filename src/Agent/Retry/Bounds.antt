-- ===== src/Agent/Retry/Bounds.antt =====
-- The retry loop ends within its fuel, and bounds the requests that one turn can send.
use deepseek_as_subagent.Prelude.{
  ℕ, zero, suc, ◌+◌, ◌≤◌, ◌<◌, ◌≡◌, refl, Option, none, some, arith, ◌⊎◌, inl, inr,
}
use deepseek_as_subagent.Prelude.Results.{Result, Result-cases}
use deepseek_as_subagent.Json.{Value}
use deepseek_as_subagent.Provider.{ProviderResponse}
use deepseek_as_subagent.Agent.Errors.{AgentError}
use deepseek_as_subagent.Agent.Host.{Host, Answer, fails}
use deepseek_as_subagent.Agent.Retry.{
  Retries, Verdict, done, stop, again, judge, check_cancel, backoff, retry_loop, call_with_retry,
  fresh_retries,
}

-- A retry uses up one of the retries that were left.
judge-again :
    (seconds turn : ℕ) (r : Retries) (a : Answer) {attempt : ℕ} {r' : Retries}
    → judge seconds turn r a ≡ again attempt r'
    → suc (r'.api_retries + r'.client_retries) ≡ r.api_retries + r.client_retries
unfolding judge
judge-again seconds turn r (fails summary retryable) h = ground arith
judge-again seconds turn r _ h = cc

Verdict-cases :
    (v : Verdict)
    → ((r : ProviderResponse) × (v ≡ done r))
      ⊎ ((e : AgentError) × (v ≡ stop e))
      ⊎ ((n : ℕ) × (r : Retries) × (v ≡ again n r))
Verdict-cases (done r) = inl (r, refl)
Verdict-cases (stop e) = inr (inl (e, refl))
Verdict-cases (again n r) = inr (inr (n, r, refl))

module _ (h : Host) where
  open h use {World, is_set, wait, remaining, request}

  -- A number that the requests count up, and nothing else that the retry policy does.
  pub record Counts (count : World → ℕ) : Type 0 where
    pub by_request : (body : Value) (w : World) → count (request body w).1 ≡ suc (count w)
    pub by_is_set : (w : World) → count (is_set w).1 ≡ count w
    pub by_wait : (n : ℕ) (w : World) → count (wait n w).1 ≡ count w
    pub by_remaining : (w : World) → count (remaining w).1 ≡ count w

  -- The loop ended, after at most `n` further requests.
  abbrev Within : (World → ℕ) → ℕ → Option (Result AgentError ProviderResponse × World) → Type 0
  Within count n none = ⊥
  Within count n (some (r, w)) = count w ≤ n

  Within-mono :
      (count : World → ℕ) {m n : ℕ}
      → m ≤ n
      → (o : Option (Result AgentError ProviderResponse × World)) → Within count m o
      → Within count n o
  Within-mono count le none p = p
  Within-mono count le (some (r, w)) p = omega arith

  check_cancel-count :
      (count : World → ℕ) (c : Counts count) (w : World) → count (check_cancel h w).1 ≡ count w
  unfolding check_cancel
  check_cancel-count count c w = ground (arith, c.by_is_set w)

  backoff-count :
      (count : World → ℕ) (c : Counts count) (n : ℕ) (w : World) → count (backoff h n w).1 ≡ count w
  unfolding backoff
  backoff-count count c n w = grind (arith, c.by_remaining w, c.by_wait)

  retry_loop-Within :
      (count : World → ℕ) (c : Counts count) (fuel seconds turn : ℕ) (body : Value) (r : Retries)
      (w : World)
      → r.api_retries + r.client_retries < fuel
      → Within count
          (count w + suc (r.api_retries + r.client_retries))
          (retry_loop h fuel seconds turn body r w)
  unfolding retry_loop
  retry_loop-Within count c zero seconds turn body r w enough = absurd (omega arith)
  retry_loop-Within count c (suc fuel) seconds turn body r w enough =
      let u : World = (check_cancel h w).1 in
      let answered : Answer × World = request body u in
      elim (Result-cases (check_cancel h w).0) [
        | inr (e, x) ↦ rw (x, retry_loop) (omega (arith, check_cancel-count count c w))
        | inl (_, x) ↦ elim (Verdict-cases (judge seconds turn r answered.0)) [
          | inl (p, y) ↦
              rw (x, retry_loop)
                (rw (y, retry_loop)
                  (omega (arith, check_cancel-count count c w, c.by_request body u)))
          | inr (inl (e, y)) ↦
              rw (x, retry_loop)
                (rw (y, retry_loop)
                  (omega (arith, check_cancel-count count c w, c.by_request body u)))
          | inr (inr (n, r', y)) ↦ elim (Result-cases (backoff h n answered.1).0) [
            | inr (e, z) ↦
                rw (x, retry_loop)
                  (rw (y, retry_loop)
                    (rw (z, retry_loop)
                      (omega (
                        arith,
                        backoff-count count c n answered.1,
                        check_cancel-count count c w,
                        c.by_request body u,
                      ))))
            | inl (_, z) ↦
                rw (x, retry_loop)
                  (rw (y, retry_loop)
                    (rw (z, retry_loop)
                      (Within-mono count
                        (omega (
                          arith,
                          backoff-count count c n answered.1,
                          check_cancel-count count c w,
                          c.by_request body u,
                          judge-again seconds turn r answered.0 y,
                        ))
                        (retry_loop h fuel seconds turn body r' (backoff h n answered.1).1)
                        (retry_loop-Within count c fuel seconds turn body r'
                          (backoff h n answered.1).1
                          (omega (arith, judge-again seconds turn r answered.0 y))))))
          ]
        ]
      ]

  -- However the provider answers, one call of `call_with_retry` ends within the four rounds of fuel
  -- that the model gives the loop, and sends at most four requests: the first, two retries of an
  -- API failure, and one of a failure of the local child.
  pub call_with_retry-bounded :
      (count : World → ℕ) (c : Counts count) (seconds turn : ℕ) (body : Value) (w : World)
      → (retry_loop h 4 seconds turn body fresh_retries w
          ≡ some (call_with_retry h seconds turn body w))
        × (count (call_with_retry h seconds turn body w).1 ≤ count w + 4)
  unfolding call_with_retry
  call_with_retry-bounded count c seconds turn body w =
      let bound = retry_loop-Within count c 4 seconds turn body fresh_retries w (omega arith) in
      ended (retry_loop h 4 seconds turn body fresh_retries w) refl bound
    where
      ended :
          (o : Option (Result AgentError ProviderResponse × World))
          → retry_loop h 4 seconds turn body fresh_retries w ≡ o
          → Within count (count w + 4) o
          → (retry_loop h 4 seconds turn body fresh_retries w
              ≡ some (call_with_retry h seconds turn body w))
            × (count (call_with_retry h seconds turn body w).1 ≤ count w + 4)
      ended none e p = absurd p
      ended (some x) e p = (rw (e, call_with_retry) refl, rw (e, call_with_retry) p)
