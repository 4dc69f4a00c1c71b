-- ===== src/Retry/Attempts.antt =====
-- How often a request is sent, and what an exchange reports.
use fujinet_nio_driver.Base.{
  ℕ, zero, suc, ◌+◌, ◌≤◌, ◌≡◌, ◌≢◌, refl, ◌&&◌, not, Option, some, List, arith, ◌==◌, if◌then◌else◌,
  both_branches,
}
use fujinet_nio_driver.Retry.{
  RetryLib, Reply, Exchange, is_retryable_sector_request, attempt_once, attempt_loop,
  retry_exchange, retry_attempts,
}

-- The cost is within the bound, and a failed exchange reports no bytes.
pub record IsBounded (lib : RetryLib) {C O : Type 0} (μ : C → ℕ) (bound : ℕ)
    (out : ℕ × Exchange C O) : Type 0 where
  pub cost : μ out.1.ctx ≤ bound
  pub no_bytes : out.0 ≢ lib.ok → out.1.response_length ≡ 0

module _ (lib : RetryLib) {C O : Type 0} (μ : C → ℕ)
    (send : C → Option (List ℕ) → ℕ → List ℕ → ℕ → Reply C)
    (once : (s : C) (request : Option (List ℕ)) (n : ℕ) (response : List ℕ) (capacity : ℕ)
      → μ (send s request n response capacity).ctx ≤ μ s + 1)
    (observer : Option (O → ℕ → ℕ → ℕ → O)) (request : Option (List ℕ)) (n capacity : ℕ) where
  attempt_loop-IsBounded :
      (left attempt result bound : ℕ) (x : Exchange C O)
      → μ x.ctx + left ≤ bound
      → (left ≡ 0 → x.response_length ≡ 0)
      → IsBounded lib μ bound
          (attempt_loop lib send observer request n capacity left attempt result x)
  unfolding attempt_loop attempt_once
  attempt_loop-IsBounded zero attempt result bound x h z = record {
    cost = omega (arith, h);
    no_bytes = λ _. z refl;
  }
  attempt_loop-IsBounded (suc left) attempt result bound x h z =
      let got = send x.ctx request n x.response capacity in
      let after = (attempt_once lib send observer request n capacity attempt x).1 in
      let more : μ got.ctx ≤ μ x.ctx + 1 = once x.ctx request n x.response capacity in
      let rest =
        attempt_loop lib send observer request n capacity left (attempt + 1) got.status after in
      let stops =
        if not (got.status == lib.transport) && not (got.status == lib.timeout)
        then (got.status, after)
        else rest in
      both_branches (IsBounded lib μ bound) (got.status == lib.ok)
        {x = (lib.ok, record after { response_length = got.length })} {y = stops}
        (λ _. record { cost = omega (arith, more, h); no_bytes = λ ne. absurd (ne refl) })
        (λ _.
          both_branches (IsBounded lib μ bound)
            (not (got.status == lib.transport) && not (got.status == lib.timeout))
            {x = (got.status, after)} {y = rest}
            (λ _. record { cost = omega (arith, more, h); no_bytes = λ _. refl })
            (λ _.
              attempt_loop-IsBounded left (attempt + 1) got.status bound after
                (omega (arith, more, h)) (λ _. refl)))

  -- Over a transport that raises a cost of its context by one at most, an exchange raises it by
  -- three at most for a well-formed request of one sector, by one at most for any other, and reports
  -- no bytes where it fails.
  pub retry_exchange-IsBounded :
      (x : Exchange C O)
      → IsBounded lib μ
          (μ x.ctx + (if is_retryable_sector_request lib request n then 3 else 1))
          (retry_exchange lib (some send) observer request n capacity x)
  unfolding retry_exchange
  retry_exchange-IsBounded x =
      attempt_loop-IsBounded
        (if is_retryable_sector_request lib request n then retry_attempts else 1) 0 lib.invalid
        (μ x.ctx + (if is_retryable_sector_request lib request n then 3 else 1)) _ (omega arith)
        (λ e. absurd (ground (arith, e)))
