-- ===== src/Retry/Tests.antt =====
-- The theorem on the retries at a concrete input.
use fujinet_nio_driver.Base.{
  ℕ, ◌+◌, ◌≡◌, refl, Option, none, some, List, [], ◌∷◌, arith, if◌then◌else◌,
}
use fujinet_nio_driver.Base.Words.{join16}
use fujinet_nio_driver.Retry.{
  RetryLib, Reply, Exchange, retry_exchange, is_retryable_sector_request, attempt_loop,
  attempt_once, note_attempt, observe,
}
use fujinet_nio_driver.Retry.Attempts.{IsBounded, retry_exchange-IsBounded}

abbrev lib : RetryLib
lib = record {
  ok = 0;
  invalid = 2;
  transport = 7;
  timeout = 8;
  header_size = 6;
  checksum_offset = 4;
  device_disk = 0xfc;
  disk_protocol_version = 1;
  checksum = λ packet n. 9;
}

-- A transport that counts, and times out.
abbrev silent : ℕ → Option (List ℕ) → ℕ → List ℕ → ℕ → Reply ℕ
silent s request n response capacity = record {
  status = 8;
  response = response;
  length = 0;
  ctx = s + 1;
}

abbrev read_request : Option (List ℕ)
read_request = some (0xfc ∷ 3 ∷ 14 ∷ 0 ∷ 9 ∷ 0 ∷ 1 ∷ 1 ∷ 0 ∷ 0 ∷ 0 ∷ 0 ∷ 0 ∷ 2 ∷ [])

abbrev before : Exchange ℕ ℕ
before = record {
  ctx = 0;
  observer_ctx = 0;
  response = [];
  response_length = 0;
  diagnostics = none;
}

three_times : (retry_exchange lib (some silent) none read_request 14 0 before).1.ctx ≡ 3
unfolding retry_exchange is_retryable_sector_request attempt_loop attempt_once note_attempt observe
    join16
three_times = refl

retry_exchange-IsBounded_example :
    IsBounded lib
      (λ (s : ℕ). s)
      (0 + (if is_retryable_sector_request lib read_request 14 then 3 else 1))
      (retry_exchange lib (some silent) none read_request 14 0 before)
retry_exchange-IsBounded_example =
    retry_exchange-IsBounded lib (λ (s : ℕ). s) silent
      (λ s request n response capacity. omega arith) none read_request 14 0 before
