-- ===== src/Retry.antt =====
-- common/fujinet_disk_retry.c: a disk request is sent again after an error of the transport, if it
-- reads or writes one sector. `response_length` is not NULL in the callers.
pub mod Attempts
mod Tests
use fujinet_nio_driver.Base.{
  ℕ, zero, suc, ◌+◌, ◌%◌, ◌^◌, Bool, true, false, ◌&&◌, ◌||◌, not, Option, none, some, List, leb,
  ltb, ◌==◌, if◌then◌else◌, set, through,
}
use fujinet_nio_driver.Base.Words.{at, join16}

-- Constants of fujinet-nio-lib, and its checksum of the first bytes of a packet.
pub record RetryLib : Type 0 where
  pub ok : ℕ
  pub invalid : ℕ
  pub transport : ℕ
  pub timeout : ℕ
  pub header_size : ℕ
  pub checksum_offset : ℕ
  pub device_disk : ℕ
  pub disk_protocol_version : ℕ
  pub checksum : List ℕ → ℕ → ℕ

abbrev pub retry_attempts : ℕ
retry_attempts = 3

abbrev pub disk_read_sector : ℕ
disk_read_sector = 3

abbrev pub disk_write_sector : ℕ
disk_write_sector = 4

-- What a transport gives back: the result, the response buffer, its length and the context.
pub record Reply (C : Type 0) : Type 0 where
  pub status : ℕ
  pub response : List ℕ
  pub length : ℕ
  pub ctx : C

-- `fujinet_disk_retry_diagnostics_t`
pub record Diagnostics : Type 0 where
  pub attempts : ℕ
  pub results : List ℕ
  pub response_lengths : List ℕ

-- The memory that an exchange writes: the two contexts, the response, its length, the diagnostics.
pub record Exchange (C O : Type 0) : Type 0 where
  pub ctx : C
  pub observer_ctx : O
  pub response : List ℕ
  pub response_length : ℕ
  pub diagnostics : Option Diagnostics

module _ (lib : RetryLib) where
  unfoldable pub is_retryable_sector_request : Option (List ℕ) → ℕ → Bool
  is_retryable_sector_request none n = false
  is_retryable_sector_request (some request) n =
      let command = at request 1 in
      let slot = at request 7 in
      if ltb n lib.header_size
      then false
      else if (command == disk_read_sector) && not (n == lib.header_size + 8)
          || (command == disk_write_sector) && not (n == lib.header_size + 8 + 512)
          || not (command == disk_read_sector) && not (command == disk_write_sector)
      then false
      else (at request 0 == lib.device_disk)
        && (join16 (at request 2) (at request 3) == n)
        && (at request lib.checksum_offset == lib.checksum request n)
        && (at request 5 == 0)
        && (at request 6 == lib.disk_protocol_version)
        && leb 1 slot
        && leb slot 8
        && (join16 (at request 12) (at request 13) == 512)

-- What is put to the diagnostics in front of an attempt and behind it.
unfoldable pub note_attempt : ℕ → ℕ → ℕ → Diagnostics → Diagnostics
note_attempt attempt result length d = record {
  attempts = (attempt + 1) % 2 ^ 8;
  results = set d.results attempt result;
  response_lengths = set d.response_lengths attempt length;
}

-- `if (attempt_observer != NULL) attempt_observer(...)`
unfoldable pub observe : {O : Type 0} → Option (O → ℕ → ℕ → ℕ → O) → O → ℕ → ℕ → ℕ → O
observe none o attempt result length = o
observe (some f) o attempt result length = f o attempt result length

module _ (lib : RetryLib) {C O : Type 0} (send : C → Option (List ℕ) → ℕ → List ℕ → ℕ → Reply C)
    (observer : Option (O → ℕ → ℕ → ℕ → O)) (request : Option (List ℕ)) (n capacity : ℕ) where
  -- One round of the loop, with the result of the transport and the state behind the observer.
  unfoldable pub attempt_once : ℕ → Exchange C O → Reply C × Exchange C O
  unfolding note_attempt observe
  attempt_once attempt x =
      let got = send x.ctx request n x.response capacity in
      (
        got,
        record {
          ctx = got.ctx;
          observer_ctx =
              observe observer x.observer_ctx ((attempt + 1) % 2 ^ 8) got.status got.length;
          response = got.response;
          response_length = 0;
          diagnostics =
              through (note_attempt attempt got.status got.length)
                (through (note_attempt attempt lib.invalid 0) x.diagnostics);
        },
      )

  -- The `for` loop by the attempts that are left; `result` is that of the attempt before.
  unfoldable pub attempt_loop : ℕ → ℕ → ℕ → Exchange C O → ℕ × Exchange C O
  unfolding attempt_once
  attempt_loop zero attempt result x = (result, x)
  attempt_loop (suc left) attempt result x =
      let (got, after) = attempt_once attempt x in
      let rest = attempt_loop left (attempt + 1) got.status after in
      if got.status == lib.ok
      then (lib.ok, record after { response_length = got.length })
      else if not (got.status == lib.transport) && not (got.status == lib.timeout)
      then (got.status, after)
      else rest

module _ (lib : RetryLib) {C O : Type 0} where
  unfoldable pub retry_exchange :
      Option (C → Option (List ℕ) → ℕ → List ℕ → ℕ → Reply C)
      → Option (O → ℕ → ℕ → ℕ → O)
      → Option (List ℕ)
      → ℕ
      → ℕ
      → Exchange C O
      → ℕ × Exchange C O
  unfolding is_retryable_sector_request attempt_loop
  retry_exchange none observer request n capacity x = (lib.invalid, x)
  retry_exchange (some send) observer request n capacity x =
      attempt_loop lib send observer request n capacity
        (if is_retryable_sector_request lib request n then retry_attempts else 1) 0 lib.invalid
        (record x {
          diagnostics = through (λ (d : Diagnostics). record d { attempts = 0 }) x.diagnostics;
        })
