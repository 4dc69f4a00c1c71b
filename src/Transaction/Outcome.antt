-- ===== src/Transaction/Outcome.antt =====
-- What a returning `nio_transaction_call` leaves behind, on success and on failure.
use fujinet_nio_driver.Base.{
  ℕ, zero, suc, ◌≡◌, ◌≢◌, ◌∙◌, sym, ap, refl, Bool, true, false, Option, some, none, List, arith,
  ◌==◌, if◌then◌else◌, Bool-cases, ==→eq, ==→ne, inl, inr, some_inj, some_ne_none, ◌⊎◌, ◌-◌,
  through,
}
use mathlib.Core.Path.{subst}
use fujinet_nio_driver.Protocol.{ParsedResponse, proto_ok, err_device_command}
use fujinet_nio_driver.Transaction.{
  Port, RawPort, Buffers, Request, Machine, Diag, Response, err_none, status_internal_error,
  receive, check, note_expected, settle, fail, deliver, moved_reply, moved_payload, Reply,
  port_error, reason_error, diag_reset, diag_fail, gives_up, transaction_once, call_attempts,
  transaction_call, max_attempts, usable_port,
}
use fujinet_nio_driver.Transaction.Receive.{after_frame, read_response_inv}

abbrev pub HasError : Option Diag → Type 0
HasError none = Unit
HasError (some d) = d.error ≢ err_none

abbrev pub HasNoError : ℕ → Option Diag → Type 0
HasNoError status none = Unit
HasNoError status (some d) = (d.error ≡ err_none) × (d.status ≡ status)

abbrev pub failed_response : Response → Response
failed_response _ = record { status = status_internal_error; payload_length = 0 }

abbrev pub parsed_response : ParsedResponse → Response → Response
parsed_response parsed _ = record { status = parsed.status; payload_length = parsed.payload_length }

through_twice :
    (parsed : ParsedResponse) (o : Option Response)
    → through (parsed_response parsed) (through failed_response o)
      ≡ through (parsed_response parsed) o
through_twice parsed none = refl
through_twice parsed (some _) = refl

failed_twice :
    (o : Option Response)
    → through failed_response (through failed_response o) ≡ through failed_response o
failed_twice none = refl
failed_twice (some _) = refl

pub max_attempts_pos : (retries : ℕ) → (left : ℕ) × (max_attempts retries ≡ suc left)
unfolding max_attempts
max_attempts_pos retries = (max_attempts retries - 1, ground arith)

module _ {S : Type 0} where
  -- Success: a frame, with `frame` in the receive buffer, was accepted, the caller's response and
  -- diagnostics tell its status, and the buffer that the reply goes to begins with its data: the
  -- caller's own, where the frame then stands in the receive buffer, or the receive buffer.
  pub record Delivered (r : Request) (old : Reply) (told : Option Response) (m : Machine S)
      : Type 0 where
    pub rx_len : ℕ
    pub parsed : ParsedResponse
    pub frame : List ℕ
    pub accepted : check r (rx_len, record m { rx_payload = frame }) ≡ (proto_ok, parsed)
    pub reply : m.reply ≡ moved_reply frame parsed old
    pub payload : m.rx_payload ≡ moved_payload frame parsed old
    pub response : m.response ≡ through (parsed_response parsed) told
    pub clear : HasNoError parsed.status m.diag

  -- Failure: a reply buffer of the caller's own is as it was, the response says so, and the diagnostics name an error.
  pub record Failed (old : Reply) (told : Option Response) (m : Machine S) : Type 0 where
    pub reply : m.reply ≡ old
    pub response : m.response ≡ through failed_response told
    pub error : HasError m.diag

  abbrev pub Outcome : Request → Reply → Option Response → Bool × Machine S → Type 0
  Outcome r old told (true, m) = Delivered r old told m
  Outcome r old told (false, m) = Failed old told m

  -- What every round of an attempt keeps.
  record Waiting (old : Reply) (told : Option Response) (m : Machine S) : Type 0 where
    reply : m.reply ≡ old
    response : m.response ≡ through failed_response told

  reason_error_ne : (f : Option (S → ℕ)) (s : S) (code : ℕ) → code ≢ 0 → reason_error f s code ≢ 0
  unfolding reason_error
  reason_error_ne none s code h = h
  reason_error_ne (some f) s code h = ground arith

  port_error_ne : (p : Port S) (s : S) (code : ℕ) → code ≢ 0 → port_error p s code ≢ 0
  unfolding port_error
  port_error_ne p s code h = ground (arith, reason_error_ne p.last_slip_reason s code h)

  after_frame-Waiting :
      (p : Port S) (r : Request) (old : Reply) (told : Option Response) (m : Machine S)
      → Waiting old told m
      → Waiting old told (after_frame p r m)
  unfolding note_expected receive
  after_frame-Waiting p r old told m w = record { reply = w.reply; response = w.response }

  fail-Failed :
      (old : Reply) (told : Option Response) (m : Machine S) (error rx_len : ℕ)
      (parsed : ParsedResponse)
      → error ≢ 0
      → Waiting old told m
      → Failed old told (fail error rx_len parsed m).1
  unfolding fail
  fail-Failed old told m error rx_len parsed ne w = record {
    reply = w.reply;
    response = w.response;
    error = named m.diag;
  }
    where
      named : (d : Option Diag) → HasError (diag_fail error rx_len parsed.expected_len d)
      named none = tt
      named (some d) = ne

  deliver-Delivered :
      (r : Request) (old : Reply) (told : Option Response) (m : Machine S) (rx_len : ℕ)
      (parsed : ParsedResponse)
      → check r (rx_len, m) ≡ (proto_ok, parsed)
      → Waiting old told m
      → Delivered r old told (deliver parsed m).1
  unfolding deliver check
  deliver-Delivered r old told m rx_len parsed ok w = record {
    rx_len = rx_len;
    parsed = parsed;
    frame = m.rx_payload;
    accepted = ok;
    reply = ap (moved_reply m.rx_payload parsed) w.reply;
    payload = ap (moved_payload m.rx_payload parsed) w.reply;
    response = ap (through (parsed_response parsed)) w.response ∙ through_twice parsed told;
    clear = cleared m.diag;
  }
    where
      cleared :
          (d : Option Diag)
          → HasNoError parsed.status
              (through (λ (e : Diag). record e { error = err_none; status = parsed.status }) d)
      cleared none = tt
      cleared (some d) = (refl, refl)

  check-note_expected :
      (r : Request) (n : ℕ) (parsed : ParsedResponse) (m : Machine S)
      → check r (n, note_expected parsed m) ≡ check r (n, m)
  unfolding check note_expected
  check-note_expected r n parsed m = refl

  settle-Outcome :
      (p : Port S) (r : Request) (old : Reply) (told : Option Response) (m : Machine S) (rx_len : ℕ)
      (checked : ℕ × ParsedResponse)
      → check r (rx_len, m) ≡ checked
      → Waiting old told m
      → Outcome r old told (settle p rx_len checked m)
  unfolding settle
  settle-Outcome p r old told m rx_len (code, parsed) e w = elim (Bool-cases (code == proto_ok)) [
    | inl ok ↦
        rw ok (
          deliver-Delivered r old told m rx_len parsed (e ∙ ap (λ c. (c, parsed)) (==→eq _ _ ok)) w)
    | inr bad ↦ rw bad (
        fail-Failed old told m (port_error p m.ctx code) rx_len parsed
          (port_error_ne p m.ctx code (==→ne _ _ bad)) w)
  ]

  transaction_once-Outcome :
      (p : Port S) (r : Request) (m : Machine S) {out : Bool × Machine S}
      → transaction_once p r m ≡ some out
      → Outcome r m.reply m.response out
  unfolding transaction_once
  transaction_once-Outcome p r m e =
      read_response_inv p r (λ _. Waiting m.reply m.response) (Outcome r m.reply m.response)
        (λ stale n w _ _. after_frame-Waiting p r m.reply m.response n w)
        (λ stale n w.
          fail-Failed m.reply m.response (after_frame p r n) err_device_command (receive p r n).0
            (check r (receive p r n)).1 (omega arith)
            (after_frame-Waiting p r m.reply m.response n w))
        (λ stale n w.
          settle-Outcome p r m.reply m.response (after_frame p r n) _ _
            (check-note_expected r (receive p r n).0 (check r (receive p r n)).1 (receive p r n).1)
            (after_frame-Waiting p r m.reply m.response n w))
        256 0 _ (record { reply = refl; response = refl }) e

  after_failure :
      (r : Request) (old : Reply) (told : Option Response) (m : Machine S) (out : Bool × Machine S)
      → Failed old told m
      → Outcome r m.reply m.response out
      → Outcome r old told out
  after_failure r old told m (true, n) f d = record {
    rx_len = d.rx_len;
    parsed = d.parsed;
    frame = d.frame;
    accepted = d.accepted;
    reply = d.reply ∙ ap (moved_reply d.frame d.parsed) f.reply;
    payload = d.payload ∙ ap (moved_payload d.frame d.parsed) f.reply;
    response =
        d.response
        ∙ ap (through (parsed_response d.parsed)) f.response
        ∙ through_twice d.parsed told;
    clear = d.clear;
  }
  after_failure r old told m (false, n) f d = record {
    reply = d.reply ∙ f.reply;
    response = d.response ∙ ap (through failed_response) f.response ∙ failed_twice told;
    error = d.error;
  }

  module _ (left : ℕ) (p : Port S) (r : Request) (m : Machine S) where
    abbrev pub first_attempt : Option (Bool × Machine S)
    first_attempt = transaction_once p r (record m { diag = diag_reset m.diag })

    -- What the loop makes of the first attempt's outcome.
    pub attempt_hangs : first_attempt ≡ none → call_attempts (suc left) p r m ≡ none
    unfolding call_attempts
    attempt_hangs e = rw (e, call_attempts)

    pub attempt_succeeds :
        (m' : Machine S)
        → first_attempt ≡ some (true, m')
        → call_attempts (suc left) p r m ≡ some (true, m')
    unfolding call_attempts
    attempt_succeeds m' e = rw (e, call_attempts)

    pub attempt_fails :
        (m' : Machine S)
        → first_attempt ≡ some (false, m')
        → call_attempts (suc left) p r m
          ≡ (if gives_up m'.diag then some (false, m') else call_attempts left p r m')
    unfolding call_attempts
    attempt_fails m' e = rw (e, call_attempts)

    step-Outcome :
        ((n : Machine S) (out : Bool × Machine S)
          → call_attempts left p r n ≡ some out
          → Outcome r n.reply n.response out ⊎ (out ≡ (false, n)))
        → (x : Option (Bool × Machine S)) (out : Bool × Machine S) → first_attempt ≡ x
        → call_attempts (suc left) p r m ≡ some out
        → Outcome r m.reply m.response out
    step-Outcome rest none out e h = absurd (some_ne_none (sym h ∙ attempt_hangs e))
    step-Outcome rest (some (true, m')) out e h =
        subst (Outcome r m.reply m.response) (some_inj (sym (attempt_succeeds m' e) ∙ h))
          (transaction_once-Outcome p r _ e)
    step-Outcome rest (some (false, m')) out e h =
        let failed : Failed m.reply m.response m' = transaction_once-Outcome p r _ e in
        elim (Bool-cases (gives_up m'.diag)) [
          | inl stop ↦
              subst (Outcome r m.reply m.response)
                (some_inj (rw stop at (sym (attempt_fails m' e) ∙ h))) failed
          | inr again ↦ elim (rest m' out (rw again at (sym (attempt_fails m' e) ∙ h))) [
            | inl o ↦ after_failure r m.reply m.response m' out failed o
            | inr same ↦ subst (Outcome r m.reply m.response) (sym same) failed
          ]
        ]

  rest-Outcome :
      (left : ℕ) (p : Port S) (r : Request) (m : Machine S) (out : Bool × Machine S)
      → call_attempts left p r m ≡ some out
      → Outcome r m.reply m.response out ⊎ (out ≡ (false, m))
  rest-Outcome zero p r m out h = inr (some_inj (unfold call_attempts in (sym h)))
  rest-Outcome (suc left) p r m out h =
      inl (step-Outcome left p r m (rest-Outcome left p r) _ out refl h)

  -- A call with usable callbacks and buffers that returns has either delivered an accepted frame: its
  -- data stands at the start of the caller's reply buffer, or of the receive buffer where that is
  -- the reply buffer, and the response and the diagnostics give its status. Or it has set the
  -- response to an internal error without data, has named an error in the diagnostics, and has left
  -- a reply buffer other than the receive buffer untouched.
  pub transaction_call-Outcome :
      (raw : Option (RawPort S)) (buffers : Option Buffers) (p : Port S) (r : Request) (retries : ℕ)
      (m : Machine S) (out : Bool × Machine S)
      → usable_port raw buffers ≡ some p
      → transaction_call raw buffers r retries m ≡ some out
      → Outcome r m.reply m.response out
  unfolding transaction_call
  transaction_call-Outcome raw buffers p r retries m out usable h =
      let (left, some_attempts) = max_attempts_pos retries in
      step-Outcome left p r m (rest-Outcome left p r) _ out refl
        (ap (λ n. call_attempts n p r m) (sym some_attempts) ∙ (rw (usable, transaction_call) at h))
