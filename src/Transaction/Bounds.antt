-- ===== src/Transaction/Bounds.antt =====
-- How much one `nio_transaction_call` can ask of the port, and that it returns.
use fujinet_nio_driver.Base.{
  ℕ, zero, suc, ◌+◌, ◌*◌, ◌%◌, ◌^◌, ◌<◌, ◌≤◌, ◌≡◌, ◌≢◌, ◌∙◌, sym, ap, refl, Bool, true, false,
  Option, some, none, List, arith, ◌==◌, Bool-cases, Option-cases, inl, inr, some_inj, some_ne_none,
  take,
}
use mathlib.Core.Path.{subst}
use fujinet_nio_driver.Protocol.{
  ParsedResponse, FrameHeader, frame_header_size, proto_ok, err_device_command,
}
use fujinet_nio_driver.Transaction.{
  Port, RawPort, Buffers, Request, Machine, Diag, receive, check, note_expected, settle, fail,
  diag_reset, gives_up, transaction_once, call_attempts, transaction_call, send_payload,
  max_attempts, slip_end, err_payload, diag_fail, usable_port, send_request,
}
use fujinet_nio_driver.Transaction.Receive.{after_frame, read_response_inv, read_response_total}
use fujinet_nio_driver.Transaction.Outcome.{
  first_attempt, attempt_hangs, attempt_succeeds, attempt_fails, max_attempts_pos,
}

true≢false : ¬ (true ≡ false)
true≢false h = cc

undiagnosed-gives_up : (d : Option Diag) → d ≡ none → gives_up d ≡ true
unfolding gives_up
undiagnosed-gives_up d e = rw e

diag_reset_undiagnosed : (d : Option Diag) → d ≡ none → diag_reset d ≡ none
unfolding diag_reset
diag_reset_undiagnosed d e = rw e

module _ {S : Type 0} where
  no_attempts :
      (p : Port S) (r : Request) (m : Machine S) → call_attempts zero p r m ≡ some (false, m)
  unfolding call_attempts
  no_attempts p r m = refl

  -- A cost `μ` of the context that a flush raises by at most `per_send`, a read by at most
  -- `per_read`, and nothing else raises.
  pub record Metered (p : Port S) (μ : S → ℕ) (per_send per_read : ℕ) : Type 0 where
    pub flush : (s : S) → μ (p.flush_rx s) ≤ μ s + per_send
    pub put : (s : S) (c : ℕ) → μ (p.putc s c) ≤ μ s
    pub put_buf : (s : S) (buf : List ℕ) → μ (p.putbuf_slip s buf) ≤ μ s
    pub wait : (s : S) → μ (p.wait_tx_empty s) ≤ μ s
    pub read :
        (s : S) (n : ℕ) (h : FrameHeader) (buf : List ℕ) (cap timeout : ℕ)
        → μ (p.getbuf_slip_dual s n h buf cap timeout).ctx ≤ μ s + per_read

  module _ (p : Port S) (μ : S → ℕ) (f g : ℕ) (meter : Metered p μ f g) (r : Request) where
    send_payload-le :
        (payload : Option (List ℕ)) (n : ℕ) (s : S) → μ (send_payload p payload n s) ≤ μ s
    unfolding send_payload
    send_payload-le none n s = omega arith
    send_payload-le (some buf) n s = ground (arith, meter.put_buf s (take n buf))

    send_request-le : (s : S) → μ (send_request p r s) ≤ μ s + f
    unfolding send_request
    send_request-le s =
        let s1 : S = p.putc (p.flush_rx s) slip_end in
        let s2 : S = p.putbuf_slip s1 (take frame_header_size r.prefix) in
        let s3 : S = send_payload p r.payload r.payload_length s2 in
        omega (
          arith,
          meter.flush s,
          meter.put (p.flush_rx s) slip_end,
          meter.put_buf s1 (take frame_header_size r.prefix),
          send_payload-le r.payload r.payload_length s2,
          meter.put s3 slip_end,
          meter.wait (p.putc s3 slip_end),
        )

    after_frame-le : (m : Machine S) → μ (after_frame p r m).ctx ≤ μ m.ctx + g
    unfolding note_expected receive
    after_frame-le m = meter.read m.ctx _ _ _ _ _

    ctx-settle :
        (n : ℕ) (checked : ℕ × ParsedResponse) (m : Machine S)
        → (settle p n checked m).1.ctx ≡ m.ctx
    unfolding settle
    ctx-settle n (code, parsed) m = ground arith

    ctx-fail :
        (e n : ℕ) (parsed : ParsedResponse) (m : Machine S) → (fail e n parsed m).1.ctx ≡ m.ctx
    unfolding fail
    ctx-fail e n parsed m = refl

    after_frame_undiagnosed : (m : Machine S) → m.diag ≡ none → (after_frame p r m).diag ≡ none
    unfolding note_expected receive
    after_frame_undiagnosed m d = rw d

    fail_undiagnosed :
        (e n : ℕ) (parsed : ParsedResponse) (m : Machine S)
        → m.diag ≡ none
        → (fail e n parsed m).1.diag ≡ none
    unfolding fail
    fail_undiagnosed e n parsed m d = rw d

    settle_undiagnosed :
        (n : ℕ) (checked : ℕ × ParsedResponse) (m : Machine S)
        → m.diag ≡ none
        → (settle p n checked m).1.diag ≡ none
    unfolding settle
    settle_undiagnosed n (code, parsed) m d = elim (Bool-cases (code == proto_ok)) [
      | inl ok ↦ rw (ok, d)
      | inr bad ↦ rw (bad, d)
    ]

    record Spent (base stale : ℕ) (m : Machine S) : Type 0 where
      counted : stale ≤ r.max_stale
      cost : μ m.ctx ≤ base + stale * g

    round-Spent :
        (base stale : ℕ) (m : Machine S)
        → Spent base stale m
        → μ (after_frame p r m).ctx ≤ base + (r.max_stale + 1) * g
    round-Spent base stale m w = grind (arith, after_frame-le m)

    next-cost :
        {base stale : ℕ} {n : Machine S} {spent : ℕ}
        → r.max_stale < 255
        → Spent base stale n
        → (stale + 1) % 2 ^ 8 ≤ r.max_stale
        → spent ≤ μ n.ctx + g
        → spent ≤ base + (stale + 1) % 2 ^ 8 * g
    next-cost {base} {stale} {n} h w le k =
        let small : (stale + 1) % 2 ^ 8 ≡ stale + 1 = omega (arith, w.counted) in
        rw small (omega (arith, w.cost))

    transaction_once-le :
        (m : Machine S) {out : Bool × Machine S}
        → r.max_stale < 255
        → transaction_once p r m ≡ some out
        → μ out.1.ctx ≤ μ m.ctx + (f + (r.max_stale + 1) * g)
    unfolding transaction_once
    transaction_once-le m {out} h e = omega (
      arith,
      read_response_inv p r (Spent (μ m.ctx + f))
          (λ (o : Bool × Machine S). μ o.1.ctx ≤ μ m.ctx + f + (r.max_stale + 1) * g)
          (λ stale n w _ le. record { counted = le; cost = next-cost h w le (after_frame-le n) })
          (λ stale n w. rw (ctx-fail _ _ _ _) (round-Spent (μ m.ctx + f) stale n w))
          (λ stale n w. rw (ctx-settle _ _ _) (round-Spent (μ m.ctx + f) stale n w)) 256 0 _
          (record { counted = omega arith; cost = omega (arith, send_request-le m.ctx) }) e,
    )

    undiagnosed_once :
        (m : Machine S) {out : Bool × Machine S}
        → m.diag ≡ none
        → transaction_once p r (record m { diag = diag_reset m.diag }) ≡ some out
        → out.1.diag ≡ none
    unfolding transaction_once
    undiagnosed_once m {out} d e =
        read_response_inv p r (λ _ (n : Machine S). n.diag ≡ none)
          (λ (o : Bool × Machine S). o.1.diag ≡ none) (λ stale n w _ _. after_frame_undiagnosed n w)
          (λ stale n w.
            fail_undiagnosed err_device_command (receive p r n).0 (check r (receive p r n)).1
              (after_frame p r n) (after_frame_undiagnosed n w))
          (λ stale n w.
            settle_undiagnosed (receive p r n).0 (check r (receive p r n)) (after_frame p r n)
              (after_frame_undiagnosed n w))
          256 0 _ (diag_reset_undiagnosed m.diag d) e

    abbrev Within : Machine S → ℕ → Bool × Machine S → Type 0
    Within m n out = μ out.1.ctx ≤ μ m.ctx + n * (f + (r.max_stale + 1) * g)

    step-le :
        (left k : ℕ) (m : Machine S)
        → r.max_stale < 255
        → ((m' : Machine S) (out : Bool × Machine S)
            → first_attempt left p r m ≡ some (false, m')
            → gives_up m'.diag ≡ false
            → call_attempts left p r m' ≡ some out
            → Within m' k out)
        → (x : Option (Bool × Machine S)) (out : Bool × Machine S) → first_attempt left p r m ≡ x
        → call_attempts (suc left) p r m ≡ some out
        → Within m (suc k) out
    step-le left k m h rest none out e c =
        absurd (some_ne_none (sym c ∙ attempt_hangs left p r m e))
    step-le left k m h rest (some (true, m')) out e c =
        subst (Within m (suc k)) (some_inj (sym (attempt_succeeds left p r m m' e) ∙ c))
          (omega (arith, transaction_once-le _ h e))
    step-le left k m h rest (some (false, m')) out e c = elim (Bool-cases (gives_up m'.diag)) [
      | inl stop ↦
          subst (Within m (suc k)) (some_inj (rw stop at (sym (attempt_fails left p r m m' e) ∙ c)))
            (omega (arith, transaction_once-le _ h e))
      | inr again ↦ omega (
        arith,
        transaction_once-le _ h e,
        rest m' out e again (rw again at (sym (attempt_fails left p r m m' e) ∙ c)),
      )
    ]

    call_attempts-le :
        (n : ℕ) (m : Machine S) (out : Bool × Machine S)
        → r.max_stale < 255
        → call_attempts n p r m ≡ some out
        → Within m n out
    call_attempts-le zero m out h e =
        subst (Within m 0) (some_inj (sym (no_attempts p r m) ∙ e)) (omega arith)
    call_attempts-le (suc left) m out h e =
        step-le left left m h (λ m' o _ _. call_attempts-le left m' o h) _ out refl e

    -- Where a flush raises a cost of the port's context by `f` at most, a read by `g` at most and
    -- nothing else raises it, a call over the usable callbacks `p` with a stale limit below 255
    -- that returns has raised it by at most `f`, and `g` for each frame up to one more than the
    -- limit, in each of its attempts.
    pub transaction_call-le :
        (raw : Option (RawPort S)) (buffers : Option Buffers) (retries : ℕ) (m : Machine S)
        (out : Bool × Machine S)
        → usable_port raw buffers ≡ some p
        → r.max_stale < 255
        → transaction_call raw buffers r retries m ≡ some out
        → μ out.1.ctx ≤ μ m.ctx + max_attempts retries * (f + (r.max_stale + 1) * g)
    unfolding transaction_call
    transaction_call-le raw buffers retries m out usable h e =
        call_attempts-le (max_attempts retries) m out h (rw (usable, transaction_call) at e)

    -- Under the same conditions a call without a diagnostics record that returns has raised the
    -- cost by at most the share of one attempt: it is not retried.
    transaction_call_undiagnosed-le :
        (raw : Option (RawPort S)) (buffers : Option Buffers) (retries : ℕ) (m : Machine S)
        (out : Bool × Machine S)
        → usable_port raw buffers ≡ some p
        → r.max_stale < 255
        → m.diag ≡ none
        → transaction_call raw buffers r retries m ≡ some out
        → μ out.1.ctx ≤ μ m.ctx + (f + (r.max_stale + 1) * g)
    unfolding transaction_call
    transaction_call_undiagnosed-le raw buffers retries m out usable h d e =
        let (left, some_attempts) = max_attempts_pos retries in
        omega (
          arith,
          step-le left 0 m h
              (λ m' o first again _. absurd (
                true≢false
                  (sym (undiagnosed-gives_up m'.diag (undiagnosed_once m d first)) ∙ again)))
              _ out refl
              (ap (λ n. call_attempts n p r m) (sym some_attempts)
                ∙ (rw (usable, transaction_call) at e)),
        )

  transaction_once_total :
      (p : Port S) (r : Request) (m : Machine S) → r.max_stale < 255 → transaction_once p r m ≢ none
  unfolding transaction_once
  transaction_once_total p r m h = read_response_total p r 256 0 _ h (omega arith) (omega arith)

  abbrev Returns : Option (Bool × Machine S) → Type 0
  Returns result = (out : Bool × Machine S) × (result ≡ some out)

  step_total :
      (left : ℕ) (p : Port S) (r : Request) (m : Machine S)
      → r.max_stale < 255
      → ((m' : Machine S) → Returns (call_attempts left p r m'))
      → (x : Option (Bool × Machine S)) → first_attempt left p r m ≡ x
      → Returns (call_attempts (suc left) p r m)
  step_total left p r m h rest none e = absurd (transaction_once_total p r _ h e)
  step_total left p r m h rest (some (true, m')) e = ((true, m'), attempt_succeeds left p r m m' e)
  step_total left p r m h rest (some (false, m')) e = elim (Bool-cases (gives_up m'.diag)) [
    | inl stop ↦ ((false, m'), attempt_fails left p r m m' e ∙ rw stop)
    | inr again ↦ let (out, o) = rest m' in (out, attempt_fails left p r m m' e ∙ rw again o)
  ]

  call_attempts_total :
      (n : ℕ) (p : Port S) (r : Request) (m : Machine S)
      → r.max_stale < 255
      → Returns (call_attempts n p r m)
  call_attempts_total zero p r m h = ((false, m), no_attempts p r m)
  call_attempts_total (suc left) p r m h =
      step_total left p r m h (λ m'. call_attempts_total left p r m' h) _ refl

  -- With a stale limit below 255 every call returns, whatever the port does.
  pub transaction_call_total :
      (raw : Option (RawPort S)) (buffers : Option Buffers) (r : Request) (retries : ℕ)
      (m : Machine S)
      → r.max_stale < 255
      → (out : Bool × Machine S) × (transaction_call raw buffers r retries m ≡ some out)
  unfolding transaction_call
  transaction_call_total raw buffers r retries m h = elim (Option-cases (usable_port raw buffers)) [
    | inl missing ↦ (
      (false, record m { diag = diag_fail err_payload 0 0 m.diag }),
      rw (missing, transaction_call),
    )
    | inr (p, usable) ↦
        let (out, o) = call_attempts_total (max_attempts retries) p r m h in
        (out, rw (usable, transaction_call) o)
  ]
