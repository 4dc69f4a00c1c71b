-- ===== src/Transaction/Diagnosed.antt =====
-- A call that has a diagnostics record keeps it.
use fujinet_nio_driver.Base.{
  ℕ, zero, suc, ◌≡◌, sym, ap, refl, subst, ◌∙◌, Bool, true, false, Option, some, none, ◌==◌,
  Bool-cases, inl, inr, some_inj, some_ne_none, through, both_branches,
}
use fujinet_nio_driver.Protocol.{ParsedResponse, proto_ok, err_device_command}
use fujinet_nio_driver.Transaction.{
  Port, RawPort, Buffers, Request, Machine, Diag, receive, check, note_expected, settle, fail,
  deliver, port_error, diag_reset, diag_fail, gives_up, transaction_once, call_attempts,
  transaction_call, max_attempts, usable_port,
}
use fujinet_nio_driver.Transaction.Receive.{after_frame, read_response_inv}
use fujinet_nio_driver.Transaction.Outcome.{
  first_attempt, attempt_hangs, attempt_succeeds, attempt_fails,
}

abbrev pub IsThere : Option Diag → Type 0
IsThere o = (d : Diag) × (o ≡ some d)

through-IsThere : (f : Diag → Diag) (o : Option Diag) → IsThere o → IsThere (through f o)
through-IsThere f o (d, e) = (f d, ap (through f) e)

module _ {S : Type 0} where
  after_frame-IsThere :
      (p : Port S) (r : Request) (m : Machine S) → IsThere m.diag → IsThere (after_frame p r m).diag
  unfolding note_expected receive
  after_frame-IsThere p r m h = through-IsThere _ _ (through-IsThere _ _ h)

  fail-IsThere :
      (error n : ℕ) (parsed : ParsedResponse) (m : Machine S)
      → IsThere m.diag
      → IsThere (fail error n parsed m).1.diag
  unfolding fail diag_fail
  fail-IsThere error n parsed m h = through-IsThere _ _ h

  settle-IsThere :
      (p : Port S) (n : ℕ) (checked : ℕ × ParsedResponse) (m : Machine S)
      → IsThere m.diag
      → IsThere (settle p n checked m).1.diag
  unfolding settle deliver
  settle-IsThere p n (code, parsed) m h =
      both_branches (λ (o : Bool × Machine S). IsThere o.1.diag) (code == proto_ok)
        (λ _. through-IsThere _ _ h) (λ _. fail-IsThere (port_error p m.ctx code) n parsed m h)

  transaction_once-IsThere :
      (p : Port S) (r : Request) (m : Machine S) (out : Bool × Machine S)
      → IsThere m.diag
      → transaction_once p r m ≡ some out
      → IsThere out.1.diag
  unfolding transaction_once
  transaction_once-IsThere p r m out h e =
      read_response_inv p r (λ _ (n : Machine S). IsThere n.diag)
        (λ (o : Bool × Machine S). IsThere o.1.diag) (λ stale n w _ _. after_frame-IsThere p r n w)
        (λ stale n w.
          fail-IsThere err_device_command (receive p r n).0 (check r (receive p r n)).1
            (after_frame p r n) (after_frame-IsThere p r n w))
        (λ stale n w.
          settle-IsThere p (receive p r n).0 (check r (receive p r n)) (after_frame p r n)
            (after_frame-IsThere p r n w))
        256 0 _ h e

  first_attempt-IsThere :
      (left : ℕ) (p : Port S) (r : Request) (m : Machine S) (out : Bool × Machine S)
      → IsThere m.diag
      → first_attempt left p r m ≡ some out
      → IsThere out.1.diag
  unfolding diag_reset
  first_attempt-IsThere left p r m out h e =
      transaction_once-IsThere p r _ out (through-IsThere _ _ h) e

  step-IsThere :
      (left : ℕ) (p : Port S) (r : Request) (m : Machine S) (out : Bool × Machine S)
      → IsThere m.diag
      → ((m' : Machine S)
          → IsThere m'.diag
          → call_attempts left p r m' ≡ some out
          → IsThere out.1.diag)
      → (x : Option (Bool × Machine S)) → first_attempt left p r m ≡ x
      → call_attempts (suc left) p r m ≡ some out
      → IsThere out.1.diag
  step-IsThere left p r m out h rest none e c =
      absurd (some_ne_none (sym c ∙ attempt_hangs left p r m e))
  step-IsThere left p r m out h rest (some (true, m')) e c =
      subst (λ (o : Bool × Machine S). IsThere o.1.diag)
        (some_inj (sym (attempt_succeeds left p r m m' e) ∙ c))
        (first_attempt-IsThere left p r m (true, m') h e)
  step-IsThere left p r m out h rest (some (false, m')) e c =
      let there = first_attempt-IsThere left p r m (false, m') h e in
      elim (Bool-cases (gives_up m'.diag)) [
        | inl stop ↦
            subst (λ (o : Bool × Machine S). IsThere o.1.diag)
              (some_inj (rw stop at (sym (attempt_fails left p r m m' e) ∙ c))) there
        | inr again ↦ rest m' there (rw again at (sym (attempt_fails left p r m m' e) ∙ c))
      ]

  call_attempts-IsThere :
      (n : ℕ) (p : Port S) (r : Request) (m : Machine S) (out : Bool × Machine S)
      → IsThere m.diag
      → call_attempts n p r m ≡ some out
      → IsThere out.1.diag
  unfolding call_attempts
  call_attempts-IsThere zero p r m out h c =
      subst (λ (o : Bool × Machine S). IsThere o.1.diag) (some_inj c) h
  call_attempts-IsThere (suc left) p r m out h c =
      step-IsThere left p r m out h (λ m' there c'. call_attempts-IsThere left p r m' out there c')
        _ refl c

  pub transaction_call-IsThere :
      (raw : Option (RawPort S)) (buffers : Option Buffers) (p : Port S) (r : Request) (retries : ℕ)
      (m : Machine S) (out : Bool × Machine S)
      → usable_port raw buffers ≡ some p
      → IsThere m.diag
      → transaction_call raw buffers r retries m ≡ some out
      → IsThere out.1.diag
  unfolding transaction_call
  transaction_call-IsThere raw buffers p r retries m out usable h e =
      call_attempts-IsThere (max_attempts retries) p r m out h (rw (usable, transaction_call) at e)
