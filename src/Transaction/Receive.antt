-- ===== src/Transaction/Receive.antt =====
-- The loop at `read_response:`: when it ends.
use fujinet_nio_driver.Base.{
  ℕ, zero, suc, ◌+◌, ◌%◌, ◌^◌, ◌<◌, ◌≤◌, ◌≡◌, ◌≢◌, refl, Bool, some, none, arith, leb, ◌==◌,
  if◌then◌else◌, Bool-cases, some_inj, inl, inr, ==→eq, leb→le,
}
use mathlib.Core.Path.{subst}
use fujinet_nio_driver.Protocol.{err_device_command}
use fujinet_nio_driver.Transaction.{
  Port, Request, Machine, receive, check, note_expected, settle, fail, read_response,
}

module _ {S : Type 0} (p : Port S) (r : Request) where
  abbrev pub after_frame : Machine S → Machine S
  after_frame m = note_expected (check r (receive p r m)).1 (receive p r m).1

  abbrev pub frame_code : Machine S → ℕ
  frame_code m = (check r (receive p r m)).0

  -- One round, by what the check says of the frame.
  read_response_step :
      (fuel stale : ℕ) (m : Machine S)
      → read_response (suc fuel) p r stale m ≡ (
          if frame_code m == err_device_command
          then (if leb ((stale + 1) % 2 ^ 8) r.max_stale
              then read_response fuel p r ((stale + 1) % 2 ^ 8) (after_frame m)
              else some (
                  fail err_device_command
                    (receive p r m).0
                    (check r (receive p r m)).1
                    (after_frame m)))
          else some (settle p (receive p r m).0 (check r (receive p r m)) (after_frame m)))
  unfolding read_response
  read_response_step fuel stale m = refl

  -- With a limit below 255 the loop ends: as many rounds are enough as stale frames are allowed,
  -- and one more.
  pub read_response_total :
      (fuel stale : ℕ) (m : Machine S)
      → r.max_stale < 255
      → stale ≤ r.max_stale
      → r.max_stale < fuel + stale
      → read_response fuel p r stale m ≢ none
  read_response_total zero stale m h k f = absurd (omega arith)
  read_response_total (suc fuel) stale m h k f = ground (
    arith,
    read_response_step fuel stale m,
    read_response_total fuel ((stale + 1) % 2 ^ 8) (after_frame m),
  )

  -- With the limit 255 no number of rounds is enough against a port that only delivers stale
  -- frames: the 8-bit count never passes the limit.
  pub read_response_endless :
      ((m : Machine S) → frame_code m ≡ err_device_command)
      → r.max_stale ≡ 255
      → (fuel stale : ℕ) (m : Machine S) → read_response fuel p r stale m ≡ none
  read_response_endless all h zero stale m = unfold read_response in refl
  read_response_endless all h (suc fuel) stale m = ground (
    arith,
    all m,
    read_response_step fuel stale m,
    read_response_endless all h fuel ((stale + 1) % 2 ^ 8) (after_frame m),
  )

  -- A property of the counted rounds carries over to what the loop returns.
  pub read_response_inv {κ λ'} :
      (P : ℕ → Machine S → Type κ) (Q : Bool × Machine S → Type λ')
      → ((stale : ℕ) (m : Machine S)
          → P stale m
          → frame_code m ≡ err_device_command
          → (stale + 1) % 2 ^ 8 ≤ r.max_stale
          → P ((stale + 1) % 2 ^ 8) (after_frame m))
      → ((stale : ℕ) (m : Machine S)
          → P stale m
          → Q (
              fail err_device_command
                (receive p r m).0
                (check r (receive p r m)).1
                (after_frame m)))
      → ((stale : ℕ) (m : Machine S)
          → P stale m
          → Q (settle p (receive p r m).0 (check r (receive p r m)) (after_frame m)))
      → (fuel stale : ℕ) (m : Machine S) {out : Bool × Machine S} → P stale m
      → read_response fuel p r stale m ≡ some out
      → Q out
  read_response_inv P Q keep stop done zero stale m {out} h e =
      absurd (unfold read_response in cc e)
  read_response_inv P Q keep stop done (suc fuel) stale m {out} h e =
      elim (Bool-cases (frame_code m == err_device_command)) [
        | inl old ↦ elim (Bool-cases (leb ((stale + 1) % 2 ^ 8) r.max_stale)) [
          | inl more ↦
              read_response_inv P Q keep stop done fuel ((stale + 1) % 2 ^ 8) (after_frame m)
                (keep stale m h (==→eq _ _ old) (leb→le _ _ more))
                (rw (read_response_step fuel stale m, old, more) at e)
          | inr last ↦
              subst Q (some_inj (rw (read_response_step fuel stale m, old, last) at e))
                (stop stale m h)
        ]
        | inr other ↦
            subst Q (some_inj (rw (read_response_step fuel stale m, other) at e)) (done stale m h)
      ]
