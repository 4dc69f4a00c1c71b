-- ===== src/Serial/Reach.antt =====
-- The states that the serial device can reach, and what holds in them.
use fujinet_nio_driver.Base.{
  ℕ, ◌+◌, ◌^◌, ◌<◌, ◌≡◌, refl, Bool, true, false, ◌||◌, not, Option, none, some, List, arith,
  both_branches,
}
use fujinet_nio_driver.Serial.{
  Lc, Writer, write_waits, lc_init, lc_open_at_baud, lc_open_unit, lc_setparams, lc_expunge,
  lc_close, lc_hw_rx, lc_rbf_handler, lc_softint, lc_read, lc_abort, lc_clear, lc_flush, lc_query,
  lc_write, lc_tbe_handler, lc_write_softint, lc_abort_write, lc_write_byte, end_write,
  take_pending_write, reply_write, lc_ok, tbe_off,
}
use fujinet_nio_driver.Serial.Inv.{IsLc, IsWriter}
use fujinet_nio_driver.Serial.Session.{
  lc_init-IsLc, lc_open_at_baud-IsLc, lc_open_unit-IsLc, lc_setparams-IsLc, lc_expunge-IsLc,
  lc_close-IsClosed, same-IsLc,
}
use fujinet_nio_driver.Serial.Requests.{
  lc_hw_rx-IsLc, lc_rbf_handler-IsLc, lc_abort-IsLc, lc_clear-IsLc, lc_flush-IsLc, lc_query-IsLc,
  lc_write_softint-IsLc, lc_abort_write-IsLc, lc_tbe_handler-IsLc,
}
use fujinet_nio_driver.Serial.Transfer.{
  lc_softint-IsLc, lc_read-IsLc, lc_write-IsLc, lc_write_byte-IsLc,
}

-- One event: a call, an interrupt, a received byte, or the machine's interrupt switch.
pub data Step : Lc → Lc → Type 0 where
  opens : (baud : ℕ) (lc : Lc) → Step lc (lc_open_at_baud baud lc).1
  opens_unit : (unit : ℕ) (lc : Lc) → Step lc (lc_open_unit unit lc).1
  sets : (baud r w s : ℕ) (parity : Bool) (lc : Lc) → Step lc (lc_setparams baud r w s parity lc).1
  closes : (lc : Lc) → Step lc (lc_close lc).1
  expunges : (lc : Lc) → Step lc (lc_expunge lc).1
  receives : (byte : ℕ) (overrun : Bool) (lc : Lc) → Step lc (lc_hw_rx byte overrun lc)
  handles_rbf : (lc : Lc) → Step lc (lc_rbf_handler lc)
  handles_tbe : (lc : Lc) → Step lc (lc_tbe_handler lc)
  runs_softint : (lc : Lc) → Step lc (lc_softint lc).1
  runs_write_softint : (lc : Lc) → Step lc (lc_write_softint lc).1
  reads : (need : ℕ) (lc : Lc) → Step lc (lc_read need lc).1
  writes :
      (source : Option (List ℕ)) (n : ℕ) (lc : Lc) → n < 2 ^ 32 → Step lc (lc_write source n lc).1
  writes_byte : (byte : ℕ) (lc : Lc) → Step lc (lc_write_byte byte lc).1
  aborts : (lc : Lc) → Step lc (lc_abort lc).1
  aborts_write : (lc : Lc) → Step lc (lc_abort_write lc).1
  clears : (lc : Lc) → Step lc (lc_clear lc).1
  flushes : (lc : Lc) → Step lc (lc_flush lc).1
  queries : (lc : Lc) → Step lc (lc_query lc).2
  switches :
      (on : Bool) (lc : Lc) → Step lc (record lc { chip = record (lc.chip) { inten_master = on } })

pub data Reached : Lc → Type 0 where
  starts : Reached lc_init
  goes : (a b : Lc) → Reached a → Step a b → Reached b

Step-IsLc : (a b : Lc) → Step a b → IsLc a → IsLc b
Step-IsLc a _ (opens baud _) h = lc_open_at_baud-IsLc a h baud
Step-IsLc a _ (opens_unit unit _) h = lc_open_unit-IsLc a h unit
Step-IsLc a _ (sets baud r w s parity _) h = lc_setparams-IsLc a h baud r w s parity
Step-IsLc a _ (closes _) h = (lc_close-IsClosed a h).0
Step-IsLc a _ (expunges _) h = lc_expunge-IsLc a h
Step-IsLc a _ (receives byte overrun _) h = lc_hw_rx-IsLc a h byte overrun
Step-IsLc a _ (handles_rbf _) h = lc_rbf_handler-IsLc a h
Step-IsLc a _ (handles_tbe _) h = lc_tbe_handler-IsLc a h
Step-IsLc a _ (runs_softint _) h = lc_softint-IsLc a h
Step-IsLc a _ (runs_write_softint _) h = lc_write_softint-IsLc a h
Step-IsLc a _ (reads need _) h = lc_read-IsLc a need h
Step-IsLc a _ (writes source n _ u) h = lc_write-IsLc a source n h u
Step-IsLc a _ (writes_byte byte _) h = lc_write_byte-IsLc a byte h
Step-IsLc a _ (aborts _) h = lc_abort-IsLc a h
Step-IsLc a _ (aborts_write _) h = lc_abort_write-IsLc a h
Step-IsLc a _ (clears _) h = lc_clear-IsLc a h
Step-IsLc a _ (flushes _) h = lc_flush-IsLc a h
Step-IsLc a _ (queries _) h = lc_query-IsLc a h
Step-IsLc a _ (switches on _) h = same-IsLc a _ h h.ring refl refl refl refl

-- In every state that any sequence of calls, interrupts and received bytes can reach, the receive
-- ring is a ring of eight bytes; a pending write counts its bytes and a pending read fits the ring;
-- the device is open once at most, owns both resources while it is open, and owns nothing and
-- serves no request while it is closed.
pub Reached-IsLc : (lc : Lc) → Reached lc → IsLc lc
Reached-IsLc _ starts = lc_init-IsLc
Reached-IsLc b (goes a _ r s) = Step-IsLc a b s (Reached-IsLc a r)

-- Where the software interrupt of a write is due in a reached state and finds the write pending,
-- it replies once, without an error and with the whole length of the write.
pub lc_write_softint_complete :
    (lc : Lc)
    → Reached lc
    → lc.writer.write_softint_pending ≡ true
    → (lc_write_softint lc).0 ≡ true
    → ((lc_write_softint lc).1.writer.write_actual ≡ lc.writer.write_length)
      × ((lc_write_softint lc).1.writer.write_error ≡ lc_ok)
      × ((lc_write_softint lc).1.audit.reply_count ≡ lc.audit.reply_count + 1)
unfolding lc_write_softint end_write take_pending_write reply_write
lc_write_softint_complete lc reached due =
    let h : IsWriter lc.writer = (Reached-IsLc lc reached).writing in
    both_branches
      (λ (o : Option Writer).
        let out : Bool × Lc = elim o as (λ _. Bool × Lc) [
          | none ↦
              (false, record lc { writer = record (lc.writer) { write_softint_pending = false } })
          | some w ↦ (
            true,
            reply_write lc_ok w.last_write_committed
                (record lc { writer = w; chip = tbe_off lc.chip }),
          )
        ] in
        out.0 ≡ true
        → (out.1.writer.write_actual ≡ lc.writer.write_length)
          × (out.1.writer.write_error ≡ lc_ok)
          × (out.1.audit.reply_count ≡ lc.audit.reply_count + 1))
      (not (write_waits lc.writer.write_state) || not lc.writer.pending_write)
      (λ _ no. absurd (ground (arith, no)))
      (λ busy _.
        let pending : lc.writer.pending_write ≡ true = ground (arith, busy) in
        (omega (arith, h.sum pending, h.due pending due), refl, refl))
