-- ===== src/Serial/Io.antt =====
-- Receiving, reading, writing and aborting on the serial device.
use fujinet_nio_driver.Base.{
  ℕ, zero, suc, ◌+◌, ◌-◌, ◌%◌, ◌^◌, Bool, true, false, ◌&&◌, ◌||◌, not, Option, none, some, List,
  [], ◌∷◌, ltb, leb, ◌==◌, if◌then◌else◌, drop, replicate, through, bit_or, set,
}
use fujinet_nio_driver.Paula.{
  rx_count, rx_read, rx_clear, rx_public_overrun, serdatr_rbf, serdatr_ovrun,
}
use fujinet_nio_driver.Serial.Types.{
  Lc, read_waits, write_waits, lc_ok, lc_openfail, lc_busy, lc_aborted, lc_nocmd, ring_size,
  paula_depth, read_pending, read_completing, read_aborting, write_pending, write_completing,
  write_aborting, owner_none, owner_tbe, owner_abort, owner_flush,
}
use fujinet_nio_driver.Serial.Parts.{
  take_pending, reply_read, reply_write, drain_loop, drain_rbf, rearm_receive, cause_if_satisfied,
  end_write, end_read,
}

-- A byte arrives at the chip.
unfoldable pub lc_hw_rx : ℕ → Bool → Lc → Lc
lc_hw_rx byte hardware_overrun lc =
    let plain = bit_or serdatr_rbf byte % 2 ^ 16 in
    let serdatr = if hardware_overrun then bit_or plain serdatr_ovrun else plain in
    if leb paula_depth lc.chip.paula_len then lc else record lc {
      chip = record (lc.chip) {
        paula_bytes = set lc.chip.paula_bytes lc.chip.paula_len serdatr;
        paula_len = lc.chip.paula_len + 1;
        rbf_intreq = true;
      };
    }

unfoldable pub lc_rbf_handler : Lc → Lc
unfolding drain_loop cause_if_satisfied
lc_rbf_handler lc =
    if not lc.chip.inten_master
    then lc
    else cause_if_satisfied (drain_loop (lc.chip.paula_len + 1) lc)

-- The result tells whether a reply was sent.
unfoldable pub lc_softint : Lc → Bool × Lc
unfolding take_pending reply_read
lc_softint lc =
    let seen = record lc { reader = record (lc.reader) { softint_pending = false } } in
    elim (take_pending read_completing seen.reader) [
      | none ↦ (false, seen)
      | some r ↦
          let (copied, dst, rx) = rx_read seen.rx (some r.read_dst) (r.read_need % 2 ^ 16) in
          (
            true,
            reply_read lc_ok copied (record seen {
              rx = rx;
              reader = record r {
                read_dst = (elim dst [ none ↦ r.read_dst | some bytes ↦ bytes ]);
              };
            }),
          )
    ]

unfoldable pub lc_read : ℕ → Lc → ℕ × Lc
unfolding reply_read rearm_receive cause_if_satisfied
lc_read need lc =
    let armed = rearm_receive lc in
    let queued = record armed {
      reader = record (armed.reader) {
        read_state = read_pending;
        read_need = need;
        read_actual = 0;
        read_error = lc_ok;
        read_dst = replicate ring_size 0;
      };
    } in
    if lc.closing || (lc.open_cnt == 0)
    then (lc_openfail, lc)
    else if need == 0
    then (lc_ok, reply_read lc_ok 0 lc)
    else if ltb lc.rx.mask need
    then (lc_nocmd, lc)
    else if read_waits lc.reader.read_state
    then (lc_busy, lc)
    else (lc_ok, cause_if_satisfied queued)

unfoldable pub lc_abort : Lc → Bool × Lc
unfolding end_read
lc_abort lc = end_read read_aborting lc_aborted lc

-- `fn_serial_lc_clear` and `fn_serial_lc_flush` have the same body.
unfoldable pub lc_clear : Lc → ℕ × Lc
unfolding end_write end_read drain_rbf
lc_clear lc =
    let (write_ended, written) = end_write write_aborting owner_flush lc_aborted lc in
    let (read_ended, ended) = end_read read_aborting lc_aborted written in
    let drained = drain_rbf ended in
    (
      (if write_ended || read_ended then lc_aborted else lc_ok),
      record drained { rx = rx_clear drained.rx },
    )

unfoldable pub lc_flush : Lc → ℕ × Lc
unfolding end_write end_read drain_rbf
lc_flush lc =
    let (write_ended, written) = end_write write_aborting owner_flush lc_aborted lc in
    let (read_ended, ended) = end_read read_aborting lc_aborted written in
    let drained = drain_rbf ended in
    (
      (if write_ended || read_ended then lc_aborted else lc_ok),
      record drained { rx = rx_clear drained.rx },
    )

-- The result, always 0, with the count, the overrun flag and the state behind it.
unfoldable pub lc_query : Lc → ℕ × Bool × Lc
unfolding rearm_receive
lc_query lc = let armed = rearm_receive lc in (rx_count armed.rx, rx_public_overrun armed.rx, armed)

unfoldable pub lc_write : Option (List ℕ) → ℕ → Lc → ℕ × Lc
unfolding rearm_receive drain_rbf reply_write
lc_write source length lc =
    let drained = drain_rbf (rearm_receive lc) in
    let ready = record drained {
      rx = rx_clear drained.rx;
      audit = record (drained.audit) {
        tx_while_masked = drained.audit.tx_while_masked || not drained.receive_armed;
      };
    } in
    let empty = record ready {
      writer = record (ready.writer) { write_length = 0; write_committed = 0 };
    } in
    if lc.closing || (lc.open_cnt == 0)
    then (lc_openfail, lc)
    else if not (length == 0) && (elim source [ none ↦ true | some _ ↦ false ])
    then (lc_nocmd, lc)
    else if write_waits lc.writer.write_state
    then (lc_busy, lc)
    else if length == 0
    then (lc_ok, reply_write lc_ok 0 empty)
    else (
      lc_ok,
      record ready {
        writer = record (ready.writer) {
          write_buf = source;
          write_remaining = length;
          write_committed = 0;
          write_length = length;
          write_accepted = false;
          write_softint_pending = false;
          write_actual = 0;
          write_error = lc_ok;
          last_write_owner = owner_none;
          last_write_length = length;
          last_write_committed = 0;
          last_write_actual = 0;
          last_write_error = 0;
          tbe_fire = 0;
          pending_write = true;
          write_state = write_pending;
        };
        chip = record (ready.chip) { tbe_intena = true; tbe_intreq = true };
      },
    )

unfoldable pub lc_tbe_handler : Lc → Lc
lc_tbe_handler lc =
    let fired = (lc.writer.tbe_fire + 1) % 2 ^ 32 in
    if not lc.chip.inten_master || not lc.chip.tbe_intena || not lc.chip.tbe_intreq
    then lc
    else if lc.writer.write_remaining == 0
    then record lc {
      chip = record (lc.chip) { tbe_intreq = false; tbe_intena = false };
      writer = record (lc.writer) {
        tbe_fire = fired;
        write_accepted = true;
        write_softint_pending = true;
      };
      audit = record (lc.audit) { cause_count = lc.audit.cause_count + 1 };
    }
    else record lc {
      chip = record (lc.chip) { tbe_intreq = true };
      writer = record (lc.writer) {
        tbe_fire = fired;
        write_remaining = lc.writer.write_remaining - 1;
        write_buf = through (drop 1) lc.writer.write_buf;
        write_committed = (lc.writer.write_committed + 1) % 2 ^ 32;
      };
      audit = record (lc.audit) { tx_count = lc.audit.tx_count + 1 };
    }

unfoldable pub lc_write_softint : Lc → Bool × Lc
unfolding end_write
lc_write_softint lc =
    end_write write_completing owner_tbe lc_ok
      (record lc { writer = record (lc.writer) { write_softint_pending = false } })

unfoldable pub lc_abort_write : Lc → Bool × Lc
unfolding end_write
lc_abort_write lc = end_write write_aborting owner_abort lc_aborted lc

-- The loop of `fn_serial_lc_write_byte`, by the rounds that are left.
unfoldable pub pump : ℕ → Lc → Lc
unfolding lc_tbe_handler lc_write_softint
pump zero lc = lc
pump (suc left) lc =
    let fired = lc_tbe_handler lc in
    let done = if fired.writer.write_softint_pending then (lc_write_softint fired).1 else fired in
    let rest = pump left done in if write_waits lc.writer.write_state then rest else lc

unfoldable pub lc_write_byte : ℕ → Lc → ℕ × Lc
unfolding lc_write pump
lc_write_byte byte lc =
    let (code, written) = lc_write (some (byte ∷ [])) 1 lc in
    if not (code == lc_ok) then (code, written) else (lc_ok, pump 8 written)
