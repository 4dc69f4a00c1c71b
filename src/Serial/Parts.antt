-- ===== src/Serial/Parts.antt =====
-- The static functions of fujinet_serial_lifecycle.c, on the groups that they change.
use fujinet_nio_driver.Base.{
  ℕ, zero, suc, ◌+◌, ◌-◌, Bool, true, false, ◌&&◌, ◌||◌, not, Option, none, some, List, [], ◌∷◌,
  ◌++◌, ltb, leb, if◌then◌else◌, take, drop, length,
}
use fujinet_nio_driver.Base.Words.{at}
use fujinet_nio_driver.Paula.{Rx, rx_init, rx_count, rx_ingest}
use fujinet_nio_driver.Serial.Types.{
  ReadState, read_replied, WriteState, write_replied, WriteOwner, read_waits, write_waits,
  Resources, Chip, Reader, Writer, Audit, Lc, ring_size, trace_size, misc_port, misc_bits,
}

unfoldable pub trace_add : List ℕ → ℕ → List ℕ
trace_add trace value = if ltb (length trace) trace_size then trace ++ (value ∷ []) else trace

-- `some` is the result 1.
unfoldable pub take_pending : ReadState → Reader → Option Reader
take_pending next r =
    if not (read_waits r.read_state) then none else some (record r { read_state = next })

-- `take_pending_write` on the writer; it also switches the transmit interrupt off.
unfoldable pub take_pending_write : WriteState → WriteOwner → Writer → Option Writer
take_pending_write next owner w =
    if not (write_waits w.write_state) || not w.pending_write
    then none
    else some (record w {
      write_state = next;
      pending_write = false;
      last_write_owner = owner;
      last_write_length = w.write_length;
      last_write_committed = w.write_committed;
      last_tbe_fire = w.tbe_fire;
      write_remaining = 0;
    })

unfoldable pub tbe_off : Chip → Chip
tbe_off c = record c { tbe_intena = false; tbe_intreq = false }

unfoldable pub count_reply : Audit → Audit
count_reply a = record a { reply_count = a.reply_count + 1 }

unfoldable pub reply_read : ℕ → ℕ → Lc → Lc
unfolding count_reply
reply_read error actual lc = record lc {
  reader = record (lc.reader) {
    read_error = error;
    read_actual = actual;
    read_need = 0;
    read_state = read_replied;
  };
  audit = count_reply lc.audit;
}

unfoldable pub reply_write : ℕ → ℕ → Lc → Lc
unfolding count_reply
reply_write error actual lc = record lc {
  writer = record (lc.writer) {
    write_error = error;
    write_actual = actual;
    last_write_actual = actual;
    last_write_error = error;
    write_state = write_replied;
  };
  audit = count_reply lc.audit;
}

-- `ack_rbf_once` on the chip: the oldest byte leaves it.
unfoldable pub ack_chip : Chip → Chip
ack_chip c =
    let left = if ltb 0 c.paula_len then c.paula_len - 1 else c.paula_len in
    record c {
      paula_bytes =
          (if ltb 0 c.paula_len
            then take (c.paula_len - 1) (drop 1 c.paula_bytes)
              ++ drop (c.paula_len - 1) c.paula_bytes
            else c.paula_bytes);
      paula_len = left;
      rbf_intreq = ltb 0 left;
    }

unfoldable pub ack_audit : Audit → Audit
ack_audit a = record a {
  ack_before_sample = a.ack_before_sample || not a.last_op_was_sample;
  ack_count = a.ack_count + 1;
  last_op_was_sample = false;
}

unfoldable pub sample_retain_ack : Lc → Lc
unfolding ack_chip ack_audit
sample_retain_ack lc =
    let serdatr = if ltb 0 lc.chip.paula_len then at lc.chip.paula_bytes 0 else 0 in
    let a = record (lc.audit) {
      sample_count = lc.audit.sample_count + 1;
      last_op_was_sample = true;
    } in
    record lc { chip = ack_chip lc.chip; audit = ack_audit a; rx = rx_ingest lc.rx serdatr }

-- The loop on `rbf_intreq`.
unfoldable pub drain_loop : ℕ → Lc → Lc
unfolding sample_retain_ack
drain_loop zero lc = lc
drain_loop (suc fuel) lc =
    let rest = drain_loop fuel (sample_retain_ack lc) in if lc.chip.rbf_intreq then rest else lc

-- The loop ends when the chip holds no byte, so one round more than its bytes is enough fuel.
unfoldable pub drain_rbf : Lc → Lc
unfolding drain_loop
drain_rbf lc = if not lc.chip.inten_master then lc else drain_loop (lc.chip.paula_len + 1) lc

unfoldable pub read_satisfied : Lc → Bool
read_satisfied lc =
    read_waits lc.reader.read_state
    && ltb 0 lc.reader.read_need
    && leb lc.reader.read_need (rx_count lc.rx)

unfoldable pub rearm_receive : Lc → Lc
unfolding drain_rbf
rearm_receive lc =
    if lc.receive_armed
    then lc
    else let drained = drain_rbf lc in
      record drained { chip = record (drained.chip) { rbf_intena = true }; receive_armed = true }

unfoldable pub quiesce_receive : Lc → Lc
quiesce_receive lc = record lc {
  chip = record (lc.chip) { rbf_intena = false };
  receive_armed = false;
}

unfoldable pub release_resources : Resources → Resources
unfolding trace_add
release_resources r =
    let bits =
      if r.bits_owned
      then record r { bits_owned = false; release_trace = trace_add r.release_trace misc_bits }
      else r in
    if bits.port_owned
    then record bits { port_owned = false; release_trace = trace_add bits.release_trace misc_port }
    else bits

-- `if (read_satisfied(lc)) { ... }`
unfoldable pub cause_if_satisfied : Lc → Lc
unfolding read_satisfied
cause_if_satisfied lc =
    if read_satisfied lc
    then record lc {
      reader = record (lc.reader) { softint_pending = true };
      audit = record (lc.audit) { cause_count = lc.audit.cause_count + 1 };
    }
    else lc

-- `fujinet_paula_rx_init(&lc->rx, lc->ring_buf, FN_SERIAL_LC_RING_SIZE)`, its result not tested.
unfoldable pub rx_again : Rx → Rx
rx_again rx = elim (rx_init (some rx.buf) ring_size) [ none ↦ rx | some fresh ↦ fresh ]

-- `if (take_pending_write(...)) reply_write(...)`, with whether it did.
unfoldable pub end_write : WriteState → WriteOwner → ℕ → Lc → Bool × Lc
unfolding take_pending_write tbe_off reply_write
end_write next owner error lc = elim (take_pending_write next owner lc.writer) [
  | none ↦ (false, lc)
  | some w ↦ (
    true,
    reply_write error w.last_write_committed (record lc { writer = w; chip = tbe_off lc.chip }),
  )
]

-- `if (take_pending(...)) reply_read(lc, FN_SERIAL_LC_ABORTED, 0)`, with whether it did.
unfoldable pub end_read : ReadState → ℕ → Lc → Bool × Lc
unfolding take_pending reply_read
end_read next error lc = elim (take_pending next lc.reader) [
  | none ↦ (false, lc)
  | some r ↦ (true, reply_read error 0 (record lc { reader = r }))
]
