-- ===== src/Serial/Open.antt =====
-- Opening, setting the parameters of, closing and expunging the serial device.
use fujinet_nio_driver.Base.{
  ℕ, ◌+◌, ◌-◌, Bool, true, false, ◌&&◌, ◌||◌, not, none, [], ltb, ◌==◌, if◌then◌else◌, replicate,
}
use fujinet_nio_driver.Paula.{rx_clear, serper, serial_params_valid, baud_min, baud_max}
use fujinet_nio_driver.Serial.Types.{
  Lc, read_waits, write_waits, lc_ok, lc_openfail, lc_busy, lc_aborted, lc_nocmd, ring_size,
  paula_depth, misc_port, misc_bits, read_idle, read_aborting, write_idle, write_aborting,
  owner_none, owner_close,
}
use fujinet_nio_driver.Serial.Parts.{
  trace_add, tbe_off, drain_rbf, quiesce_receive, release_resources, rx_again, end_write, end_read,
}

abbrev fujinet_handler_address : ℕ
fujinet_handler_address = 0xf1

abbrev kickstart_handler : ℕ
kickstart_handler = 0x5c

unfoldable pub restore_vector : Lc → Lc
restore_vector lc =
    if (lc.vector.rbf_vector == lc.vector.fujinet_handler) && lc.vector.vector_installed
    then record lc {
      vector = record (lc.vector) { rbf_vector = lc.vector.saved_vector; vector_installed = false };
      chip = record (lc.chip) { rbf_intena = lc.vector.rbf_was_enabled };
    }
    else lc

-- The part of the teardown that ends the requests.
unfoldable pub end_requests : Lc → Lc
unfolding end_write end_read
end_requests lc =
    let start = record lc {
      closing = true;
      audit = record (lc.audit) {
        write_resolved_before_vector = false;
        write_pending_at_vector_restore = false;
      };
    } in
    let (resolved, written) = end_write write_aborting owner_close lc_aborted start in
    let noted = record written {
      audit = record (written.audit) { write_resolved_before_vector = resolved };
    } in
    (end_read read_aborting lc_aborted noted).1

-- The part that switches the interrupts off and drains the chip.
unfoldable pub silence : Lc → Lc
unfolding quiesce_receive drain_rbf tbe_off
silence lc = drain_rbf (quiesce_receive (record lc { chip = tbe_off lc.chip }))

-- The part that gives the vector and the resources back.
unfoldable pub hand_back : Lc → Lc
unfolding restore_vector release_resources
hand_back lc =
    let marked = record lc {
      audit = record (lc.audit) {
        write_pending_at_vector_restore =
            write_waits lc.writer.write_state || lc.audit.write_pending_at_vector_restore;
      };
    } in
    let restored = restore_vector marked in
    record restored {
      resources = release_resources restored.resources;
      chip = record (restored.chip) { paula_mutated = false };
    }

unfoldable pub teardown_paula : Lc → Lc
unfolding end_requests silence hand_back
teardown_paula lc = hand_back (silence (end_requests lc))

unfoldable pub lc_open_at_baud : ℕ → Lc → ℕ × Lc
unfolding rx_again trace_add tbe_off
lc_open_at_baud baud lc =
    let rs = record (lc.resources) { claim_trace = []; release_trace = [] } in
    let fresh = record lc { resources = rs; chip = record (lc.chip) { paula_mutated = false } } in
    let port = record rs { port_owned = true; claim_trace = trace_add rs.claim_trace misc_port } in
    let both = record port {
      bits_owned = true;
      claim_trace = trace_add port.claim_trace misc_bits;
    } in
    let rate = if ltb baud baud_min || ltb baud_max baud then 19200 else baud in
    if not (lc.open_cnt == 0)
    then (lc_busy, lc)
    else if rs.port_busy_external
    then (lc_openfail, fresh)
    else if rs.bits_busy_external
    then (
      lc_openfail,
      record fresh {
        resources = record port {
          port_owned = false;
          release_trace = trace_add port.release_trace misc_port;
        };
      },
    )
    else (
      lc_ok,
      record fresh {
        resources = both;
        vector = record (lc.vector) {
          saved_vector = lc.vector.rbf_vector;
          rbf_was_enabled = lc.chip.rbf_intena;
          rbf_vector = lc.vector.fujinet_handler;
          vector_installed = true;
        };
        chip = tbe_off (record (lc.chip) {
          last_serper = serper rate true;
          serper_writes = lc.chip.serper_writes + 1;
          paula_mutated = true;
          rbf_intena = true;
        });
        receive_armed = true;
        writer = record (lc.writer) { write_state = write_idle; pending_write = false };
        closing = false;
        open_cnt = 1;
        delexp = false;
        rx = rx_again lc.rx;
      },
    )

unfoldable pub lc_open : Lc → ℕ × Lc
unfolding lc_open_at_baud
lc_open lc = lc_open_at_baud 19200 lc

unfoldable pub lc_open_unit : ℕ → Lc → ℕ × Lc
unfolding lc_open
lc_open_unit unit lc = if not (unit == 0) then (lc_openfail, lc) else lc_open lc

unfoldable pub lc_setparams : ℕ → ℕ → ℕ → ℕ → Bool → Lc → ℕ × Lc
unfolding drain_rbf
lc_setparams baud read_len write_len stop_bits parity_on lc =
    let drained = drain_rbf (record lc {
      chip = record (lc.chip) {
        last_serper = serper baud true;
        serper_writes = lc.chip.serper_writes + 1;
        paula_mutated = true;
      };
    }) in
    let cleared = record drained { rx = rx_clear drained.rx } in
    if lc.open_cnt == 0
    then (lc_openfail, lc)
    else if read_waits lc.reader.read_state
    then (lc_nocmd, lc)
    else if write_waits lc.writer.write_state
    then (lc_nocmd, lc)
    else if ltb baud baud_min || ltb baud_max baud
    then (lc_nocmd, lc)
    else if not (serial_params_valid baud read_len write_len stop_bits parity_on)
    then (lc_nocmd, lc)
    else (
      lc_ok,
      if not cleared.receive_armed
          then record cleared {
            chip = record (cleared.chip) { rbf_intena = true };
            receive_armed = true;
          }
          else cleared,
    )

unfoldable pub lc_expunge : Lc → ℕ × Lc
unfolding teardown_paula
lc_expunge lc =
    let down =
      if lc.resources.port_owned || lc.resources.bits_owned then teardown_paula lc else lc in
    if not (lc.open_cnt == 0)
    then (lc_ok, record lc { delexp = true })
    else (lc_ok, record down { delexp = false; expunged = true })

unfoldable pub lc_close : Lc → ℕ × Lc
unfolding teardown_paula lc_expunge
lc_close lc =
    let less = record lc { open_cnt = lc.open_cnt - 1 } in
    let down = if less.open_cnt == 0 then teardown_paula less else less in
    if (down.open_cnt == 0) && down.delexp then lc_expunge down else (lc_ok, down)

-- `fn_serial_lc_init`: the state after `memset`, and what is set then.
unfoldable pub lc_init : Lc
unfolding rx_again
lc_init = record {
  resources = record {
    port_busy_external = false;
    bits_busy_external = false;
    port_owned = false;
    bits_owned = false;
    claim_trace = [];
    release_trace = [];
  };
  chip = record {
    inten_master = true;
    rbf_intena = false;
    rbf_intreq = false;
    tbe_intena = false;
    tbe_intreq = false;
    last_serper = 0;
    serper_writes = 0;
    paula_mutated = false;
    paula_bytes = replicate paula_depth 0;
    paula_len = 0;
  };
  vector = record {
    rbf_vector = kickstart_handler;
    saved_vector = kickstart_handler;
    fujinet_handler = fujinet_handler_address;
    rbf_was_enabled = false;
    vector_installed = false;
  };
  rx = rx_again (record {
    buf = replicate ring_size 0;
    mask = 0;
    head = 0;
    tail = 0;
    hardware_overrun_latched = false;
    software_ring_overflow_latched = false;
  });
  receive_armed = false;
  closing = false;
  open_cnt = 0;
  delexp = false;
  expunged = false;
  reader = record {
    read_state = read_idle;
    read_need = 0;
    read_dst = replicate ring_size 0;
    read_actual = 0;
    read_error = 0;
    softint_pending = false;
  };
  writer = record {
    write_state = write_idle;
    pending_write = false;
    write_buf = none;
    write_remaining = 0;
    write_committed = 0;
    write_length = 0;
    write_accepted = false;
    write_softint_pending = false;
    write_actual = 0;
    write_error = 0;
    last_write_owner = owner_none;
    last_write_length = 0;
    last_write_committed = 0;
    last_write_actual = 0;
    last_write_error = 0;
    tbe_fire = 0;
    last_tbe_fire = 0;
  };
  audit = record {
    reply_count = 0;
    cause_count = 0;
    sample_count = 0;
    ack_count = 0;
    last_op_was_sample = false;
    ack_before_sample = false;
    tx_count = 0;
    tx_while_masked = false;
    write_resolved_before_vector = false;
    write_pending_at_vector_restore = false;
  };
}
