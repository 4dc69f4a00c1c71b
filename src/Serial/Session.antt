-- ===== src/Serial/Session.antt =====
-- Opening, setting the parameters of, expunging and closing keep the invariant.
use fujinet_nio_driver.Base.{
  ℕ, ◌+◌, ◌-◌, ◌≡◌, refl, Bool, true, false, ◌&&◌, ◌||◌, not, arith, ltb, ◌==◌, if◌then◌else◌,
  both_branches,
}
use fujinet_nio_driver.Paula.{rx_clear, serper, serial_params_valid, baud_min, baud_max}
use fujinet_nio_driver.Paula.Ring.{IsRing}
use fujinet_nio_driver.Serial.{
  Lc, read_waits, write_waits, drain_rbf, lc_ok, teardown_paula, lc_open_at_baud, lc_open,
  lc_open_unit, lc_setparams, lc_expunge, lc_close, lc_init,
}
use fujinet_nio_driver.Serial.Inv.{IsLc, drain_rbf-Drained, idle-IsWriter, idle-IsReader}
use fujinet_nio_driver.Serial.Keep.{Drained-IsLc, cleared-IsRing, rx_again-IsRing, teardown-IsLc}

-- The state behind an operation is a good one.
abbrev pub Good : ℕ × Lc → Type 0
Good out = IsLc out.1

pub lc_init-IsLc : IsLc lc_init
unfolding lc_init write_waits read_waits
lc_init-IsLc = record {
  ring = rx_again-IsRing _ refl;
  writing = idle-IsWriter _ refl refl;
  reading = idle-IsReader _ refl;
  session = record {
    once = omega arith;
    no_port = λ _. refl;
    no_bits = λ _. refl;
    no_read = λ _. refl;
    no_write = λ _. refl;
    port = λ o. absurd (omega (arith, o));
    bits = λ o. absurd (omega (arith, o));
  };
}

module _ (lc : Lc) (h : IsLc lc) where
  closed-IsLc :
      (o : Lc)
      → o.rx ≡ lc.rx
      → o.writer ≡ lc.writer
      → o.reader ≡ lc.reader
      → o.open_cnt ≡ 0
      → lc.open_cnt ≡ 0
      → o.resources.port_owned ≡ false
      → o.resources.bits_owned ≡ false
      → IsLc o
  closed-IsLc o e1 e2 e3 z z' p b = record {
    ring = rw e1 h.ring;
    writing = rw e2 h.writing;
    reading = rw e3 h.reading;
    session = record {
      once = omega (arith, z);
      no_port = λ _. p;
      no_bits = λ _. b;
      no_read = λ _. rw e3 (h.session.no_read z');
      no_write = λ _. rw e2 (h.session.no_write z');
      port = λ o1. absurd (omega (arith, o1, z));
      bits = λ o1. absurd (omega (arith, o1, z));
    };
  }

  pub lc_open_at_baud-IsLc : (baud : ℕ) → Good (lc_open_at_baud baud lc)
  unfolding lc_open_at_baud write_waits
  lc_open_at_baud-IsLc baud =
      both_branches Good (not (lc.open_cnt == 0)) (λ _. h)
        (λ shut.
          let z : lc.open_cnt ≡ 0 = ground (arith, shut) in
          both_branches Good lc.resources.port_busy_external
            (λ _. closed-IsLc _ refl refl refl z z (h.session.no_port z) (h.session.no_bits z))
            (λ _.
              both_branches Good lc.resources.bits_busy_external
                (λ _. closed-IsLc _ refl refl refl z z refl (h.session.no_bits z))
                (λ _. record {
                  ring = rx_again-IsRing (lc.rx) (h.ring.storage);
                  writing = idle-IsWriter _ refl refl;
                  reading = record { some_bytes = h.reading.some_bytes; fit = h.reading.fit };
                  session = record {
                    once = omega arith;
                    no_port = λ o. absurd (omega (arith, o));
                    no_bits = λ o. absurd (omega (arith, o));
                    no_read = λ o. absurd (omega (arith, o));
                    no_write = λ o. absurd (omega (arith, o));
                    port = λ _. refl;
                    bits = λ _. refl;
                  };
                })))

  pub lc_open_unit-IsLc : (unit : ℕ) → Good (lc_open_unit unit lc)
  unfolding lc_open_unit lc_open
  lc_open_unit-IsLc unit =
      both_branches Good (not (unit == 0)) (λ _. h) (λ _. lc_open_at_baud-IsLc 19200)

pub same-IsLc :
    (a b : Lc)
    → IsLc a
    → IsRing 3 b.rx
    → b.writer ≡ a.writer
    → b.reader ≡ a.reader
    → b.resources ≡ a.resources
    → b.open_cnt ≡ a.open_cnt
    → IsLc b
same-IsLc a b h r e1 e2 e3 e4 = record {
  ring = r;
  writing = rw e1 h.writing;
  reading = rw e2 h.reading;
  session = rw (e4, e3, e2, e1) h.session;
}

pub cleared-IsLc : (lc : Lc) → IsLc lc → IsLc (record lc { rx = rx_clear lc.rx })
cleared-IsLc lc h = same-IsLc lc _ h (cleared-IsRing lc.rx h.ring) refl refl refl refl

module _ (lc : Lc) (h : IsLc lc) where
  pub lc_setparams-IsLc :
      (baud read_len write_len stop_bits : ℕ) (parity_on : Bool)
      → Good (lc_setparams baud read_len write_len stop_bits parity_on lc)
  unfolding lc_setparams
  lc_setparams-IsLc baud rl wl sb par =
      let changed = record lc {
        chip = record (lc.chip) {
          last_serper = serper baud true;
          serper_writes = lc.chip.serper_writes + 1;
          paula_mutated = true;
        };
      } in
      let good : IsLc changed = same-IsLc lc changed h h.ring refl refl refl refl in
      let drained = drain_rbf changed in
      let cleared = record drained { rx = rx_clear drained.rx } in
      let clean : IsLc cleared =
        cleared-IsLc drained (Drained-IsLc (drain_rbf-Drained changed) good) in
      both_branches Good (lc.open_cnt == 0) (λ _. h)
        (λ _.
          both_branches Good (read_waits lc.reader.read_state) (λ _. h)
            (λ _.
              both_branches Good (write_waits lc.writer.write_state) (λ _. h)
                (λ _.
                  both_branches Good (ltb baud baud_min || ltb baud_max baud) (λ _. h)
                    (λ _.
                      both_branches Good (not (serial_params_valid baud rl wl sb par)) (λ _. h)
                        (λ _.
                          both_branches IsLc (not cleared.receive_armed)
                            (λ _. same-IsLc cleared _ clean clean.ring refl refl refl refl)
                            (λ _. clean))))))

  pub lc_expunge-IsLc : Good (lc_expunge lc)
  unfolding lc_expunge
  lc_expunge-IsLc =
      both_branches Good (not (lc.open_cnt == 0)) (λ _. same-IsLc lc _ h h.ring refl refl refl refl)
        (λ shut.
          let z : lc.open_cnt ≡ 0 = ground (arith, shut) in
          both_branches (λ (x : Lc). IsLc (record x { delexp = false; expunged = true }))
            (lc.resources.port_owned || lc.resources.bits_owned)
            (λ _.
              let t : IsLc (teardown_paula lc) =
                (teardown-IsLc lc h.ring h.writing h.reading z).0 in
              same-IsLc (teardown_paula lc) _ t t.ring refl refl refl refl)
            (λ _. same-IsLc lc _ h h.ring refl refl refl refl))

open_cnt-lc_expunge : (lc : Lc) → lc.open_cnt ≡ 0 → IsLc lc → (lc_expunge lc).1.open_cnt ≡ 0
unfolding lc_expunge
open_cnt-lc_expunge lc z h =
    both_branches (λ (o : ℕ × Lc). o.1.open_cnt ≡ 0) (not (lc.open_cnt == 0)) (λ _. z)
      (λ _.
        both_branches (λ (x : Lc). x.open_cnt ≡ 0)
          (lc.resources.port_owned || lc.resources.bits_owned)
          (λ _. (teardown-IsLc lc h.ring h.writing h.reading z).1) (λ _. z))

-- A close of any good state ends in a good one that is closed: it owns neither resource, and no
-- read and no write is pending.
pub lc_close-IsClosed : (lc : Lc) → IsLc lc → IsLc (lc_close lc).1 × ((lc_close lc).1.open_cnt ≡ 0)
unfolding lc_close
lc_close-IsClosed lc h =
    let less = record lc { open_cnt = lc.open_cnt - 1 } in
    let z : lc.open_cnt - 1 ≡ 0 = omega (arith, h.session.once) in
    let (t, c) = teardown-IsLc less h.ring h.writing h.reading z in
    both_branches
      (λ (down : Lc).
        Closed (if (down.open_cnt == 0) && down.delexp then lc_expunge down else (lc_ok, down)))
      (less.open_cnt == 0)
      (λ _.
        both_branches Closed (((teardown_paula less).open_cnt == 0) && (teardown_paula less).delexp)
          (λ _. (
            lc_expunge-IsLc (teardown_paula less) t,
            open_cnt-lc_expunge (teardown_paula less) c t,
          ))
          (λ _. (t, c)))
      (λ still. absurd (ground (arith, z, still)))
  where
    Closed : ℕ × Lc → Type 0
    Closed out = IsLc out.1 × (out.1.open_cnt ≡ 0)
