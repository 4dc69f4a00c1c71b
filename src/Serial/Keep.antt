-- ===== src/Serial/Keep.antt =====
-- Every operation keeps the invariant of the serial device.
use fujinet_nio_driver.Base.{◌≡◌, ◌∙◌, refl, true, false, ◌&&◌, arith, ◌==◌, both_branches, length}
use fujinet_nio_driver.Paula.{Rx, rx_init, rx_clear}
use fujinet_nio_driver.Paula.Ring.{IsRing}
use fujinet_nio_driver.Serial.{
  Lc, Resources, read_waits, end_write, rx_again, lc_aborted, quiesce_receive, restore_vector,
  release_resources, teardown_paula, hand_back, silence, end_requests, tbe_off, write_aborting,
  owner_close, read_aborting,
}
use fujinet_nio_driver.Serial.Inv.{
  IsWriter, IsReader, IsLc, Drained, WriteEnded, ReadEnded, drain_rbf-Drained, end_write-Ended,
  end_read-Ended,
}

pub Drained-IsLc : {a b : Lc} → Drained a b → IsLc a → IsLc b
Drained-IsLc d h = record {
  ring = d.ring h.ring;
  writing = rw (d.writer) h.writing;
  reading = rw (d.reader) h.reading;
  session = rw (d.open_cnt, d.resources, d.reader, d.writer) h.session;
}

pub WriteEnded-IsLc : {a b : Lc} → WriteEnded a b → IsLc a → IsLc b
WriteEnded-IsLc d h = record {
  ring = rw (d.rx) h.ring;
  writing = d.writing h.writing;
  reading = rw (d.reader) h.reading;
  session =
      rw (d.open_cnt, d.resources, d.reader)
        (record {
          once = h.session.once;
          no_port = h.session.no_port;
          no_bits = h.session.no_bits;
          no_read = h.session.no_read;
          port = h.session.port;
          bits = h.session.bits;
          no_write = λ _. d.no_write h.writing;
        });
}

pub ReadEnded-IsLc : {a b : Lc} → ReadEnded a b → IsLc a → IsLc b
ReadEnded-IsLc d h = record {
  ring = rw (d.rx) h.ring;
  writing = rw (d.writer) h.writing;
  reading = d.reading h.reading;
  session =
      rw (d.open_cnt, d.resources, d.writer)
        (record {
          once = h.session.once;
          no_port = h.session.no_port;
          no_bits = h.session.no_bits;
          no_write = h.session.no_write;
          port = h.session.port;
          bits = h.session.bits;
          no_read = λ _. d.no_read;
        });
}

pub cleared-IsRing : (rx : Rx) → IsRing 3 rx → IsRing 3 (rx_clear rx)
unfolding rx_clear
cleared-IsRing rx r = record {
  small = r.small;
  masked = r.masked;
  storage = r.storage;
  head_in = omega arith;
  tail_in = omega arith;
}

pub rx_again-IsRing : (rx : Rx) → length rx.buf ≡ 8 → IsRing 3 (rx_again rx)
unfolding rx_again rx_init
rx_again-IsRing rx e = record {
  small = omega arith;
  masked = refl;
  storage = e;
  head_in = omega arith;
  tail_in = omega arith;
}

pub release-none :
    (rs : Resources)
    → ((release_resources rs).port_owned ≡ false) × ((release_resources rs).bits_owned ≡ false)
unfolding release_resources
release-none rs = ground arith

-- A device that serves no request any more.
record IsIdle (lc : Lc) : Type 0 where
  ring : IsRing 3 lc.rx
  writing : IsWriter lc.writer
  reading : IsReader lc.reader
  no_write : lc.writer.pending_write ≡ false
  no_read : read_waits lc.reader.read_state ≡ false
  shut : lc.open_cnt ≡ 0

IsIdle-ended :
    {a b c : Lc}
    → IsRing 3 a.rx
    → IsWriter a.writer
    → IsReader a.reader
    → a.open_cnt ≡ 0
    → WriteEnded a b
    → ReadEnded b c
    → IsIdle c
IsIdle-ended r w d e p q = record {
  ring = rw (q.rx, p.rx) r;
  writing = rw (q.writer) (p.writing w);
  reading = q.reading (rw (p.reader) d);
  no_write = rw (q.writer) (p.no_write w);
  no_read = q.no_read;
  shut = q.open_cnt ∙ p.open_cnt ∙ e;
}

end_requests-IsIdle :
    (lc : Lc)
    → IsRing 3 lc.rx
    → IsWriter lc.writer
    → IsReader lc.reader
    → lc.open_cnt ≡ 0
    → IsIdle (end_requests lc)
unfolding end_requests
end_requests-IsIdle lc r w d e =
    let start = record lc {
      closing = true;
      audit = record (lc.audit) {
        write_resolved_before_vector = false;
        write_pending_at_vector_restore = false;
      };
    } in
    let p : WriteEnded start (end_write write_aborting owner_close lc_aborted start).1 =
      end_write-Ended write_aborting owner_close lc_aborted start in
    let done = end_write write_aborting owner_close lc_aborted start in
    let noted = record (done.1) {
      audit = record (done.1.audit) { write_resolved_before_vector = done.0 };
    } in
    IsIdle-ended {a = start} {b = noted} r w d e
      (record {
        writing = p.writing;
        no_write = p.no_write;
        rx = p.rx;
        resources = p.resources;
        vector = p.vector;
        reader = p.reader;
        open_cnt = p.open_cnt;
        delexp = p.delexp;
      })
      (end_read-Ended read_aborting lc_aborted noted)

silence-IsIdle : (lc : Lc) → IsIdle lc → IsIdle (silence lc)
unfolding silence quiesce_receive
silence-IsIdle lc h =
    let p = drain_rbf-Drained (quiesce_receive (record lc { chip = tbe_off lc.chip })) in
    record {
      ring = p.ring h.ring;
      writing = rw (p.writer) h.writing;
      reading = rw (p.reader) h.reading;
      no_write = rw (p.writer) h.no_write;
      no_read = rw (p.reader) h.no_read;
      shut = p.open_cnt ∙ h.shut;
    }

idle_released :
    (lc : Lc) (rs : Resources)
    → IsIdle lc
    → rs.port_owned ≡ false
    → rs.bits_owned ≡ false
    → lc.resources ≡ rs
    → IsLc lc
idle_released lc rs h p b e = record {
  ring = h.ring;
  writing = h.writing;
  reading = h.reading;
  session = record {
    once = omega (arith, h.shut);
    no_port = λ _. rw e p;
    no_bits = λ _. rw e b;
    no_read = λ _. h.no_read;
    no_write = λ _. h.no_write;
    port = λ o. absurd (omega (arith, o, h.shut));
    bits = λ o. absurd (omega (arith, o, h.shut));
  };
}

open_cnt-hand_back : (lc : Lc) → (hand_back lc).open_cnt ≡ lc.open_cnt
unfolding hand_back restore_vector
open_cnt-hand_back lc =
    both_branches (λ (x : Lc). x.open_cnt ≡ lc.open_cnt)
      ((lc.vector.rbf_vector == lc.vector.fujinet_handler) && lc.vector.vector_installed)
      (λ _. refl) (λ _. refl)

hand_back-IsLc : (lc : Lc) → IsIdle lc → IsLc (hand_back lc)
unfolding hand_back restore_vector
hand_back-IsLc lc h =
    let (p, b) = release-none lc.resources in
    both_branches
      (λ (x : Lc). IsLc (record x {
        resources = release_resources x.resources;
        chip = record (x.chip) { paula_mutated = false };
      }))
      ((lc.vector.rbf_vector == lc.vector.fujinet_handler) && lc.vector.vector_installed)
      (λ _.
        idle_released _ (release_resources lc.resources)
          (record {
            ring = h.ring;
            writing = h.writing;
            reading = h.reading;
            no_write = h.no_write;
            no_read = h.no_read;
            shut = h.shut;
          })
          p b refl)
      (λ _.
        idle_released _ (release_resources lc.resources)
          (record {
            ring = h.ring;
            writing = h.writing;
            reading = h.reading;
            no_write = h.no_write;
            no_read = h.no_read;
            shut = h.shut;
          })
          p b refl)

-- What is torn down owns nothing and serves no request.
pub teardown-IsLc :
    (lc : Lc)
    → IsRing 3 lc.rx
    → IsWriter lc.writer
    → IsReader lc.reader
    → lc.open_cnt ≡ 0
    → IsLc (teardown_paula lc) × ((teardown_paula lc).open_cnt ≡ 0)
unfolding teardown_paula
teardown-IsLc lc r w d e =
    let h : IsIdle (silence (end_requests lc)) =
      silence-IsIdle (end_requests lc) (end_requests-IsIdle lc r w d e) in
    (
      hand_back-IsLc (silence (end_requests lc)) h,
      open_cnt-hand_back (silence (end_requests lc)) ∙ h.shut,
    )
