-- ===== src/Serial/Requests.antt =====
-- Receiving, reading, writing and aborting keep the invariant.
use fujinet_nio_driver.Base.{
  ℕ, ◌+◌, ◌-◌, ◌%◌, ◌^◌, ◌≡◌, ◌≢◌, refl, Bool, false, ◌||◌, not, arith, leb, ◌==◌, both_branches,
  ==→eq, ==→ne, drop, through,
}
use fujinet_nio_driver.Paula.Ring.{IsRing}
use fujinet_nio_driver.Serial.{
  Lc, Writer, drain_rbf, rearm_receive, end_write, end_read, cause_if_satisfied, read_satisfied,
  lc_ok, lc_aborted, write_aborting, write_completing, read_aborting, owner_flush, owner_abort,
  owner_tbe, paula_depth, lc_hw_rx, lc_rbf_handler, lc_abort, lc_clear, lc_flush, lc_query,
  lc_tbe_handler, lc_write_softint, lc_abort_write,
}
use fujinet_nio_driver.Serial.Inv.{
  IsWriter, IsLc, Drained, Drained-refl, drain_rbf-Drained, drain_loop-Drained, end_write-Ended,
  end_read-Ended,
}
use fujinet_nio_driver.Serial.Keep.{Drained-IsLc, WriteEnded-IsLc, ReadEnded-IsLc}
use fujinet_nio_driver.Serial.Session.{Good, same-IsLc, cleared-IsLc}

pub satisfied-IsLc : (lc : Lc) → IsLc lc → IsLc (cause_if_satisfied lc)
unfolding cause_if_satisfied
satisfied-IsLc lc h =
    both_branches IsLc (read_satisfied lc)
      (λ _. record {
        ring = h.ring;
        writing = h.writing;
        reading = record { some_bytes = h.reading.some_bytes; fit = h.reading.fit };
        session = record {
          once = h.session.once;
          no_port = h.session.no_port;
          no_bits = h.session.no_bits;
          no_read = h.session.no_read;
          no_write = h.session.no_write;
          port = h.session.port;
          bits = h.session.bits;
        };
      })
      (λ _. h)

pub rearm_receive-Drained : (lc : Lc) → Drained lc (rearm_receive lc)
unfolding rearm_receive
rearm_receive-Drained lc =
    let d = drain_rbf-Drained lc in
    both_branches (Drained lc) lc.receive_armed (λ _. Drained-refl lc)
      (λ _. record {
        ring = d.ring;
        resources = d.resources;
        vector = d.vector;
        reader = d.reader;
        writer = d.writer;
        open_cnt = d.open_cnt;
        delexp = d.delexp;
        closing = d.closing;
      })

pub rearm-IsLc : (lc : Lc) → IsLc lc → IsLc (rearm_receive lc)
rearm-IsLc lc h = Drained-IsLc (rearm_receive-Drained lc) h

module _ (lc : Lc) (h : IsLc lc) where
  pub lc_hw_rx-IsLc : (byte : ℕ) (overrun : Bool) → IsLc (lc_hw_rx byte overrun lc)
  unfolding lc_hw_rx
  lc_hw_rx-IsLc byte overrun =
      both_branches IsLc (leb paula_depth lc.chip.paula_len) (λ _. h)
        (λ _. same-IsLc lc _ h h.ring refl refl refl refl)

  pub lc_rbf_handler-IsLc : IsLc (lc_rbf_handler lc)
  unfolding lc_rbf_handler
  lc_rbf_handler-IsLc =
      both_branches IsLc (not lc.chip.inten_master) (λ _. h)
        (λ _. satisfied-IsLc _ (Drained-IsLc (drain_loop-Drained (lc.chip.paula_len + 1) lc) h))

  pub lc_abort-IsLc : IsLc (lc_abort lc).1
  unfolding lc_abort
  lc_abort-IsLc = ReadEnded-IsLc (end_read-Ended read_aborting lc_aborted lc) h

  pub lc_abort_write-IsLc : IsLc (lc_abort_write lc).1
  unfolding lc_abort_write
  lc_abort_write-IsLc = WriteEnded-IsLc (end_write-Ended write_aborting owner_abort lc_aborted lc) h

  pub lc_flush-IsLc : Good (lc_flush lc)
  unfolding lc_flush
  lc_flush-IsLc =
      let w = end_write write_aborting owner_flush lc_aborted lc in
      let g1 : IsLc w.1 =
        WriteEnded-IsLc (end_write-Ended write_aborting owner_flush lc_aborted lc) h in
      let r = end_read read_aborting lc_aborted w.1 in
      let g2 : IsLc r.1 = ReadEnded-IsLc (end_read-Ended read_aborting lc_aborted w.1) g1 in
      cleared-IsLc (drain_rbf r.1) (Drained-IsLc (drain_rbf-Drained r.1) g2)

  pub lc_clear-IsLc : Good (lc_clear lc)
  unfolding lc_clear lc_flush
  lc_clear-IsLc = lc_flush-IsLc

  pub lc_query-IsLc : IsLc (lc_query lc).2
  unfolding lc_query
  lc_query-IsLc = rearm-IsLc lc h

  unpend : (w : Writer) → IsWriter w → IsWriter (record w { write_softint_pending = false })
  unpend w k = record {
    flag = k.flag;
    sum = k.sum;
    due = λ _ no. absurd (ground (arith, no));
    short = k.short;
  }

  pub lc_write_softint-IsLc : IsLc (lc_write_softint lc).1
  unfolding lc_write_softint
  lc_write_softint-IsLc =
      let seen = record lc { writer = record (lc.writer) { write_softint_pending = false } } in
      let good : IsLc seen = record {
        ring = h.ring;
        writing = unpend lc.writer h.writing;
        reading = h.reading;
        session = record {
          once = h.session.once;
          no_port = h.session.no_port;
          no_bits = h.session.no_bits;
          no_read = h.session.no_read;
          no_write = h.session.no_write;
          port = h.session.port;
          bits = h.session.bits;
        };
      } in
      WriteEnded-IsLc (end_write-Ended write_completing owner_tbe lc_ok seen) good

pub with_writer-IsLc :
    (lc b : Lc)
    → IsLc lc
    → IsWriter b.writer
    → IsRing 3 b.rx
    → b.reader ≡ lc.reader
    → b.resources ≡ lc.resources
    → b.open_cnt ≡ lc.open_cnt
    → (lc.open_cnt ≡ 0 → b.writer.pending_write ≡ false)
    → IsLc b
with_writer-IsLc lc b h w r e1 e2 e3 n = record {
  ring = r;
  writing = w;
  reading = rw e1 h.reading;
  session =
      rw (e3, e2, e1)
        (record {
          once = h.session.once;
          no_port = h.session.no_port;
          no_bits = h.session.no_bits;
          no_read = h.session.no_read;
          no_write = n;
          port = h.session.port;
          bits = h.session.bits;
        });
}

sent-IsWriter :
    (w : Writer) (fired : ℕ)
    → w.write_remaining ≢ 0
    → IsWriter w
    → IsWriter (record w {
      tbe_fire = fired;
      write_remaining = w.write_remaining - 1;
      write_buf = through (drop 1) w.write_buf;
      write_committed = (w.write_committed + 1) % 2 ^ 32;
    })
sent-IsWriter w fired ne k = record {
  flag = k.flag;
  sum = λ p. omega (arith, ne, k.sum p, k.short p);
  due = λ p q. absurd (omega (arith, ne, k.due p q));
  short = k.short;
}

pub lc_tbe_handler-IsLc : (lc : Lc) → IsLc lc → IsLc (lc_tbe_handler lc)
unfolding lc_tbe_handler
lc_tbe_handler-IsLc lc h =
    both_branches IsLc
      (not lc.chip.inten_master || not lc.chip.tbe_intena || not lc.chip.tbe_intreq) (λ _. h)
      (λ _.
        both_branches IsLc (lc.writer.write_remaining == 0)
          (λ last.
            with_writer-IsLc lc _ h
              (record {
                flag = h.writing.flag;
                sum = h.writing.sum;
                due = λ _ _. ==→eq _ _ last;
                short = h.writing.short;
              })
              h.ring refl refl refl h.session.no_write)
          (λ more.
            with_writer-IsLc lc _ h (sent-IsWriter lc.writer _ (==→ne _ _ more) h.writing) h.ring
              refl refl refl h.session.no_write))
