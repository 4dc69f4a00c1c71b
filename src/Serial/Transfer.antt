-- ===== src/Serial/Transfer.antt =====
-- Starting and completing a read or a write keeps the invariant; what a completed write reports.
use fujinet_nio_driver.Base.{
  ℕ, zero, suc, ◌%◌, ◌^◌, ◌<◌, ◌≡◌, ◌≢◌, ◌∙◌, refl, sym, ap, Bool, true, false, ◌&&◌, ◌||◌, not,
  Option, none, some, arith, ltb, ◌==◌, if◌then◌else◌, both_branches, List, [], ◌∷◌,
}
use fujinet_nio_driver.Paula.{Rx, rx_clear, rx_read}
use fujinet_nio_driver.Paula.Ring.{IsRing}
use fujinet_nio_driver.Paula.Read.{rx_read-contents}
use fujinet_nio_driver.Serial.{
  Lc, Reader, read_waits, write_waits, drain_rbf, rearm_receive, take_pending, reply_read,
  reply_write, lc_ok, lc_softint, lc_read, lc_write, lc_tbe_handler, lc_write_softint, pump,
  lc_write_byte,
}
use fujinet_nio_driver.Serial.Inv.{
  IsReader, IsLc, Drained, Drained-trans, drain_rbf-Drained, idle-IsWriter, idle-IsReader,
}
use fujinet_nio_driver.Serial.Keep.{Drained-IsLc, cleared-IsRing}
use fujinet_nio_driver.Serial.Session.{Good}
use fujinet_nio_driver.Serial.Requests.{
  satisfied-IsLc, rearm-IsLc, rearm_receive-Drained, with_writer-IsLc, lc_tbe_handler-IsLc,
  lc_write_softint-IsLc,
}

with_reader-IsLc :
    (lc b : Lc)
    → IsLc lc
    → IsReader b.reader
    → IsRing 3 b.rx
    → b.writer ≡ lc.writer
    → b.resources ≡ lc.resources
    → b.open_cnt ≡ lc.open_cnt
    → (lc.open_cnt ≡ 0 → read_waits b.reader.read_state ≡ false)
    → IsLc b
with_reader-IsLc lc b h d r e1 e2 e3 n = record {
  ring = r;
  writing = rw e1 h.writing;
  reading = d;
  session =
      rw (e3, e2, e1)
        (record {
          once = h.session.once;
          no_port = h.session.no_port;
          no_bits = h.session.no_bits;
          no_write = h.session.no_write;
          no_read = n;
          port = h.session.port;
          bits = h.session.bits;
        });
}

read-IsRing : (rx : Rx) (dst : List ℕ) (n : ℕ) → IsRing 3 rx → IsRing 3 (rx_read rx (some dst) n).2
read-IsRing rx dst n r =
    let (after, e, r', _) = rx_read-contents 3 rx dst n r in
    rw (ap (λ (o : ℕ × Option (List ℕ) × Rx). o.2) e) r'

replied-IsLc : (lc : Lc) (error actual : ℕ) → IsLc lc → IsLc (reply_read error actual lc)
unfolding reply_read read_waits
replied-IsLc lc error actual h =
    with_reader-IsLc lc _ h (idle-IsReader _ refl) h.ring refl refl refl (λ _. refl)

pub lc_softint-IsLc : (lc : Lc) → IsLc lc → IsLc (lc_softint lc).1
unfolding lc_softint take_pending reply_read read_waits
lc_softint-IsLc lc h =
    let seen = record lc { reader = record (lc.reader) { softint_pending = false } } in
    both_branches
      (λ (o : Option Reader).
        IsLc
          (elim o as (λ _. Bool × Lc) [
            | none ↦ (false, seen)
            | some r ↦
                let (copied, dst, rx) = rx_read seen.rx (some r.read_dst) (r.read_need % 2 ^ 16) in
                (
                  true,
                  reply_read lc_ok copied (record seen {
                    rx = rx;
                    reader = record r {
                      read_dst = (elim dst [ none ↦ r.read_dst | some bytes ↦ bytes ]);
                    };
                  }),
                )
          ]).1)
      (not (read_waits lc.reader.read_state))
      (λ _.
        with_reader-IsLc lc seen h
          (record { some_bytes = h.reading.some_bytes; fit = h.reading.fit }) h.ring refl refl refl
          h.session.no_read)
      (λ _.
        with_reader-IsLc lc _ h (idle-IsReader _ refl)
          (read-IsRing lc.rx lc.reader.read_dst (lc.reader.read_need % 2 ^ 16) h.ring) refl refl
          refl (λ _. refl))

still_closed : (lc : Lc) → lc.closing || (lc.open_cnt == 0) ≡ false → lc.open_cnt ≢ 0
still_closed lc opened z = ground (arith, opened, z)

pub lc_read-IsLc : (lc : Lc) (need : ℕ) → IsLc lc → Good (lc_read need lc)
unfolding lc_read
lc_read-IsLc lc need h =
    both_branches Good (lc.closing || (lc.open_cnt == 0)) (λ _. h)
      (λ opened.
        both_branches Good (need == 0) (λ _. replied-IsLc lc lc_ok 0 h)
          (λ asked.
            both_branches Good (ltb lc.rx.mask need) (λ _. h)
              (λ small.
                both_branches Good (read_waits lc.reader.read_state) (λ _. h)
                  (λ _.
                    let armed : IsLc (rearm_receive lc) = rearm-IsLc lc h in
                    let size : lc.rx.mask ≡ 7 = h.ring.masked in
                    satisfied-IsLc _ (
                      with_reader-IsLc (rearm_receive lc) _ armed
                        (record {
                          some_bytes = λ _. ground (arith, asked);
                          fit = λ _. ground (arith, small, size);
                        })
                        armed.ring refl refl refl
                        (λ z. absurd (
                          still_closed lc opened
                            (sym (rearm_receive-Drained lc).open_cnt ∙ z))))))))

pub lc_write-IsLc :
    (lc : Lc) (source : Option (List ℕ)) (n : ℕ)
    → IsLc lc
    → n < 2 ^ 32
    → Good (lc_write source n lc)
unfolding lc_write reply_write write_waits
lc_write-IsLc lc source n h u =
    let armed : IsLc (rearm_receive lc) = rearm-IsLc lc h in
    let drained : IsLc (drain_rbf (rearm_receive lc)) =
      Drained-IsLc (drain_rbf-Drained (rearm_receive lc)) armed in
    let ring : IsRing 3 (rx_clear (drain_rbf (rearm_receive lc)).rx) =
      cleared-IsRing _ drained.ring in
    let ready : Drained lc (drain_rbf (rearm_receive lc)) =
      Drained-trans (rearm_receive-Drained lc) (drain_rbf-Drained (rearm_receive lc)) in
    let idle : write_waits lc.writer.write_state ≡ false
        → (drain_rbf (rearm_receive lc)).writer.pending_write ≡ false =
      λ free. rw (ready.writer) (sym h.writing.flag ∙ free) in
    both_branches Good (lc.closing || (lc.open_cnt == 0)) (λ _. h)
      (λ opened.
        both_branches Good (not (n == 0) && (elim source [ none ↦ true | some _ ↦ false ])) (λ _. h)
          (λ _.
            both_branches Good (write_waits lc.writer.write_state) (λ _. h)
              (λ free.
                both_branches Good (n == 0)
                  (λ _.
                    with_writer-IsLc (drain_rbf (rearm_receive lc)) _ drained
                      (idle-IsWriter _ refl (idle free)) ring refl refl refl (λ _. idle free))
                  (λ _.
                    with_writer-IsLc (drain_rbf (rearm_receive lc)) _ drained
                      (record {
                        flag = refl;
                        sum = λ _. omega arith;
                        due = λ _ no. absurd (ground (arith, no));
                        short = λ _. u;
                      })
                      ring refl refl refl
                      (λ z. absurd (still_closed lc opened (sym ready.open_cnt ∙ z)))))))

done-IsLc :
    (lc : Lc)
    → IsLc lc
    → IsLc (if lc.writer.write_softint_pending then (lc_write_softint lc).1 else lc)
done-IsLc lc h =
    both_branches IsLc lc.writer.write_softint_pending (λ _. lc_write_softint-IsLc lc h) (λ _. h)

pump-IsLc : (left : ℕ) (lc : Lc) → IsLc lc → IsLc (pump left lc)
unfolding pump
pump-IsLc zero lc h = h
pump-IsLc (suc left) lc h =
    both_branches IsLc (write_waits lc.writer.write_state)
      (λ _. pump-IsLc left _ (done-IsLc (lc_tbe_handler lc) (lc_tbe_handler-IsLc lc h))) (λ _. h)

pub lc_write_byte-IsLc : (lc : Lc) (byte : ℕ) → IsLc lc → Good (lc_write_byte byte lc)
unfolding lc_write_byte
lc_write_byte-IsLc lc byte h =
    let w : IsLc (lc_write (some (byte ∷ [])) 1 lc).1 =
      lc_write-IsLc lc (some (byte ∷ [])) 1 h (omega arith) in
    both_branches Good (not ((lc_write (some (byte ∷ [])) 1 lc).0 == lc_ok)) (λ _. w)
      (λ _. pump-IsLc 8 _ w)
