-- ===== src/Serial/Inv.antt =====
-- The invariant of the serial device, and what the draining of the chip leaves alone.
use fujinet_nio_driver.Base.{
  ℕ, zero, suc, ◌+◌, ◌^◌, ◌<◌, ◌≤◌, ◌≡◌, ◌∙◌, refl, sym, Bool, true, false, ◌||◌, not, Option, none,
  some, arith, ltb, both_branches,
}
use fujinet_nio_driver.Paula.Ring.{IsRing, rx_ingest-contents}
use fujinet_nio_driver.Serial.{
  Lc, Reader, Writer, Resources, read_waits, write_waits, sample_retain_ack, drain_loop, drain_rbf,
  ack_chip, end_write, end_read, take_pending_write, take_pending, WriteState, WriteOwner,
  ReadState, reply_write, reply_read, tbe_off,
}

-- A pending write counts what it has sent and what is left, and its software interrupt is due
-- only when nothing is left.
pub record IsWriter (w : Writer) : Type 0 where
  pub flag : write_waits w.write_state ≡ w.pending_write
  pub sum : w.pending_write ≡ true → w.write_committed + w.write_remaining ≡ w.write_length
  pub due : w.pending_write ≡ true → w.write_softint_pending ≡ true → w.write_remaining ≡ 0
  pub short : w.pending_write ≡ true → w.write_length < 2 ^ 32

-- A pending read asks for some bytes, and for no more than the ring can hold.
pub record IsReader (r : Reader) : Type 0 where
  pub some_bytes : read_waits r.read_state ≡ true → 0 < r.read_need
  pub fit : read_waits r.read_state ≡ true → r.read_need ≤ 7

-- A closed device owns nothing and serves no request; an open one is open once and owns both
-- resources.
pub record IsSession (open_cnt : ℕ) (rs : Resources) (r : Reader) (w : Writer) : Type 0 where
  pub once : open_cnt ≤ 1
  pub no_port : open_cnt ≡ 0 → rs.port_owned ≡ false
  pub no_bits : open_cnt ≡ 0 → rs.bits_owned ≡ false
  pub no_read : open_cnt ≡ 0 → read_waits r.read_state ≡ false
  pub no_write : open_cnt ≡ 0 → w.pending_write ≡ false
  pub port : open_cnt ≡ 1 → rs.port_owned ≡ true
  pub bits : open_cnt ≡ 1 → rs.bits_owned ≡ true

pub record IsLc (lc : Lc) : Type 0 where
  pub ring : IsRing 3 lc.rx
  pub writing : IsWriter lc.writer
  pub reading : IsReader lc.reader
  pub session : IsSession lc.open_cnt lc.resources lc.reader lc.writer

-- What moving bytes from the chip to the ring leaves as it is.
pub record Drained (a b : Lc) : Type 0 where
  pub ring : IsRing 3 a.rx → IsRing 3 b.rx
  pub resources : b.resources ≡ a.resources
  pub vector : b.vector ≡ a.vector
  pub reader : b.reader ≡ a.reader
  pub writer : b.writer ≡ a.writer
  pub open_cnt : b.open_cnt ≡ a.open_cnt
  pub delexp : b.delexp ≡ a.delexp
  pub closing : b.closing ≡ a.closing

pub Drained-refl : (a : Lc) → Drained a a
Drained-refl a = record {
  ring = λ r. r;
  resources = refl;
  vector = refl;
  reader = refl;
  writer = refl;
  open_cnt = refl;
  delexp = refl;
  closing = refl;
}

pub Drained-trans : {a b c : Lc} → Drained a b → Drained b c → Drained a c
Drained-trans p q = record {
  ring = λ r. q.ring (p.ring r);
  resources = q.resources ∙ p.resources;
  vector = q.vector ∙ p.vector;
  reader = q.reader ∙ p.reader;
  writer = q.writer ∙ p.writer;
  open_cnt = q.open_cnt ∙ p.open_cnt;
  delexp = q.delexp ∙ p.delexp;
  closing = q.closing ∙ p.closing;
}

sample-Drained : (lc : Lc) → Drained lc (sample_retain_ack lc)
unfolding sample_retain_ack
sample-Drained lc = record {
  ring = λ r. (rx_ingest-contents 3 (lc.rx) _ r).0;
  resources = refl;
  vector = refl;
  reader = refl;
  writer = refl;
  open_cnt = refl;
  delexp = refl;
  closing = refl;
}

pub drain_loop-Drained : (n : ℕ) (lc : Lc) → Drained lc (drain_loop n lc)
unfolding drain_loop
drain_loop-Drained zero lc = Drained-refl lc
drain_loop-Drained (suc n) lc =
    let rest : Drained lc (drain_loop n (sample_retain_ack lc)) =
      Drained-trans (sample-Drained lc) (drain_loop-Drained n (sample_retain_ack lc)) in
    both_branches (Drained lc) (lc.chip.rbf_intreq) (λ _. rest) (λ _. Drained-refl lc)

pub drain_rbf-Drained : (lc : Lc) → Drained lc (drain_rbf lc)
unfolding drain_rbf
drain_rbf-Drained lc =
    both_branches (Drained lc) (not lc.chip.inten_master) (λ _. Drained-refl lc)
      (λ _. drain_loop-Drained (lc.chip.paula_len + 1) lc)

-- The interrupt request is up exactly while the chip holds a byte.
abbrev pub IsRequested : Lc → Type 0
IsRequested lc = lc.chip.rbf_intreq ≡ ltb 0 lc.chip.paula_len

abbrev pub IsDry : Lc → Type 0
IsDry lc = (lc.chip.rbf_intreq ≡ false) × (lc.chip.paula_len ≡ 0)

-- The fuel is enough: with interrupts on, no byte is left in the chip.
drain_loop-empty :
    (n : ℕ) (lc : Lc) → lc.chip.paula_len < n → IsRequested lc → IsDry (drain_loop n lc)
unfolding drain_loop sample_retain_ack ack_chip
drain_loop-empty zero lc h q = absurd (omega arith)
drain_loop-empty (suc n) lc h q =
    both_branches IsDry (lc.chip.rbf_intreq)
      (λ more.
        let held : ltb 0 (lc.chip.paula_len) ≡ true = sym q ∙ more in
        drain_loop-empty n (sample_retain_ack lc) (ground arith) refl)
      (λ done.
        let none_held : ltb 0 (lc.chip.paula_len) ≡ false = sym q ∙ done in (done, ground arith))

-- Where the chip requests an interrupt exactly while it holds a byte, draining with interrupts on
-- ends with no byte and no request in the chip.
pub drain_rbf-empty :
    (lc : Lc) → lc.chip.inten_master ≡ true → IsRequested lc → IsDry (drain_rbf lc)
unfolding drain_rbf
drain_rbf-empty lc on q =
    both_branches IsDry (not lc.chip.inten_master) (λ off. absurd (ground (arith, on, off)))
      (λ _. drain_loop-empty (lc.chip.paula_len + 1) lc (omega arith) q)

-- The end of the write requests, pending or not, leaves no write pending and all but the writer,
-- the chip and the audit as it is.
pub record WriteEnded (a b : Lc) : Type 0 where
  pub writing : IsWriter a.writer → IsWriter b.writer
  pub no_write : IsWriter a.writer → b.writer.pending_write ≡ false
  pub rx : b.rx ≡ a.rx
  pub resources : b.resources ≡ a.resources
  pub vector : b.vector ≡ a.vector
  pub reader : b.reader ≡ a.reader
  pub open_cnt : b.open_cnt ≡ a.open_cnt
  pub delexp : b.delexp ≡ a.delexp

pub idle-IsWriter :
    (w : Writer) → write_waits w.write_state ≡ false → w.pending_write ≡ false → IsWriter w
idle-IsWriter w s p = record {
  flag = s ∙ sym p;
  sum = λ q. absurd (ground (arith, p, q));
  due = λ q. absurd (ground (arith, p, q));
  short = λ q. absurd (ground (arith, p, q));
}

pub end_write-Ended :
    (next : WriteState) (owner : WriteOwner) (error : ℕ) (lc : Lc)
    → WriteEnded lc (end_write next owner error lc).1
unfolding end_write take_pending_write reply_write write_waits
end_write-Ended next owner error lc =
    both_branches
      (λ (o : Option Writer).
        WriteEnded lc
          (elim o as (λ _. Bool × Lc) [
            | none ↦ (false, lc)
            | some w ↦ (
              true,
              reply_write error w.last_write_committed
                  (record lc { writer = w; chip = tbe_off lc.chip }),
            )
          ]).1)
      (not (write_waits lc.writer.write_state) || not lc.writer.pending_write)
      (λ idle. record {
        writing = λ h. h;
        no_write = λ h. ground (arith, idle, h.flag);
        rx = refl;
        resources = refl;
        vector = refl;
        reader = refl;
        open_cnt = refl;
        delexp = refl;
      })
      (λ _. record {
        writing = λ _. idle-IsWriter _ refl refl;
        no_write = λ _. refl;
        rx = refl;
        resources = refl;
        vector = refl;
        reader = refl;
        open_cnt = refl;
        delexp = refl;
      })

-- The same of a read.
pub record ReadEnded (a b : Lc) : Type 0 where
  pub reading : IsReader a.reader → IsReader b.reader
  pub no_read : read_waits b.reader.read_state ≡ false
  pub rx : b.rx ≡ a.rx
  pub resources : b.resources ≡ a.resources
  pub vector : b.vector ≡ a.vector
  pub writer : b.writer ≡ a.writer
  pub open_cnt : b.open_cnt ≡ a.open_cnt
  pub delexp : b.delexp ≡ a.delexp

pub idle-IsReader : (r : Reader) → read_waits r.read_state ≡ false → IsReader r
idle-IsReader r s = record {
  some_bytes = λ q. absurd (ground (arith, s, q));
  fit = λ q. absurd (ground (arith, s, q));
}

pub end_read-Ended :
    (next : ReadState) (error : ℕ) (lc : Lc) → ReadEnded lc (end_read next error lc).1
unfolding end_read take_pending reply_read read_waits
end_read-Ended next error lc =
    both_branches
      (λ (o : Option Reader).
        ReadEnded lc
          (elim o as (λ _. Bool × Lc) [
            | none ↦ (false, lc)
            | some r ↦ (true, reply_read error 0 (record lc { reader = r }))
          ]).1)
      (not (read_waits lc.reader.read_state))
      (λ idle. record {
        reading = λ h. h;
        no_read = ground (arith, idle);
        rx = refl;
        resources = refl;
        vector = refl;
        writer = refl;
        open_cnt = refl;
        delexp = refl;
      })
      (λ _. record {
        reading = λ _. idle-IsReader _ refl;
        no_read = refl;
        rx = refl;
        resources = refl;
        vector = refl;
        writer = refl;
        open_cnt = refl;
        delexp = refl;
      })
