-- ===== src/Dos/Writes.antt =====
-- The loop of Output_cmd: the medium with the sectors written, and a cache that follows.
use fujinet_nio_driver.Base.{
  ℕ, zero, suc, ◌+◌, ◌-◌, ◌*◌, ◌%◌, ◌^◌, ◌≤◌, ◌<◌, ◌≡◌, refl, subst, ap, sym, ◌∙◌, Option, some,
  List, arith, both_cases, Bool, true, false, inl, inr, length, length-drop, drop, leb, ltb, ltb→lt,
  leb→lt,
}
use fujinet_nio_driver.Dos.Types.{sector_size, DiskService, Dos}
use fujinet_nio_driver.Dos.Cache.{slot_of}
use fujinet_nio_driver.Dos.Input.{Served, offset_of, batch_of}
use fujinet_nio_driver.Dos.Output.{update_all, is_written, output_loop}
use fujinet_nio_driver.Dos.Reading.{batch_of_bounds}
use fujinet_nio_driver.Dos.Limits.{update_all-limits}
use fujinet_nio_driver.Dos.Writing.{IsWritable, written_all, update_all-IsWritable}
use fujinet_nio_driver.Dos.Batches.{
  WritesMedium, IsTransfer, IsElsewhere, written_all-append, update_all-same, moved-IsWritable,
  batch_writes, batch_fails,
}

slot_of-lt : (slots : List ℕ) (unit : ℕ) → slot_of slots unit < 2 ^ 8
slot_of-lt slots unit = ground arith

module _ {C : Type 0} (svc : DiskService C) (sector : C → ℕ → ℕ → List ℕ)
    (law : WritesMedium svc sector) where
  module _ (medium : ℕ → ℕ → List ℕ) (slots : List ℕ) (unit count last first : ℕ) (buf : List ℕ)
      (few : count ≤ 128) (wide : last < 2 ^ 32) (full : count * sector_size ≤ length buf) where
    -- What the loop has brought about.
    pub record HasWritten (done : ℕ) (d : Dos C) : Type 0 where
      pub same_slots : d.unit_slot ≡ slots
      pub writable : IsWritable unit (sector d.ctx) d
      pub low : 1 ≤ d.batch_sectors
      pub high : d.batch_sectors ≤ 127
      pub at_most : done ≤ count
      pub now : sector d.ctx ≡ written_all done medium (slot_of slots unit) first 0 buf

    -- The medium with `done` sectors of the request written.
    abbrev pub intended : ℕ → ℕ → ℕ → List ℕ
    intended done = written_all done medium (slot_of slots unit) first 0 buf

    -- Where the loop has stopped: the cache follows the sectors that were reported as written, and
    -- the medium has them outside the part of the request that was not. A sector behind the last
    -- stops the loop with that part untouched.
    pub record HasStopped (s : Served C) : Type 0 where
      pub same_slots : s.dos.unit_slot ≡ slots
      pub writable : IsWritable unit (intended s.done) s.dos
      pub at_most : s.done ≤ count
      pub elsewhere :
          (slot' lba' : ℕ)
          → IsElsewhere (slot_of slots unit) (first + s.done) (count - s.done) slot' lba'
          → sector s.dos.ctx slot' lba' ≡ intended s.done slot' lba'
      pub untouched : s.in_range ≡ false → sector s.dos.ctx ≡ intended s.done

    unfoldable pub Concludes : Option (Served C) → Type 0
    Concludes o = (s : Served C) × (o ≡ some s) × HasStopped s

    HasWritten-HasStopped :
        (done : ℕ) (d : Dos C) (in_range : Bool) (out : List ℕ)
        → HasWritten done d
        → HasStopped (record { in_range = in_range; done = done; buf = out; dos = d })
    HasWritten-HasStopped done d in_range out h = record {
      same_slots = h.same_slots;
      writable = subst (λ m. IsWritable unit m d) h.now h.writable;
      at_most = h.at_most;
      elsewhere = λ slot' lba' _. ap (λ m. m slot' lba') h.now;
      untouched = λ _. h.now;
    }

    batch-IsTransfer :
        (lba batch done : ℕ) (d : Dos C)
        → batch ≤ 127
        → done + batch ≤ count
        → lba + batch ≤ last
        → IsTransfer (slot_of d.unit_slot unit) lba batch (drop (offset_of done) buf)
    batch-IsTransfer lba batch done d small more reach = record {
      slots = slot_of-lt d.unit_slot unit;
      sectors = omega (arith, reach, wide);
      small = small;
      full = omega (arith, length-drop (offset_of done) buf, more, few, full);
    }

    fails-HasStopped :
        (done lba batch : ℕ) (d : Dos C) (s : C) (out : List ℕ)
        → HasWritten done d
        → done + batch ≤ count
        → lba ≡ first + done
        → ((slot' lba' : ℕ)
            → IsElsewhere (slot_of d.unit_slot unit) lba batch slot' lba'
            → sector s slot' lba' ≡ sector d.ctx slot' lba')
        → HasStopped
            (record { in_range = true; done = done; buf = out; dos = record d { ctx = s } })
    fails-HasStopped done lba batch d s out h more place same = record {
      same_slots = h.same_slots;
      writable =
          moved-IsWritable unit (sector d.ctx) (intended done) d (record d { ctx = s }) refl refl
            h.now h.writable;
      at_most = h.at_most;
      elsewhere = λ slot' lba' away.
          same slot' lba' (
            narrower (slot_of slots unit) (slot_of d.unit_slot unit) slot' lba'
              (ap (λ sl. slot_of sl unit) h.same_slots) away)
          ∙ ap (λ m. m slot' lba') h.now;
      untouched = λ e. absurd (ground (arith, e));
    }
      where
        narrower :
            (slot slot1 slot' lba' : ℕ)
            → slot1 ≡ slot
            → IsElsewhere slot (first + done) (count - done) slot' lba'
            → IsElsewhere slot1 lba batch slot' lba'
        narrower slot slot1 slot' lba' e (inl differ) = inl (λ same. differ (same ∙ e))
        narrower slot slot1 slot' lba' e (inr (inl below)) = inr (inl (omega (arith, below, place)))
        narrower slot slot1 slot' lba' e (inr (inr above)) =
            inr (inr (omega (arith, above, place, more)))

    wrote-HasWritten :
        (done lba batch : ℕ) (d : Dos C) (s : C)
        → HasWritten done d
        → done + batch ≤ count
        → lba + batch ≤ last
        → lba ≡ first + done
        → sector s ≡ written_all batch (sector d.ctx) (slot_of d.unit_slot unit) lba done buf
        → HasWritten (done + batch) (update_all batch unit lba done buf (record d { ctx = s }))
    wrote-HasWritten done lba batch d s h more inside place e =
        let after = record d { ctx = s } in
        let next = update_all batch unit lba done buf after in
        let same = update_all-same batch unit lba done buf after in
        let start : IsWritable unit (sector d.ctx) after =
          moved-IsWritable unit (sector d.ctx) (sector d.ctx) d after refl refl refl h.writable in
        let lands : sector next.ctx ≡ sector s = ap sector same.0 in
        record {
          same_slots = same.1 ∙ h.same_slots;
          writable =
              subst (λ m. IsWritable unit m next) (sym (lands ∙ e))
                (update_all-IsWritable batch unit lba done buf (sector d.ctx) after start);
          low = omega (arith, h.low, (update_all-limits batch unit lba done buf after).0);
          high = omega (arith, h.high, (update_all-limits batch unit lba done buf after).0);
          at_most = more;
          now =
              lands
              ∙ e
              ∙ ap (λ sl. written_all batch (sector d.ctx) (slot_of sl unit) lba done buf)
                  h.same_slots
              ∙ ap (λ m. written_all batch m (slot_of slots unit) lba done buf) h.now
              ∙ sym (
                  written_all-append done batch (done + batch) medium (slot_of slots unit) first 0
                    lba done buf refl place (omega arith) (omega (arith, place, inside, wide)));
        }

    pub output_loop-Concludes :
        (fuel done lba : ℕ) (d : Dos C)
        → HasWritten done d
        → lba ≡ first + done
        → count - done < fuel
        → Concludes (output_loop svc fuel unit count last done lba buf d)
    unfolding output_loop Concludes
    output_loop-Concludes zero done lba d h place enough = absurd (omega arith)
    output_loop-Concludes (suc fuel) done lba d h place enough =
        let slot = slot_of d.unit_slot unit in
        let batch = batch_of (count - done) d.batch_sectors (last - lba) in
        let size = batch * sector_size % 2 ^ 16 in
        let answer = svc.write_sectors d.ctx slot lba batch (drop (offset_of done) buf) size in
        let after = record d { ctx = answer.1 } in
        both_cases Concludes (ltb done count)
          (λ below.
            both_cases Concludes (leb last lba)
              (λ _. (_, refl, HasWritten-HasStopped done d false buf h))
              (λ inside.
                let less = ltb→lt done count below in
                let within = leb→lt last lba inside in
                let bounds =
                  batch_of_bounds (count - done) d.batch_sectors (last - lba) (omega arith) h.low
                    (omega arith) in
                let small : batch ≤ 127 = omega (arith, bounds.2, h.high) in
                let more : done + batch ≤ count = omega (arith, bounds.1, less) in
                let reach : lba + batch ≤ last = omega (arith, bounds.3, within) in
                let wrap : (lba + batch) % 2 ^ 32 ≡ lba + batch = omega (arith, reach, wide) in
                let one = batch-IsTransfer lba batch done d small more reach in
                both_cases Concludes (is_written size answer.0)
                  (λ e.
                    output_loop-Concludes fuel (done + batch) ((lba + batch) % 2 ^ 32)
                      (update_all batch unit lba done buf after)
                      (wrote-HasWritten done lba batch d answer.1 h more reach place (
                        batch_writes svc sector law d.ctx slot lba batch done buf one
                          (omega (arith, more, few)) e))
                      (omega (arith, wrap, place)) (omega (arith, bounds.0, enough)))
                  (λ _. (
                    _,
                    refl,
                    fails-HasStopped done lba batch d answer.1 buf h more place (
                        batch_fails svc sector law d.ctx slot lba batch (drop (offset_of done) buf)
                          one),
                  ))))
          (λ _. (_, refl, HasWritten-HasStopped done d true buf h))
