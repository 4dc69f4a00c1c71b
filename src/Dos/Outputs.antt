-- ===== src/Dos/Outputs.antt =====
-- Output_cmd as a whole: what is written, and what is refused.
use fujinet_nio_driver.Base.{
  ℕ, ◌+◌, ◌-◌, ◌*◌, ◌^◌, ◌⊎◌, inl, inr, Bool-cases, ltb, ltb→lt, subst, All, length, ◌≤◌, ◌<◌, ◌≡◌,
  ◌≢◌, refl, ap, sym, ◌∙◌, false, Option, some, some_inj, some_ne_none, List, arith, ◌==◌, ==→ne,
  both_branches, both_options, leb, leb→le, not, bit_and, bit_or, get_or,
}
use fujinet_nio_driver.DiskProtocol.{DiskInfo}
use fujinet_nio_driver.Dos.Types.{
  max_dev, sector_size, op_complete, not_ready, write_protect, error_bit, not_found, general_fail,
  info_readonly, DiskService, Dos,
}
use fujinet_nio_driver.Dos.Cache.{slot_of, disk_info_cached}
use fujinet_nio_driver.Dos.Input.{IoRequest, Served, Finished, first_sector, sector_max, finish}
use fujinet_nio_driver.Dos.Output.{output_cmd}
use fujinet_nio_driver.Dos.Coherence.{IsCurrent}
use fujinet_nio_driver.Dos.Reads.{IsCoherent}
use fujinet_nio_driver.Dos.Writing.{IsWritable, written_all}
use fujinet_nio_driver.Dos.Batches.{WritesMedium, IsElsewhere, moved-IsWritable}
use fujinet_nio_driver.Dos.Writes.{HasWritten, HasStopped, Concludes, output_loop-Concludes}

-- The medium with `n` sectors of a request written.
abbrev pub intended : {C : Type 0} → (C → ℕ → ℕ → List ℕ) → IoRequest → Dos C → ℕ → ℕ → ℕ → List ℕ
intended sector t d n =
    written_all n (sector d.ctx) (slot_of d.unit_slot t.unit) (first_sector t) 0 t.buffer

-- How a write ends: `stored` sectors were reported as written by the service. 0x8000 is the status
-- for a protected disk, 0x800c the one for a failure.
pub record IsWritten {C : Type 0} (svc : DiskService C) (sector : C → ℕ → ℕ → List ℕ)
    (t : IoRequest) (d : Dos C) (out : Finished C) : Type 0 where
  pub stored : ℕ
  pub at_most : stored ≤ t.count
  pub reported : out.status ≡ op_complete → (out.count ≡ stored) × (1 ≤ stored)
  pub lines : All (IsCurrent (intended sector t d stored) out.dos.unit_slot) out.dos.cache
  pub elsewhere :
      (slot' lba' : ℕ)
      → IsElsewhere
          (slot_of d.unit_slot t.unit)
          (first_sector t + stored)
          (t.count - stored)
          slot'
          lba'
      → sector out.dos.ctx slot' lba' ≡ intended sector t d stored slot' lba'
  pub settled :
      out.status ≢ op_complete
      → out.status ≢ 0x800c
      → sector out.dos.ctx ≡ intended sector t d stored
  pub whole :
      out.status ≡ op_complete
      → out.count ≡ t.count
      → (sector out.dos.ctx ≡ intended sector t d t.count) × IsCoherent sector out.dos
  pub refused : out.status ≡ 0x8000 → stored ≡ 0
  pub guarded :
      (i : DiskInfo)
      → (disk_info_cached svc t.unit d).0 ≡ some i
      → bit_and i.flags info_readonly ≢ 0
      → out.status ≡ 0x8000

both_sides : (at_end rest lba : ℕ) → rest ≡ 0 → (lba < at_end) ⊎ (at_end + rest ≤ lba)
both_sides at_end rest lba none_left = elim (Bool-cases (ltb lba at_end)) [
  | inl below ↦ inl (ltb→lt lba at_end below)
  | inr above ↦ inr (ground (arith, above, none_left))
]

is_zero : (n : ℕ) → not (n == 0) ≡ false → n ≡ 0
is_zero n h = ground arith

module _ {C : Type 0} (svc : DiskService C) (sector : C → ℕ → ℕ → List ℕ)
    (law : WritesMedium svc sector) where
  record IsSame (d e : Dos C) : Type 0 where
    medium : sector e.ctx ≡ sector d.ctx
    cache : e.cache ≡ d.cache
    slots : e.unit_slot ≡ d.unit_slot
    batch : e.batch_sectors ≡ d.batch_sectors
    table : e.bpb_table ≡ d.bpb_table

  disk_info_cached-IsSame : (unit : ℕ) (d : Dos C) → IsSame d (disk_info_cached svc unit d).1
  unfolding disk_info_cached
  disk_info_cached-IsSame unit d =
      let same : IsSame d d = record {
        medium = refl;
        cache = refl;
        slots = refl;
        batch = refl;
        table = refl;
      } in
      let P : Option DiskInfo × Dos C → Type 0 = λ r. IsSame d r.1 in
      let kept = law.asked d.ctx (slot_of d.unit_slot unit) in
      both_branches P (leb max_dev unit) (λ _. same)
        (λ _.
          both_branches P (get_or d.info_cache_valid unit false) (λ _. same)
            (λ _.
              both_options P (svc.info d.ctx (slot_of d.unit_slot unit)).0
                (λ _. record {
                  medium = kept;
                  cache = refl;
                  slots = refl;
                  batch = refl;
                  table = refl;
                })
                (λ i _. record {
                  medium = kept;
                  cache = refl;
                  slots = refl;
                  batch = refl;
                  table = refl;
                })))

  module _ (t : IoRequest) (d : Dos C) (few : t.count ≤ 128) (small : d.batch_sectors ≤ 127)
      (wide : sector_max d.bpb_table t.unit < 2 ^ 32)
      (full : t.count * sector_size ≤ length t.buffer) where
    abbrev Stopped : Served C → Type 0
    Stopped =
        HasStopped svc sector law (sector d.ctx) d.unit_slot t.unit t.count
          (sector_max d.bpb_table t.unit) (first_sector t) t.buffer few wide full

    -- Where all was written, no sector is left that may differ.
    all-whole :
        (s : Served C)
        → Stopped s
        → s.done ≡ t.count
        → (sector s.dos.ctx ≡ intended sector t d t.count) × IsCoherent sector s.dos
    unfolding IsCoherent
    all-whole s h all =
        let first = first_sector t in
        let same : sector s.dos.ctx ≡ intended sector t d s.done = λ i slot' lba'.
          h.elsewhere slot' lba'
            (elim (both_sides (first + s.done) (t.count - s.done) lba' (omega (arith, all))) [
              | inl below ↦ inr (inl below)
              | inr above ↦ inr (inr above)
            ])
            i in
        (
          subst (λ n. sector s.dos.ctx ≡ intended sector t d n) all same,
          subst (λ m. All (IsCurrent m s.dos.unit_slot) s.dos.cache) (sym same) h.writable.current,
        )

    finish-IsWritten :
        (s : Served C)
        → Stopped s
        → ((i : DiskInfo)
            → (disk_info_cached svc t.unit d).0 ≡ some i
            → bit_and i.flags info_readonly ≡ 0)
        → IsWritten svc sector t d (finish t.count s)
    unfolding finish
    finish-IsWritten s h open_disk =
        let P = IsWritten svc sector t d in
        let failed : (code : ℕ)
            → code ≢ op_complete
            → code ≢ 0x8000
            → (code ≢ 0x800c → sector s.dos.ctx ≡ intended sector t d s.done)
            → P (record { status = code; count = t.count; buf = s.buf; dos = s.dos }) =
          λ code n1 n2 now. record {
            stored = s.done;
            at_most = h.at_most;
            reported = λ e. absurd (n1 e);
            lines = h.writable.current;
            elsewhere = h.elsewhere;
            settled = λ _ n3. now n3;
            whole = λ e. absurd (n1 e);
            refused = λ e. absurd (n2 e);
            guarded = λ i e ne. absurd (ne (open_disk i e));
          } in
        both_branches P (not s.in_range)
          (λ e.
            failed (bit_or error_bit not_found) (λ e. absurd (omega (arith, e)))
              (λ e. absurd (omega (arith, e))) (λ _. h.untouched (ground (arith, e))))
          (λ _.
            both_branches P (s.done == 0)
              (λ _.
                failed (bit_or error_bit general_fail) (λ e. absurd (omega (arith, e)))
                  (λ e. absurd (omega (arith, e))) (λ ne. absurd (ne refl)))
              (λ some_done. record {
                stored = s.done;
                at_most = h.at_most;
                reported = λ _. (refl, omega (arith, ==→ne s.done 0 some_done));
                lines = h.writable.current;
                elsewhere = h.elsewhere;
                settled = λ ne. absurd (ne refl);
                whole = λ _. all-whole s h;
                refused = λ e. absurd (omega (arith, e));
                guarded = λ i e ne. absurd (ne (open_disk i e));
              }))

    -- A write to a mounted unit ends. The service has reported some number of sectors as written; where
    -- the write reports success this is the count that it gives, and it is not 0. However it ends, every
    -- valid line of the cache holds its sector of the medium with these sectors of the buffer written,
    -- from the first one on, and the medium is that one outside the rest of the request, where a
    -- failed write of the service may have left anything. It is that one everywhere, and the
    -- cache coherent, where all sectors are reported as written; it is that one everywhere too where
    -- the write ends with another status than success or a general failure. A disk whose information
    -- says that it is protected is refused with nothing written.
    -- The service has put to the medium what it reports as written, and a write that it does not
    -- report changes no sector outside it; no sector has two lines, the unit shares its slot with no
    -- other unit that has a line, a batch has 1 to 127 sectors, at most 128 are written and the buffer
    -- has them, and the size of the medium has 32 bits.
    pub output_cmd-IsWritten :
        t.unit < max_dev
        → 1 ≤ d.batch_sectors
        → IsWritable t.unit (sector d.ctx) d
        → (out : Finished C) × (output_cmd svc t d ≡ some out) × IsWritten svc sector t d out
    unfolding output_cmd Concludes
    output_cmd-IsWritten unit low w =
        let P : Option (Finished C) → Type 0 =
          λ o. (out : Finished C) × (o ≡ some out) × IsWritten svc sector t d out in
        let asked = (disk_info_cached svc t.unit d).1 in
        let same = disk_info_cached-IsSame t.unit d in
        let ready : IsWritable t.unit (sector d.ctx) asked =
          moved-IsWritable t.unit (sector d.ctx) (sector d.ctx) d asked same.cache same.slots refl
            w in
        let last = sector_max d.bpb_table t.unit in
        let table : sector_max asked.bpb_table t.unit ≡ last =
          ap (λ b. sector_max b t.unit) same.table in
        let start : HasWritten svc sector law (sector d.ctx) d.unit_slot t.unit t.count last
            (first_sector t) t.buffer few wide full 0 asked =
          record {
            same_slots = same.slots;
            writable = subst (λ m. IsWritable t.unit m asked) (sym same.medium) ready;
            low = omega (arith, low, same.batch);
            high = omega (arith, small, same.batch);
            at_most = omega arith;
            now = same.medium;
          } in
        let (s, e, h) =
          output_loop-Concludes svc sector law (sector d.ctx) d.unit_slot t.unit t.count last
            (first_sector t) t.buffer few wide full (t.count + 1) 0 (first_sector t) asked start
            (omega arith) (omega arith) in
        let early : (code : ℕ)
            → code ≢ op_complete
            → ((i : DiskInfo)
                → (disk_info_cached svc t.unit d).0 ≡ some i
                → bit_and i.flags info_readonly ≢ 0
                → code ≡ 0x8000)
            → IsWritten svc sector t d
                (record { status = code; count = t.count; buf = t.buffer; dos = asked }) =
          λ code ne guard. record {
            stored = 0;
            at_most = omega arith;
            reported = λ x. absurd (ne x);
            lines = ready.current;
            elsewhere = λ slot' lba' _. ap (λ m. m slot' lba') same.medium;
            settled = λ _ _. same.medium;
            whole = λ x. absurd (ne x);
            refused = λ _. refl;
            guarded = guard;
          } in
        both_branches P (leb max_dev t.unit) (λ e. absurd (omega (arith, leb→le max_dev t.unit e)))
          (λ _.
            both_options P (disk_info_cached svc t.unit d).0
              (λ nothing. (
                _,
                refl,
                early (bit_or error_bit not_ready) (λ e. absurd (omega (arith, e)))
                    (λ i e. absurd (some_ne_none (sym e ∙ nothing))),
              ))
              (λ i told.
                both_branches P (not (bit_and i.flags info_readonly == 0))
                  (λ _. (
                    _,
                    refl,
                    early (bit_or error_bit write_protect) (λ e. absurd (omega (arith, e)))
                        (λ j e ne. refl),
                  ))
                  (λ open_disk.
                    rw (table, e)
                      (
                        finish t.count s,
                        refl,
                        finish-IsWritten s h (λ j f.
                            ap (λ (k : DiskInfo). bit_and k.flags info_readonly)
                              (some_inj (sym f ∙ told))
                            ∙ is_zero (bit_and i.flags info_readonly) open_disk),
                      ))))
