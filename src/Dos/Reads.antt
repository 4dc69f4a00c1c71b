-- ===== src/Dos/Reads.antt =====
-- What Input_cmd promises: the sectors of the medium, from a cache that stays a part of it.
use fujinet_nio_driver.Base.{
  ℕ, ◌-◌, ◌+◌, ◌*◌, ◌^◌, ◌≤◌, ◌<◌, ◌≡◌, refl, sym, subst, Option, some, List, arith, bit_or, leb,
  leb→le, All, ◌==◌, ==→ne, take, length, not, both_branches, if◌then◌else◌,
}
use fujinet_nio_driver.Dos.Types.{
  max_dev, sector_size, op_complete, error_bit, not_found, general_fail, DiskService, Dos,
}
use fujinet_nio_driver.Dos.Cache.{slot_of}
use fujinet_nio_driver.Dos.Input.{
  IoRequest, Served, Finished, first_sector, sector_max, input_cmd, finish,
}
use fujinet_nio_driver.Dos.Sectors.{sectors}
use fujinet_nio_driver.Dos.Coherence.{ReadsMedium, IsCurrent}
use fujinet_nio_driver.Dos.Reading.{HasRead, Finishes, input_loop-Finishes}

-- Every valid line of the cache holds its sector of the medium.
unfoldable pub IsCoherent : {C : Type 0} → (C → ℕ → ℕ → List ℕ) → Dos C → Type 0
IsCoherent sector d = All (IsCurrent (sector d.ctx) d.unit_slot) d.cache

-- How a read ends: with an error, or with sectors of the medium at the start of the buffer.
pub record IsRead {C : Type 0} (sector : C → ℕ → ℕ → List ℕ) (t : IoRequest) (d : Dos C)
    (out : Finished C) : Type 0 where
  pub coherent : IsCoherent sector out.dos
  pub same_medium : (slot lba : ℕ) → sector out.dos.ctx slot lba ≡ sector d.ctx slot lba
  pub at_most : out.count ≤ t.count
  pub some_read : out.status ≡ op_complete → 1 ≤ out.count
  pub got :
      out.status ≡ op_complete
      → take (out.count * sector_size) out.buf
        ≡ sectors (sector d.ctx (slot_of d.unit_slot t.unit)) (first_sector t) out.count

module _ {C : Type 0} (svc : DiskService C) (sector : C → ℕ → ℕ → List ℕ)
    (law : ReadsMedium svc sector) (t : IoRequest) (d : Dos C) (few : t.count ≤ 128)
    (room : t.count * sector_size ≤ length t.buffer) (small : d.batch_sectors ≤ 127)
    (wide : sector_max d.bpb_table t.unit < 2 ^ 32) where
  abbrev Done : ℕ → List ℕ → Dos C → Type 0
  Done =
      HasRead svc sector law (sector d.ctx) d.unit_slot d.batch_sectors small t.unit t.count
        (sector_max d.bpb_table t.unit) (first_sector t) (length t.buffer) few room wide

  finish-IsRead : (s : Served C) → Done s.done s.buf s.dos → IsRead sector t d (finish t.count s)
  unfolding finish IsCoherent
  finish-IsRead s r =
      let current : All (IsCurrent (sector s.dos.ctx) s.dos.unit_slot) s.dos.cache =
        let same : sector s.dos.ctx ≡ sector d.ctx =
          λ i slot lba. r.follows.same_medium slot lba i in
        subst (λ m. All (IsCurrent m s.dos.unit_slot) s.dos.cache) (sym same)
          (subst (λ slots. All (IsCurrent (sector d.ctx) slots) s.dos.cache)
            (sym r.follows.same_slots) r.follows.lines) in
      both_branches (IsRead sector t d) (not s.in_range)
        {x = record {
          status = bit_or error_bit not_found;
          count = t.count;
          buf = s.buf;
          dos = s.dos;
        }}
        {y = if s.done == 0
          then record {
            status = bit_or error_bit general_fail;
            count = t.count;
            buf = s.buf;
            dos = s.dos;
          }
          else record { status = op_complete; count = s.done; buf = s.buf; dos = s.dos }}
        (λ _. record {
          coherent = current;
          same_medium = r.follows.same_medium;
          at_most = omega arith;
          some_read = λ e. absurd (omega (arith, e));
          got = λ e. absurd (omega (arith, e));
        })
        (λ _.
          both_branches (IsRead sector t d) (s.done == 0)
            {x = record {
              status = bit_or error_bit general_fail;
              count = t.count;
              buf = s.buf;
              dos = s.dos;
            }}
            {y = record { status = op_complete; count = s.done; buf = s.buf; dos = s.dos }}
            (λ _. record {
              coherent = current;
              same_medium = r.follows.same_medium;
              at_most = omega arith;
              some_read = λ e. absurd (omega (arith, e));
              got = λ e. absurd (omega (arith, e));
            })
            (λ e. record {
              coherent = current;
              same_medium = r.follows.same_medium;
              at_most = r.at_most;
              some_read = λ _. omega (arith, ==→ne s.done 0 e);
              got = λ _. r.got;
            }))

  -- From a coherent cache, a read of a mounted unit ends, and where it reports success the buffer
  -- begins with as many sectors of the medium as it reports, from the first one on; the count is
  -- no larger than the one asked for and not 0, the medium is as before, and the cache is coherent.
  -- The disk service reads a medium, a batch has 1 to 127 sectors, at most 128 are asked for and
  -- fit in the buffer, the size of the medium has 32 bits, and there are at most 254 retries, since
  -- an 8-bit count of attempts never passes 255.
  pub input_cmd-IsRead :
      t.unit < max_dev
      → 1 ≤ d.batch_sectors
      → d.io_retries < 2 ^ 8 - 1
      → IsCoherent sector d
      → (out : Finished C) × (input_cmd svc t d ≡ some out) × IsRead sector t d out
  unfolding input_cmd IsCoherent Finishes
  input_cmd-IsRead unit low patient coherent =
      let start : Done 0 t.buffer d = record {
        follows = record {
          same_medium = λ _ _. refl;
          same_slots = refl;
          lines = coherent;
          low = low;
          limit = omega arith;
          patient = patient;
        };
        at_most = omega arith;
        same_size = refl;
        got = refl;
      } in
      let P : Option (Finished C) → Type 0 =
        λ o. (out : Finished C) × (o ≡ some out) × IsRead sector t d out in
      let last = sector_max d.bpb_table t.unit in
      let (s, e, r) =
        input_loop-Finishes svc sector law (sector d.ctx) d.unit_slot d.batch_sectors small t.unit
          t.count last (first_sector t) (length t.buffer) few room wide
          (t.count + d.batch_sectors + 1) 0 (first_sector t) t.buffer d start (omega arith)
          (omega arith) in
      both_branches P (leb max_dev t.unit) (λ e. absurd (omega (arith, leb→le max_dev t.unit e)))
        (λ _. rw e (finish t.count s, refl, finish-IsRead s r))
