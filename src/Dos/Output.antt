-- ===== src/Dos/Output.antt =====
-- Output_cmd: writing sectors for DOS in batches, with the lines of the cache that they change.
use fujinet_nio_driver.Base.{
  ℕ, zero, suc, ◌+◌, ◌-◌, ◌*◌, ◌%◌, ◌^◌, Bool, true, false, not, Option, none, some, List, leb, ltb,
  ◌==◌, if◌then◌else◌, drop, bit_and, bit_or,
}
use fujinet_nio_driver.Dos.Types.{
  max_dev, sector_size, error_bit, unknown_unit, not_ready, write_protect, info_readonly,
  DiskService, Dos,
}
use fujinet_nio_driver.Dos.Cache.{slot_of, cache_update_or_invalidate, disk_info_cached}
use fujinet_nio_driver.Dos.Input.{
  IoRequest, Served, Finished, offset_of, first_sector, sector_max, batch_of, finish,
}

-- The loop on `fill`, by the sectors that are left.
unfoldable pub update_all : {C : Type 0} → ℕ → ℕ → ℕ → ℕ → List ℕ → Dos C → Dos C
unfolding cache_update_or_invalidate
update_all zero unit sector done buf d = d
update_all (suc left) unit sector done buf d =
    update_all left unit ((sector + 1) % 2 ^ 32) (done + 1) buf
      (cache_update_or_invalidate unit sector (some (drop (offset_of done) buf)) d)

abbrev pub is_written : ℕ → Option ℕ → Bool
is_written size none = false
is_written size (some n) = leb size n

module _ {C : Type 0} (svc : DiskService C) where
  -- The `while` loop; `none` where the fuel ran out.
  unfoldable pub output_loop : ℕ → ℕ → ℕ → ℕ → ℕ → ℕ → List ℕ → Dos C → Option (Served C)
  unfolding batch_of update_all
  output_loop zero unit count last done sector buf d = none
  output_loop (suc fuel) unit count last done sector buf d = elim (ltb done count) [
    | true ↦ elim (leb last sector) [
      | true ↦ some (record { in_range = false; done = done; buf = buf; dos = d })
      | false ↦
          let batch = batch_of (count - done) d.batch_sectors (last - sector) in
          let size = batch * sector_size % 2 ^ 16 in
          let (wrote, ctx) =
            svc.write_sectors d.ctx (slot_of d.unit_slot unit) sector batch
              (drop (offset_of done) buf) size in
          let after = record d { ctx = ctx } in
          elim (is_written size wrote) [
            | true ↦
                output_loop fuel unit count last (done + batch) ((sector + batch) % 2 ^ 32) buf
                  (update_all batch unit sector done buf after)
            | false ↦ some (record { in_range = true; done = done; buf = buf; dos = after })
          ]
    ]
    | false ↦ some (record { in_range = true; done = done; buf = buf; dos = d })
  ]

  -- A round writes a sector at least, so `count` of them are enough, and the one that ends the loop.
  unfoldable pub output_cmd : IoRequest → Dos C → Option (Finished C)
  unfolding disk_info_cached first_sector sector_max output_loop finish
  output_cmd t d =
      let (info, asked) = disk_info_cached svc t.unit d in
      let refused : ℕ → Dos C → Option (Finished C) = λ code e.
        some
          (record { status = bit_or error_bit code; count = t.count; buf = t.buffer; dos = e }) in
      if leb max_dev t.unit then refused unknown_unit d else elim info [
        | none ↦ refused not_ready asked
        | some i ↦
            if not (bit_and i.flags info_readonly == 0)
            then refused write_protect asked
            else elim (output_loop (t.count + 1) t.unit t.count (sector_max asked.bpb_table t.unit)
                0 (first_sector t) t.buffer asked) [
                  | none ↦ none
                  | some s ↦ some (finish t.count s)
                ]
      ]
