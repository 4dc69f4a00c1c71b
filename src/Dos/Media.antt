-- ===== src/Dos/Media.antt =====
-- Media_check_cmd and Build_bpb_cmd: what DOS is told of the medium in a unit.
use fujinet_nio_driver.Base.{
  ℕ, Bool, false, not, Option, none, some, List, leb, ltb, ◌==◌, if◌then◌else◌, get_or, set, length,
  bit_and, bit_or,
}
use fujinet_nio_driver.DiskProtocol.{DiskInfo}
use fujinet_nio_driver.Dos.Types.{
  max_dev, sector_size, op_complete, error_bit, unknown_unit, not_ready, read_fault, info_inserted,
  info_changed, bpb_at, DiskService, Dos,
}
use fujinet_nio_driver.Dos.Cache.{slot_of, cache_find, cached_bytes, cache_store, disk_info_cached}
use fujinet_nio_driver.Dos.Input.{copy_at}

-- The result with `req->media.return_info`, where 0xff is -1.
pub record MediaChecked (C : Type 0) : Type 0 where
  pub status : ℕ
  pub return_info : ℕ
  pub dos : Dos C

-- The result with the DOS buffer and the unit of the table that `req->bpb.table` points to.
pub record BpbBuilt (C : Type 0) : Type 0 where
  pub status : ℕ
  pub table : Option ℕ
  pub buf : List ℕ
  pub dos : Dos C

-- The service says that neither flag is set.
abbrev pub says_empty : Option DiskInfo → Bool
says_empty none = false
says_empty (some i) = bit_and i.flags (bit_or info_inserted info_changed) == 0

module _ {C : Type 0} where
  -- `info_cache_valid[unit] = 0`
  abbrev pub forget_info : ℕ → Dos C → Dos C
  forget_info unit d = record d { info_cache_valid = set d.info_cache_valid unit false }

  module _ (svc : DiskService C) where
    unfoldable pub media_check_cmd : ℕ → ℕ → Dos C → MediaChecked C
    unfolding disk_info_cached
    media_check_cmd unit return_info d =
        let (info, asked) = disk_info_cached svc unit d in
        if leb max_dev unit
        then record { status = bit_or error_bit unknown_unit; return_info = return_info; dos = d }
        else if get_or d.media_changed unit false
        then record {
          status = op_complete;
          return_info = 0xff;
          dos = forget_info unit (record d { media_changed = set d.media_changed unit false });
        }
        else elim info [
          | none ↦ record {
            status = bit_or error_bit not_ready;
            return_info = return_info;
            dos = asked;
          }
          | some i ↦
              if not (bit_and i.flags info_changed == 0)
              then record { status = op_complete; return_info = 0xff; dos = forget_info unit asked }
              else record {
                status = op_complete;
                return_info = (if bit_and i.flags info_inserted == 0 then 0 else 1);
                dos = asked;
              }
        ]

    -- The end of Build_bpb_cmd, with the boot sector in the buffer.
    unfoldable pub take_bpb : ℕ → List ℕ → Dos C → BpbBuilt C
    unfolding bpb_at
    take_bpb unit buf d =
        let (cleared, ctx) = svc.clear_changed d.ctx (slot_of d.unit_slot unit) in
        let built = record d { bpb_table = set d.bpb_table unit (bpb_at buf 0x0b); ctx = ctx } in
        record {
          status = op_complete;
          table = some unit;
          buf = buf;
          dos = (if cleared then forget_info unit built else built);
        }

    unfoldable pub build_bpb_cmd : ℕ → Option ℕ → List ℕ → Dos C → BpbBuilt C
    unfolding disk_info_cached cache_find cached_bytes cache_store copy_at take_bpb
    build_bpb_cmd unit table buf d =
        let (info, asked) = disk_info_cached svc unit d in
        let (got, ctx) = svc.read_sector asked.ctx (slot_of asked.unit_slot unit) 0 sector_size in
        let tried = record asked { ctx = ctx } in
        let failed : List ℕ → BpbBuilt C = λ b. record {
          status = bit_or error_bit read_fault;
          table = table;
          buf = b;
          dos = tried;
        } in
        if leb max_dev unit
        then record { status = bit_or error_bit unknown_unit; table = table; buf = buf; dos = d }
        else if says_empty info
        then record { status = op_complete; table = some unit; buf = buf; dos = asked }
        else elim (cache_find asked.cache unit 0) [
          | some i ↦ take_bpb unit (copy_at buf 0 (cached_bytes asked.cache i)) asked
          | none ↦ elim got [
            | none ↦ failed buf
            | some bytes ↦
                let read = copy_at buf 0 bytes in
                if ltb (length bytes) sector_size
                then failed read
                else take_bpb unit read (cache_store unit 0 read tried)
          ]
        ]
