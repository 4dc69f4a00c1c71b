-- ===== src/Dos/Input.antt =====
-- Input_cmd: reading sectors for DOS, through the cache and in batches.
use fujinet_nio_driver.Base.{
  ℕ, zero, suc, ◌+◌, ◌-◌, ◌*◌, ◌/◌, ◌%◌, ◌^◌, Bool, true, false, ◌&&◌, ◌||◌, not, Option, none,
  some, List, ◌++◌, leb, ltb, ◌==◌, if◌then◌else◌, get_or, take, drop, length, bit_or,
}
use fujinet_nio_driver.Protocol.{err_short_frame, err_length_mismatch, err_checksum}
use fujinet_nio_driver.Dos.Types.{
  max_dev, sector_size, op_complete, error_bit, unknown_unit, not_found, general_fail, Bpb,
  DiskService, Dos,
}
use fujinet_nio_driver.Dos.Cache.{slot_of, cache_find, cached_bytes, cache_store}

-- The fields of SYSREQ that a transfer reads, and the buffer it points to.
pub record IoRequest : Type 0 where
  pub length : ℕ
  pub unit : ℕ
  pub count : ℕ
  pub start_sector : ℕ
  pub start_sector_32 : ℕ
  pub buffer : List ℕ

-- The memory behind `_fmemcpy(&buf[off], bytes, length)`.
unfoldable pub copy_at : List ℕ → ℕ → List ℕ → List ℕ
copy_at buf off bytes = take off buf ++ bytes ++ drop (off + length bytes) buf

-- `&buf[done * SECTOR_SIZE]`, an index of 16 bits.
abbrev pub offset_of : ℕ → ℕ
offset_of done = done * sector_size % 2 ^ 16

abbrev pub blank_bpb : Bpb
blank_bpb = record {
  bps = 0;
  spau = 0;
  rs = 0;
  num_fats = 0;
  root_entries = 0;
  num_sectors = 0;
  media_descriptor = 0;
  spfat = 0;
  spt = 0;
  heads = 0;
  hidden = 0;
  num_sectors_32 = 0;
}

unfoldable pub first_sector : IoRequest → ℕ
first_sector t = if ltb 22 t.length then t.start_sector_32 else t.start_sector

unfoldable pub sector_max : List Bpb → ℕ → ℕ
sector_max table unit =
    let bpb = get_or table unit blank_bpb in
    if not (bpb.num_sectors == 0) then bpb.num_sectors else bpb.num_sectors_32

-- The batch of a round: at most the sectors left, `nio_batch_sectors`, and those of the medium.
unfoldable pub batch_of : ℕ → ℕ → ℕ → ℕ
batch_of remaining limit room =
    let batch = if ltb limit remaining then limit else remaining in
    if ltb room batch then room else batch

-- How the attempts of one batch end, where they do.
pub data Attempt : Type 0 where
  fetched : Attempt
  downshifted : Attempt
  failed : Attempt
  endless : Attempt

pub record Tried (C : Type 0) : Type 0 where
  pub outcome : Attempt
  pub buf : List ℕ
  pub dos : Dos C

-- How a loop over the sectors ends: in range or with a sector behind the last.
pub record Served (C : Type 0) : Type 0 where
  pub in_range : Bool
  pub done : ℕ
  pub buf : List ℕ
  pub dos : Dos C

-- The result with `req->io.count` and the memory behind a transfer.
pub record Finished (C : Type 0) : Type 0 where
  pub status : ℕ
  pub count : ℕ
  pub buf : List ℕ
  pub dos : Dos C

unfoldable pub damaged : ℕ → Bool
damaged error =
    (error == err_short_frame) || (error == err_length_mismatch) || (error == err_checksum)

module _ {C : Type 0} where
  -- `nio_batch_sectors` behind a downshift from `fetch` sectors.
  unfoldable pub downshift : ℕ → Dos C → Dos C
  downshift fetch d =
      let half = fetch / 2 % 2 ^ 8 in
      let limit = if ltb half 1 then 1 else half in
      record d { batch_sectors = (if ltb limit d.batch_sectors then limit else d.batch_sectors) }

  -- The loop on `fill`, by the sectors that are left.
  unfoldable pub store_all : ℕ → ℕ → ℕ → ℕ → List ℕ → Dos C → Dos C
  unfolding cache_store
  store_all zero unit sector done buf d = d
  store_all (suc left) unit sector done buf d =
      store_all left unit ((sector + 1) % 2 ^ 32) (done + 1) buf
        (cache_store unit sector (drop (offset_of done) buf) d)

  -- The end of a transfer.
  unfoldable pub finish : ℕ → Served C → Finished C
  finish count s =
      if not s.in_range
      then record { status = bit_or error_bit not_found; count = count; buf = s.buf; dos = s.dos }
      else if s.done == 0
      then record {
        status = bit_or error_bit general_fail;
        count = count;
        buf = s.buf;
        dos = s.dos;
      }
      else record { status = op_complete; count = s.done; buf = s.buf; dos = s.dos }

module _ {C : Type 0} (svc : DiskService C) where
  -- The loop on `attempt`, which has 8 bits: it passes every limit but 255. `endless`: the fuel ran
  -- out.
  unfoldable pub read_attempts : ℕ → ℕ → ℕ → ℕ → ℕ → ℕ → List ℕ → Dos C → Tried C
  unfolding copy_at damaged downshift
  read_attempts zero attempt slot sector fetch off buf d = record {
    outcome = endless;
    buf = buf;
    dos = d;
  }
  read_attempts (suc fuel) attempt slot sector fetch off buf d =
      let need = fetch * sector_size % 2 ^ 16 in
      let (got, ctx) = svc.read_sectors d.ctx slot sector fetch need in
      let after = record d { ctx = ctx } in
      let copied = elim got as (λ _. List ℕ) [ none ↦ buf | some bytes ↦ copy_at buf off bytes ] in
      let enough = elim got as (λ _. Bool) [
        | none ↦ false
        | some bytes ↦ leb need (length bytes)
      ] in
      let rest = read_attempts fuel ((attempt + 1) % 2 ^ 8) slot sector fetch off copied after in
      if ltb d.io_retries attempt
      then record { outcome = failed; buf = buf; dos = d }
      else if enough
      then record { outcome = fetched; buf = copied; dos = after }
      else if d.auto_downshift && ltb 1 fetch && damaged (svc.last ctx).error
      then record { outcome = downshifted; buf = copied; dos = downshift fetch after }
      else rest

  -- 256 rounds of attempts are one for each value of their count.
  unfoldable pub read_batch : ℕ → ℕ → ℕ → ℕ → List ℕ → Dos C → Tried C
  read_batch slot sector fetch off buf d = read_attempts (2 ^ 8) 0 slot sector fetch off buf d

  -- The `while` loop; `none` where the fuel ran out.
  unfoldable pub input_loop : ℕ → ℕ → ℕ → ℕ → ℕ → ℕ → List ℕ → Dos C → Option (Served C)
  unfolding cache_find cached_bytes copy_at batch_of store_all
  input_loop zero unit count last done sector buf d = none
  input_loop (suc fuel) unit count last done sector buf d = elim (ltb done count) [
    | false ↦ some (record { in_range = true; done = done; buf = buf; dos = d })
    | true ↦ elim (leb last sector) [
      | true ↦ some (record { in_range = false; done = done; buf = buf; dos = d })
      | false ↦ elim (cache_find d.cache unit sector) [
        | some i ↦
            input_loop fuel unit count last (done + 1) ((sector + 1) % 2 ^ 32)
              (copy_at buf (offset_of done) (cached_bytes d.cache i)) d
        | none ↦
            let fetch = batch_of (count - done) d.batch_sectors (last - sector) in
            let t = read_batch (slot_of d.unit_slot unit) sector fetch (offset_of done) buf d in
            elim t.outcome [
              | endless ↦ none
              | failed ↦ some (record { in_range = true; done = done; buf = t.buf; dos = t.dos })
              | downshifted ↦ input_loop fuel unit count last done sector t.buf t.dos
              | fetched ↦
                  input_loop fuel unit count last (done + fetch) ((sector + fetch) % 2 ^ 32) t.buf
                    (store_all fetch unit sector done t.buf t.dos)
            ]
      ]
    ]
  ]

  -- Every round moves on, ends the loop, or lowers `nio_batch_sectors`.
  unfoldable pub input_cmd : IoRequest → Dos C → Option (Finished C)
  unfolding first_sector sector_max input_loop finish
  input_cmd t d =
      if leb max_dev t.unit
      then some (record {
        status = bit_or error_bit unknown_unit;
        count = t.count;
        buf = t.buffer;
        dos = d;
      })
      else elim (input_loop (t.count + d.batch_sectors + 1) t.unit t.count
          (sector_max d.bpb_table t.unit) 0 (first_sector t) t.buffer d) [
            | none ↦ none
            | some s ↦ some (finish t.count s)
          ]
