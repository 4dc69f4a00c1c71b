-- ===== src/Dos/Cache.antt =====
-- The sector cache and the disk information cache of commands.c.
use fujinet_nio_driver.Base.{
  ℕ, suc, ◌+◌, ◌%◌, ◌^◌, Bool, true, false, ◌&&◌, Option, none, some, List, [], ◌∷◌, leb, ltb, ◌==◌,
  if◌then◌else◌, get_or, set, take,
}
use fujinet_nio_driver.DiskProtocol.{DiskInfo}
use fujinet_nio_driver.Dos.Types.{max_dev, sector_size, cache_sectors, Line, DiskService, Dos}

abbrev pub blank_line : Line
blank_line = record { valid = false; unit = 0; lba = 0; bytes = [] }

abbrev pub blank_info : DiskInfo
blank_info = record {
  flags = 0;
  slot = 0;
  image_type = 0;
  sector_size = 0;
  sector_count = 0;
  last_error = 0;
}

abbrev pub slot_of : List ℕ → ℕ → ℕ
slot_of slots unit =
    let slot = if leb max_dev unit then 0xff else get_or slots unit 0 in
    if slot == 0xff then 0xff else (slot + 1) % 2 ^ 8

-- The test of `cache_find`.
abbrev pub holds : ℕ → ℕ → Line → Bool
holds unit lba l = l.valid && (l.unit == unit) && (l.lba == lba)

-- `cache_find`; `none` is -1.
unfoldable pub cache_find : List Line → ℕ → ℕ → Option ℕ
cache_find [] unit lba = none
cache_find (l ∷ ls) unit lba =
    let rest = cache_find ls unit lba in
    if holds unit lba l then some 0 else elim rest [ none ↦ none | some i ↦ some (suc i) ]

-- `cache_data[i]`
unfoldable pub cached_bytes : List Line → ℕ → List ℕ
cached_bytes ls i = (get_or ls i blank_line).bytes

-- `cache_invalidate_unit` on the lines.
unfoldable pub drop_unit : List Line → ℕ → List Line
drop_unit [] unit = []
drop_unit (l ∷ ls) unit =
    (if l.valid && (l.unit == unit) then record l { valid = false } else l) ∷ drop_unit ls unit

-- `cache_update_or_invalidate` on the lines.
unfoldable pub update_lines : List Line → ℕ → ℕ → Option (List ℕ) → List Line
unfolding cache_find
update_lines ls unit lba source = elim (cache_find ls unit lba) [
  | none ↦ ls
  | some i ↦ set ls i (elim source [
    | none ↦ record (get_or ls i blank_line) { valid = false }
    | some bytes ↦ record (get_or ls i blank_line) { bytes = take sector_size bytes }
  ])
]

module _ {C : Type 0} where
  unfoldable pub cache_store : ℕ → ℕ → List ℕ → Dos C → Dos C
  cache_store unit lba source d = record d {
    cache =
        set d.cache d.cache_next
          (record { valid = true; unit = unit; lba = lba; bytes = take sector_size source });
    cache_next = (d.cache_next + 1) % cache_sectors;
  }

  unfoldable pub cache_update_or_invalidate : ℕ → ℕ → Option (List ℕ) → Dos C → Dos C
  unfolding update_lines
  cache_update_or_invalidate unit lba source d = record d {
    cache = update_lines d.cache unit lba source;
  }

  unfoldable pub cache_invalidate_unit : ℕ → Dos C → Dos C
  unfolding drop_unit
  cache_invalidate_unit unit d = record d {
    cache = drop_unit d.cache unit;
    info_cache_valid =
        (if ltb unit max_dev then set d.info_cache_valid unit false else d.info_cache_valid);
  }

  -- `disk_info_cached` with `*info`; `none` is the result `false`.
  unfoldable pub disk_info_cached : DiskService C → ℕ → Dos C → Option DiskInfo × Dos C
  disk_info_cached svc unit d =
      let (got, ctx) = svc.info d.ctx (slot_of d.unit_slot unit) in
      let asked = record d { ctx = ctx } in
      if leb max_dev unit
      then (none, d)
      else if get_or d.info_cache_valid unit false
      then (some (get_or d.info_cache unit blank_info), d)
      else elim got [
        | none ↦ (none, asked)
        | some info ↦ (
          some info,
          record asked {
            info_cache = set d.info_cache unit info;
            info_cache_valid = set d.info_cache_valid unit true;
          },
        )
      ]
