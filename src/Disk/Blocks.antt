-- ===== src/Disk/Blocks.antt =====
-- Reading and writing whole blocks of the medium; offsets and lengths are 32 bits wide.
use fujinet_nio_driver.Base.{
  ℕ, zero, suc, ◌+◌, ◌-◌, ◌*◌, ◌/◌, ◌%◌, ◌^◌, Bool, ◌||◌, not, none, some, List, [], ◌++◌, leb, ltb,
  ◌==◌, if◌then◌else◌, take, drop,
}
use fujinet_nio_driver.Disk.Types.{Library, Media, Client, Driver, block_size}
use fujinet_nio_driver.Disk.Mount.{unit_to_slot}

-- `sector_count * sector_size` in 32 bits.
unfoldable pub media_bytes : Media → ℕ
media_bytes media = media.sector_count * media.sector_size % 2 ^ 32

-- What an operation on blocks gives back: the result, `*actual`, the caller's buffer, the driver.
pub record Moved (C : Type 0) : Type 0 where
  pub status : ℕ
  pub actual : ℕ
  pub buffer : List ℕ
  pub driver : Driver C

-- Not a whole number of blocks, or none.
unfoldable pub misaligned : ℕ → ℕ → Bool
misaligned byte_offset byte_length =
    (byte_length == 0) || not (byte_offset % block_size == 0) || not (byte_length % block_size == 0)

-- Not within the medium.
unfoldable pub outside : ℕ → ℕ → ℕ → Bool
outside size byte_offset byte_length = leb size byte_offset || ltb (size - byte_offset) byte_length

unfoldable pub refused : {C : Type 0} → ℕ → List ℕ → Driver C → Moved C
refused status buffer d = record { status = status; actual = 0; buffer = buffer; driver = d }

module _ (lib : Library) {C : Type 0} where
  -- The `while` loop of a write, by the blocks that are left.
  unfoldable pub write_loop : ℕ → Client C → ℕ → ℕ → List ℕ → ℕ → List ℕ → Driver C → Moved C
  write_loop zero c slot lba source actual whole d = record {
    status = lib.ok;
    actual = actual;
    buffer = whole;
    driver = d;
  }
  write_loop (suc left) c slot lba source actual whole d =
      let (result, ctx) = c.write_sector d.ctx slot lba source block_size in
      let after = record d { ctx = ctx } in
      let rest =
        write_loop left c slot ((lba + 1) % 2 ^ 32) (drop block_size source)
          ((actual + block_size) % 2 ^ 32) whole after in
      if result == lib.ok
      then rest
      else record { status = result; actual = actual; buffer = whole; driver = after }

  -- The `while` loop of a read: `got` is the part of the buffer in front of the data pointer.
  unfoldable pub read_loop : ℕ → Client C → ℕ → ℕ → List ℕ → List ℕ → ℕ → Driver C → Moved C
  read_loop zero c slot lba got dst actual d = record {
    status = lib.ok;
    actual = actual;
    buffer = got ++ dst;
    driver = d;
  }
  read_loop (suc left) c slot lba got dst actual d =
      let sector = c.read_sector d.ctx slot lba dst block_size in
      let after = record d { ctx = sector.ctx } in
      let rest =
        read_loop left c slot ((lba + 1) % 2 ^ 32) (got ++ take block_size sector.buffer)
          (drop block_size sector.buffer) ((actual + block_size) % 2 ^ 32) after in
      if not (sector.status == lib.ok)
      then record {
        status = sector.status;
        actual = actual;
        buffer = got ++ sector.buffer;
        driver = after;
      }
      else if not (sector.received == block_size)
      then record {
        status = lib.io;
        actual = actual;
        buffer = got ++ sector.buffer;
        driver = after;
      }
      else rest

  -- `ensure_client` in front of the blocks.
  unfoldable pub start_client : Driver C → (Client C → Driver C → Moved C) → List ℕ → Moved C
  unfolding refused
  start_client d rest buffer = elim d.client [
    | none ↦ refused lib.invalid buffer d
    | some c ↦
        let (result, ctx) = c.init d.ctx in
        let started = record d { ctx = ctx; client_initialized = (result == lib.ok) } in
        if d.client_initialized
        then rest c d
        else if result == lib.ok
        then rest c started
        else refused result buffer started
  ]

  -- `data` and `actual` are not NULL here: a write without them is refused in the same way.
  unfoldable pub disk_write : ℕ → ℕ → List ℕ → ℕ → Driver C → Moved C
  unfolding misaligned outside media_bytes unit_to_slot write_loop start_client refused
  disk_write unit byte_offset source byte_length d =
      if misaligned byte_offset byte_length
      then refused lib.invalid source d
      else if not d.mounted
      then refused lib.not_ready source d
      else if not d.writable
      then refused lib.invalid source d
      else if outside (media_bytes d.media) byte_offset byte_length
      then refused lib.invalid source d
      else start_client d
          (λ (c : Client C) (started : Driver C). elim (unit_to_slot unit) [
            | none ↦ refused lib.not_found source started
            | some slot ↦
                write_loop (byte_length / block_size) c slot (byte_offset / block_size) source 0
                  source started
          ])
          source

  unfoldable pub disk_read : ℕ → ℕ → List ℕ → ℕ → Driver C → Moved C
  unfolding misaligned outside media_bytes unit_to_slot read_loop start_client refused
  disk_read unit byte_offset dst byte_length d =
      let size = if d.mounted then media_bytes d.media else 0 in
      if misaligned byte_offset byte_length || (size == 0) || outside size byte_offset byte_length
      then refused lib.invalid dst d
      else elim (unit_to_slot unit) [
        | none ↦ refused lib.not_found dst d
        | some slot ↦
            if not d.mounted
            then refused lib.not_ready dst d
            else start_client d
                (λ (c : Client C) (started : Driver C).
                  read_loop (byte_length / block_size) c slot (byte_offset / block_size) [] dst 0
                    started)
                dst
      ]
