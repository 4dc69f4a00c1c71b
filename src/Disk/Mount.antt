-- ===== src/Disk/Mount.antt =====
-- The operations that change the medium: mount, restore, eject, flush, acknowledge, information.
use fujinet_nio_driver.Base.{
  ℕ, ◌+◌, ◌%◌, ◌^◌, Bool, true, false, ◌&&◌, ◌||◌, not, Option, none, some, List, [], ◌∷◌, bit_and,
  leb, ◌==◌, if◌then◌else◌,
}
use fujinet_nio_driver.Disk.Types.{
  Library, Media, Client, Driver, unit_count, first_slot, block_size, dd_adf_block_count,
  hd_adf_block_count,
}

-- `fujinet_disk_unit_to_slot`; `none` is the result FN_ERR_NOT_FOUND.
unfoldable pub unit_to_slot : ℕ → Option ℕ
unit_to_slot unit = if leb unit_count unit then none else some ((first_slot + unit) % 2 ^ 8)

abbrev pub blank_media : Media
blank_media = record { slot = 0; flags = 0; type = 0; sector_size = 0; sector_count = 0 }

unfoldable pub driver_init : {C : Type 0} → Option (Client C) → C → ℕ → Driver C
driver_init client ctx unit = record {
  client = client;
  ctx = ctx;
  media = blank_media;
  client_initialized = false;
  mounted = false;
  writable = false;
  change_ack_pending = false;
  change_count = 0;
  unit = unit;
}

unfoldable pub clear_local_media : {C : Type 0} → Driver C → Driver C
clear_local_media d = record d { mounted = false; writable = false; media = blank_media }

module _ (lib : Library) where
  unfoldable pub geometry_valid : Media → Bool → ℕ → Bool
  geometry_valid info writable slot = not (
      (bit_and info.flags lib.flag_mounted == 0)
      || writable && not (bit_and info.flags lib.flag_readonly == 0)
      || not (info.slot == slot)
      || not (info.type == lib.type_raw)
      || not (info.sector_size == block_size)
      || not (info.sector_count == dd_adf_block_count)
        && not (info.sector_count == hd_adf_block_count))

  unfoldable pub validate_adf_geometry : Media → Bool → ℕ → ℕ
  unfolding geometry_valid
  validate_adf_geometry info writable slot =
      if geometry_valid info writable slot then lib.ok else lib.invalid

module _ (lib : Library) {C : Type 0} where
  -- `ensure_client`, and the rest of the caller with the client where that succeeds.
  unfoldable pub with_client : Driver C → (Client C → Driver C → ℕ × Driver C) → ℕ × Driver C
  with_client d rest = elim d.client [
    | none ↦ (lib.invalid, d)
    | some c ↦
        let (result, ctx) = c.init d.ctx in
        let started = record d { ctx = ctx; client_initialized = (result == lib.ok) } in
        if d.client_initialized
        then rest c d
        else if result == lib.ok
        then rest c started
        else (result, started)
  ]

  -- `fujinet_disk_unit_to_slot` and the rest of the caller.
  unfoldable pub with_slot : ℕ → Driver C → (ℕ → ℕ × Driver C) → ℕ × Driver C
  unfolding unit_to_slot
  with_slot unit d rest = elim (unit_to_slot unit) [
    | none ↦ (lib.not_found, d)
    | some slot ↦ rest slot
  ]

  -- The end of `fujinet_disk_info`, with the information that is given back.
  unfoldable pub read_info : Client C → Driver C → ℕ → Media → ℕ × Media × Driver C
  unfolding validate_adf_geometry
  read_info c d slot info =
      let got = c.info d.ctx slot info in
      let after = record d { ctx = got.ctx } in
      if got.status == lib.ok
      then (validate_adf_geometry lib got.media d.writable slot, got.media, after)
      else (got.status, got.media, after)

  -- `clear_changed`, which decides whether an acknowledgement is still to be sent.
  unfoldable pub clear_changed : Client C → ℕ → Driver C → Driver C
  clear_changed c slot d =
      let (result, ctx) = c.clear_changed d.ctx slot in
      record d { ctx = ctx; change_ack_pending = not (result == lib.ok) }

  -- A medium that was rejected: it is unmounted, and forgotten.
  unfoldable pub reject : Client C → ℕ → ℕ → Driver C → ℕ × Driver C
  unfolding clear_local_media
  reject c slot result d = (result, clear_local_media (record d { ctx = (c.unmount d.ctx slot).1 }))

  -- `driver->change_count += replacing ? 2 : 1`
  unfoldable pub count_change : Bool → Driver C → Driver C
  count_change replacing d = record d {
    change_count = (d.change_count + (if replacing then 2 else 1)) % 2 ^ 32;
  }

  -- The part of a mount behind the flush.
  unfoldable pub finish_mount : Client C → ℕ → Bool → Bool → Driver C → ℕ × Driver C
  unfolding read_info clear_changed reject count_change
  finish_mount c slot writable replacing d =
      let (result, media, after) = read_info c (record d { writable = writable }) slot d.media in
      let filled = record after { media = media } in
      if result == lib.ok
      then (
        result,
        clear_changed c slot (count_change replacing (record filled { mounted = true })),
      )
      else reject c slot result filled

  unfoldable pub mount_with : List ℕ → Bool → Bool → ℕ → Client C → Driver C → ℕ × Driver C
  unfolding validate_adf_geometry finish_mount reject
  mount_with uri writable replacing slot c d =
      let got =
        c.mount d.ctx slot uri (if writable then 0 else 1) lib.type_auto block_size d.media in
      let filled = record d { ctx = got.ctx; media = got.media } in
      let valid = validate_adf_geometry lib got.media writable slot in
      let (flushed, ctx) = c.flush filled.ctx slot in
      let synced = record filled { ctx = ctx } in
      if not (got.status == lib.ok)
      then (got.status, filled)
      else if not (valid == lib.ok)
      then reject c slot valid filled
      else if not writable
      then finish_mount c slot writable replacing filled
      else if not (flushed == lib.ok)
      then reject c slot flushed synced
      else finish_mount c slot writable replacing synced

  -- An empty or missing `uri` is refused.
  unfoldable pub disk_mount_mode : ℕ → Option (List ℕ) → Bool → Driver C → ℕ × Driver C
  unfolding with_client with_slot mount_with
  disk_mount_mode unit none writable d = (lib.invalid, d)
  disk_mount_mode unit (some []) writable d = (lib.invalid, d)
  disk_mount_mode unit (some (first ∷ rest)) writable d =
      if first == 0
      then (lib.invalid, d)
      else with_slot unit d
          (λ slot. with_client d (mount_with (first ∷ rest) writable d.mounted slot))

  unfoldable pub disk_mount : ℕ → Option (List ℕ) → Driver C → ℕ × Driver C
  unfolding disk_mount_mode
  disk_mount unit uri d = disk_mount_mode unit uri false d

  unfoldable pub restore_with : Bool → ℕ → Client C → Driver C → ℕ × Driver C
  unfolding validate_adf_geometry clear_local_media clear_changed count_change
  restore_with replacing slot c d =
      let got = c.restore_boot d.ctx slot d.media in
      let filled = record d { ctx = got.ctx; media = got.media } in
      let valid = validate_adf_geometry lib got.media false slot in
      let mounted = record filled {
        mounted = true;
        writable = (bit_and got.media.flags lib.flag_readonly == 0);
      } in
      if not (got.status == lib.ok)
      then (got.status, filled)
      else if not (valid == lib.ok)
      then (valid, clear_local_media filled)
      else (lib.ok, clear_changed c slot (count_change replacing mounted))

  unfoldable pub disk_restore_boot : ℕ → Driver C → ℕ × Driver C
  unfolding with_client with_slot restore_with
  disk_restore_boot unit d = with_slot unit d (λ slot. with_client d (restore_with d.mounted slot))

  unfoldable pub disk_flush : ℕ → Driver C → ℕ × Driver C
  unfolding with_client with_slot
  disk_flush unit d =
      if not d.mounted
      then (lib.not_ready, d)
      else with_client d (λ (c : Client C) (started : Driver C). with_slot unit started (λ slot.
        let (result, ctx) = c.flush started.ctx slot in (result, record started { ctx = ctx })))

  unfoldable pub disk_acknowledge_change : ℕ → Driver C → ℕ × Driver C
  unfolding with_client with_slot
  disk_acknowledge_change unit d =
      if not d.change_ack_pending
      then (lib.ok, d)
      else with_client d (λ (c : Client C) (started : Driver C). with_slot unit started (λ slot.
        let (result, ctx) = c.clear_changed started.ctx slot in
        (
          result,
          record started {
            ctx = ctx;
            change_ack_pending = started.change_ack_pending && not (result == lib.ok);
          },
        )))

  unfoldable pub disk_eject : ℕ → Driver C → ℕ × Driver C
  unfolding with_client with_slot clear_local_media clear_changed
  disk_eject unit d =
      if not d.mounted
      then (lib.not_ready, d)
      else with_client d (λ (c : Client C) (started : Driver C). with_slot unit started (λ slot.
        let (result, ctx) = c.unmount started.ctx slot in
        let after = record started { ctx = ctx } in
        let gone =
          clear_local_media (record after { change_count = (after.change_count + 1) % 2 ^ 32 }) in
        if result == lib.ok then (result, clear_changed c slot gone) else (result, after)))
