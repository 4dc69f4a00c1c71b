-- ===== src/Disk/Geometry.antt =====
-- What a mounted driver knows of its medium.
use fujinet_nio_driver.Base.{
  ℕ, ◌≡◌, ◌≢◌, ◌⊎◌, refl, Bool, true, false, not, Option, none, some, List, [], ◌∷◌, arith,
  both_branches, ◌==◌, if◌then◌else◌, ==→eq, ==→ne,
}
use fujinet_nio_driver.Disk.{
  Library, Media, Client, Driver, unit_to_slot, clear_local_media, geometry_valid,
  validate_adf_geometry, with_client, with_slot, read_info, clear_changed, reject, count_change,
  finish_mount, mount_with, disk_mount_mode, restore_with, disk_restore_boot, block_size,
  dd_adf_block_count, hd_adf_block_count,
}

-- A double density or high density ADF in blocks of 512 bytes.
pub record IsAdf (lib : Library) (media : Media) : Type 0 where
  pub raw : media.type ≡ lib.type_raw
  pub blocks : media.sector_size ≡ block_size
  pub density :
      (media.sector_count ≡ dd_adf_block_count) ⊎ (media.sector_count ≡ hd_adf_block_count)

-- While it is mounted.
abbrev pub IsKnown : (lib : Library) {C : Type 0} → Driver C → Type 0
IsKnown lib d = d.mounted ≡ true → IsAdf lib d.media

-- A client whose `mount` and `restore_boot` fill in nothing when they fail.
pub record IsQuiet (lib : Library) {C : Type 0} (c : Client C) : Type 0 where
  pub mount :
      (s : C) (slot : ℕ) (uri : List ℕ) (readonly type hint : ℕ) (m : Media)
      → (c.mount s slot uri readonly type hint m).status ≢ lib.ok
      → (c.mount s slot uri readonly type hint m).media ≡ m
  pub restore_boot :
      (s : C) (slot : ℕ) (m : Media)
      → (c.restore_boot s slot m).status ≢ lib.ok
      → (c.restore_boot s slot m).media ≡ m

abbrev pub AllQuiet : (lib : Library) {C : Type 0} → Driver C → Type 0
AllQuiet lib {C} d = (c : Client C) → d.client ≡ some c → IsQuiet lib c

module _ (lib : Library) (differ : lib.ok ≢ lib.invalid) where
  valid-IsAdf :
      (m : Media) (writable : Bool) (slot : ℕ)
      → validate_adf_geometry lib m writable slot ≡ lib.ok
      → IsAdf lib m
  unfolding validate_adf_geometry geometry_valid
  valid-IsAdf m writable slot e = record {
    raw = ground (arith, e, differ);
    blocks = ground (arith, e, differ);
    density = ground (arith, e, differ);
  }

  module _ {C : Type 0} where
    abbrev Fine : ℕ × Driver C → Type 0
    Fine out = IsKnown lib out.1

    read_info-IsAdf :
        (c : Client C) (d : Driver C) (slot : ℕ) (info : Media)
        → (read_info lib c d slot info).0 ≡ lib.ok
        → IsAdf lib (read_info lib c d slot info).1
    unfolding read_info
    read_info-IsAdf c d slot info =
        let got = c.info d.ctx slot info in
        let after = record d { ctx = got.ctx } in
        both_branches (λ (o : ℕ × Media × Driver C). o.0 ≡ lib.ok → IsAdf lib o.1)
          (got.status == lib.ok)
          {x = (validate_adf_geometry lib got.media d.writable slot, got.media, after)}
          {y = (got.status, got.media, after)} (λ _. valid-IsAdf _ d.writable slot)
          (λ failed e. absurd (==→ne _ _ failed e))

    finish_mount-IsKnown :
        (c : Client C) (slot : ℕ) (writable replacing : Bool) (d : Driver C)
        → Fine (finish_mount lib c slot writable replacing d)
    unfolding finish_mount clear_changed reject count_change clear_local_media
    finish_mount-IsKnown c slot writable replacing d =
        let asked = record d { writable = writable } in
        both_branches Fine ((read_info lib c asked slot d.media).0 == lib.ok)
          (λ good _. read_info-IsAdf c asked slot d.media (==→eq _ _ good))
          (λ _ no. absurd (ground (arith, no)))

    mount_with-IsKnown :
        (uri : List ℕ) (writable replacing : Bool) (slot : ℕ) (c : Client C) (d : Driver C)
        → IsQuiet lib c
        → IsKnown lib d
        → Fine (mount_with lib uri writable replacing slot c d)
    unfolding mount_with reject clear_local_media
    mount_with-IsKnown uri writable replacing slot c d quiet known =
        let got =
          c.mount d.ctx slot uri (if writable then 0 else 1) lib.type_auto block_size d.media in
        let filled = record d { ctx = got.ctx; media = got.media } in
        let synced = record filled { ctx = (c.flush filled.ctx slot).1 } in
        both_branches Fine (not (got.status == lib.ok))
          (λ failed on.
            rw
              (quiet.mount d.ctx slot uri (if writable then 0 else 1) lib.type_auto block_size
                d.media (λ e. ground (arith, failed, e)))
              (known on))
          (λ _.
            both_branches Fine (not (validate_adf_geometry lib got.media writable slot == lib.ok))
              (λ _ no. absurd (ground (arith, no)))
              (λ _.
                both_branches Fine (not writable)
                  (λ _. finish_mount-IsKnown c slot writable replacing filled)
                  (λ _.
                    both_branches Fine (not ((c.flush filled.ctx slot).0 == lib.ok))
                      (λ _ no. absurd (ground (arith, no)))
                      (λ _. finish_mount-IsKnown c slot writable replacing synced))))

    restore_with-IsKnown :
        (replacing : Bool) (slot : ℕ) (c : Client C) (d : Driver C)
        → IsQuiet lib c
        → IsKnown lib d
        → Fine (restore_with lib replacing slot c d)
    unfolding restore_with clear_local_media clear_changed count_change
    restore_with-IsKnown replacing slot c d quiet known =
        let got = c.restore_boot d.ctx slot d.media in
        both_branches Fine (not (got.status == lib.ok))
          (λ failed on.
            rw (quiet.restore_boot d.ctx slot d.media (λ e. ground (arith, failed, e))) (known on))
          (λ _.
            both_branches Fine (not (validate_adf_geometry lib got.media false slot == lib.ok))
              (λ _ no. absurd (ground (arith, no)))
              (λ good _. valid-IsAdf got.media false slot (ground (arith, good))))

    -- What holds behind a started client, and where there is none, holds of the whole operation.
    with_client-IsKnown :
        (d : Driver C) (rest : Client C → Driver C → ℕ × Driver C)
        → IsKnown lib d
        → ((c : Client C) (s : Driver C) → d.client ≡ some c → IsKnown lib s → Fine (rest c s))
        → Fine (with_client lib d rest)
    unfolding with_client
    with_client-IsKnown d rest known further = go d.client refl
      where
        go :
            (o : Option (Client C))
            → d.client ≡ o
            → Fine (elim o as (λ _. ℕ × Driver C) [
              | none ↦ (lib.invalid, d)
              | some c ↦
                  let (result, ctx) = c.init d.ctx in
                  let started = record d { ctx = ctx; client_initialized = (result == lib.ok) } in
                  if d.client_initialized
                  then rest c d
                  else if result == lib.ok
                  then rest c started
                  else (result, started)
            ])
        go none e = known
        go (some c) e =
            both_branches Fine d.client_initialized (λ _. further c d e known)
              (λ _.
                both_branches Fine ((c.init d.ctx).0 == lib.ok) (λ _. further c _ e known)
                  (λ _. known))

    with_slot-IsKnown :
        (unit : ℕ) (d : Driver C) (rest : ℕ → ℕ × Driver C)
        → IsKnown lib d
        → ((slot : ℕ) → Fine (rest slot))
        → Fine (with_slot lib unit d rest)
    unfolding with_slot
    with_slot-IsKnown unit d rest known further = go (unit_to_slot unit)
      where
        go :
            (o : Option ℕ)
            → Fine (elim o as (λ _. ℕ × Driver C) [
              | none ↦ (lib.not_found, d)
              | some slot ↦ rest slot
            ])
        go none = known
        go (some slot) = further slot

    -- Where the code for an invalid medium is not success and the client fills in nothing when it
    -- fails, a mount keeps it true that a mounted driver knows its medium to be a double or a high
    -- density ADF, whether the mount succeeds or fails.
    pub disk_mount_mode-IsKnown :
        (unit : ℕ) (uri : Option (List ℕ)) (writable : Bool) (d : Driver C)
        → AllQuiet lib d
        → IsKnown lib d
        → IsKnown lib (disk_mount_mode lib unit uri writable d).1
    unfolding disk_mount_mode
    disk_mount_mode-IsKnown unit none writable d quiet known = known
    disk_mount_mode-IsKnown unit (some []) writable d quiet known = known
    disk_mount_mode-IsKnown unit (some (first ∷ rest)) writable d quiet known =
        both_branches Fine (first == 0) (λ _. known)
          (λ _.
            with_slot-IsKnown unit d
              (λ slot. with_client lib d (mount_with lib (first ∷ rest) writable d.mounted slot))
              known
              (λ slot.
                with_client-IsKnown d (mount_with lib (first ∷ rest) writable d.mounted slot) known
                  (λ c s e k.
                    mount_with-IsKnown (first ∷ rest) writable d.mounted slot c s (quiet c e) k)))

    -- Where the code for an invalid medium is not success and the client fills in nothing when it
    -- fails, a restore of the boot medium keeps it true that a mounted driver knows its medium to be
    -- a double or a high density ADF.
    pub disk_restore_boot-IsKnown :
        (unit : ℕ) (d : Driver C)
        → AllQuiet lib d
        → IsKnown lib d
        → IsKnown lib (disk_restore_boot lib unit d).1
    unfolding disk_restore_boot
    disk_restore_boot-IsKnown unit d quiet known =
        with_slot-IsKnown unit d (λ slot. with_client lib d (restore_with lib d.mounted slot)) known
          (λ slot.
            with_client-IsKnown d (restore_with lib d.mounted slot) known
              (λ c s e k. restore_with-IsKnown d.mounted slot c s (quiet c e) k))
