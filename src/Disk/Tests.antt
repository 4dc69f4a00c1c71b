-- ===== src/Disk/Tests.antt =====
-- Runs of the disk driver over a small client, and its theorems at concrete inputs.
use fujinet_nio_driver.Base.{
  ℕ, ◌+◌, ◌≤◌, ◌≡◌, refl, inl, true, false, some, [], ◌∷◌, arith, max, replicate, some_inj,
}
use mathlib.Core.Path.{subst}
use fujinet_nio_driver.Disk.{
  Library, Media, Client, Driver, disk_mount_mode, disk_restore_boot, disk_write, disk_read,
  driver_init, unit_to_slot, with_client, with_slot, mount_with, finish_mount, read_info,
  validate_adf_geometry, geometry_valid, clear_changed, count_change,
}
use fujinet_nio_driver.Disk.Geometry.{
  IsKnown, IsQuiet, disk_mount_mode-IsKnown, disk_restore_boot-IsKnown,
}
use fujinet_nio_driver.Disk.Bounds.{
  Confined, Within, IsDistinct, disk_write-Within, disk_read-Within,
}

abbrev lib : Library
lib = record {
  ok = 0;
  invalid = 2;
  not_found = 3;
  not_ready = 4;
  io = 5;
  flag_mounted = 1;
  flag_readonly = 2;
  type_auto = 0;
  type_raw = 1;
}

abbrev codes : IsDistinct lib
codes = record {
  invalid = λ e. absurd (omega (arith, e));
  not_found = λ e. absurd (omega (arith, e));
  not_ready = λ e. absurd (omega (arith, e));
  io = λ e. absurd (omega (arith, e));
}

abbrev floppy : Media
floppy = record { slot = 1; flags = 1; type = 1; sector_size = 512; sector_count = 1760 }

-- The context is the end of the sectors touched.
abbrev client : Client ℕ
client = record {
  init = λ s. (0, s);
  mount = λ s slot uri readonly type hint m. record { status = 0; media = floppy; ctx = s };
  restore_boot = λ s slot m. record { status = 3; media = m; ctx = s };
  info = λ s slot m. record { status = 0; media = floppy; ctx = s };
  read_sector =
      λ s slot lba dst n. record { status = 0; buffer = dst; received = n; ctx = max s (lba + 1) };
  write_sector = λ s slot lba source n. (0, max s (lba + 1));
  flush = λ s slot. (0, s);
  unmount = λ s slot. (0, s);
  clear_changed = λ s slot. (0, s);
}

client-IsQuiet : IsQuiet lib client
client-IsQuiet = record {
  mount = λ s slot uri readonly type hint m ne. absurd (ne refl);
  restore_boot = λ s slot m ne. refl;
}

abbrev Low : ℕ → Type 0
Low s = s ≤ 1760

client-Confined : Confined Low 1760 client
client-Confined = record {
  init = λ s p. p;
  write = λ s slot lba source p h. omega (arith, p, h);
  read = λ s slot lba dst p h. omega (arith, p, h);
}

abbrev mounted : Driver ℕ
mounted = record {
  client = some client;
  ctx = 0;
  media = floppy;
  client_initialized = true;
  mounted = true;
  writable = true;
  change_ack_pending = false;
  change_count = 1;
  unit = 0;
}

mounts :
    disk_mount_mode lib 0 (some (100 ∷ 102 ∷ [])) true (driver_init (some client) 0 0)
    ≡ (0, mounted)
unfolding disk_mount_mode with_client with_slot mount_with finish_mount read_info
    validate_adf_geometry geometry_valid clear_changed count_change unit_to_slot driver_init
mounts = refl

mounted-IsKnown : IsKnown lib mounted
mounted-IsKnown _ = record { raw = refl; blocks = refl; density = inl refl }

disk_mount_mode-IsKnown_example :
    IsKnown lib (disk_mount_mode lib 0 (some (100 ∷ [])) true mounted).1
disk_mount_mode-IsKnown_example =
    disk_mount_mode-IsKnown lib (codes.invalid) 0 (some (100 ∷ [])) true mounted
      (λ c e. subst (IsQuiet lib) (some_inj e) client-IsQuiet) mounted-IsKnown

disk_restore_boot-IsKnown_example : IsKnown lib (disk_restore_boot lib 0 mounted).1
disk_restore_boot-IsKnown_example =
    disk_restore_boot-IsKnown lib (codes.invalid) 0 mounted
      (λ c e. subst (IsQuiet lib) (some_inj e) client-IsQuiet) mounted-IsKnown

disk_write-Within_example : Within lib Low 512 (disk_write lib 0 1024 (replicate 512 7) 512 mounted)
disk_write-Within_example =
    disk_write-Within lib Low codes 0 1024 (replicate 512 7) 512 mounted (omega arith)
      mounted-IsKnown (λ c e. subst (Confined Low 1760) (some_inj e) client-Confined) (omega arith)

disk_read-Within_example : Within lib Low 512 (disk_read lib 0 1024 (replicate 512 7) 512 mounted)
disk_read-Within_example =
    disk_read-Within lib Low codes 0 1024 (replicate 512 7) 512 mounted (omega arith)
      mounted-IsKnown (λ c e. subst (Confined Low 1760) (some_inj e) client-Confined) (omega arith)
