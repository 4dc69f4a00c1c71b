-- ===== src/Dos/Tests.antt =====
-- Runs of the DOS driver over a medium whose sectors hold their number, and its theorems at concrete
-- inputs.
use fujinet_nio_driver.Base.{
  ℕ, ◌+◌, ◌*◌, ◌%◌, ◌≤◌, ◌<◌, ◌≡◌, ◌⊎◌, refl, ap, sym, true, false, Option, none, some, some_inj,
  some_ne_none, List, [], ◌∷◌, arith, leb, leb→le, both_branches, length, replicate,
  length-replicate, if◌then◌else◌, bit_and,
}
use fujinet_nio_driver.Base.Words.{at}
use fujinet_nio_driver.Transaction.{Diag}
use fujinet_nio_driver.Dos.Types.{sector_size, op_complete, done_bit, Line, DiskService, Dos}
use fujinet_nio_driver.Dos.Cache.{
  blank_info, blank_line, cache_find, cached_bytes, cache_store, cache_update_or_invalidate,
  disk_info_cached,
}
use fujinet_nio_driver.Dos.Input.{IoRequest, Finished, blank_bpb, copy_at, sector_max, input_cmd}
use fujinet_nio_driver.Dos.Media.{media_check_cmd, build_bpb_cmd}
use fujinet_nio_driver.Dos.Ioctl.{set_unit_map, get_unit_map, handle_ioctl_buffer}
use fujinet_nio_driver.Dos.Config.{nio_driver_config_init, configured}
use fujinet_nio_driver.Dos.Dispatch.{Sysreq, Answer, interrupt, max_command}
use fujinet_nio_driver.Dos.Sectors.{sectors, length-sectors}
use fujinet_nio_driver.Dos.Coherence.{ReadsMedium, IsCurrent}
use fujinet_nio_driver.Dos.Reads.{IsCoherent, IsRead, input_cmd-IsRead}
use fujinet_nio_driver.Dos.Returns.{IsReady}
use fujinet_nio_driver.Dos.Answers.{interrupt-IsReady}
use fujinet_nio_driver.Dos.Remap.{IsRemapped, handle_ioctl_buffer-IsCoherent}
use fujinet_nio_driver.Dos.Stale.{
  BuiltFrom, IsEmptyUnit, cache_update-stale, media_check_cmd-build_bpb_cmd,
}
use fujinet_nio_driver.Dos.Settings.{
  IsWithin, nio_driver_config_init-IsWithin, get_unit_map-set_unit_map,
}

abbrev pub sector : ℕ → ℕ → ℕ → List ℕ
sector s slot lba = replicate 512 (lba % 256)

abbrev pub diag : Diag
diag = record { error = 0; status = 0; rx_len = 0; expected_len = 0; lsr = 0 }

-- The context counts the calls.
abbrev service : DiskService ℕ
service = record {
  info = λ s slot. (some (record blank_info { flags = 1; slot = slot }), s + 1);
  clear_changed = λ s slot. (true, s + 1);
  read_sector = λ s slot lba n. (some (sector s slot lba), s + 1);
  read_sectors = λ s slot lba n need.
      ((if leb (n * sector_size) need then some (sectors (sector s slot) lba n) else none), s + 1);
  write_sectors = λ s slot lba n bytes size. (some size, s + 1);
  call = λ s device command payload n capacity. record {
    answered = true;
    status = 0;
    payload_length = 0;
    bytes = [];
    ctx = s + 1;
  };
  last = λ s. diag;
}

service-ReadsMedium : ReadsMedium service sector
service-ReadsMedium = record {
  sized = λ s slot lba. length-replicate 512 (lba % 256);
  kept = λ s slot lba n need slot' lba'. refl;
  fits = λ s slot lba n need bytes.
      both_branches (λ (o : Option (List ℕ)). o ≡ some bytes → length bytes ≤ need)
        (leb (n * sector_size) need)
        (λ e h. omega (
          arith,
          leb→le (n * sector_size) need e,
          length-sectors (sector s slot) (λ l. length-replicate 512 (l % 256)) lba n,
          ap length (some_inj h),
        ))
        (λ _ h. absurd (some_ne_none (sym h)));
  right = λ s slot lba n need bytes.
      both_branches
        (λ (o : Option (List ℕ)).
          o ≡ some bytes → n * sector_size ≤ length bytes → bytes ≡ sectors (sector s slot) lba n)
        (leb (n * sector_size) need) (λ _ h _. sym (some_inj h))
        (λ _ h _. absurd (some_ne_none (sym h)));
}

-- Sector 5 of unit 0.
abbrev pub held_line : Line
held_line = record { valid = true; unit = 0; lba = 5; bytes = replicate 512 5 }

abbrev pub driver : Dos ℕ
driver = record {
  ctx = 0;
  bpb_table = replicate 8 (record blank_bpb { bps = 512; num_sectors = 720 });
  unit_slot = 0 ∷ 1 ∷ 2 ∷ 3 ∷ 4 ∷ 5 ∷ 6 ∷ 7 ∷ [];
  current_uri = [];
  display_path = [];
  current_uri_len = 0;
  display_path_len = 0;
  cache = held_line ∷ blank_line ∷ [];
  cache_next = 1;
  info_cache_valid = replicate 8 false;
  info_cache = replicate 8 blank_info;
  media_changed = replicate 8 false;
  batch_sectors = 16;
  io_retries = 2;
  auto_downshift = true;
}

driver-IsReady : IsReady driver
driver-IsReady = record { low = omega arith; high = omega arith; patient = omega arith }

driver-IsCoherent : IsCoherent sector driver
unfolding IsCoherent IsCurrent
driver-IsCoherent = (λ _. refl, (λ e. absurd cc, tt))

abbrev pub two_sectors : IoRequest
two_sectors = record {
  length = 22;
  unit = 0;
  count = 2;
  start_sector = 5;
  start_sector_32 = 0;
  buffer = replicate 1024 0;
}

input_cmd-IsRead_example :
    (out : Finished ℕ) × (input_cmd service two_sectors driver ≡ some out)
    × IsRead sector two_sectors driver out
unfolding sector_max
input_cmd-IsRead_example =
    input_cmd-IsRead service sector service-ReadsMedium two_sectors driver (omega arith)
      (omega (arith, length-replicate {A = ℕ} 1024 0)) (omega arith) (omega arith) (omega arith)
      (omega arith) (omega arith) driver-IsCoherent

abbrev media_request : Sysreq
media_request = record {
  length = 13;
  unit = 1;
  command = 1;
  status = 0;
  return_info = 0;
  table = none;
  count = 0;
  start_sector = 0;
  start_sector_32 = 0;
  unit_code = 0;
  memory = [];
}

abbrev start : Sysreq → Dos ℕ → Answer ℕ
start req d = record { status = 0; req = req; dos = d }

media_answer : media_check_cmd service 1 0 driver ≡ record {
  status = 0;
  return_info = 1;
  dos = record driver {
    ctx = 1;
    info_cache_valid = false ∷ true ∷ false ∷ false ∷ false ∷ false ∷ false ∷ false ∷ [];
    info_cache = blank_info ∷ record blank_info { flags = 1; slot = 2 } ∷ replicate 6 blank_info;
  };
}
unfolding media_check_cmd disk_info_cached
media_answer = refl

interrupt-IsReady_example :
    (out : Sysreq × Dos ℕ) × (interrupt 534 start service media_request driver ≡ some out)
    × IsReady out.1
    × (bit_and out.0.status done_bit ≡ done_bit)
    × (max_command < 1 → (out.0.status ≡ 0x8103) × (out.1 ≡ driver))
interrupt-IsReady_example =
    interrupt-IsReady service 534 start media_request driver (omega arith) driver-IsReady

-- A request that gives unit 2 the slot 5.
abbrev map_request : List ℕ
map_request = 4 ∷ 0 ∷ 0 ∷ 0 ∷ 0 ∷ 2 ∷ 0 ∷ 0 ∷ 5 ∷ []

handle_ioctl_buffer-IsCoherent_example :
    IsRemapped sector 534 service map_request driver
      (handle_ioctl_buffer 534 service 0 9 map_request driver).dos
handle_ioctl_buffer-IsCoherent_example =
    handle_ioctl_buffer-IsCoherent sector 534 service 0 9 map_request driver driver-IsCoherent

get_unit_map-set_unit_map_example :
    ((set_unit_map map_request 0 driver).status ≡ op_complete)
    × ((get_unit_map map_request 1 (set_unit_map map_request 0 driver).dos).status ≡ op_complete)
    × (at (get_unit_map map_request 1 (set_unit_map map_request 0 driver).dos).buf 5 ≡ 2)
    × (at (get_unit_map map_request 1 (set_unit_map map_request 0 driver).dos).buf 8 ≡ 5)
get_unit_map-set_unit_map_example =
    get_unit_map-set_unit_map map_request map_request 0 1 driver (omega arith) (omega arith)
      (omega arith) (omega arith) refl

nio_driver_config_init-IsWithin_example :
    IsWithin (nio_driver_config_init (λ name. some []) (λ value. 40000))
    × IsReady (configured (nio_driver_config_init (λ name. some []) (λ value. 40000)) driver)
nio_driver_config_init-IsWithin_example =
    nio_driver_config_init-IsWithin (λ name. some []) (λ value. 40000) driver

-- Two lines that hold sector 0 of unit 0.
abbrev old_line : Line
old_line = record { valid = true; unit = 0; lba = 0; bytes = 7 ∷ [] }

abbrev doubled : Dos ℕ
doubled = record driver { cache_next = 0; cache = old_line ∷ (blank_line ∷ (old_line ∷ [])) }

cache_update-stale_example :
    (i : ℕ) × (cache_find
        (cache_store 0 1 (8 ∷ []) (cache_update_or_invalidate 0 0 (some (9 ∷ [])) doubled)).cache
        0
        0
      ≡ some i)
    × (cached_bytes
          (cache_store 0 1 (8 ∷ []) (cache_update_or_invalidate 0 0 (some (9 ∷ [])) doubled)).cache
          i
        ≡ 7 ∷ [])
cache_update-stale_example =
    cache_update-stale 0 0 [] (blank_line ∷ []) [] old_line old_line tt (refl, tt) refl refl
      (9 ∷ []) (8 ∷ []) 0 1 doubled refl refl refl

media_check_cmd-build_bpb_cmd_example :
    IsEmptyUnit service 0 [] doubled
      (media_check_cmd service 0 0 doubled).dos
      (build_bpb_cmd service 0 none [] (media_check_cmd service 0 0 doubled).dos)
    ⊎ BuiltFrom service 0
        (copy_at [] 0 (cached_bytes doubled.cache 0))
        (build_bpb_cmd service 0 none [] (media_check_cmd service 0 0 doubled).dos)
media_check_cmd-build_bpb_cmd_example =
    media_check_cmd-build_bpb_cmd service 0 0 0 none [] doubled (omega arith) (omega arith)
      (unfold cache_find in refl)
