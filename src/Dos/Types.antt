-- ===== src/Dos/Types.antt =====
-- msdos/src/driver/commands.c: what the driver keeps between requests, and the disk service that it
-- calls. `fn_bpb_pointers[i]` is the address of `fn_bpb_table[i]`, as Init_cmd sets it.
use fujinet_nio_driver.Base.{ℕ, ◌+◌, Bool, Option, List}
use fujinet_nio_driver.Base.Words.{at, join16, join32}
use fujinet_nio_driver.DiskProtocol.{DiskInfo}
use fujinet_nio_driver.Transaction.{Diag}

abbrev pub max_dev : ℕ
max_dev = 8

abbrev pub sector_size : ℕ
sector_size = 512

abbrev pub max_batch_sectors : ℕ
max_batch_sectors = 16

abbrev pub default_batch_sectors : ℕ
default_batch_sectors = 16

abbrev pub default_io_retries : ℕ
default_io_retries = 2

abbrev pub default_nio_retries : ℕ
default_nio_retries = 2

abbrev pub default_network_timeout_ms : ℕ
default_network_timeout_ms = 15000

abbrev pub cache_sectors : ℕ
cache_sectors = 40

abbrev pub info_inserted : ℕ
info_inserted = 0x01

abbrev pub info_readonly : ℕ
info_readonly = 0x02

abbrev pub info_changed : ℕ
info_changed = 0x08

abbrev pub op_complete : ℕ
op_complete = 0

abbrev pub error_bit : ℕ
error_bit = 0x8000

abbrev pub done_bit : ℕ
done_bit = 0x0100

abbrev pub write_protect : ℕ
write_protect = 0

abbrev pub unknown_unit : ℕ
unknown_unit = 1

abbrev pub not_ready : ℕ
not_ready = 2

abbrev pub unknown_cmd : ℕ
unknown_cmd = 3

abbrev pub bad_req_len : ℕ
bad_req_len = 5

abbrev pub not_found : ℕ
not_found = 8

abbrev pub read_fault : ℕ
read_fault = 0x0b

abbrev pub general_fail : ℕ
general_fail = 0x0c

-- `DOS_BPB`, packed.
pub record Bpb : Type 0 where
  pub bps : ℕ
  pub spau : ℕ
  pub rs : ℕ
  pub num_fats : ℕ
  pub root_entries : ℕ
  pub num_sectors : ℕ
  pub media_descriptor : ℕ
  pub spfat : ℕ
  pub spt : ℕ
  pub heads : ℕ
  pub hidden : ℕ
  pub num_sectors_32 : ℕ

-- The structure whose bytes start at `i`.
unfoldable pub bpb_at : List ℕ → ℕ → Bpb
bpb_at p i = record {
  bps = join16 (at p i) (at p (i + 1));
  spau = at p (i + 2);
  rs = join16 (at p (i + 3)) (at p (i + 4));
  num_fats = at p (i + 5);
  root_entries = join16 (at p (i + 6)) (at p (i + 7));
  num_sectors = join16 (at p (i + 8)) (at p (i + 9));
  media_descriptor = at p (i + 10);
  spfat = join16 (at p (i + 11)) (at p (i + 12));
  spt = join16 (at p (i + 13)) (at p (i + 14));
  heads = join16 (at p (i + 15)) (at p (i + 16));
  hidden = join32 (at p (i + 17)) (at p (i + 18)) (at p (i + 19)) (at p (i + 20));
  num_sectors_32 = join32 (at p (i + 21)) (at p (i + 22)) (at p (i + 23)) (at p (i + 24));
}

-- One line of the sector cache: `cache_valid`, `cache_unit`, `cache_lba` and `cache_data` at it.
pub record Line : Type 0 where
  pub valid : Bool
  pub unit : ℕ
  pub lba : ℕ
  pub bytes : List ℕ

-- What a raw call of a service gives back.
pub record Called (C : Type 0) : Type 0 where
  pub answered : Bool
  pub status : ℕ
  pub payload_length : ℕ
  pub bytes : List ℕ
  pub ctx : C

-- The functions of nio.c that the driver calls, over a context. `none` is the result `false`; a
-- read gives back the bytes that it put to the buffer, a write the number it wrote. `last` is
-- `nio_last_error` and the variables beside it.
pub record DiskService (C : Type 0) : Type 0 where
  pub info : C → ℕ → Option DiskInfo × C
  pub clear_changed : C → ℕ → Bool × C
  pub read_sector : C → ℕ → ℕ → ℕ → Option (List ℕ) × C
  pub read_sectors : C → ℕ → ℕ → ℕ → ℕ → Option (List ℕ) × C
  pub write_sectors : C → ℕ → ℕ → ℕ → List ℕ → ℕ → Option ℕ × C
  pub call : C → ℕ → ℕ → List ℕ → ℕ → ℕ → Called C
  pub last : C → Diag

-- The variables of the file; `nio_debug_io` only decides what is printed, and is left out.
pub record Dos (C : Type 0) : Type 0 where
  pub ctx : C
  pub bpb_table : List Bpb
  pub unit_slot : List ℕ
  pub current_uri : List ℕ
  pub display_path : List ℕ
  pub current_uri_len : ℕ
  pub display_path_len : ℕ
  pub cache : List Line
  pub cache_next : ℕ
  pub info_cache_valid : List Bool
  pub info_cache : List DiskInfo
  pub media_changed : List Bool
  pub batch_sectors : ℕ
  pub io_retries : ℕ
  pub auto_downshift : Bool
