-- ===== src/Disk/Types.antt =====
-- amiga/include/fujinet_disk_driver.h: the driver of one disk unit, and the client it calls. The
-- status codes and the fields of `fn_disk_info_t` are those of fujinet-nio-lib that the code uses.
use fujinet_nio_driver.Base.{ℕ, Bool, Option, List}

abbrev pub unit_count : ℕ
unit_count = 8

abbrev pub first_slot : ℕ
first_slot = 1

abbrev pub block_size : ℕ
block_size = 512

abbrev pub dd_adf_block_count : ℕ
dd_adf_block_count = 1760

abbrev pub hd_adf_block_count : ℕ
hd_adf_block_count = 3520

-- Constants of fujinet-nio-lib, which is not in the repository.
pub record Library : Type 0 where
  pub ok : ℕ
  pub invalid : ℕ
  pub not_found : ℕ
  pub not_ready : ℕ
  pub io : ℕ
  pub flag_mounted : ℕ
  pub flag_readonly : ℕ
  pub type_auto : ℕ
  pub type_raw : ℕ

pub record Media : Type 0 where
  pub slot : ℕ
  pub flags : ℕ
  pub type : ℕ
  pub sector_size : ℕ
  pub sector_count : ℕ

-- The result of a call that fills in disk information, with the information and the context.
pub record Filled (C : Type 0) : Type 0 where
  pub status : ℕ
  pub media : Media
  pub ctx : C

-- The result of reading a sector, with the buffer, the length and the context behind it.
pub record Sector (C : Type 0) : Type 0 where
  pub status : ℕ
  pub buffer : List ℕ
  pub received : ℕ
  pub ctx : C

-- `fujinet_disk_client_t` with all its functions present, but `inspect`.
pub record Client (C : Type 0) : Type 0 where
  pub init : C → ℕ × C
  pub mount : C → ℕ → List ℕ → ℕ → ℕ → ℕ → Media → Filled C
  pub restore_boot : C → ℕ → Media → Filled C
  pub info : C → ℕ → Media → Filled C
  pub read_sector : C → ℕ → ℕ → List ℕ → ℕ → Sector C
  pub write_sector : C → ℕ → ℕ → List ℕ → ℕ → ℕ × C
  pub flush : C → ℕ → ℕ × C
  pub unmount : C → ℕ → ℕ × C
  pub clear_changed : C → ℕ → ℕ × C

-- `fujinet_disk_driver_t`; `client` is `none` where it or a function of it is NULL.
pub record Driver (C : Type 0) : Type 0 where
  pub client : Option (Client C)
  pub ctx : C
  pub media : Media
  pub client_initialized : Bool
  pub mounted : Bool
  pub writable : Bool
  pub change_ack_pending : Bool
  pub change_count : ℕ
  pub unit : ℕ
