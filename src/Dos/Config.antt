-- ===== src/Dos/Config.antt =====
-- nio_driver_config_init: the limits of the driver from variables of the environment. getenv and
-- `(unsigned) atoi` are the C library's, so they are parameters.
use fujinet_nio_driver.Base.{
  ℕ, Bool, true, false, ◌||◌, Option, none, some, List, ltb, ◌==◌, if◌then◌else◌,
}
use fujinet_nio_driver.Base.Words.{at}
use fujinet_nio_driver.Dos.Types.{
  max_batch_sectors, default_batch_sectors, default_io_retries, default_nio_retries,
  default_network_timeout_ms, Dos,
}

-- FUJI_BATCH_SECTORS, FUJI_IO_RETRIES, FUJI_NIO_RETRIES, FUJI_DEBUG_IO, FUJI_AUTO_DOWNSHIFT and
-- FUJI_NET_TIMEOUT_MS.
pub data Variable : Type 0 where
  batch_sectors : Variable
  io_retries : Variable
  nio_retries : Variable
  debug_io : Variable
  auto_downshift : Variable
  net_timeout_ms : Variable

pub record Config : Type 0 where
  pub batch_sectors : ℕ
  pub io_retries : ℕ
  pub transport_retries : ℕ
  pub debug_io : Bool
  pub auto_downshift : Bool
  pub network_timeout_ms : ℕ

module _ (getenv : Variable → Option (List ℕ)) (atoi : List ℕ → ℕ) where
  unfoldable pub parse_sector_count : Variable → ℕ → ℕ
  parse_sector_count name default_value = elim (getenv name) [
    | none ↦ default_value
    | some value ↦
        let count = atoi value in
        let least = if ltb count 1 then 1 else count in
        if ltb max_batch_sectors least then max_batch_sectors else least
  ]

  unfoldable pub parse_retry_count : Variable → ℕ → ℕ
  parse_retry_count name default_value = elim (getenv name) [
    | none ↦ default_value
    | some value ↦
        let count = atoi value in if ltb max_batch_sectors count then max_batch_sectors else count
  ]

  -- No for a value that begins with `0`, `n` or `N`.
  unfoldable pub parse_flag : Variable → Bool → Bool
  parse_flag name default_value = elim (getenv name) [
    | none ↦ default_value
    | some value ↦
        if (at value 0 == 0x30) || (at value 0 == 0x6e) || (at value 0 == 0x4e) then false else true
  ]

  unfoldable pub parse_timeout_ms : Variable → ℕ → ℕ
  parse_timeout_ms name default_value = elim (getenv name) [
    | none ↦ default_value
    | some value ↦
        let timeout = atoi value in
        let least = if ltb timeout 250 then 250 else timeout in
        if ltb 60000 least then 60000 else least
  ]

  unfoldable pub nio_driver_config_init : Config
  unfolding parse_sector_count parse_retry_count parse_flag parse_timeout_ms
  nio_driver_config_init = record {
    batch_sectors = parse_sector_count batch_sectors default_batch_sectors;
    io_retries = parse_retry_count io_retries default_io_retries;
    transport_retries = parse_retry_count nio_retries default_nio_retries;
    debug_io = parse_flag debug_io false;
    auto_downshift = parse_flag auto_downshift true;
    network_timeout_ms = parse_timeout_ms net_timeout_ms default_network_timeout_ms;
  }

-- The variables of commands.c that it sets.
unfoldable pub configured : {C : Type 0} → Config → Dos C → Dos C
configured c d = record d {
  batch_sectors = c.batch_sectors;
  io_retries = c.io_retries;
  auto_downshift = c.auto_downshift;
}
