-- ===== src/Dos/Settings.antt =====
-- commands.c: the limits that the environment sets, and the map of units that requests set and get.
use fujinet_nio_driver.Base.{
  ℕ, ◌≤◌, ◌<◌, ◌≡◌, refl, ap, ◌∙◌, false, Option, List, arith, leb, both_branches, get_or, set,
  get_or-set_self, get_or-set_ne, length-set, length,
}
use fujinet_nio_driver.Base.Words.{at}
use fujinet_nio_driver.Dos.Types.{
  max_dev, max_batch_sectors, op_complete, Dos, default_batch_sectors, default_io_retries,
  default_nio_retries, default_network_timeout_ms,
}
use fujinet_nio_driver.Dos.Cache.{cache_invalidate_unit}
use fujinet_nio_driver.Dos.Input.{copy_at}
use fujinet_nio_driver.Dos.Sectors.{length-copy_at}
use fujinet_nio_driver.Dos.Ioctl.{
  fill_query, query_size, signature, unit_map_size, set_unit_map, get_unit_map,
}
use fujinet_nio_driver.Dos.Config.{
  Variable, Config, parse_sector_count, parse_retry_count, parse_timeout_ms, nio_driver_config_init,
  configured,
}
use fujinet_nio_driver.Dos.Returns.{IsReady}

-- The ranges of the limits.
pub record IsWithin (c : Config) : Type 0 where
  pub batch_low : 1 ≤ c.batch_sectors
  pub batch_high : c.batch_sectors ≤ max_batch_sectors
  pub io : c.io_retries ≤ max_batch_sectors
  pub transport : c.transport_retries ≤ max_batch_sectors
  pub timeout_low : 250 ≤ c.network_timeout_ms
  pub timeout_high : c.network_timeout_ms ≤ 60000

module _ (getenv : Variable → Option (List ℕ)) (atoi : List ℕ → ℕ) where
  parse_sector_count_bounds :
      (name : Variable)
      → (1 ≤ parse_sector_count getenv atoi name default_batch_sectors)
        × (parse_sector_count getenv atoi name default_batch_sectors ≤ max_batch_sectors)
  unfolding parse_sector_count
  parse_sector_count_bounds name = (ground arith, ground arith)

  parse_retry_count-le :
      (name : Variable) (default_value : ℕ)
      → default_value ≤ max_batch_sectors
      → parse_retry_count getenv atoi name default_value ≤ max_batch_sectors
  unfolding parse_retry_count
  parse_retry_count-le name default_value h = ground arith

  parse_timeout_ms_bounds :
      (name : Variable)
      → (250 ≤ parse_timeout_ms getenv atoi name default_network_timeout_ms)
        × (parse_timeout_ms getenv atoi name default_network_timeout_ms ≤ 60000)
  unfolding parse_timeout_ms
  parse_timeout_ms_bounds name = (ground arith, ground arith)

  -- Whatever the environment says, a batch has 1 to 16 sectors, no count of retries is above 16, the
  -- network timeout is 250 to 60000 milliseconds, and the driver is ready for requests.
  pub nio_driver_config_init-IsWithin :
      {C : Type 0} (d : Dos C)
      → IsWithin (nio_driver_config_init getenv atoi)
        × IsReady (configured (nio_driver_config_init getenv atoi) d)
  unfolding nio_driver_config_init configured
  nio_driver_config_init-IsWithin d =
      let batch = parse_sector_count_bounds Variable.batch_sectors in
      let timeout = parse_timeout_ms_bounds Variable.net_timeout_ms in
      (
        record {
          batch_low = batch.0;
          batch_high = batch.1;
          io = parse_retry_count-le Variable.io_retries default_io_retries (omega arith);
          transport = parse_retry_count-le Variable.nio_retries default_nio_retries (omega arith);
          timeout_low = timeout.0;
          timeout_high = timeout.1;
        },
        record {
          low = batch.0;
          high = omega (arith, batch.1);
          patient =
              omega
                (arith, parse_retry_count-le Variable.io_retries default_io_retries (omega arith));
        },
      )

length-fill_query :
    (buf : List ℕ) (unit n : ℕ) → 5 ≤ length buf → length (fill_query buf unit n) ≡ length buf
unfolding fill_query
length-fill_query buf unit n h =
    let copied = copy_at buf 1 signature in
    let base : length (set copied 5 unit) ≡ length buf =
      length-set copied 5 unit ∙ length-copy_at buf 1 signature (omega arith) in
    both_branches (λ (b : List ℕ). length b ≡ length buf) (leb query_size n)
      (λ _.
        length-set (set (set copied 5 unit) 6 1) 7 max_dev
        ∙ length-set (set copied 5 unit) 6 1
        ∙ base)
      (λ _. base)

module _ {C : Type 0} where
  -- A slot that a request gives to a unit is the one that a later request reads for it: both are
  -- done, and the answer names the unit and its slot. The unit and the slot are below 8, the map has
  -- an entry for the unit, and the buffers hold the structure.
  pub get_unit_map-set_unit_map :
      (buf buf' : List ℕ) (unit unit' : ℕ) (d : Dos C)
      → at buf 5 < max_dev
      → at buf 8 < max_dev
      → at buf 5 < length d.unit_slot
      → unit_map_size ≤ length buf'
      → at buf' 5 ≡ at buf 5
      → ((set_unit_map buf unit d).status ≡ op_complete)
        × ((get_unit_map buf' unit' (set_unit_map buf unit d).dos).status ≡ op_complete)
        × (at (get_unit_map buf' unit' (set_unit_map buf unit d).dos).buf 5 ≡ at buf 5)
        × (at (get_unit_map buf' unit' (set_unit_map buf unit d).dos).buf 8 ≡ at buf 8)
  unfolding set_unit_map get_unit_map cache_invalidate_unit
  get_unit_map-set_unit_map buf buf' unit unit' d h1 h2 h3 long same =
      let a : leb max_dev (at buf 5) ≡ false = ground arith in
      let b : leb max_dev (at buf 8) ≡ false = ground arith in
      let c : leb max_dev (at buf' 5) ≡ false = ground arith in
      let filled = fill_query buf' unit' unit_map_size in
      let size : length filled ≡ length buf' =
        length-fill_query buf' unit' unit_map_size (omega arith) in
      let named = set filled 5 (at buf' 5) in
      let value = get_or (set d.unit_slot (at buf 5) (at buf 8)) (at buf' 5) 0 in
      let kept : get_or (set d.unit_slot (at buf 5) (at buf 8)) (at buf' 5) 0 ≡ at buf 8 =
        ap (λ u. get_or (set d.unit_slot (at buf 5) (at buf 8)) u 0) same
        ∙ get_or-set_self d.unit_slot (at buf 5) (at buf 8) 0 h3 in
      rw (a, b, c)
        (
          refl,
          refl,
          get_or-set_ne named 8 5 value 0 (λ e. absurd (omega (arith, e)))
              ∙ get_or-set_self filled 5 (at buf' 5) 0 (omega (arith, size, long))
              ∙ same,
          get_or-set_self named 8 value 0
                (omega (arith, size, long, length-set filled 5 (at buf' 5)))
              ∙ kept,
        )
