-- ===== src/Dos/Limits.antt =====
-- commands.c: the requests that leave the limits of transfers alone.
use fujinet_nio_driver.Base.{ℕ, zero, suc, ◌+◌, ◌%◌, ◌^◌, refl, Option, some, List, arith, drop}
use fujinet_nio_driver.Dos.Types.{DiskService, Dos}
use fujinet_nio_driver.Dos.Cache.{
  cache_invalidate_unit, cache_store, cache_update_or_invalidate, disk_info_cached,
}
use fujinet_nio_driver.Dos.Input.{offset_of}
use fujinet_nio_driver.Dos.Output.{update_all}
use fujinet_nio_driver.Dos.Media.{media_check_cmd, take_bpb, build_bpb_cmd}
use fujinet_nio_driver.Dos.Coherence.{SameLimits}
use fujinet_nio_driver.Dos.Ioctl.{
  remember, control_state, nio_handle_control_call, get_state, set_state, get_unit_map,
  set_unit_map, handle_ioctl_buffer,
}

module _ {C : Type 0} where
  pub update_all-limits :
      (left unit lba done : ℕ) (buf : List ℕ) (d : Dos C)
      → SameLimits d (update_all left unit lba done buf d)
  unfolding update_all cache_update_or_invalidate
  update_all-limits zero unit lba done buf d = (refl, refl)
  update_all-limits (suc left) unit lba done buf d =
      update_all-limits left unit ((lba + 1) % 2 ^ 32) (done + 1) buf
        (cache_update_or_invalidate unit lba (some (drop (offset_of done) buf)) d)

  set_state-limits : (buf : List ℕ) (unit : ℕ) (d : Dos C) → SameLimits d (set_state buf unit d).dos
  unfolding set_state remember
  set_state-limits buf unit d = (ground arith, ground arith)

  set_unit_map-limits :
      (buf : List ℕ) (unit : ℕ) (d : Dos C) → SameLimits d (set_unit_map buf unit d).dos
  unfolding set_unit_map cache_invalidate_unit
  set_unit_map-limits buf unit d = (ground arith, ground arith)

  get_unit_map-limits :
      (buf : List ℕ) (unit : ℕ) (d : Dos C) → SameLimits d (get_unit_map buf unit d).dos
  unfolding get_unit_map
  get_unit_map-limits buf unit d = (ground arith, ground arith)

  get_state-limits : (buf : List ℕ) (unit : ℕ) (d : Dos C) → SameLimits d (get_state buf unit d).dos
  unfolding get_state
  get_state-limits buf unit d = (refl, refl)

  module _ (svc : DiskService C) where
    pub disk_info_cached-limits :
        (unit : ℕ) (d : Dos C) → SameLimits d (disk_info_cached svc unit d).1
    unfolding disk_info_cached
    disk_info_cached-limits unit d = (ground arith, ground arith)

    pub media_check_cmd-limits :
        (unit info : ℕ) (d : Dos C) → SameLimits d (media_check_cmd svc unit info d).dos
    unfolding media_check_cmd
    media_check_cmd-limits unit info d = (
      ground (arith, (disk_info_cached-limits unit d).0),
      ground (arith, (disk_info_cached-limits unit d).1),
    )

    take_bpb-limits :
        (unit : ℕ) (buf : List ℕ) (d : Dos C) → SameLimits d (take_bpb svc unit buf d).dos
    unfolding take_bpb
    take_bpb-limits unit buf d = (ground arith, ground arith)

    pub build_bpb_cmd-limits :
        (unit : ℕ) (table : Option ℕ) (buf : List ℕ) (d : Dos C)
        → SameLimits d (build_bpb_cmd svc unit table buf d).dos
    unfolding build_bpb_cmd cache_store
    build_bpb_cmd-limits unit table buf d = (
      grind (
        arith,
        (disk_info_cached-limits unit d).0,
        λ (u : ℕ) (b : List ℕ) (e : Dos C). (take_bpb-limits u b e).0,
      ),
      grind (
        arith,
        (disk_info_cached-limits unit d).1,
        λ (u : ℕ) (b : List ℕ) (e : Dos C). (take_bpb-limits u b e).1,
      ),
    )

    module _ (call_size : ℕ) where
      control_state-limits :
          (buf : List ℕ) (unit : ℕ) (d : Dos C)
          → SameLimits d (control_state call_size svc buf unit d).dos
      unfolding control_state remember
      control_state-limits buf unit d = (ground arith, ground arith)

      call-limits :
          (buf : List ℕ) (unit : ℕ) (d : Dos C)
          → SameLimits d (nio_handle_control_call call_size svc buf unit d).dos
      unfolding nio_handle_control_call
      call-limits buf unit d = (
        ground (arith, (control_state-limits buf unit d).0),
        ground (arith, (control_state-limits buf unit d).1),
      )

      pub handle_ioctl_buffer-limits :
          (unit count : ℕ) (buf : List ℕ) (d : Dos C)
          → SameLimits d (handle_ioctl_buffer call_size svc unit count buf d).dos
      unfolding handle_ioctl_buffer
      handle_ioctl_buffer-limits unit count buf d = (
        ground (
          arith,
          (get_state-limits buf unit d).0,
          (set_state-limits buf unit d).0,
          (get_unit_map-limits buf unit d).0,
          (set_unit_map-limits buf unit d).0,
          (call-limits buf unit d).0,
        ),
        ground (
          arith,
          (get_state-limits buf unit d).1,
          (set_state-limits buf unit d).1,
          (get_unit_map-limits buf unit d).1,
          (set_unit_map-limits buf unit d).1,
          (call-limits buf unit d).1,
        ),
      )
