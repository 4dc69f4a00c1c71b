-- ===== src/Dos/Remap.antt =====
-- commands.c: control requests and the sector cache, when units move to other slots.
use fujinet_nio_driver.Base.{
  ℕ, ◌+◌, ◌%◌, ◌^◌, ◌≡◌, ◌≢◌, refl, ap, sym, subst, ◌∙◌, false, ◌&&◌, ◌||◌, List, [], ◌∷◌, All,
  arith, leb, ltb, ◌==◌, ==→eq, bit_or, both_branches, set, get_or-set_ne, if◌then◌else◌, drop,
}
use fujinet_nio_driver.Base.Words.{at}
use fujinet_nio_driver.Dos.Types.{max_dev, error_bit, unknown_cmd, Line, DiskService, Dos}
use fujinet_nio_driver.Dos.Cache.{slot_of, drop_unit, cache_invalidate_unit}
use fujinet_nio_driver.Dos.Ioctl.{
  Controlled, remember, control_state, nio_handle_control_call, get_state, set_state, get_unit_map,
  set_unit_map, handle_ioctl_buffer, get16, query_base_size, state_size, unit_map_size, ioctl_query,
  ioctl_get_state, ioctl_set_state, ioctl_get_unit_map, ioctl_set_unit_map, ioctl_nio_call,
  ioctl_max_data, ioctl_max_uri, ioctl_max_path,
}
use fujinet_nio_driver.Dos.Coherence.{IsCurrent}
use fujinet_nio_driver.Dos.Reads.{IsCoherent}

slot_of-set_ne :
    (slots : List ℕ) (unit mapped slot : ℕ)
    → unit ≢ mapped
    → slot_of slots unit ≡ slot_of (set slots mapped slot) unit
slot_of-set_ne slots unit mapped slot ne =
    ap
      (λ (g : ℕ).
        let s = if leb max_dev unit then 0xff else g in if s == 0xff then 0xff else (s + 1) % 2 ^ 8)
      (sym (get_or-set_ne slots mapped unit slot 0 (λ e. ne (sym e))))

-- Without the lines of a unit, the others hold what they held wherever the unit goes.
drop_unit-IsCurrent :
    (medium : ℕ → ℕ → List ℕ) (slots : List ℕ) (mapped slot : ℕ) (ls : List Line)
    → All (IsCurrent medium slots) ls
    → All (IsCurrent medium (set slots mapped slot)) (drop_unit ls mapped)
unfolding drop_unit IsCurrent
drop_unit-IsCurrent medium slots mapped slot [] all = all
drop_unit-IsCurrent medium slots mapped slot (l ∷ ls) all = (
  both_branches (IsCurrent medium (set slots mapped slot)) (l.valid && (l.unit == mapped))
      {x = record l { valid = false }} {y = l} (λ _ e. absurd cc)
      (λ other e.
        let ne : l.unit ≢ mapped = λ same. absurd (ground (arith, other, e, same)) in
        all.0 e ∙ ap (λ k. medium k l.lba) (slot_of-set_ne slots l.unit mapped slot ne)),
  drop_unit-IsCurrent medium slots mapped slot ls all.1,
)

-- Behind a control request: the driver, with lines that follow the medium as it was before.
module _ {C : Type 0} (sector : C → ℕ → ℕ → List ℕ) where
  abbrev Follows : Dos C → Controlled C → Type 0
  Follows d c = All (IsCurrent (sector d.ctx) c.dos.unit_slot) c.dos.cache

  abbrev Keeps : Dos C → Controlled C → Type 0
  Keeps d c = Follows d c × (c.dos.ctx ≡ d.ctx)

  set_unit_map-Keeps :
      (buf : List ℕ) (unit : ℕ) (d : Dos C)
      → IsCoherent sector d
      → Keeps d (set_unit_map buf unit d)
  unfolding set_unit_map cache_invalidate_unit IsCoherent
  set_unit_map-Keeps buf unit d h =
      both_branches (Keeps d) (leb max_dev (at buf 5)) (λ _. (h, refl))
        (λ _.
          both_branches (Keeps d) (leb max_dev (at buf 8)) (λ _. (h, refl))
            (λ _. (
              drop_unit-IsCurrent (sector d.ctx) d.unit_slot (at buf 5) (at buf 8) d.cache h,
              refl,
            )))

  set_state-Keeps :
      (buf : List ℕ) (unit : ℕ) (d : Dos C) → IsCoherent sector d → Keeps d (set_state buf unit d)
  unfolding set_state remember IsCoherent
  set_state-Keeps buf unit d h =
      both_branches (Keeps d) (ltb ioctl_max_uri (get16 buf 8) || ltb ioctl_max_path (get16 buf 10))
        (λ _. (h, refl)) (λ _. (h, refl))

  get_unit_map-Keeps :
      (buf : List ℕ) (unit : ℕ) (d : Dos C)
      → IsCoherent sector d
      → Keeps d (get_unit_map buf unit d)
  unfolding get_unit_map IsCoherent
  get_unit_map-Keeps buf unit d h =
      both_branches (Keeps d) (leb max_dev (at buf 5)) (λ _. (h, refl)) (λ _. (h, refl))

  module _ (call_size : ℕ) (svc : DiskService C) where
    control_state-Follows :
        (buf : List ℕ) (unit : ℕ) (d : Dos C)
        → IsCoherent sector d
        → Follows d (control_state call_size svc buf unit d)
    unfolding control_state remember IsCoherent
    control_state-Follows buf unit d h = both_branches (Follows d) _ (λ _. h) (λ _. h)

    call-Follows :
        (buf : List ℕ) (unit : ℕ) (d : Dos C)
        → IsCoherent sector d
        → Follows d (nio_handle_control_call call_size svc buf unit d)
    unfolding nio_handle_control_call IsCoherent
    call-Follows buf unit d h =
        let c = svc.call d.ctx (at buf 7) (at buf 8) (drop 14 buf) (get16 buf 10) (get16 buf 12) in
        both_branches (Follows d)
          (ltb ioctl_max_data (get16 buf 10) || ltb ioctl_max_data (get16 buf 12)) (λ _. h)
          (λ _.
            both_branches (Follows d) ((at buf 7 == 0) && (at buf 8 == ioctl_set_state))
              (λ _. control_state-Follows buf unit d h)
              (λ _. both_branches (Follows d) c.answered (λ _. h) (λ _. h)))

    -- What a control request leaves of the cache.
    pub record IsRemapped (buf : List ℕ) (d e : Dos C) : Type 0 where
      pub lines : All (IsCurrent (sector d.ctx) e.unit_slot) e.cache
      pub quiet : at buf 0 ≢ ioctl_nio_call → (e.ctx ≡ d.ctx) × IsCoherent sector e

    -- Behind a control request on a coherent cache, whatever it asks for and however it ends, also
    -- one that moves a unit to another slot, every valid line holds its sector in the slot that its
    -- unit then has, of the media as they were before the request. A request other than a raw call of
    -- a service calls no service, so the cache is coherent behind it; a raw call may change a medium,
    -- and then its lines are those from before.
    pub handle_ioctl_buffer-IsCoherent :
        (unit count : ℕ) (buf : List ℕ) (d : Dos C)
        → IsCoherent sector d
        → IsRemapped buf d (handle_ioctl_buffer call_size svc unit count buf d).dos
    unfolding handle_ioctl_buffer IsCoherent
    handle_ioctl_buffer-IsCoherent unit count buf d h =
        let command = at buf 0 in
        let P : Controlled C → Type 0 =
          λ c. Follows d c × (command ≢ ioctl_nio_call → c.dos.ctx ≡ d.ctx) in
        let still : Follows d (record { status = 0; buf = buf; dos = d })
            × (command ≢ ioctl_nio_call → d.ctx ≡ d.ctx) =
          (h, λ _. refl) in
        let quietly : (c : Controlled C) → Keeps d c → P c = λ c k. (k.0, λ _. k.1) in
        let sized : (size : ℕ) (c : Controlled C)
            → P c
            → P (
                if ltb count size
                then record { status = bit_or error_bit unknown_cmd; buf = buf; dos = d }
                else c) =
          λ size c k. both_branches P (ltb count size) (λ _. still) (λ _. k) in
        let p : P (handle_ioctl_buffer call_size svc unit count buf d) =
          both_branches P (leb max_dev unit) (λ _. still)
            (λ _.
              both_branches P (ltb count query_base_size || ltb count 5) (λ _. still)
                (λ _.
                  both_branches P (command == ioctl_query) (λ _. still)
                    (λ _.
                      both_branches P (command == ioctl_get_state)
                        (λ _. sized state_size (get_state buf unit d) (unfold get_state in still))
                        (λ _.
                          both_branches P (command == ioctl_set_state)
                            (λ _.
                              sized state_size (set_state buf unit d)
                                (quietly (set_state buf unit d) (set_state-Keeps buf unit d h)))
                            (λ _.
                              both_branches P (command == ioctl_get_unit_map)
                                (λ _. sized unit_map_size (get_unit_map buf unit d) (
                                  quietly (get_unit_map buf unit d)
                                    (get_unit_map-Keeps buf unit d h)))
                                (λ _.
                                  both_branches P (command == ioctl_set_unit_map)
                                    (λ _. sized unit_map_size (set_unit_map buf unit d) (
                                      quietly (set_unit_map buf unit d)
                                        (set_unit_map-Keeps buf unit d h)))
                                    (λ _.
                                      both_branches P (command == ioctl_nio_call)
                                        (λ call.
                                          sized call_size
                                            (nio_handle_control_call call_size svc buf unit d)
                                            (
                                              call-Follows buf unit d h,
                                              λ ne. absurd (ne (==→eq command ioctl_nio_call call)),
                                            ))
                                        (λ _. still)))))))) in
        let out = (handle_ioctl_buffer call_size svc unit count buf d).dos in
        record {
          lines = p.0;
          quiet = λ other.
              let same = p.1 other in
              (
                same,
                subst (λ s. All (IsCurrent (sector s) out.unit_slot) out.cache) (sym same) p.0,
              );
        }
