-- ===== src/Dos/Stale.antt =====
-- commands.c: where the sector cache outlives what it was read from.
use fujinet_nio_driver.Base.{
  ℕ, ◌<◌, ◌≡◌, refl, subst, ap, sym, ◌∙◌, ◌⊎◌, inl, inr, true, false, ◌&&◌, Option, some, List, [],
  ◌∷◌, ◌++◌, append_assoc, All, arith, leb, leb→le, ◌==◌, both_branches, get_or, set,
  get_or-set_self, length, take,
}
use fujinet_nio_driver.Dos.Types.{max_dev, sector_size, op_complete, bpb_at, Line, DiskService, Dos}
use fujinet_nio_driver.Dos.Cache.{
  blank_line, slot_of, holds, cache_find, cached_bytes, cache_store, update_lines,
  cache_update_or_invalidate, disk_info_cached,
}
use fujinet_nio_driver.Dos.Input.{copy_at, blank_bpb}
use fujinet_nio_driver.Dos.Media.{BpbBuilt, says_empty, media_check_cmd, take_bpb, build_bpb_cmd}

module _ (unit lba : ℕ) where
  abbrev Missing : List Line → Type 0
  Missing = All (λ (l : Line). holds unit lba l ≡ false)

  -- The first line that holds a sector is the one that is found.
  cache_find-append :
      (front : List Line) (l : Line) (back : List Line)
      → Missing front
      → holds unit lba l ≡ true
      → cache_find (front ++ (l ∷ back)) unit lba ≡ some (length front)
  unfolding cache_find
  cache_find-append [] l back m h = rw h refl
  cache_find-append (x ∷ front) l back m h = rw (m.0, cache_find-append front l back m.1 h) refl

set-append :
    (front : List Line) (l v : Line) (back : List Line)
    → set (front ++ (l ∷ back)) (length front) v ≡ front ++ (v ∷ back)
set-append [] l v back = refl
set-append (x ∷ front) l v back = ap (λ ls. x ∷ ls) (set-append front l v back)

get_or-append :
    (front : List Line) (l d : Line) (back : List Line)
    → get_or (front ++ (l ∷ back)) (length front) d ≡ l
get_or-append [] l d back = refl
get_or-append (x ∷ front) l d back = get_or-append front l d back

module _ (unit lba : ℕ) where
  Missing-append :
      (xs ys : List Line) → Missing unit lba xs → Missing unit lba ys → Missing unit lba (xs ++ ys)
  Missing-append [] ys a b = b
  Missing-append (x ∷ xs) ys a b = (a.0, Missing-append xs ys a.1 b)

  update_lines-append :
      (front rest : List Line) (first : Line) (new : List ℕ)
      → Missing unit lba front
      → holds unit lba first ≡ true
      → update_lines (front ++ (first ∷ rest)) unit lba (some new)
        ≡ front ++ (record first { bytes = take sector_size new } ∷ rest)
  unfolding update_lines
  update_lines-append front rest first new m h =
      rw (update_lines, cache_find-append unit lba front first rest m h)
        (ap
            (λ (l : Line).
              set (front ++ (first ∷ rest)) (length front)
                (record l { bytes = take sector_size new }))
            (get_or-append front first blank_line rest)
          ∙ set-append front first (record first { bytes = take sector_size new }) rest)

module _ {C : Type 0} (unit lba : ℕ) (front mid back : List Line) (first second : Line)
    (front_misses : Missing unit lba front) (mid_misses : Missing unit lba mid)
    (first_holds : holds unit lba first ≡ true) (second_holds : holds unit lba second ≡ true) where
  -- Where two lines hold a sector, a write to it changes the first of them only: once the next
  -- sector that is stored takes the place of that line, a read of the sector finds the bytes of the
  -- second line, from before the write.
  pub cache_update-stale :
      (new other : List ℕ) (unit' lba' : ℕ) (d : Dos C)
      → (unit' == unit) && (lba' == lba) ≡ false
      → d.cache ≡ front ++ (first ∷ (mid ++ (second ∷ back)))
      → d.cache_next ≡ length front
      → (i : ℕ) × (cache_find
            (cache_store unit' lba' other (cache_update_or_invalidate unit lba (some new) d)).cache
            unit
            lba
          ≡ some i)
        × (cached_bytes
              (cache_store unit' lba' other
                (cache_update_or_invalidate unit lba (some new) d)).cache
              i
            ≡ second.bytes)
  unfolding cache_store cache_update_or_invalidate update_lines cached_bytes
  cache_update-stale new other unit' lba' d differs lines next =
      let fresh : Line = record {
        valid = true;
        unit = unit';
        lba = lba';
        bytes = take sector_size other;
      } in
      let rest = mid ++ (second ∷ back) in
      let after =
        (cache_store unit' lba' other (cache_update_or_invalidate unit lba (some new) d)).cache in
      let now : after ≡ (front ++ (fresh ∷ mid)) ++ (second ∷ back) =
        ap (λ n. set (update_lines d.cache unit lba (some new)) n fresh) next
        ∙ ap (λ ls. set (update_lines ls unit lba (some new)) (length front) fresh) lines
        ∙ ap (λ ls. set ls (length front) fresh)
            (update_lines-append unit lba front rest first new front_misses first_holds)
        ∙ set-append front (record first { bytes = take sector_size new }) fresh rest
        ∙ sym (append_assoc front (fresh ∷ mid) (second ∷ back)) in
      let missing : Missing unit lba (front ++ (fresh ∷ mid)) =
        Missing-append unit lba front (fresh ∷ mid) front_misses (differs, mid_misses) in
      (
        length (front ++ (fresh ∷ mid)),
        ap (λ ls. cache_find ls unit lba) now
            ∙ cache_find-append unit lba (front ++ (fresh ∷ mid)) second back missing second_holds,
        ap (λ ls. (get_or ls (length (front ++ (fresh ∷ mid))) blank_line).bytes) now
            ∙ ap (λ (l : Line). l.bytes)
                (get_or-append (front ++ (fresh ∷ mid)) second blank_line back),
      )

module _ {C : Type 0} (svc : DiskService C) where
  disk_info_cached-cache :
      (unit : ℕ) (d : Dos C)
      → ((disk_info_cached svc unit d).1.cache ≡ d.cache)
        × ((disk_info_cached svc unit d).1.bpb_table ≡ d.bpb_table)
  unfolding disk_info_cached
  disk_info_cached-cache unit d = (ground arith, ground arith)

  media_check_cmd-cache :
      (unit info : ℕ) (d : Dos C)
      → ((media_check_cmd svc unit info d).dos.cache ≡ d.cache)
        × ((media_check_cmd svc unit info d).dos.bpb_table ≡ d.bpb_table)
  unfolding media_check_cmd
  media_check_cmd-cache unit info d = (
    ground (arith, (disk_info_cached-cache unit d).0),
    ground (arith, (disk_info_cached-cache unit d).1),
  )

  -- What Build_bpb_cmd gives from bytes that it has put to the buffer.
  pub BuiltFrom : ℕ → List ℕ → BpbBuilt C → Type 0
  BuiltFrom unit bytes b =
      (b.status ≡ op_complete)
      × (b.buf ≡ bytes)
      × (get_or b.dos.bpb_table unit blank_bpb ≡ bpb_at bytes 0x0b)

  -- What Build_bpb_cmd gives for a unit that the service tells to be empty, where `d` is the driver
  -- before the media check and `checked` behind it.
  pub IsEmptyUnit : ℕ → List ℕ → Dos C → Dos C → BpbBuilt C → Type 0
  IsEmptyUnit unit buf d checked b =
      (says_empty (disk_info_cached svc unit checked).0 ≡ true)
      × (b.status ≡ op_complete)
      × (b.buf ≡ buf)
      × (b.dos.bpb_table ≡ d.bpb_table)

  take_bpb-BuiltFrom :
      (unit : ℕ) (bytes : List ℕ) (d : Dos C)
      → unit < length d.bpb_table
      → BuiltFrom unit bytes (take_bpb svc unit bytes d)
  unfolding take_bpb BuiltFrom
  take_bpb-BuiltFrom unit bytes d h = (
    refl,
    refl,
    both_branches (λ (e : Dos C). get_or e.bpb_table unit blank_bpb ≡ bpb_at bytes 0x0b)
        (svc.clear_changed d.ctx (slot_of d.unit_slot unit)).0
        (λ _. get_or-set_self d.bpb_table unit (bpb_at bytes 0x0b) blank_bpb h)
        (λ _. get_or-set_self d.bpb_table unit (bpb_at bytes 0x0b) blank_bpb h),
  )

  -- A media check keeps the sector cache, also where it reports a changed medium: if the cache holds
  -- the first sector of a unit, the parameter block that is built after the check comes from that
  -- line and is reported as built, unless the service tells that the unit is empty, where the request
  -- ends as done and leaves the buffer and the blocks as they are.
  pub media_check_cmd-build_bpb_cmd :
      (unit info i : ℕ) (table : Option ℕ) (buf : List ℕ) (d : Dos C)
      → unit < max_dev
      → unit < length d.bpb_table
      → cache_find d.cache unit 0 ≡ some i
      → IsEmptyUnit unit buf d
          (media_check_cmd svc unit info d).dos
          (build_bpb_cmd svc unit table buf (media_check_cmd svc unit info d).dos)
        ⊎ BuiltFrom unit
            (copy_at buf 0 (cached_bytes d.cache i))
            (build_bpb_cmd svc unit table buf (media_check_cmd svc unit info d).dos)
  unfolding build_bpb_cmd IsEmptyUnit
  media_check_cmd-build_bpb_cmd unit info i table buf d h wide found =
      let checked = (media_check_cmd svc unit info d).dos in
      let asked = (disk_info_cached svc unit checked).1 in
      let same : asked.cache ≡ d.cache =
        (disk_info_cached-cache unit checked).0 ∙ (media_check_cmd-cache unit info d).0 in
      let hit : cache_find asked.cache unit 0 ≡ some i =
        ap (λ ls. cache_find ls unit 0) same ∙ found in
      let long : unit < length asked.bpb_table =
        rw ((disk_info_cached-cache unit checked).1, (media_check_cmd-cache unit info d).1) wide in
      let bytes = copy_at buf 0 (cached_bytes d.cache i) in
      let P : BpbBuilt C → Type 0 =
        λ b. IsEmptyUnit unit buf d checked b ⊎ BuiltFrom unit bytes b in
      both_branches P (leb max_dev unit) (λ e. absurd (omega (arith, leb→le max_dev unit e)))
        (λ _.
          both_branches P (says_empty (disk_info_cached svc unit checked).0)
            (λ empty. inl (
              empty,
              refl,
              refl,
              (disk_info_cached-cache unit checked).1 ∙ (media_check_cmd-cache unit info d).1,
            ))
            (λ _. rw hit (
              inr (
                subst
                  (λ ls.
                    BuiltFrom unit bytes
                      (take_bpb svc unit (copy_at buf 0 (cached_bytes ls i)) asked))
                  (sym same) (take_bpb-BuiltFrom unit bytes asked long)))))
