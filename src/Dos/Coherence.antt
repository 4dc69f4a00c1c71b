-- ===== src/Dos/Coherence.antt =====
-- commands.c: what the driver relies on from the disk service when it reads, and the sector cache as
-- a part of the medium.
use fujinet_nio_driver.Base.{
  ℕ, zero, suc, ◌+◌, ◌-◌, ◌*◌, ◌%◌, ◌^◌, ◌≤◌, ◌<◌, ◌≡◌, refl, ap₂, sym, ◌∙◌, true, ◌&&◌, Option,
  none, some, List, [], ◌∷◌, arith, ◌==◌, ==→eq, and_true, All-set, some_inj, some_ne_none,
  both_options, take, drop, length, get_or, All, both_branches,
}
use fujinet_nio_driver.Dos.Types.{sector_size, Line, DiskService, Dos}
use fujinet_nio_driver.Dos.Cache.{blank_line, slot_of, holds, cache_find, cached_bytes, cache_store}
use fujinet_nio_driver.Dos.Input.{offset_of, store_all}
use fujinet_nio_driver.Dos.Sectors.{sectors}

-- A service that reads the sectors of a medium for each slot, which reads do not change.
pub record ReadsMedium {C : Type 0} (svc : DiskService C) (sector : C → ℕ → ℕ → List ℕ)
    : Type 0 where
  pub sized : (s : C) (slot lba : ℕ) → length (sector s slot lba) ≡ sector_size
  pub kept :
      (s : C) (slot lba n need slot' lba' : ℕ)
      → sector (svc.read_sectors s slot lba n need).1 slot' lba' ≡ sector s slot' lba'
  pub fits :
      (s : C) (slot lba n need : ℕ) (bytes : List ℕ)
      → (svc.read_sectors s slot lba n need).0 ≡ some bytes
      → length bytes ≤ need
  pub right :
      (s : C) (slot lba n need : ℕ) (bytes : List ℕ)
      → (svc.read_sectors s slot lba n need).0 ≡ some bytes
      → n * sector_size ≤ length bytes
      → bytes ≡ sectors (sector s slot) lba n

-- A valid line holds its sector of the medium in the slot of its unit.
unfoldable pub IsCurrent : (ℕ → ℕ → List ℕ) → List ℕ → Line → Type 0
IsCurrent medium slots l = l.valid ≡ true → l.bytes ≡ medium (slot_of slots l.unit) l.lba

module _ (medium : ℕ → ℕ → List ℕ) (slots : List ℕ) where
  holds_current :
      (unit lba : ℕ) (l : Line)
      → IsCurrent medium slots l
      → holds unit lba l ≡ true
      → l.bytes ≡ medium (slot_of slots unit) lba
  unfolding IsCurrent
  holds_current unit lba l current h =
      let both = and_true (l.valid && (l.unit == unit)) (l.lba == lba) h in
      let front = and_true l.valid (l.unit == unit) both.0 in
      current front.0
      ∙ ap₂ (λ u k. medium (slot_of slots u) k) (==→eq l.unit unit front.1) (==→eq l.lba lba both.1)

  pub cached_bytes_current :
      (ls : List Line) (unit lba : ℕ)
      → All (IsCurrent medium slots) ls
      → (i : ℕ) → cache_find ls unit lba ≡ some i
      → cached_bytes ls i ≡ medium (slot_of slots unit) lba
  unfolding cache_find cached_bytes
  cached_bytes_current [] unit lba all = λ i h. absurd (some_ne_none (sym h))
  cached_bytes_current (l ∷ ls) unit lba all =
      let P : Option ℕ → Type 0 = λ o.
        (i : ℕ)
        → o ≡ some i
        → (get_or (l ∷ ls) i blank_line).bytes ≡ medium (slot_of slots unit) lba in
      both_branches P (holds unit lba l)
        (λ b i e. let z : i ≡ 0 = sym (some_inj e) in rw z (holds_current unit lba l all.0 b))
        (λ _.
          both_options P (cache_find ls unit lba) {x = none} {f = λ k. some (suc k)}
            (λ _ i e. absurd (some_ne_none (sym e)))
            (λ k found i e.
              let z : i ≡ suc k = sym (some_inj e) in
              rw z (cached_bytes_current ls unit lba all.1 k found)))

-- The medium is still `medium`, the lines hold it, a batch has 1 to `high` sectors, and there are at
-- most 254 retries.
pub record Follows {C : Type 0} (sector : C → ℕ → ℕ → List ℕ) (medium : ℕ → ℕ → List ℕ)
    (slots : List ℕ) (high : ℕ) (d : Dos C) : Type 0 where
  pub same_medium : (slot lba : ℕ) → sector d.ctx slot lba ≡ medium slot lba
  pub same_slots : d.unit_slot ≡ slots
  pub lines : All (IsCurrent medium slots) d.cache
  pub low : 1 ≤ d.batch_sectors
  pub limit : d.batch_sectors ≤ high
  pub patient : d.io_retries < 2 ^ 8 - 1

module _ {C : Type 0} (sector : C → ℕ → ℕ → List ℕ) (medium : ℕ → ℕ → List ℕ) (slots : List ℕ)
    (high : ℕ) where
  cache_store-Follows :
      (unit lba : ℕ) (source : List ℕ) (d : Dos C)
      → take sector_size source ≡ medium (slot_of slots unit) lba
      → Follows sector medium slots high d
      → Follows sector medium slots high (cache_store unit lba source d)
  unfolding cache_store IsCurrent
  cache_store-Follows unit lba source d right f = record {
    same_medium = f.same_medium;
    same_slots = f.same_slots;
    lines = All-set (IsCurrent medium slots) d.cache d.cache_next _ f.lines (λ _. right);
    low = f.low;
    limit = f.limit;
    patient = f.patient;
  }

  -- Storing sectors that stand in the buffer keeps the lines current.
  pub store_all-Follows :
      (left unit lba done : ℕ) (buf : List ℕ) (d : Dos C)
      → ((i place k : ℕ)
          → i < left
          → place ≡ done + i
          → k ≡ lba + i
          → take sector_size (drop (offset_of place) buf) ≡ medium (slot_of slots unit) k)
      → lba + left < 2 ^ 32
      → Follows sector medium slots high d
      → Follows sector medium slots high (store_all left unit lba done buf d)
  unfolding store_all
  store_all-Follows zero unit lba done buf d right h f = f
  store_all-Follows (suc left) unit lba done buf d right h f =
      let next : (lba + 1) % 2 ^ 32 ≡ lba + 1 = omega arith in
      let here : take sector_size (drop (offset_of done) buf) ≡ medium (slot_of slots unit) lba =
        right 0 done lba (omega arith) (omega arith) (omega arith) in
      store_all-Follows left unit ((lba + 1) % 2 ^ 32) (done + 1) buf
        (cache_store unit lba (drop (offset_of done) buf) d)
        (λ i place k less p q.
          right (suc i) place k (omega arith) (omega arith) (omega (arith, q, next)))
        (omega (arith, next)) (cache_store-Follows unit lba (drop (offset_of done) buf) d here f)

-- The limits of the transfers are as they were.
abbrev pub SameLimits : {C : Type 0} → Dos C → Dos C → Type 0
SameLimits d e = (e.batch_sectors ≡ d.batch_sectors) × (e.io_retries ≡ d.io_retries)

pub store_all-limits :
    {C : Type 0} (left unit lba done : ℕ) (buf : List ℕ) (d : Dos C)
    → SameLimits d (store_all left unit lba done buf d)
unfolding store_all cache_store
store_all-limits zero unit lba done buf d = (refl, refl)
store_all-limits (suc left) unit lba done buf d =
    store_all-limits left unit ((lba + 1) % 2 ^ 32) (done + 1) buf
      (cache_store unit lba (drop (offset_of done) buf) d)
