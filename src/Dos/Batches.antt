-- ===== src/Dos/Batches.antt =====
-- What the service of the DOS driver promises of a write, and one batch of Output_cmd.
use fujinet_nio_driver.Base.{
  ℕ, zero, suc, ◌+◌, ◌*◌, ◌%◌, ◌^◌, ◌≤◌, ◌<◌, ◌≡◌, ◌≢◌, ◌⊎◌, length, refl, subst, ap, sym, ◌∙◌,
  true, some, List, All, arith, take, drop,
}
use fujinet_nio_driver.Dos.Types.{sector_size, DiskService, Dos}
use fujinet_nio_driver.Dos.Cache.{cache_update_or_invalidate}
use fujinet_nio_driver.Dos.Input.{offset_of}
use fujinet_nio_driver.Dos.Output.{update_all, is_written}
use fujinet_nio_driver.Dos.Sectors.{drop-drop}
use fujinet_nio_driver.Dos.Coherence.{IsCurrent}
use fujinet_nio_driver.Dos.Writing.{IsUnique, IsApart, IsWritable, written, written_all}

-- A medium with the `n` sectors written that a pointer points to.
abbrev pub written_from : ℕ → (ℕ → ℕ → List ℕ) → ℕ → ℕ → List ℕ → ℕ → ℕ → List ℕ
written_from zero medium slot lba bytes = medium
written_from (suc n) medium slot lba bytes =
    written_from n (written medium slot lba (take sector_size bytes)) slot ((lba + 1) % 2 ^ 32)
      (drop sector_size bytes)

-- A transfer of `n` sectors from `lba` on that a service can be asked for in one call.
pub record IsTransfer (slot lba n : ℕ) (bytes : List ℕ) : Type 0 where
  pub slots : slot < 2 ^ 8
  pub sectors : lba + n ≤ 2 ^ 32
  pub small : n ≤ 127
  pub full : n * sector_size ≤ length bytes

-- A sector that is not among the `n` from `lba` on in the slot.
abbrev pub IsElsewhere : ℕ → ℕ → ℕ → ℕ → ℕ → Type 0
IsElsewhere slot lba n slot' lba' = (slot' ≢ slot) ⊎ ((lba' < lba) ⊎ (lba + n ≤ lba'))

-- A service that writes the sectors of a medium for each slot. A write that is reported as done has
-- put the sectors to the medium; one that is not may have done so in part or as a whole, as where
-- its answer is lost, but changes no other sector.
pub record WritesMedium {C : Type 0} (svc : DiskService C) (sector : C → ℕ → ℕ → List ℕ)
    : Type 0 where
  pub asked : (s : C) (slot : ℕ) → sector (svc.info s slot).1 ≡ sector s
  pub wrote :
      (s : C) (slot lba n : ℕ) (bytes : List ℕ)
      → IsTransfer slot lba n bytes
      → is_written (n * sector_size) (svc.write_sectors s slot lba n bytes (n * sector_size)).0
        ≡ true
      → sector (svc.write_sectors s slot lba n bytes (n * sector_size)).1
        ≡ written_from n (sector s) slot lba bytes
  pub failed :
      (s : C) (slot lba n : ℕ) (bytes : List ℕ)
      → IsTransfer slot lba n bytes
      → (slot' lba' : ℕ) → IsElsewhere slot lba n slot' lba'
      → sector (svc.write_sectors s slot lba n bytes (n * sector_size)).1 slot' lba'
        ≡ sector s slot' lba'

written_all-written_from :
    (n : ℕ) (medium : ℕ → ℕ → List ℕ) (slot lba done : ℕ) (buf bytes : List ℕ)
    → done + n ≤ 128
    → (1 ≤ n → drop (offset_of done) buf ≡ bytes)
    → written_all n medium slot lba done buf ≡ written_from n medium slot lba bytes
written_all-written_from zero medium slot lba done buf bytes h e = refl
written_all-written_from (suc n) medium slot lba done buf bytes h e =
    let here = e (omega arith) in
    let first : ℕ → ℕ → List ℕ =
      written medium slot lba (take sector_size (drop (offset_of done) buf)) in
    written_all-written_from n first slot ((lba + 1) % 2 ^ 32) (done + 1) buf
      (drop sector_size bytes) (omega arith)
      (λ more.
        drop-drop (offset_of done) sector_size (offset_of (done + 1)) buf (omega arith)
        ∙ ap (drop sector_size) here)
    ∙ ap
        (λ bs.
          written_from n (written medium slot lba (take sector_size bs)) slot ((lba + 1) % 2 ^ 32)
            (drop sector_size bytes))
        here

pub written_all-append :
    (m n k : ℕ) (medium : ℕ → ℕ → List ℕ) (slot lba done next place : ℕ) (buf : List ℕ)
    → k ≡ m + n
    → next ≡ lba + m
    → place ≡ done + m
    → lba + k < 2 ^ 32
    → written_all k medium slot lba done buf
      ≡ written_all n (written_all m medium slot lba done buf) slot next place buf
written_all-append zero n k medium slot lba done next place buf h1 h2 h3 h4 =
    let p : k ≡ n = omega arith in
    let q : lba ≡ next = omega arith in
    let r : done ≡ place = omega arith in λ i. written_all (p i) medium slot (q i) (r i) buf
written_all-append (suc m) n zero medium slot lba done next place buf h1 h2 h3 h4 =
    absurd (omega arith)
written_all-append (suc m) n (suc k) medium slot lba done next place buf h1 h2 h3 h4 =
    let wide : (lba + 1) % 2 ^ 32 ≡ lba + 1 = omega arith in
    written_all-append m n k
      (written medium slot lba (take sector_size (drop (offset_of done) buf))) slot
      ((lba + 1) % 2 ^ 32) (done + 1) next place buf (omega arith) (omega (arith, wide))
      (omega arith) (omega (arith, wide))

module _ {C : Type 0} where
  pub update_all-same :
      (n unit lba done : ℕ) (buf : List ℕ) (d : Dos C)
      → ((update_all n unit lba done buf d).ctx ≡ d.ctx)
        × ((update_all n unit lba done buf d).unit_slot ≡ d.unit_slot)
  unfolding update_all cache_update_or_invalidate
  update_all-same zero unit lba done buf d = (refl, refl)
  update_all-same (suc n) unit lba done buf d =
      let next = cache_update_or_invalidate unit lba (some (drop (offset_of done) buf)) d in
      let rest = update_all-same n unit ((lba + 1) % 2 ^ 32) (done + 1) buf next in (rest.0, rest.1)

  pub moved-IsWritable :
      (unit : ℕ) (medium medium' : ℕ → ℕ → List ℕ) (d e : Dos C)
      → e.cache ≡ d.cache
      → e.unit_slot ≡ d.unit_slot
      → medium ≡ medium'
      → IsWritable unit medium d
      → IsWritable unit medium' e
  moved-IsWritable unit medium medium' d e c s p w = record {
    unique = subst IsUnique (sym c) w.unique;
    apart =
        subst (λ ls. All (IsApart e.unit_slot unit) ls) (sym c)
          (subst (λ sl. All (IsApart sl unit) d.cache) (sym s) w.apart);
    current =
        subst (λ ls. All (IsCurrent medium' e.unit_slot) ls) (sym c)
          (subst (λ sl. All (IsCurrent medium' sl) d.cache) (sym s)
            (subst (λ m. All (IsCurrent m d.unit_slot) d.cache) p w.current));
  }

module _ {C : Type 0} (svc : DiskService C) (sector : C → ℕ → ℕ → List ℕ)
    (law : WritesMedium svc sector) where
  -- One write of a batch, with the size that the code gives.
  pub batch_writes :
      (s : C) (slot lba n done : ℕ) (buf : List ℕ)
      → IsTransfer slot lba n (drop (offset_of done) buf)
      → done + n ≤ 128
      → is_written
          (n * sector_size % 2 ^ 16)
          (svc.write_sectors s slot lba n (drop (offset_of done) buf) (n * sector_size % 2 ^ 16)).0
        ≡ true
      → sector
          (svc.write_sectors s slot lba n (drop (offset_of done) buf) (n * sector_size % 2 ^ 16)).1
        ≡ written_all n (sector s) slot lba done buf
  batch_writes s slot lba n done buf one few e =
      let bytes = drop (offset_of done) buf in
      let exact : n * sector_size % 2 ^ 16 ≡ n * sector_size = omega (arith, one.small) in
      subst
        (λ z.
          sector (svc.write_sectors s slot lba n bytes z).1
          ≡ written_all n (sector s) slot lba done buf)
        (sym exact)
        (law.wrote s slot lba n bytes one
            (subst (λ z. is_written z (svc.write_sectors s slot lba n bytes z).0 ≡ true) exact e)
          ∙ sym (written_all-written_from n (sector s) slot lba done buf bytes few (λ _. refl)))

  pub batch_fails :
      (s : C) (slot lba n : ℕ) (bytes : List ℕ)
      → IsTransfer slot lba n bytes
      → (slot' lba' : ℕ) → IsElsewhere slot lba n slot' lba'
      → sector (svc.write_sectors s slot lba n bytes (n * sector_size % 2 ^ 16)).1 slot' lba'
        ≡ sector s slot' lba'
  batch_fails s slot lba n bytes one slot' lba' away =
      let exact : n * sector_size % 2 ^ 16 ≡ n * sector_size = omega (arith, one.small) in
      subst
        (λ z. sector (svc.write_sectors s slot lba n bytes z).1 slot' lba' ≡ sector s slot' lba')
        (sym exact) (law.failed s slot lba n bytes one slot' lba' away)
