-- ===== src/Dos/Writing.antt =====
-- Output_cmd and the sector cache: the lines follow what is written, where no sector has two lines.
use fujinet_nio_driver.Base.{
  ℕ, zero, suc, ◌+◌, ◌%◌, ◌^◌, ◌≡◌, ◌≢◌, refl, ap, sym, ◌∙◌, true, false, ◌&&◌, Option, none, some,
  List, [], ◌∷◌, All, arith, ◌==◌, ==→eq, ==→ne, Bool-cases, inl, inr, and_true, both_branches,
  both_options, set, get_or, take, drop, if◌then◌else◌,
}
use fujinet_nio_driver.Dos.Types.{sector_size, Line, Dos}
use fujinet_nio_driver.Dos.Cache.{
  blank_line, slot_of, holds, cache_find, update_lines, cache_update_or_invalidate,
}
use fujinet_nio_driver.Dos.Input.{offset_of}
use fujinet_nio_driver.Dos.Output.{update_all}
use fujinet_nio_driver.Dos.Coherence.{IsCurrent}

-- Two valid lines of one unit hold different sectors.
abbrev Differs : Line → Line → Type 0
Differs l l' = l.valid ≡ true → l'.valid ≡ true → l.unit ≡ l'.unit → l.lba ≢ l'.lba

abbrev pub IsUnique : List Line → Type 0
IsUnique [] = Unit
IsUnique (l ∷ ls) = All (Differs l) ls × IsUnique ls

-- A medium with one sector written.
abbrev pub written : (ℕ → ℕ → List ℕ) → ℕ → ℕ → List ℕ → ℕ → ℕ → List ℕ
written medium slot lba bytes slot' lba' =
    if (slot' == slot) && (lba' == lba) then bytes else medium slot' lba'

-- The unit shares its slot with no other unit that has a line.
abbrev pub IsApart : List ℕ → ℕ → Line → Type 0
IsApart slots unit l = l.valid ≡ true → l.unit ≢ unit → slot_of slots l.unit ≢ slot_of slots unit

true≢false : ¬ (true ≡ false)
true≢false h = cc

both_eq : (a b c d : ℕ) → a ≡ b → c ≡ d → (a == b) && (c == d) ≡ true
both_eq a b c d h k = ground arith

holds-true :
    (unit lba : ℕ) (l : Line)
    → l.valid ≡ true
    → l.unit ≡ unit
    → l.lba ≡ lba
    → holds unit lba l ≡ true
holds-true unit lba l valid same place = ground arith

-- New bytes for a line.
abbrev put : List Line → ℕ → List ℕ → List Line
put ls i bytes = set ls i (record (get_or ls i blank_line) { bytes = bytes })

All-put :
    (P : Line → Type 0)
    → ((l : Line) (bytes : List ℕ) → P l → P (record l { bytes = bytes }))
    → (ls : List Line) (i : ℕ) (bytes : List ℕ) → All P ls
    → All P (put ls i bytes)
All-put P keep [] i bytes all = all
All-put P keep (x ∷ ls) zero bytes all = (keep x bytes all.0, all.1)
All-put P keep (x ∷ ls) (suc i) bytes all = (all.0, All-put P keep ls i bytes all.1)

IsUnique-put : (ls : List Line) (i : ℕ) (bytes : List ℕ) → IsUnique ls → IsUnique (put ls i bytes)
IsUnique-put [] i bytes u = u
IsUnique-put (x ∷ ls) zero bytes u = u
IsUnique-put (x ∷ ls) (suc i) bytes u =
    (All-put (Differs x) (λ l b d. d) ls i bytes u.0, IsUnique-put ls i bytes u.1)

module _ (medium : ℕ → ℕ → List ℕ) (slots : List ℕ) (unit lba : ℕ) (source : List ℕ) where
  abbrev after : ℕ → ℕ → List ℕ
  after = written medium (slot_of slots unit) lba (take sector_size source)

  -- A line of another sector is as current as before.
  other-IsCurrent :
      (l : Line)
      → IsApart slots unit l
      → (l.valid ≡ true → l.unit ≡ unit → l.lba ≢ lba)
      → IsCurrent medium slots l
      → IsCurrent after slots l
  unfolding IsCurrent
  other-IsCurrent l apart ne h valid =
      both_branches (λ bs. l.bytes ≡ bs)
        ((slot_of slots l.unit == slot_of slots unit) && (l.lba == lba))
        (λ e.
          let both = and_true (slot_of slots l.unit == slot_of slots unit) (l.lba == lba) e in
          let place = ==→eq l.lba lba both.1 in
          absurd (elim (Bool-cases (l.unit == unit)) [
            | inl same ↦ ne valid (==→eq l.unit unit same) place
            | inr differ ↦
                apart valid (==→ne l.unit unit differ)
                  (==→eq (slot_of slots l.unit) (slot_of slots unit) both.0)
          ]))
        (λ _. h valid)

  others-IsCurrent :
      (l : Line) (ls : List Line)
      → holds unit lba l ≡ true
      → All (Differs l) ls
      → All (IsApart slots unit) ls
      → All (IsCurrent medium slots) ls
      → All (IsCurrent after slots) ls
  others-IsCurrent l [] h d a c = tt
  others-IsCurrent l (x ∷ ls) h d a c =
      let both = and_true (l.valid && (l.unit == unit)) (l.lba == lba) h in
      let front = and_true l.valid (l.unit == unit) both.0 in
      (
        other-IsCurrent x a.0
            (λ valid same place.
              d.0 front.0 valid (==→eq l.unit unit front.1 ∙ sym same)
                (==→eq l.lba lba both.1 ∙ sym place))
            c.0,
        others-IsCurrent l ls h d.1 a.1 c.1,
      )

  found-IsCurrent :
      (l : Line)
      → holds unit lba l ≡ true
      → IsCurrent after slots (record l { bytes = take sector_size source })
  unfolding IsCurrent
  found-IsCurrent l h valid =
      let both = and_true (l.valid && (l.unit == unit)) (l.lba == lba) h in
      let front = and_true l.valid (l.unit == unit) both.0 in
      both_branches (λ bs. take sector_size source ≡ bs)
        ((slot_of slots l.unit == slot_of slots unit) && (l.lba == lba)) (λ _. refl)
        (λ no.
          let yes =
            both_eq (slot_of slots l.unit) (slot_of slots unit) l.lba lba
              (ap (slot_of slots) (==→eq l.unit unit front.1)) (==→eq l.lba lba both.1) in
          absurd (true≢false (sym yes ∙ no)))

  abbrev updated : List Line → Option ℕ → List Line
  updated ls found = elim found as (λ _. List Line) [
    | none ↦ ls
    | some i ↦ put ls i (take sector_size source)
  ]

  updated-IsCurrent :
      (ls : List Line)
      → IsUnique ls
      → All (IsApart slots unit) ls
      → All (IsCurrent medium slots) ls
      → All (IsCurrent after slots) (updated ls (cache_find ls unit lba))
  unfolding cache_find
  updated-IsCurrent [] u a c = tt
  updated-IsCurrent (l ∷ ls) u a c =
      let P : Option ℕ → Type 0 = λ o. All (IsCurrent after slots) (updated (l ∷ ls) o) in
      both_branches P (holds unit lba l)
        (λ h. (found-IsCurrent l h, others-IsCurrent l ls h u.0 a.1 c.1))
        (λ no.
          let rest = updated-IsCurrent ls u.1 a.1 c.1 in
          let mine =
            other-IsCurrent l a.0
              (λ valid same place. true≢false (sym (holds-true unit lba l valid same place) ∙ no))
              c.0 in
          both_options P (cache_find ls unit lba) {x = none} {f = λ k. some (suc k)}
            (λ e. (mine, rw e at rest)) (λ k e. (mine, rw e at rest)))

-- A medium with `n` sectors written from `lba` on, out of a buffer from the sector `done` on.
abbrev pub written_all : ℕ → (ℕ → ℕ → List ℕ) → ℕ → ℕ → ℕ → List ℕ → ℕ → ℕ → List ℕ
written_all zero medium slot lba done buf = medium
written_all (suc n) medium slot lba done buf =
    written_all n (written medium slot lba (take sector_size (drop (offset_of done) buf))) slot
      ((lba + 1) % 2 ^ 32) (done + 1) buf

-- What a driver must keep to for its cache to follow its writes: no sector has two lines, and no
-- other unit with a line shares the slot of the unit that is written.
pub record IsWritable {C : Type 0} (unit : ℕ) (medium : ℕ → ℕ → List ℕ) (d : Dos C) : Type 0 where
  pub unique : IsUnique d.cache
  pub apart : All (IsApart d.unit_slot unit) d.cache
  pub current : All (IsCurrent medium d.unit_slot) d.cache

module _ {C : Type 0} where
  update-IsWritable :
      (unit lba : ℕ) (source : List ℕ) (medium : ℕ → ℕ → List ℕ) (d : Dos C)
      → IsWritable unit medium d
      → IsWritable unit
          (written medium (slot_of d.unit_slot unit) lba (take sector_size source))
          (cache_update_or_invalidate unit lba (some source) d)
  unfolding cache_update_or_invalidate update_lines
  update-IsWritable unit lba source medium d w =
      let bytes = take sector_size source in
      record {
        unique =
            both_options IsUnique (cache_find d.cache unit lba) {x = d.cache}
              {f = λ i. put d.cache i bytes} (λ _. w.unique)
              (λ i _. IsUnique-put d.cache i bytes w.unique);
        apart =
            both_options (All (IsApart d.unit_slot unit)) (cache_find d.cache unit lba)
              {x = d.cache} {f = λ i. put d.cache i bytes} (λ _. w.apart)
              (λ i _. All-put (IsApart d.unit_slot unit) (λ l b a. a) d.cache i bytes w.apart);
        current =
            updated-IsCurrent medium d.unit_slot unit lba source d.cache w.unique w.apart w.current;
      }

  -- After the lines of a batch are updated, every valid line holds its sector of the medium with the
  -- batch written to it. No sector has two lines before, and the unit that is written shares its
  -- slot with no other unit that has a line.
  pub update_all-IsWritable :
      (n unit lba done : ℕ) (buf : List ℕ) (medium : ℕ → ℕ → List ℕ) (d : Dos C)
      → IsWritable unit medium d
      → IsWritable unit
          (written_all n medium (slot_of d.unit_slot unit) lba done buf)
          (update_all n unit lba done buf d)
  unfolding update_all
  update_all-IsWritable zero unit lba done buf medium d w = w
  update_all-IsWritable (suc n) unit lba done buf medium d w =
      let source = drop (offset_of done) buf in
      let next = cache_update_or_invalidate unit lba (some source) d in
      unfold cache_update_or_invalidate in
      update_all-IsWritable n unit ((lba + 1) % 2 ^ 32) (done + 1) buf
        (written medium (slot_of d.unit_slot unit) lba (take sector_size source)) next
        (update-IsWritable unit lba source medium d w)
