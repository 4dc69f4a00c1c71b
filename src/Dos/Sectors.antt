-- ===== src/Dos/Sectors.antt =====
-- Sectors in a buffer: consecutive sectors of a medium, and copies into memory.
use fujinet_nio_driver.Base.{
  ℕ, zero, suc, ◌+◌, ◌*◌, ◌≤◌, ◌<◌, ◌≡◌, refl, ap, sym, ap₂, ◌∙◌, List, [], ◌∷◌, ◌++◌, append_assoc,
  arith, take, drop, length, length-append, length-take, length-drop,
}
use fujinet_nio_driver.Dos.Types.{sector_size}
use fujinet_nio_driver.Dos.Input.{copy_at}

module _ {ℓ} {A : Type ℓ} where
  pub take-take : (a b : ℕ) (xs : List A) → a ≤ b → take a (take b xs) ≡ take a xs
  take-take zero b xs h = refl
  take-take (suc a) zero xs h = absurd (omega arith)
  take-take (suc a) (suc b) [] h = refl
  take-take (suc a) (suc b) (x ∷ xs) h = ap (λ ys. x ∷ ys) (take-take a b xs (omega arith))

  pub take-append : (xs ys : List A) (n : ℕ) → n ≡ length xs → take n (xs ++ ys) ≡ xs
  take-append [] ys zero h = refl
  take-append [] ys (suc n) h = absurd (omega arith)
  take-append (x ∷ xs) ys zero h = absurd (omega arith)
  take-append (x ∷ xs) ys (suc n) h = ap (λ zs. x ∷ zs) (take-append xs ys n (omega arith))

  pub drop-append : (xs ys : List A) (n : ℕ) → n ≡ length xs → drop n (xs ++ ys) ≡ ys
  drop-append [] ys zero h = refl
  drop-append [] ys (suc n) h = absurd (omega arith)
  drop-append (x ∷ xs) ys zero h = absurd (omega arith)
  drop-append (x ∷ xs) ys (suc n) h = drop-append xs ys n (omega arith)

  pub drop-drop : (a b n : ℕ) (xs : List A) → n ≡ a + b → drop n xs ≡ drop b (drop a xs)
  drop-drop zero b n xs h = ap (λ k. drop k xs) {x = n} {y = b} (omega arith)
  drop-drop (suc a) b zero xs h = absurd (omega arith)
  drop-drop (suc a) zero (suc n) [] h = refl
  drop-drop (suc a) (suc b) (suc n) [] h = refl
  drop-drop (suc a) b (suc n) (x ∷ xs) h = drop-drop a b n xs (omega arith)

  pub take-drop : (a b n : ℕ) (xs : List A) → n ≡ a + b → take b (drop a xs) ≡ drop a (take n xs)
  take-drop zero b n xs h = ap (λ k. take k xs) {x = b} {y = n} (omega arith)
  take-drop (suc a) b zero xs h = absurd (omega arith)
  take-drop (suc a) zero (suc n) [] h = refl
  take-drop (suc a) (suc b) (suc n) [] h = refl
  take-drop (suc a) b (suc n) (x ∷ xs) h = take-drop a b n xs (omega arith)

module _ (buf : List ℕ) (off : ℕ) (bytes : List ℕ) (fits : off + length bytes ≤ length buf) where
  pub length-copy_at : length (copy_at buf off bytes) ≡ length buf
  unfolding copy_at
  length-copy_at = omega (
    arith,
    fits,
    length-append (take off buf ++ bytes) (drop (off + length bytes) buf),
    length-append (take off buf) bytes,
    length-take off buf,
    length-drop (off + length bytes) buf,
  )

  -- Behind a copy, the buffer up to its end is the buffer up to its start and the bytes.
  pub take-copy_at : take (off + length bytes) (copy_at buf off bytes) ≡ take off buf ++ bytes
  unfolding copy_at
  take-copy_at =
      take-append (take off buf ++ bytes) (drop (off + length bytes) buf) (off + length bytes)
        (omega (arith, fits, length-append (take off buf) bytes, length-take off buf))

  pub take-copy_at_before : take off (copy_at buf off bytes) ≡ take off buf
  unfolding copy_at
  take-copy_at_before = rw (append_assoc (take off buf) bytes (drop (off + length bytes) buf)) (
      take-append (take off buf) (bytes ++ drop (off + length bytes) buf) off
        (omega (arith, fits, length-take off buf)))

-- `n` sectors of a medium from `lba` on.
abbrev pub sectors : (ℕ → List ℕ) → ℕ → ℕ → List ℕ
sectors f lba zero = []
sectors f lba (suc n) = f lba ++ sectors f (lba + 1) n

module _ (f : ℕ → List ℕ) where
  pub sectors-append :
      (lba m n k next : ℕ)
      → k ≡ m + n
      → next ≡ lba + m
      → sectors f lba k ≡ sectors f lba m ++ sectors f next n
  sectors-append lba zero n k next h e =
      let place : lba ≡ next = omega arith in
      let number : k ≡ n = omega arith in ap₂ (sectors f) place number
  sectors-append lba (suc m) n zero next h e = absurd (omega arith)
  sectors-append lba (suc m) n (suc k) next h e = rw (
    sectors-append (lba + 1) m n k next (omega arith) (omega arith),
    append_assoc (f lba) (sectors f (lba + 1) m) (sectors f next n),
  )

  module _ (sized : (lba : ℕ) → length (f lba) ≡ sector_size) where
    pub length-sectors : (lba n : ℕ) → length (sectors f lba n) ≡ n * sector_size
    length-sectors lba zero = refl
    length-sectors lba (suc n) = omega (
      arith,
      length-append (f lba) (sectors f (lba + 1) n),
      sized lba,
      length-sectors (lba + 1) n,
    )

    -- One of the sectors, cut out of them.
    pub take-drop-sectors :
        (lba n i off : ℕ)
        → i < n
        → off ≡ i * sector_size
        → take sector_size (drop off (sectors f lba n)) ≡ f (lba + i)
    take-drop-sectors lba zero i off h e = absurd (omega arith)
    take-drop-sectors lba (suc n) zero zero h e =
        take-append (f lba) (sectors f (lba + 1) n) sector_size (omega (arith, sized lba))
        ∙ ap f (omega arith)
    take-drop-sectors lba (suc n) zero (suc off) h e = absurd (omega arith)
    take-drop-sectors lba (suc n) (suc i) off h e =
        let first = f lba in
        let rest = sectors f (lba + 1) n in
        let skip : drop off (first ++ rest) ≡ drop (i * sector_size) rest =
          drop-drop sector_size (i * sector_size) off (first ++ rest) (omega arith)
          ∙ ap (drop (i * sector_size))
              (drop-append first rest sector_size (omega (arith, sized lba))) in
        ap (take sector_size) skip
        ∙ take-drop-sectors (lba + 1) n i (i * sector_size) (omega arith) refl
        ∙ ap f (omega arith)

-- A piece that stands in the first `n` bytes.
pub take-drop-take :
    (a b n : ℕ) (xs : List ℕ) → a + b ≤ n → take b (drop a xs) ≡ take b (drop a (take n xs))
take-drop-take a b n xs h =
    take-drop a b (a + b) xs refl
    ∙ ap (drop a) (sym (take-take (a + b) n xs h))
    ∙ sym (take-drop a b (a + b) (take n xs) refl)

-- Sectors behind sectors in a buffer.
pub take-sectors :
    (f : ℕ → List ℕ) (first done n lba : ℕ) (buf after : List ℕ)
    → lba ≡ first + done
    → take (done * sector_size) buf ≡ sectors f first done
    → take (done * sector_size + n * sector_size) after
      ≡ take (done * sector_size) buf ++ sectors f lba n
    → take ((done + n) * sector_size) after ≡ sectors f first (done + n)
take-sectors f first done n lba buf after place before got =
    let split : (done + n) * sector_size ≡ done * sector_size + n * sector_size = omega arith in
    ap (λ k. take k after) split
    ∙ got
    ∙ ap (λ bs. bs ++ sectors f lba n) before
    ∙ sym (sectors-append f first done n (done + n) lba refl place)
