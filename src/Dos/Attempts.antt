-- ===== src/Dos/Attempts.antt =====
-- Input_cmd: what the attempts to read one batch leave in the buffer and in the driver.
use fujinet_nio_driver.Base.{
  ℕ, zero, suc, ◌+◌, ◌*◌, ◌%◌, ◌^◌, ◌≤◌, ◌<◌, ◌≡◌, ◌≢◌, refl, ap, sym, ◌∙◌, Bool, true, false, ◌&&◌,
  Option, none, some, List, ◌++◌, arith, leb, ltb, leb→le, ltb→lt, and_true, both_branches, take,
  length, if◌then◌else◌,
}
use fujinet_nio_driver.Dos.Types.{sector_size, DiskService, Dos}
use fujinet_nio_driver.Dos.Input.{
  Attempt, fetched, downshifted, failed, endless, Tried, copy_at, damaged, downshift, read_attempts,
  read_batch,
}
use fujinet_nio_driver.Dos.Sectors.{sectors, length-copy_at, take-copy_at, take-copy_at_before}
use fujinet_nio_driver.Dos.Coherence.{ReadsMedium, Follows}

pub all_outcomes {ℓ κ} :
    {A : Type ℓ} (P : A → Type κ) (o : Attempt) {w x y z : A}
    → (o ≡ failed → P x)
    → (o ≡ downshifted → P y)
    → (o ≡ fetched → P z)
    → (o ≡ endless → P w)
    → P (elim o [ endless ↦ w | failed ↦ x | downshifted ↦ y | fetched ↦ z ])
all_outcomes P failed p q r s = p refl
all_outcomes P downshifted p q r s = q refl
all_outcomes P fetched p q r s = r refl
all_outcomes P endless p q r s = s refl

-- The buffer behind an answer, and whether it is long enough.
abbrev pub buffer_with : List ℕ → ℕ → Option (List ℕ) → List ℕ
buffer_with buf off got = elim got as (λ _. List ℕ) [
  | none ↦ buf
  | some bytes ↦ copy_at buf off bytes
]

abbrev pub is_enough : ℕ → Option (List ℕ) → Bool
is_enough need got = elim got as (λ _. Bool) [ none ↦ false | some bytes ↦ leb need (length bytes) ]

module _ (buf : List ℕ) (off size : ℕ) (wanted : List ℕ) (fits : off + size ≤ length buf) where
  buffer_with-lem :
      (o : Option (List ℕ))
      → ((bytes : List ℕ) → o ≡ some bytes → length bytes ≤ size)
      → ((bytes : List ℕ) → o ≡ some bytes → size ≤ length bytes → bytes ≡ wanted)
      → (length (buffer_with buf off o) ≡ length buf)
        × (take off (buffer_with buf off o) ≡ take off buf)
        × (is_enough size o ≡ true
            → take (off + size) (buffer_with buf off o) ≡ take off buf ++ wanted)
  buffer_with-lem none short right = (refl, refl, λ e. absurd (ground (arith, e)))
  buffer_with-lem (some bytes) short right =
      let most = short bytes refl in
      let room : off + length bytes ≤ length buf = omega (arith, fits, most) in
      (
        length-copy_at buf off bytes room,
        take-copy_at_before buf off bytes room,
        λ e.
            let least = leb→le size (length bytes) e in
            let exact : off + size ≡ off + length bytes = omega (arith, least, most) in
            ap (λ k. take k (copy_at buf off bytes)) exact
            ∙ take-copy_at buf off bytes room
            ∙ ap (λ bs. take off buf ++ bs) (right bytes refl least),
      )

-- What the attempts leave, by how they end.
pub record Tries {C : Type 0} (sector : C → ℕ → ℕ → List ℕ) (medium : ℕ → ℕ → List ℕ)
    (slots : List ℕ) (high slot lba fetch off : ℕ) (buf : List ℕ) (d : Dos C) (t : Tried C)
    : Type 0 where
  pub follows : Follows sector medium slots high t.dos
  pub no_more : t.dos.batch_sectors ≤ d.batch_sectors
  pub same_size : length t.buf ≡ length buf
  pub before : take off t.buf ≡ take off buf
  pub got :
      t.outcome ≡ fetched
      → take (off + fetch * sector_size) t.buf ≡ take off buf ++ sectors (medium slot) lba fetch
  pub less : t.outcome ≡ downshifted → t.dos.batch_sectors < d.batch_sectors
  pub ends : t.outcome ≢ endless

module _ {C : Type 0} (svc : DiskService C) (sector : C → ℕ → ℕ → List ℕ)
    (law : ReadsMedium svc sector) (medium : ℕ → ℕ → List ℕ) (slots : List ℕ) (high : ℕ) where
  downshift_less :
      (fetch : ℕ) (d : Dos C)
      → 1 < fetch
      → fetch ≤ d.batch_sectors
      → fetch < 2 ^ 8
      → (1 ≤ (downshift fetch d).batch_sectors)
        × ((downshift fetch d).batch_sectors < d.batch_sectors)
  unfolding downshift
  downshift_less fetch d h1 h2 h3 = (ground arith, ground arith)

  downshift-Follows :
      (fetch : ℕ) (d : Dos C)
      → 1 ≤ (downshift fetch d).batch_sectors
      → (downshift fetch d).batch_sectors ≤ high
      → Follows sector medium slots high d
      → Follows sector medium slots high (downshift fetch d)
  unfolding downshift
  downshift-Follows fetch d h1 h2 f = record {
    same_medium = f.same_medium;
    same_slots = f.same_slots;
    lines = f.lines;
    low = h1;
    limit = h2;
    patient = f.patient;
  }

  read_attempts-Tries :
      (fuel attempt slot lba fetch off : ℕ) (buf : List ℕ) (d : Dos C)
      → attempt ≤ d.io_retries + 1
      → d.io_retries + 1 < fuel + attempt
      → Follows sector medium slots high d
      → fetch ≤ d.batch_sectors
      → fetch < 128
      → off + fetch * sector_size ≤ length buf
      → Tries sector medium slots high slot lba fetch off buf d
          (read_attempts svc fuel attempt slot lba fetch off buf d)
  unfolding read_attempts
  read_attempts-Tries zero attempt slot lba fetch off buf d h1 h2 f most small fits =
      absurd (omega arith)
  read_attempts-Tries (suc fuel) attempt slot lba fetch off buf d h1 h2 f most small fits =
      let size = fetch * sector_size in
      let need = size % 2 ^ 16 in
      let all_of : need ≡ size = omega arith in
      let answer = svc.read_sectors d.ctx slot lba fetch need in
      let after = record d { ctx = answer.1 } in
      let after_follows : Follows sector medium slots high after = record {
        same_medium = λ s l. law.kept d.ctx slot lba fetch need s l ∙ f.same_medium s l;
        same_slots = f.same_slots;
        lines = f.lines;
        low = f.low;
        limit = f.limit;
        patient = f.patient;
      } in
      let copied = buffer_with buf off answer.0 in
      let wanted = sectors (medium slot) lba fetch in
      let facts =
        buffer_with-lem buf off size wanted fits answer.0
          (λ bytes e. omega (arith, law.fits d.ctx slot lba fetch need bytes e))
          (λ bytes e long.
            law.right d.ctx slot lba fetch need bytes e long
            ∙ ap (λ g. sectors g lba fetch) (λ i l. f.same_medium slot l i)) in
      let next = (attempt + 1) % 2 ^ 8 in
      let rest = read_attempts svc fuel next slot lba fetch off copied after in
      let room : off + size ≤ length copied = omega (arith, facts.0, fits) in
      let later : leb attempt d.io_retries ≡ true
          → Tries sector medium slots high slot lba fetch off copied after rest =
        λ more.
          let bound = leb→le attempt d.io_retries more in
          let count : next ≡ attempt + 1 = omega (arith, bound, f.patient) in
          read_attempts-Tries fuel next slot lba fetch off copied after
            (omega (arith, bound, count)) (omega (arith, h2, count)) after_follows most small
            room in
      let worn = d.auto_downshift && ltb 1 fetch && damaged (svc.last answer.1).error in
      let P = Tries sector medium slots high slot lba fetch off buf d in
      both_branches P (ltb d.io_retries attempt)
        {x = record { outcome = failed; buf = buf; dos = d }}
        {y = if is_enough need answer.0
          then record { outcome = fetched; buf = copied; dos = after }
          else if worn
          then record { outcome = downshifted; buf = copied; dos = downshift fetch after }
          else rest}
        (λ _. record {
          follows = f;
          no_more = omega arith;
          same_size = refl;
          before = refl;
          got = λ e. absurd cc;
          less = λ e. absurd cc;
          ends = λ e. absurd cc;
        })
        (λ more.
          both_branches P (is_enough need answer.0)
            {x = record { outcome = fetched; buf = copied; dos = after }}
            {y = if worn
              then record { outcome = downshifted; buf = copied; dos = downshift fetch after }
              else rest}
            (λ e. record {
              follows = after_follows;
              no_more = omega arith;
              same_size = facts.0;
              before = facts.1;
              got = λ _. facts.2 (ap (λ n. is_enough n answer.0) (sym all_of) ∙ e);
              less = λ e'. absurd cc;
              ends = λ e'. absurd cc;
            })
            (λ _.
              both_branches P worn
                {x = record { outcome = downshifted; buf = copied; dos = downshift fetch after }}
                {y = rest}
                (λ e.
                  let two : 1 < fetch =
                    ltb→lt 1 fetch
                      (and_true d.auto_downshift (ltb 1 fetch)
                        (and_true (d.auto_downshift && ltb 1 fetch)
                          (damaged (svc.last answer.1).error) e).0).1 in
                  let lower = downshift_less fetch after two most (omega arith) in
                  record {
                    follows =
                        downshift-Follows fetch after lower.0 (omega (arith, lower.1, f.limit))
                          after_follows;
                    no_more = omega (arith, lower.1);
                    same_size = facts.0;
                    before = facts.1;
                    got = λ e'. absurd cc;
                    less = λ _. lower.1;
                    ends = λ e'. absurd cc;
                  })
                (λ _.
                  let rest_of = later (ground (arith, more)) in
                  record {
                    follows = rest_of.follows;
                    no_more = rest_of.no_more;
                    same_size = rest_of.same_size ∙ facts.0;
                    before = rest_of.before ∙ facts.1;
                    got = λ e. rest_of.got e ∙ ap (λ bs. bs ++ wanted) facts.1;
                    less = rest_of.less;
                    ends = rest_of.ends;
                  })))

  pub read_batch-Tries :
      (slot lba fetch off : ℕ) (buf : List ℕ) (d : Dos C)
      → Follows sector medium slots high d
      → fetch ≤ d.batch_sectors
      → fetch < 128
      → off + fetch * sector_size ≤ length buf
      → Tries sector medium slots high slot lba fetch off buf d
          (read_batch svc slot lba fetch off buf d)
  unfolding read_batch
  read_batch-Tries slot lba fetch off buf d f most small fits =
      read_attempts-Tries (2 ^ 8) 0 slot lba fetch off buf d (omega arith)
        (omega (arith, f.patient)) f most small fits
