-- ===== src/Paula/Ring.antt =====
-- The receive ring as a queue of bytes: what a status word and a read do to it.
use native.Mathlib.Nat.{
  add-zero, add-suc, suc-add, mul-one, mul-suc, pow-suc, mod-eq_of_lt, mod-eq-sub-mod,
  add-mul-mod_self_left,
}
use fujinet_nio_driver.Base.{
  ℕ, zero, suc, ◌+◌, ◌-◌, ◌*◌, ◌%◌, ◌^◌, ◌<◌, ◌≤◌, ◌≡◌, ◌≢◌, ◌∙◌, refl, sym, ap, ap₂, List, [], ◌∷◌,
  ◌++◌, arith, bit_and, Bool, ◌||◌, ltb, leb, if◌then◌else◌, length, set, take, drop, length-set,
  get_or-set_self, get_or-set_ne, Bool-cases, ==→ne, leb→le, leb→lt, ltb→lt, ltb→le, ◌==◌, inl, inr,
  ◌⊎◌,
}
use fujinet_nio_driver.Base.Bits.{bit_and_mask, pow_pos}
use fujinet_nio_driver.Base.Words.{at}
use fujinet_nio_driver.Paula.{Rx, rx_count, rx_ingest, serdatr_rbf}

-- A ring of `2 ^ k` bytes, as `rx_init` makes it and the operations keep it.
pub record IsRing (k : ℕ) (rx : Rx) : Type 0 where
  pub small : k ≤ 15
  pub masked : rx.mask ≡ 2 ^ k - 1
  pub storage : length rx.buf ≡ 2 ^ k
  pub head_in : rx.head < 2 ^ k
  pub tail_in : rx.tail < 2 ^ k

-- An index below `m * 2` brought round a ring of `m` bytes.
abbrev pub wrapped : ℕ → ℕ → ℕ
wrapped m i = if ltb i m then i else i - m

-- The `n` bytes from index `i` on.
abbrev pub stored : List ℕ → ℕ → ℕ → ℕ → List ℕ
stored buf m i zero = []
stored buf m i (suc n) = at buf i ∷ stored buf m (wrapped m (i + 1)) n

-- The bytes that wait in the ring, oldest first.
abbrev pub contents : ℕ → Rx → List ℕ
contents k rx = stored rx.buf (2 ^ k) rx.tail (rx_count rx)

pow-add : (a b : ℕ) → 2 ^ (a + b) ≡ 2 ^ a * 2 ^ b
pow-add a zero = ap (λ n. 2 ^ n) (add-zero a) ∙ sym (mul-one (2 ^ a))
pow-add a (suc b) =
    rw (add-suc, pow-suc)
      (omega (arith, pow-add a b, pow-suc 2 b, ap (λ n. 2 ^ a * n) (pow-suc 2 b)))

pow_le : (k : ℕ) → k ≤ 15 → 2 ^ k ≤ 2 ^ 15
pow_le k h =
    let e : 15 ≡ k + (15 - k) = omega arith in
    let split : 2 ^ 15 ≡ 2 ^ k * 2 ^ (15 - k) = ap (λ n. 2 ^ n) e ∙ pow-add k (15 - k) in
    let pos : 0 < 2 ^ (15 - k) = pow_pos (15 - k) in grind (arith, split)

pub pow_split : (k : ℕ) → k ≤ 15 → (q : ℕ) × (2 ^ 32 ≡ 2 ^ k * q)
pow_split k h = (
  2 ^ (32 - k),
  let e : 32 ≡ k + (32 - k) = omega arith in ap (λ n. 2 ^ n) e ∙ pow-add k (32 - k),
)

pub wrapped-mod : (m i : ℕ) → i < m * 2 → i % m ≡ wrapped m i
wrapped-mod m i h = elim (Bool-cases (ltb i m)) [
  | inl low ↦ rw low (mod-eq_of_lt (ltb→lt _ _ low))
  | inr high ↦
      let from : m ≤ i = ltb→le _ _ high in
      rw high (mod-eq-sub-mod from ∙ mod-eq_of_lt (omega arith))
]

-- The masked difference of two indices, below zero or not.
abbrev pub distance : ℕ → ℕ → ℕ → ℕ
distance m h t = if leb t h then h - t else m + h - t

distance_lem :
    (m q h t : ℕ)
    → h < m
    → t < m
    → m ≤ 2 ^ 15
    → 2 ^ 32 ≡ m * q
    → (h + 2 ^ 32 - t) % 2 ^ 32 % m ≡ distance m h t
distance_lem m q h t hh ht hm e = elim (Bool-cases (leb t h)) [
  | inl up ↦
      let le : t ≤ h = leb→le _ _ up in
      let flat : (h + 2 ^ 32 - t) % 2 ^ 32 ≡ h - t = omega arith in
      rw (up, flat) (mod-eq_of_lt (omega arith))
  | inr down ↦
      let lt : h < t = leb→lt _ _ down in
      let flat : (h + 2 ^ 32 - t) % 2 ^ 32 ≡ m + h - t + m * (q - 1) = wraps lt in
      rw (down, flat) (add-mul-mod_self_left _ m (q - 1) ∙ mod-eq_of_lt (omega arith))
]
  where
    some_q : 0 < q
    some_q = grind arith

    wraps : h < t → (h + 2 ^ 32 - t) % 2 ^ 32 ≡ m + h - t + m * (q - 1)
    wraps lt =
        let e' : q ≡ suc (q - 1) = omega (arith, some_q) in
        let more : m * q ≡ m + m * (q - 1) = ap (λ n. m * n) e' ∙ mul-suc m (q - 1) ∙ omega arith in
        omega (arith, more)

module _ {k : ℕ} {rx : Rx} (r : IsRing k rx) where
  pub under_2_15 : 2 ^ k ≤ 2 ^ 15
  under_2_15 = pow_le k (r.small)

  pub count_lem : rx_count rx ≡ distance (2 ^ k) (rx.head) (rx.tail)
  unfolding rx_count
  count_lem =
      let (q, e) = pow_split k (r.small) in
      let d : (rx.head + 2 ^ 32 - rx.tail) % 2 ^ 32 % 2 ^ k ≡ distance (2 ^ k) (rx.head) (rx.tail) =
        distance_lem (2 ^ k) q (rx.head) (rx.tail) (r.head_in) (r.tail_in) under_2_15 e in
      rw (r.masked, bit_and_mask k ((rx.head + 2 ^ 32 - rx.tail) % 2 ^ 32), d)
        (mod-eq_of_lt (ground (arith, under_2_15, r.head_in, r.tail_in)))

  pub index_lem : (i : ℕ) → i < 2 ^ k * 2 → bit_and i (rx.mask) % 2 ^ 16 ≡ wrapped (2 ^ k) i
  index_lem i h =
      rw (r.masked, bit_and_mask k i)
        (ground (arith, under_2_15, wrapped-mod (2 ^ k) i h, pow_pos k))

-- One more byte in the buffer behind the `n` that are stored from `t` on.
stored-set :
    (buf : List ℕ) (m h b t n : ℕ)
    → m ≤ length buf
    → h < m
    → t < m
    → n < m
    → (t + n ≡ h) ⊎ (t + n ≡ h + m)
    → stored (set buf h b) m t (suc n) ≡ stored buf m t n ++ (b ∷ [])
stored-set buf m h b t zero hm hh ht hn e =
    let same : t ≡ h = ground arith in
    ap (λ v. v ∷ []) (ap (λ i. at (set buf h b) i) same ∙ get_or-set_self buf h b 0 (omega arith))
stored-set buf m h b t (suc n) hm hh ht hn e =
    let apart : h ≢ t = ground arith in
    ap₂ (λ v vs. v ∷ vs) (get_or-set_ne buf h t b 0 apart)
      (stored-set buf m h b (wrapped m (t + 1)) n hm hh (ground arith) (omega arith) onward)
  where
    onward : (wrapped m (t + 1) + n ≡ h) ⊎ (wrapped m (t + 1) + n ≡ h + m)
    onward = elim (Bool-cases (ltb (t + 1) m)) [
      | inl low ↦
          rw low (elim e [ inl a ↦ inl (omega (arith, a)) | inr a ↦ inr (omega (arith, a)) ])
      | inr high ↦ rw high (inl (ground arith))
    ]

drop_step : (buf : List ℕ) (t : ℕ) → t < length buf → drop t buf ≡ at buf t ∷ drop (t + 1) buf
drop_step [] t h = absurd (omega arith)
drop_step (x ∷ xs) zero h = refl
drop_step (x ∷ xs) (suc t) h =
    drop_step xs t (omega arith) ∙ ap (λ i. at xs t ∷ drop i (x ∷ xs)) (sym (suc-add t 1))

-- The bytes up to an index at most the end of the buffer lie there in one piece.
pub stored_add :
    (buf : List ℕ) (m t a n : ℕ)
    → m ≤ length buf
    → t < m
    → t + a ≤ m
    → stored buf m t (a + n) ≡ take a (drop t buf) ++ stored buf m (wrapped m (t + a)) n
stored_add buf m t zero n hm ht ha =
    let stay : t ≡ wrapped m (t + 0) = ground arith in
    ap₂ (λ i c. stored buf m i c) stay (omega arith)
stored_add buf m t (suc a) n hm ht ha = rw (drop_step buf t (omega arith)) (
    ap (λ c. stored buf m t c) (suc-add a n)
    ∙ ap (λ bs. at buf t ∷ bs) (rest (λ low. stored_add buf m (t + 1) a n hm low (omega arith))))
  where
    rest :
        (t + 1 < m
          → stored buf m (t + 1) (a + n)
            ≡ take a (drop (t + 1) buf) ++ stored buf m (wrapped m (t + 1 + a)) n)
        → stored buf m (wrapped m (t + 1)) (a + n)
          ≡ take a (drop (t + 1) buf) ++ stored buf m (wrapped m (t + suc a)) n
    rest further =
        elim (Bool-cases (ltb (t + 1) m))
          as (λ c.
            stored buf m (wrapped m (t + 1)) (a + n)
            ≡ take a (drop (t + 1) buf) ++ stored buf m (wrapped m (t + suc a)) n) [
              | inl low ↦
                  let slid : t + suc a ≡ t + 1 + a = omega arith in
                  rw (low, slid) (further (ltb→lt _ _ low))
              | inr high ↦
                  let none_left : a ≡ 0 = omega (arith, ltb→le _ _ high) in
                  rw none_left
                    (ap₂ (λ i c. stored buf m (wrapped m i) c) (omega arith) (omega arith))
            ]

full_lem : (m h t : ℕ) → h < m → t < m → (wrapped m (h + 1) == t) ≡ (distance m h t == m - 1)
full_lem m h t hh ht = ground arith

latch :
    {k : ℕ} {rx : Rx} (o s : Bool)
    → IsRing k rx
    → IsRing k (record rx { hardware_overrun_latched = o; software_ring_overflow_latched = s })
latch o s r = record {
  small = r.small;
  masked = r.masked;
  storage = r.storage;
  head_in = r.head_in;
  tail_in = r.tail_in;
}

-- The ring behind the store of one byte.
store :
    {k : ℕ} {rx : Rx} (b : ℕ) (overrun : Bool)
    → IsRing k rx
    → wrapped (2 ^ k) (rx.head + 1) ≢ rx.tail
    → let after = record rx {
      buf = set (rx.buf) (rx.head) b;
      head = wrapped (2 ^ k) (rx.head + 1);
      hardware_overrun_latched = overrun;
    } in
      IsRing k after × (contents k after ≡ contents k rx ++ (b ∷ []))
store {k} {rx} b overrun r room =
    let grown : distance (2 ^ k) (wrapped (2 ^ k) (rx.head + 1)) (rx.tail)
        ≡ suc (distance (2 ^ k) (rx.head) (rx.tail)) =
      ground (arith, r.head_in, r.tail_in) in
    (
      kept,
      ap (stored (set (rx.buf) (rx.head) b) (2 ^ k) (rx.tail)) (count_lem kept ∙ grown)
          ∙ stored-set (rx.buf) (2 ^ k) (rx.head) b (rx.tail) (distance (2 ^ k) (rx.head) (rx.tail))
              (omega (arith, r.storage)) (r.head_in) (r.tail_in)
              (ground (arith, r.head_in, r.tail_in)) (ground (arith, r.head_in, r.tail_in))
          ∙ ap (λ n. stored (rx.buf) (2 ^ k) (rx.tail) n ++ (b ∷ [])) (sym (count_lem r)),
    )
  where
    kept : IsRing k (record rx {
      buf = set (rx.buf) (rx.head) b;
      head = wrapped (2 ^ k) (rx.head + 1);
      hardware_overrun_latched = overrun;
    })
    kept = record {
      small = r.small;
      masked = r.masked;
      storage = length-set (rx.buf) (rx.head) b ∙ r.storage;
      head_in = ground (arith, r.head_in);
      tail_in = r.tail_in;
    }

-- A status word leaves a ring a ring; a received byte is put behind the waiting bytes, except in a
-- ring with one byte less than its size.
pub rx_ingest-contents :
    (k : ℕ) (rx : Rx) (word : ℕ)
    → IsRing k rx
    → IsRing k (rx_ingest rx word)
      × (contents k (rx_ingest rx word) ≡ (
          if bit_and word serdatr_rbf == 0 || rx_count rx == 2 ^ k - 1
          then contents k rx
          else contents k rx ++ (word % 2 ^ 8 ∷ [])))
unfolding rx_ingest rx_count
rx_ingest-contents k rx word r = elim (Bool-cases (bit_and word serdatr_rbf == 0)) [
  | inl quiet ↦ rw quiet (latch _ _ r, refl)
  | inr byte ↦ elim (Bool-cases (wrapped (2 ^ k) (rx.head + 1) == rx.tail)) [
    | inl lost ↦ rw (byte, next, lost, sym full, lost) (latch _ _ r, refl)
    | inr room ↦ rw (byte, next, room, sym full, room) (store _ _ r (==→ne _ _ room))
  ]
]
  where
    next : bit_and (rx.head + 1) (rx.mask) % 2 ^ 16 ≡ wrapped (2 ^ k) (rx.head + 1)
    next = index_lem r (rx.head + 1) (omega (arith, r.head_in))

    full : (wrapped (2 ^ k) (rx.head + 1) == rx.tail) ≡ (rx_count rx == 2 ^ k - 1)
    full =
        full_lem (2 ^ k) (rx.head) (rx.tail) (r.head_in) (r.tail_in)
        ∙ ap (λ c. c == 2 ^ k - 1) (sym (count_lem r))
