-- ===== src/Paula/Read.antt =====
-- What a read takes from the receive ring.
use native.Mathlib.Nat.{add-zero, suc-add}
use fujinet_nio_driver.Base.{
  ℕ, zero, suc, ◌+◌, ◌-◌, ◌%◌, ◌^◌, ◌<◌, ◌≤◌, ◌≡◌, ◌∙◌, refl, sym, ap, ap₂, some, List, [], ◌∷◌,
  ◌++◌, arith, min, false, ltb, if◌then◌else◌, length, take, drop, Bool-cases, ==→eq, ltb→lt,
  ltb→le, ◌==◌, inl, inr, append-nil,
}
use fujinet_nio_driver.Base.Words.{at}
use fujinet_nio_driver.Paula.{Rx, rx_count, rx_read, rx_copied}
use fujinet_nio_driver.Paula.Ring.{
  IsRing, wrapped, stored, contents, stored_add, count_lem, index_lem, under_2_15, distance,
}

take_whole : (n : ℕ) (xs ys : List ℕ) → length xs ≡ n → take n (xs ++ ys) ≡ xs
take_whole n [] ys e = rw (sym e) refl
take_whole n (x ∷ xs) ys e = rw (sym e) (ap (λ bs. x ∷ bs) (take_whole (length xs) xs ys refl))

drop_whole : (n : ℕ) (xs ys : List ℕ) → length xs ≡ n → drop n (xs ++ ys) ≡ ys
drop_whole n [] ys e = rw (sym e) refl
drop_whole n (x ∷ xs) ys e = rw (sym e) (drop_whole (length xs) xs ys refl)

length-stored : (buf : List ℕ) (m t n : ℕ) → length (stored buf m t n) ≡ n
length-stored buf m t zero = refl
length-stored buf m t (suc n) = ap suc (length-stored buf m (wrapped m (t + 1)) n)

stored_split :
    (buf : List ℕ) (m t a n : ℕ)
    → t < m
    → a < m
    → stored buf m t (a + n) ≡ stored buf m t a ++ stored buf m (wrapped m (t + a)) n
stored_split buf m t zero n ht ha =
    let stay : t ≡ wrapped m (t + 0) = ground arith in
    ap₂ (λ i c. stored buf m i c) stay (omega arith)
stored_split buf m t (suc a) n ht ha =
    let on : wrapped m (wrapped m (t + 1) + a) ≡ wrapped m (t + suc a) = ground arith in
    ap (λ c. stored buf m t c) (suc-add a n)
    ∙ ap (λ bs. at buf t ∷ bs)
        (stored_split buf m (wrapped m (t + 1)) a n (ground arith) (omega arith)
          ∙ ap (λ i. stored buf m (wrapped m (t + 1)) a ++ stored buf m i n) on)

stored_flat :
    (buf : List ℕ) (m t n : ℕ)
    → m ≤ length buf
    → t < m
    → t + n ≤ m
    → stored buf m t n ≡ take n (drop t buf)
stored_flat buf m t n hm ht hn =
    ap (stored buf m t) (sym (add-zero n))
    ∙ stored_add buf m t n 0 hm ht hn
    ∙ append-nil (take n (drop t buf))

stored_around :
    (buf : List ℕ) (m t n : ℕ)
    → m ≤ length buf
    → t < m
    → n < m
    → m ≤ t + n
    → stored buf m t n ≡ take (m - t) (drop t buf) ++ take (n - (m - t)) buf
stored_around buf m t n hm ht hn around =
    let parts : n ≡ (m - t) + (n - (m - t)) = omega arith in
    let start : wrapped m (t + (m - t)) ≡ 0 = ground arith in
    ap (stored buf m t) parts
    ∙ stored_add buf m t (m - t) (n - (m - t)) hm ht (omega arith)
    ∙ ap (λ i. take (m - t) (drop t buf) ++ stored buf m i (n - (m - t))) start
    ∙ ap (λ bs. take (m - t) (drop t buf) ++ bs)
        (stored_flat buf m 0 (n - (m - t)) hm (omega arith) (omega arith))

-- The bytes of a read of at most the waiting bytes.
rx_copied_lem :
    (k : ℕ) (rx : Rx) (n : ℕ)
    → IsRing k rx
    → n < 2 ^ k
    → rx_copied rx n ≡ stored (rx.buf) (2 ^ k) (rx.tail) n
unfolding rx_copied
rx_copied_lem k rx n r hn = rw room (elim (Bool-cases (ltb n (2 ^ k - rx.tail))) [
  | inl flat ↦
      let out : ltb n n ≡ false = ground arith in
      rw (flat, out)
        (sym (
          stored_flat (rx.buf) (2 ^ k) (rx.tail) n held (r.tail_in)
            (omega (arith, ltb→lt _ _ flat))))
  | inr around ↦
      let past : 2 ^ k ≤ rx.tail + n = omega (arith, ltb→le _ _ around) in
      rw around (elim (Bool-cases (ltb (2 ^ k - rx.tail) n)) [
        | inl more ↦
            rw more (sym (stored_around (rx.buf) (2 ^ k) (rx.tail) n held (r.tail_in) hn past))
        | inr last ↦
            let whole : n ≡ 2 ^ k - rx.tail = omega (arith, past, ltb→le _ _ last) in
            rw (last, whole)
              (sym (
                stored_flat (rx.buf) (2 ^ k) (rx.tail) (2 ^ k - rx.tail) held (r.tail_in)
                  (omega (arith, r.tail_in))))
      ])
])
  where
    held : 2 ^ k ≤ length (rx.buf)
    held = omega (arith, r.storage)

    room : ((rx.mask + 1) % 2 ^ 16 + 2 ^ 16 - rx.tail) % 2 ^ 16 ≡ 2 ^ k - rx.tail
    room = omega (arith, r.masked, r.tail_in, under_2_15 r)

-- The ring behind a read of `c` of its bytes.
abbrev moved : ℕ → Rx → ℕ → Rx
moved k rx c = record rx { tail = wrapped (2 ^ k) (rx.tail + c) }

moved-IsRing : (k : ℕ) (rx : Rx) (c : ℕ) → IsRing k rx → c < 2 ^ k → IsRing k (moved k rx c)
moved-IsRing k rx c r h = record {
  small = r.small;
  masked = r.masked;
  storage = r.storage;
  head_in = r.head_in;
  tail_in = ground (arith, r.tail_in);
}

contents_split :
    (k : ℕ) (rx : Rx) (c : ℕ)
    → IsRing k rx
    → c ≤ rx_count rx
    → contents k rx ≡ stored (rx.buf) (2 ^ k) (rx.tail) c ++ contents k (moved k rx c)
contents_split k rx c r h =
    let count : rx_count rx ≡ distance (2 ^ k) (rx.head) (rx.tail) = count_lem r in
    let short : c < 2 ^ k = ground (arith, r.head_in, r.tail_in) in
    let left : rx_count rx ≡ c + rx_count (moved k rx c) =
      rw (count_lem (moved-IsRing k rx c r short)) (ground (arith, r.head_in, r.tail_in, count)) in
    ap (stored (rx.buf) (2 ^ k) (rx.tail)) left
    ∙ stored_split (rx.buf) (2 ^ k) (rx.tail) c (rx_count (moved k rx c)) (r.tail_in) short

-- A read takes the oldest bytes, as many as wait and were asked for, puts them at the start of the
-- caller's buffer, and leaves the others waiting in their order.
pub rx_read-contents :
    (k : ℕ) (rx : Rx) (dst : List ℕ) (n : ℕ)
    → IsRing k rx
    → (after : Rx) × (rx_read rx (some dst) n ≡ (
      min n (rx_count rx),
      some (take (min n (rx_count rx)) (contents k rx) ++ drop (min n (rx_count rx)) dst),
      after,
    ))
      × IsRing k after
      × (contents k after ≡ drop (min n (rx_count rx)) (contents k rx))
unfolding rx_read
rx_read-contents k rx dst n r = elim (Bool-cases (c == 0)) [
  | inl nothing ↦ rw (asked, ==→eq _ _ nothing) (rx, refl, r, refl)
  | inr something ↦
      rw
        (
          asked,
          something,
          rx_copied_lem k rx c r short,
          index_lem r (rx.tail + c) (omega (arith, r.tail_in, short)),
          split,
        )
        (
          moved k rx c,
          ap (λ bs. (c, some (bs ++ drop c dst), moved k rx c))
              (sym (take_whole c taken _ (length-stored _ _ _ c))),
          moved-IsRing k rx c r short,
          sym (drop_whole c taken _ (length-stored _ _ _ c)),
        )
]
  where
    c : ℕ
    c = min n (rx_count rx)

    taken : List ℕ
    taken = stored (rx.buf) (2 ^ k) (rx.tail) c

    asked : (if ltb (rx_count rx) n then rx_count rx else n) ≡ min n (rx_count rx)
    asked = ground arith

    short : c < 2 ^ k
    short = ground (arith, count_lem r, r.head_in, r.tail_in)

    split : contents k rx ≡ taken ++ contents k (moved k rx c)
    split = contents_split k rx c r (ground arith)
