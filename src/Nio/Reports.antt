-- ===== src/Nio/Reports.antt =====
-- nio.c: the frames of writes, and the data that reads hand on.
use fujinet_nio_driver.Base.{
  ℕ, zero, suc, ◌+◌, ◌%◌, ◌^◌, ◌≤◌, ◌≡◌, refl, ap, sym, ◌∙◌, not, Option, none, some, some_inj,
  some_ne_none, List, [], ◌∷◌, ◌++◌, arith, replicate, take, take_all, drop, length, length-take,
  both_branches, both_options,
}
use fujinet_nio_driver.Protocol.{
  FrameHeader, field_none, frame_header_size, header_bytes, checksum, checksum_loop,
}
use fujinet_nio_driver.DiskProtocol.{
  read_sectors_request_size, build_read_sectors_request, parse_read_sectors_response,
}
use fujinet_nio_driver.DiskProtocol.Parse.{parse_read_sectors_response-le}
use fujinet_nio_driver.Transaction.{request_header}
use fujinet_nio_driver.Nio.Types.{PortIo, Nio, NioCalled, nio_status_ok, nio_call_in_place}
use fujinet_nio_driver.Nio.Disk.{
  device_disk, cmd_read_sectors, built, data_from, write_header, accepted, nio_disk_read_sectors,
}

checksum_loop-append :
    (xs ys : List ℕ) (seed : ℕ)
    → checksum_loop (xs ++ ys) seed ≡ checksum_loop ys (checksum_loop xs seed)
unfolding checksum_loop
checksum_loop-append [] ys seed = refl
checksum_loop-append (x ∷ xs) ys seed = checksum_loop-append xs ys _

take-joined : (xs ys : List ℕ) (n k : ℕ) → k ≡ length xs + n → take k (xs ++ ys) ≡ xs ++ take n ys
take-joined [] ys n k h = ap (λ i. take i ys) {x = k} {y = n} (omega arith)
take-joined (x ∷ xs) ys n zero h = absurd (omega arith)
take-joined (x ∷ xs) ys n (suc k) h = ap (λ zs. x ∷ zs) (take-joined xs ys n k (omega arith))

-- The frame of a write, built part by part, begins with the header that the transaction gives to a
-- request whose payload is the fields and the data in one piece, its length and its checksum
-- included.
pub write_header-request_header :
    (command : ℕ) (prefix buffer : List ℕ) (buffer_length : ℕ)
    → write_header command prefix (length prefix) buffer buffer_length
      ≡ request_header device_disk command (some (prefix ++ buffer)) (length prefix + buffer_length)
unfolding write_header request_header checksum
write_header-request_header command prefix buffer buffer_length =
    let header : ℕ → ℕ → FrameHeader = λ l c. record {
      device = device_disk;
      command = command;
      length = l;
      checksum = c;
      fields = field_none;
    } in
    let seed : ℕ → ℕ = λ l. checksum_loop (take frame_header_size (header_bytes (header l 0))) 0 in
    let total = length prefix + buffer_length in
    let in_parts : ℕ → ℕ = λ s.
      checksum_loop (take buffer_length buffer) (checksum_loop (take (length prefix) prefix) s) in
    let joined : (s : ℕ) → in_parts s ≡ checksum_loop (take total (prefix ++ buffer)) s = λ s.
      ap (λ p. checksum_loop (take buffer_length buffer) (checksum_loop p s))
        (take_all prefix (length prefix) (omega arith))
      ∙ sym (checksum_loop-append prefix (take buffer_length buffer) s)
      ∙ ap (λ q. checksum_loop q s) (sym (take-joined prefix buffer buffer_length total refl)) in
    let same : (frame_header_size + length prefix + buffer_length) % 2 ^ 16
        ≡ (frame_header_size + total) % 2 ^ 16 =
      omega arith in
    ap (λ l. header l (in_parts (seed l) % 256)) same
    ∙ ap (λ c. header ((frame_header_size + total) % 2 ^ 16) (c % 256))
        (joined (seed ((frame_header_size + total) % 2 ^ 16)))

-- How many bytes a read gives.
abbrev pub read_length : Option (List ℕ) → ℕ
read_length none = 0
read_length (some bytes) = length bytes

read_length-le :
    (size : ℕ) (o : Option (List ℕ))
    → ((bytes : List ℕ) → o ≡ some bytes → length bytes ≤ size)
    → read_length o ≤ size
read_length-le size none h = omega arith
read_length-le size (some bytes) h = h bytes refl

data_from-le :
    (offset size : ℕ) (payload : List ℕ) (o : Option ℕ) (bytes : List ℕ)
    → ((len : ℕ) → o ≡ some len → len ≤ size)
    → data_from offset payload o ≡ some bytes
    → length bytes ≤ size
data_from-le offset size payload none bytes small h = absurd (some_ne_none (sym h))
data_from-le offset size payload (some len) bytes small h =
    omega (arith, small len refl, length-take len (drop offset payload), ap length (some_inj h))

module _ {S : Type 0} where
  accepted_some :
      {A : Type 0} (c : NioCalled S) (parsed : Option A) (a : A)
      → (accepted c parsed).0 ≡ some a
      → parsed ≡ some a
  unfolding accepted
  accepted_some c parsed a =
      let P : Option _ × Nio S → Type 0 = λ r. r.0 ≡ some a → parsed ≡ some a in
      both_branches P (not c.ok) (λ _ e. absurd (some_ne_none (sym e)))
        (λ _.
          both_branches P (nio_status_ok c.response.status)
            (λ _. both_options P parsed (λ _ e. absurd (some_ne_none (sym e))) (λ b h e. h ∙ e))
            (λ _ e. absurd (some_ne_none (sym e))))

module _ {S : Type 0} (io : PortIo S) where
  -- A read hands on no more bytes than the caller's buffer holds, whatever the service answers.
  pub nio_disk_read_sectors-le :
      (slot lba count size : ℕ) (n : Nio S)
      → read_length (nio_disk_read_sectors io slot lba count size n).0 ≤ size
  unfolding nio_disk_read_sectors
  nio_disk_read_sectors-le slot lba count size n =
      let req = built (build_read_sectors_request slot lba count size (some (replicate 10 0)) 10) in
      let c = nio_call_in_place io device_disk cmd_read_sectors req read_sectors_request_size n in
      let parsed = parse_read_sectors_response (some c.reply) c.response.payload_length size in
      read_length-le size _ (λ bytes h.
        data_from-le 13 size c.reply parsed bytes
          (parse_read_sectors_response-le c.reply c.response.payload_length size)
          (accepted_some c (data_from 13 c.reply parsed) bytes h))
