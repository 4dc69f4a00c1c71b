-- ===== src/Disk/Bounds.antt =====
-- Which sectors a read or a write of blocks touches, and how much it reports.
use fujinet_nio_driver.Base.{
  ℕ, zero, suc, ◌+◌, ◌*◌, ◌/◌, ◌%◌, ◌^◌, ◌<◌, ◌≤◌, ◌≡◌, ◌≢◌, refl, sym, true, false, ◌||◌, not,
  Option, none, some, List, [], ◌++◌, arith, both_branches, ◌==◌, if◌then◌else◌, ==→ne, take, drop,
}
use fujinet_nio_driver.Disk.{
  Library, Media, Client, Driver, Moved, unit_to_slot, media_bytes, misaligned, outside, write_loop,
  read_loop, refused, start_client, disk_write, disk_read, block_size,
}
use fujinet_nio_driver.Disk.Geometry.{IsAdf, IsKnown}

-- A property of the client's context that its start keeps, and the transfer of a sector below `n`.
pub record Confined {C : Type 0} (P : C → Type 0) (n : ℕ) (c : Client C) : Type 0 where
  pub init : (s : C) → P s → P (c.init s).1
  pub write :
      (s : C) (slot lba : ℕ) (source : List ℕ)
      → P s
      → lba < n
      → P (c.write_sector s slot lba source block_size).1
  pub read :
      (s : C) (slot lba : ℕ) (dst : List ℕ)
      → P s
      → lba < n
      → P (c.read_sector s slot lba dst block_size).ctx

-- The property still holds, and the report is the length on success and no more in any case.
pub record Within (lib : Library) {C : Type 0} (P : C → Type 0) (len : ℕ) (m : Moved C)
    : Type 0 where
  pub kept : P m.driver.ctx
  pub whole : m.status ≡ lib.ok → m.actual ≡ len
  pub at_most : m.actual ≤ len

module _ (lib : Library) {C : Type 0} (P : C → Type 0) (n : ℕ) (c : Client C) (h : Confined P n c)
    (slot len : ℕ) where
  write_loop-Within :
      (left lba : ℕ) (source : List ℕ) (actual : ℕ) (whole : List ℕ) (d : Driver C)
      → lba + left ≤ n
      → n < 2 ^ 32
      → actual + left * block_size ≡ len
      → len < 2 ^ 32
      → P d.ctx
      → Within lib P len (write_loop lib left c slot lba source actual whole d)
  unfolding write_loop
  write_loop-Within zero lba source actual whole d hl hn ha hlen p = record {
    kept = p;
    whole = λ _. omega (arith, ha);
    at_most = omega (arith, ha);
  }
  write_loop-Within (suc left) lba source actual whole d hl hn ha hlen p =
      let out = c.write_sector d.ctx slot lba source block_size in
      let p' : P out.1 = h.write d.ctx slot lba source p (omega arith) in
      both_branches (Within lib P len) (out.0 == lib.ok)
        (λ _.
          write_loop-Within left ((lba + 1) % 2 ^ 32) (drop block_size source)
            ((actual + block_size) % 2 ^ 32) whole (record d { ctx = out.1 }) (omega arith) hn
            (omega (arith, ha)) hlen p')
        (λ failed. record {
          kept = p';
          whole = λ e. absurd (==→ne _ _ failed e);
          at_most = omega (arith, ha);
        })

  read_loop-Within :
      lib.ok ≢ lib.io
      → (left lba : ℕ) (got dst : List ℕ) (actual : ℕ) (d : Driver C) → lba + left ≤ n
      → n < 2 ^ 32
      → actual + left * block_size ≡ len
      → len < 2 ^ 32
      → P d.ctx
      → Within lib P len (read_loop lib left c slot lba got dst actual d)
  unfolding read_loop
  read_loop-Within differ zero lba got dst actual d hl hn ha hlen p = record {
    kept = p;
    whole = λ _. omega (arith, ha);
    at_most = omega (arith, ha);
  }
  read_loop-Within differ (suc left) lba got dst actual d hl hn ha hlen p =
      let out = c.read_sector d.ctx slot lba dst block_size in
      let p' : P out.ctx = h.read d.ctx slot lba dst p (omega arith) in
      both_branches (Within lib P len) (not (out.status == lib.ok))
        (λ failed. record {
          kept = p';
          whole = λ e. absurd (ground (arith, failed, e));
          at_most = omega (arith, ha);
        })
        (λ _.
          both_branches (Within lib P len) (not (out.received == block_size))
            (λ _. record {
              kept = p';
              whole = λ e. absurd (differ (sym e));
              at_most = omega (arith, ha);
            })
            (λ _.
              read_loop-Within differ left ((lba + 1) % 2 ^ 32) (got ++ take block_size out.buffer)
                (drop block_size out.buffer) ((actual + block_size) % 2 ^ 32)
                (record d { ctx = out.ctx }) (omega arith) hn (omega (arith, ha)) hlen p'))

module _ (lib : Library) {C : Type 0} (P : C → Type 0) (len : ℕ) where
  refused-Within :
      (status : ℕ) (buffer : List ℕ) (d : Driver C)
      → status ≢ lib.ok
      → P d.ctx
      → Within lib P len (refused status buffer d)
  unfolding refused
  refused-Within status buffer d ne p = record {
    kept = p;
    whole = λ e. absurd (ne e);
    at_most = omega arith;
  }

  start_client-Within :
      (n : ℕ) (d : Driver C) (rest : Client C → Driver C → Moved C) (buffer : List ℕ)
      → lib.ok ≢ lib.invalid
      → ((c : Client C) → d.client ≡ some c → Confined P n c)
      → P d.ctx
      → ((c : Client C) (s : Driver C) → Confined P n c → P s.ctx → Within lib P len (rest c s))
      → Within lib P len (start_client lib d rest buffer)
  unfolding start_client
  start_client-Within n d rest buffer differ confined p further = go d.client refl
    where
      go :
          (o : Option (Client C))
          → d.client ≡ o
          → Within lib P len (elim o as (λ _. Moved C) [
            | none ↦ refused lib.invalid buffer d
            | some c ↦
                let (result, ctx) = c.init d.ctx in
                let started = record d { ctx = ctx; client_initialized = (result == lib.ok) } in
                if d.client_initialized
                then rest c d
                else if result == lib.ok
                then rest c started
                else refused result buffer started
          ])
      go none e = refused-Within _ buffer d (λ x. differ (sym x)) p
      go (some c) e =
          both_branches (Within lib P len) d.client_initialized (λ _. further c d (confined c e) p)
            (λ _.
              both_branches (Within lib P len) ((c.init d.ctx).0 == lib.ok)
                (λ _. further c _ (confined c e) ((confined c e).init d.ctx p))
                (λ failed.
                  refused-Within _ buffer _ (==→ne _ _ failed) ((confined c e).init d.ctx p)))

fits :
    (lib : Library) (m : Media) (off len : ℕ)
    → IsAdf lib m
    → misaligned off len ≡ false
    → outside (media_bytes m) off len ≡ false
    → (off / block_size + len / block_size ≤ m.sector_count)
      × (m.sector_count < 2 ^ 32)
      × (0 + len / block_size * block_size ≡ len)
unfolding misaligned outside media_bytes
fits lib m off len adf whole inside =
    let bytes : m.sector_count * m.sector_size % 2 ^ 32 ≡ m.sector_count * 512 =
      rw (adf.blocks) (ground (arith, adf.density)) in
    (
      ground (arith, adf.density, bytes, whole, inside),
      ground (arith, adf.density),
      ground (arith, whole),
    )

-- The codes of the library for a failure differ from the one for success.
pub record IsDistinct (lib : Library) : Type 0 where
  pub invalid : lib.ok ≢ lib.invalid
  pub not_found : lib.ok ≢ lib.not_found
  pub not_ready : lib.ok ≢ lib.not_ready
  pub io : lib.ok ≢ lib.io

module _ (lib : Library) {C : Type 0} (P : C → Type 0) (codes : IsDistinct lib) where
  -- Where the failure codes differ from success, a write to a driver that knows its medium touches
  -- no sector from the end of the medium on: a property of the context that is kept by the start of
  -- the client and by the transfers below the sector count is kept. It reports the whole length
  -- where it succeeds, and never more.
  pub disk_write-Within :
      (unit off : ℕ) (source : List ℕ) (len : ℕ) (d : Driver C)
      → len < 2 ^ 32
      → IsKnown lib d
      → ((c : Client C) → d.client ≡ some c → Confined P d.media.sector_count c)
      → P d.ctx
      → Within lib P len (disk_write lib unit off source len d)
  unfolding disk_write
  disk_write-Within unit off source len d hlen known confined p =
      let bad : (status : ℕ) → lib.ok ≢ status → Within lib P len (refused status source d) =
        λ status ne. refused-Within lib P len status source d (λ e. ne (sym e)) p in
      both_branches (Within lib P len) (misaligned off len) (λ _. bad lib.invalid codes.invalid)
        (λ whole.
          both_branches (Within lib P len) (not d.mounted) (λ _. bad lib.not_ready codes.not_ready)
            (λ mounted.
              both_branches (Within lib P len) (not d.writable) (λ _. bad lib.invalid codes.invalid)
                (λ _.
                  both_branches (Within lib P len) (outside (media_bytes d.media) off len)
                    (λ _. bad lib.invalid codes.invalid)
                    (λ inside.
                      let (room, small, blocks) =
                        fits lib d.media off len (known (ground (arith, mounted))) whole inside in
                      start_client-Within lib P len d.media.sector_count d
                        (λ (c : Client C) (started : Driver C).
                          elim (unit_to_slot unit) as (λ _. Moved C) [
                            | none ↦ refused lib.not_found source started
                            | some slot ↦
                                write_loop lib (len / block_size) c slot (off / block_size) source 0
                                  source started
                          ])
                        source codes.invalid confined p
                        (λ c s h q.
                          at_slot (unit_to_slot unit) c s
                            (λ slot.
                              write_loop-Within lib P d.media.sector_count c h slot len
                                (len / block_size) (off / block_size) source 0 source s room small
                                blocks hlen q)
                            q)))))
    where
      at_slot :
          (o : Option ℕ) (c : Client C) (s : Driver C)
          → ((slot : ℕ)
              → Within lib P len
                  (write_loop lib (len / block_size) c slot (off / block_size) source 0 source s))
          → P s.ctx
          → Within lib P len (elim o as (λ _. Moved C) [
            | none ↦ refused lib.not_found source s
            | some slot ↦
                write_loop lib (len / block_size) c slot (off / block_size) source 0 source s
          ])
      at_slot none c s further q =
          refused-Within lib P len lib.not_found source s (λ e. codes.not_found (sym e)) q
      at_slot (some slot) c s further q = further slot

  -- Under the same conditions a read touches no sector from the end of the medium on, and reports
  -- the whole length where it succeeds, and never more.
  pub disk_read-Within :
      (unit off : ℕ) (dst : List ℕ) (len : ℕ) (d : Driver C)
      → len < 2 ^ 32
      → IsKnown lib d
      → ((c : Client C) → d.client ≡ some c → Confined P d.media.sector_count c)
      → P d.ctx
      → Within lib P len (disk_read lib unit off dst len d)
  unfolding disk_read
  disk_read-Within unit off dst len d hlen known confined p =
      both_branches (Within lib P len)
        (misaligned off len
          || ((if d.mounted then media_bytes d.media else 0) == 0)
          || outside (if d.mounted then media_bytes d.media else 0) off len)
        (λ _. bad lib.invalid codes.invalid)
        (λ fine. at_slot (unit_to_slot unit) (λ slot.
          both_branches (Within lib P len) (not d.mounted) (λ _. bad lib.not_ready codes.not_ready)
            (λ mounted.
              let on : d.mounted ≡ true = ground (arith, mounted) in
              let whole : misaligned off len ≡ false = ground (arith, fine) in
              let (room, small, blocks) =
                fits lib d.media off len (known on) whole (inside on fine) in
              start_client-Within lib P len d.media.sector_count d _ dst codes.invalid confined p
                (λ c s h q.
                  read_loop-Within lib P d.media.sector_count c h slot len codes.io
                    (len / block_size) (off / block_size) [] dst 0 s room small blocks hlen q))))
    where
      bad : (status : ℕ) → lib.ok ≢ status → Within lib P len (refused status dst d)
      bad status ne = refused-Within lib P len status dst d (λ e. ne (sym e)) p

      inside :
          d.mounted ≡ true
          → misaligned off len
              || ((if d.mounted then media_bytes d.media else 0) == 0)
              || outside (if d.mounted then media_bytes d.media else 0) off len
            ≡ false
          → outside (media_bytes d.media) off len ≡ false
      inside on fine = ground (arith, on, fine)

      at_slot :
          (o : Option ℕ) {further : ℕ → Moved C}
          → ((slot : ℕ) → Within lib P len (further slot))
          → Within lib P len (elim o as (λ _. Moved C) [
            | none ↦ refused lib.not_found dst d
            | some slot ↦ further slot
          ])
      at_slot none f = bad lib.not_found codes.not_found
      at_slot (some slot) f = f slot
