-- ===== src/Dos/Reading.antt =====
-- Input_cmd: what a read gives back is the medium, whatever comes from the cache.
use fujinet_nio_driver.Base.{
  ℕ, zero, suc, ◌+◌, ◌-◌, ◌*◌, ◌%◌, ◌^◌, ◌≤◌, ◌<◌, ◌≡◌, refl, ap, sym, subst, ◌∙◌, Option, some,
  List, ◌++◌, append-nil, arith, leb, ltb, ltb→lt, leb→lt, both_cases, both_options, take, drop,
  length,
}
use fujinet_nio_driver.Dos.Types.{sector_size, DiskService, Dos}
use fujinet_nio_driver.Dos.Cache.{slot_of, cache_find, cached_bytes}
use fujinet_nio_driver.Dos.Input.{
  fetched, Tried, Served, copy_at, offset_of, batch_of, read_batch, store_all, input_loop,
}
use fujinet_nio_driver.Dos.Sectors.{
  sectors, length-copy_at, take-copy_at, take-sectors, take-drop-take, take-drop-sectors,
}
use fujinet_nio_driver.Dos.Coherence.{
  ReadsMedium, Follows, cached_bytes_current, store_all-Follows, store_all-limits,
}
use fujinet_nio_driver.Dos.Attempts.{Tries, read_batch-Tries, all_outcomes}

pub batch_of_bounds :
    (remaining limit room : ℕ)
    → 1 ≤ remaining
    → 1 ≤ limit
    → 1 ≤ room
    → (1 ≤ batch_of remaining limit room)
      × (batch_of remaining limit room ≤ remaining)
      × (batch_of remaining limit room ≤ limit)
      × (batch_of remaining limit room ≤ room)
unfolding batch_of
batch_of_bounds remaining limit room h1 h2 h3 =
    (ground arith, ground arith, ground arith, ground arith)

module _ {C : Type 0} (svc : DiskService C) (sector : C → ℕ → ℕ → List ℕ)
    (law : ReadsMedium svc sector) (medium : ℕ → ℕ → List ℕ) (slots : List ℕ) (high : ℕ)
    (small : high ≤ 127) (unit count last first size : ℕ) (few : count ≤ 128)
    (room : count * sector_size ≤ size) (wide : last < 2 ^ 32) where
  -- What the loop has brought about: the first sectors of the buffer are those of the medium.
  pub record HasRead (done : ℕ) (buf : List ℕ) (d : Dos C) : Type 0 where
    pub follows : Follows sector medium slots high d
    pub at_most : done ≤ count
    pub same_size : length buf ≡ size
    pub got : take (done * sector_size) buf ≡ sectors (medium (slot_of slots unit)) first done

  unfoldable pub Finishes : Option (Served C) → Type 0
  Finishes o = (s : Served C) × (o ≡ some s) × HasRead s.done s.buf s.dos

  -- A sector from the cache.
  copied-HasRead :
      (done lba i : ℕ) (buf : List ℕ) (d : Dos C)
      → HasRead done buf d
      → done < count
      → lba ≡ first + done
      → cache_find d.cache unit lba ≡ some i
      → HasRead (done + 1) (copy_at buf (offset_of done) (cached_bytes d.cache i)) d
  copied-HasRead done lba i buf d r h place found =
      let bytes = cached_bytes d.cache i in
      let slot = slot_of slots unit in
      let current : bytes ≡ medium slot lba =
        cached_bytes_current medium slots d.cache unit lba r.follows.lines i found in
      let long : length bytes ≡ sector_size =
        ap length (current ∙ sym (r.follows.same_medium slot lba)) ∙ law.sized d.ctx slot lba in
      let off : offset_of done ≡ done * sector_size = omega arith in
      let fits : done * sector_size + length bytes ≤ length buf =
        omega (arith, long, r.same_size, room) in
      rw off (record {
        follows = r.follows;
        at_most = omega arith;
        same_size = length-copy_at buf (done * sector_size) bytes fits ∙ r.same_size;
        got =
            take-sectors (medium slot) first done 1 lba buf (copy_at buf (done * sector_size) bytes)
              place r.got
              (ap (λ n. take (done * sector_size + n) (copy_at buf (done * sector_size) bytes))
                  (sym long)
                ∙ take-copy_at buf (done * sector_size) bytes fits
                ∙ ap (λ bs. take (done * sector_size) buf ++ bs)
                    (current ∙ sym (append-nil (medium slot lba))));
      })

  module _ (done lba fetch : ℕ) (buf : List ℕ) (d : Dos C) (r : HasRead done buf d) (t : Tried C)
      (tries : Tries sector medium slots high
        (slot_of slots unit)
        lba
        fetch
        (done * sector_size)
        buf
        d
        t)
      (place : lba ≡ first + done) where
    -- Attempts that fetch nothing leave what was read.
    kept-HasRead : HasRead done t.buf t.dos
    kept-HasRead = record {
      follows = tries.follows;
      at_most = r.at_most;
      same_size = tries.same_size ∙ r.same_size;
      got = tries.before ∙ r.got;
    }

    -- A batch that came, with its sectors stored in the cache.
    fetched-HasRead :
        t.outcome ≡ fetched
        → done + fetch ≤ count
        → lba + fetch ≤ last
        → HasRead (done + fetch) t.buf (store_all fetch unit lba done t.buf t.dos)
    fetched-HasRead came more inside =
        let f = medium (slot_of slots unit) in
        let sized : (l : ℕ) → length (f l) ≡ sector_size = λ l.
          ap length (sym (r.follows.same_medium (slot_of slots unit) l))
          ∙ law.sized d.ctx (slot_of slots unit) l in
        let got : take ((done + fetch) * sector_size) t.buf ≡ sectors f first (done + fetch) =
          take-sectors f first done fetch lba buf t.buf place r.got (tries.got came) in
        record {
          follows =
              store_all-Follows sector medium slots high fetch unit lba done t.buf t.dos
                (λ i spot k less p q.
                  let off : offset_of spot ≡ spot * sector_size = omega arith in
                  let at_spot : first + spot ≡ k = omega arith in
                  ap (λ o. take sector_size (drop o t.buf)) off
                  ∙ take-drop-take (spot * sector_size) sector_size ((done + fetch) * sector_size)
                      t.buf (omega arith)
                  ∙ ap (λ bs. take sector_size (drop (spot * sector_size) bs)) got
                  ∙ take-drop-sectors f sized first (done + fetch) spot (spot * sector_size)
                      (omega arith) refl
                  ∙ ap f at_spot)
                (omega arith) tries.follows;
          at_most = more;
          same_size = tries.same_size ∙ r.same_size;
          got = got;
        }

  -- With more fuel than sectors left and the limit of a batch together, the loop ends, and what it
  -- has read is the medium.
  pub input_loop-Finishes :
      (fuel done lba : ℕ) (buf : List ℕ) (d : Dos C)
      → HasRead done buf d
      → lba ≡ first + done
      → count - done + d.batch_sectors < fuel
      → Finishes (input_loop svc fuel unit count last done lba buf d)
  unfolding input_loop Finishes
  input_loop-Finishes zero done lba buf d r place enough = absurd (omega arith)
  input_loop-Finishes (suc fuel) done lba buf d r place enough =
      let slot = slot_of d.unit_slot unit in
      let off = offset_of done in
      let fetch = batch_of (count - done) d.batch_sectors (last - lba) in
      let t = read_batch svc slot lba fetch off buf d in
      both_cases Finishes (ltb done count)
        (λ below.
          both_cases Finishes (leb last lba) (λ _. (_, refl, r))
            (λ inside.
              let less = ltb→lt done count below in
              let within = leb→lt last lba inside in
              let next : (lba + 1) % 2 ^ 32 ≡ lba + 1 = omega (arith, within, wide) in
              let exact : off ≡ done * sector_size = omega arith in
              let bounds =
                batch_of_bounds (count - done) d.batch_sectors (last - lba) (omega arith)
                  r.follows.low (omega arith) in
              let after : (lba + fetch) % 2 ^ 32 ≡ lba + fetch = omega (arith, bounds.3, wide) in
              let raw =
                read_batch-Tries svc sector law medium slots high slot lba fetch off buf d r.follows
                  bounds.2 (omega (arith, bounds.2, r.follows.limit, small))
                  (omega (arith, bounds.1, exact, r.same_size, room)) in
              let tries : Tries sector medium slots high (slot_of slots unit) lba fetch
                  (done * sector_size) buf d t =
                subst (λ o. Tries sector medium slots high (slot_of slots unit) lba fetch o buf d t)
                  exact
                  (subst
                    (λ sl. Tries sector medium slots high (slot_of sl unit) lba fetch off buf d t)
                    r.follows.same_slots raw) in
              both_options Finishes (cache_find d.cache unit lba)
                (λ _.
                  all_outcomes Finishes t.outcome
                    (λ _. (_, refl, kept-HasRead done lba fetch buf d r t tries place))
                    (λ e.
                      input_loop-Finishes fuel done lba t.buf t.dos
                        (kept-HasRead done lba fetch buf d r t tries place) place
                        (omega (arith, tries.less e, enough)))
                    (λ e.
                      input_loop-Finishes fuel (done + fetch) ((lba + fetch) % 2 ^ 32) t.buf
                        (store_all fetch unit lba done t.buf t.dos)
                        (fetched-HasRead done lba fetch buf d r t tries place e
                          (omega (arith, bounds.1, less)) (omega (arith, bounds.3, within)))
                        (omega (arith, after, place))
                        (omega (
                          arith,
                          (store_all-limits fetch unit lba done t.buf t.dos).0,
                          tries.no_more,
                          bounds.0,
                          bounds.1,
                          enough,
                        )))
                    (λ e. absurd (tries.ends e)))
                (λ i found.
                  input_loop-Finishes fuel (done + 1) ((lba + 1) % 2 ^ 32)
                    (copy_at buf off (cached_bytes d.cache i)) d
                    (copied-HasRead done lba i buf d r less place found)
                    (omega (arith, next, place)) (omega arith))))
        (λ _. (_, refl, r))
