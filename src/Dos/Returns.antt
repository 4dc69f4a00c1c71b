-- ===== src/Dos/Returns.antt =====
-- commands.c: Input_cmd ends, and keeps the limits of transfers.
use fujinet_nio_driver.Base.{
  ℕ, zero, suc, ◌+◌, ◌-◌, ◌*◌, ◌%◌, ◌^◌, ◌≤◌, ◌<◌, ◌≡◌, ◌≢◌, true, leb→le, refl, ◌&&◌, Option, some,
  List, arith, leb, ltb, ltb→lt, leb→lt, and_true, both_branches, both_cases, both_options,
  if◌then◌else◌,
}
use fujinet_nio_driver.Dos.Types.{max_dev, sector_size, DiskService, Dos}
use fujinet_nio_driver.Dos.Cache.{slot_of, cache_find, cached_bytes}
use fujinet_nio_driver.Dos.Input.{
  fetched, downshifted, failed, endless, Tried, Served, Finished, IoRequest, copy_at, offset_of,
  batch_of, damaged, downshift, read_attempts, read_batch, store_all, input_loop, input_cmd, finish,
  first_sector, sector_max,
}
use fujinet_nio_driver.Dos.Coherence.{store_all-limits}
use fujinet_nio_driver.Dos.Attempts.{all_outcomes, buffer_with, is_enough}
use fujinet_nio_driver.Dos.Reading.{batch_of_bounds}

-- A batch has 1 to 255 sectors, and there are at most 254 retries.
pub record IsReady {C : Type 0} (d : Dos C) : Type 0 where
  pub low : 1 ≤ d.batch_sectors
  pub high : d.batch_sectors < 2 ^ 8
  pub patient : d.io_retries < 2 ^ 8 - 1

record Attempted {C : Type 0} (d : Dos C) (t : Tried C) : Type 0 where
  ready : IsReady t.dos
  no_more : t.dos.batch_sectors ≤ d.batch_sectors
  less : t.outcome ≡ downshifted → t.dos.batch_sectors < d.batch_sectors
  ends : t.outcome ≢ endless

module _ {C : Type 0} where
  downshift-bounds :
      (fetch : ℕ) (d : Dos C)
      → 1 < fetch
      → fetch ≤ d.batch_sectors
      → IsReady d
      → IsReady (downshift fetch d) × ((downshift fetch d).batch_sectors < d.batch_sectors)
  unfolding downshift
  downshift-bounds fetch d h1 h2 r = (
    record { low = ground (arith, r.high); high = ground (arith, r.high); patient = r.patient },
    ground (arith, r.high),
  )

  module _ (svc : DiskService C) where
    read_attempts-Attempted :
        (fuel attempt slot lba fetch off : ℕ) (buf : List ℕ) (d : Dos C)
        → attempt ≤ d.io_retries + 1
        → d.io_retries + 1 < fuel + attempt
        → IsReady d
        → fetch ≤ d.batch_sectors
        → Attempted d (read_attempts svc fuel attempt slot lba fetch off buf d)
    unfolding read_attempts
    read_attempts-Attempted zero attempt slot lba fetch off buf d h1 h2 r most =
        absurd (omega arith)
    read_attempts-Attempted (suc fuel) attempt slot lba fetch off buf d h1 h2 r most =
        let need = fetch * sector_size % 2 ^ 16 in
        let answer = svc.read_sectors d.ctx slot lba fetch need in
        let after = record d { ctx = answer.1 } in
        let same : IsReady after = record { low = r.low; high = r.high; patient = r.patient } in
        let copied = buffer_with buf off answer.0 in
        let next = (attempt + 1) % 2 ^ 8 in
        let rest = read_attempts svc fuel next slot lba fetch off copied after in
        let later : leb attempt d.io_retries ≡ true → Attempted after rest = λ more.
          let bound = leb→le attempt d.io_retries more in
          let count : next ≡ attempt + 1 = omega (arith, bound, r.patient) in
          read_attempts-Attempted fuel next slot lba fetch off copied after
            (omega (arith, bound, count)) (omega (arith, h2, count)) same most in
        let worn = d.auto_downshift && ltb 1 fetch && damaged (svc.last answer.1).error in
        both_branches (Attempted d) (ltb d.io_retries attempt)
          {x = record { outcome = failed; buf = buf; dos = d }}
          {y = if is_enough need answer.0
            then record { outcome = fetched; buf = copied; dos = after }
            else if worn
            then record { outcome = downshifted; buf = copied; dos = downshift fetch after }
            else rest}
          (λ _. record {
            ready = r;
            no_more = omega arith;
            less = λ e. absurd cc;
            ends = λ e. absurd cc;
          })
          (λ more.
            both_branches (Attempted d) (is_enough need answer.0)
              {x = record { outcome = fetched; buf = copied; dos = after }}
              {y = if worn
                then record { outcome = downshifted; buf = copied; dos = downshift fetch after }
                else rest}
              (λ _. record {
                ready = same;
                no_more = omega arith;
                less = λ e. absurd cc;
                ends = λ e. absurd cc;
              })
              (λ _.
                both_branches (Attempted d) worn
                  {x = record { outcome = downshifted; buf = copied; dos = downshift fetch after }}
                  {y = rest}
                  (λ e.
                    let front =
                      and_true (d.auto_downshift && ltb 1 fetch) (damaged (svc.last answer.1).error)
                        e in
                    let two = ltb→lt 1 fetch (and_true d.auto_downshift (ltb 1 fetch) front.0).1 in
                    let lower = downshift-bounds fetch after two most same in
                    record {
                      ready = lower.0;
                      no_more = omega (arith, lower.1);
                      less = λ _. lower.1;
                      ends = λ e'. absurd cc;
                    })
                  (λ _.
                    let rest_of = later (ground (arith, more)) in
                    record {
                      ready = rest_of.ready;
                      no_more = rest_of.no_more;
                      less = rest_of.less;
                      ends = rest_of.ends;
                    })))

    read_batch-Attempted :
        (slot lba fetch off : ℕ) (buf : List ℕ) (d : Dos C)
        → IsReady d
        → fetch ≤ d.batch_sectors
        → Attempted d (read_batch svc slot lba fetch off buf d)
    unfolding read_batch
    read_batch-Attempted slot lba fetch off buf d r most =
        read_attempts-Attempted (2 ^ 8) 0 slot lba fetch off buf d (omega arith)
          (omega (arith, r.patient)) r most

    unfoldable pub Ends : Option (Served C) → Type 0
    Ends o = (s : Served C) × (o ≡ some s) × IsReady s.dos

    store_all-IsReady :
        (n unit lba done : ℕ) (buf : List ℕ) (d : Dos C)
        → IsReady d
        → IsReady (store_all n unit lba done buf d)
    store_all-IsReady n unit lba done buf d r = record {
      low = omega (arith, (store_all-limits n unit lba done buf d).0, r.low);
      high = omega (arith, (store_all-limits n unit lba done buf d).0, r.high);
      patient = omega (arith, (store_all-limits n unit lba done buf d).1, r.patient);
    }

    -- Every round of the loop reads a sector, ends it, or lowers the limit of a batch.
    input_loop-Ends :
        (fuel unit count last done lba : ℕ) (buf : List ℕ) (d : Dos C)
        → IsReady d
        → count - done + d.batch_sectors < fuel
        → Ends (input_loop svc fuel unit count last done lba buf d)
    unfolding input_loop Ends
    input_loop-Ends zero unit count last done lba buf d r enough = absurd (omega arith)
    input_loop-Ends (suc fuel) unit count last done lba buf d r enough =
        let off = offset_of done in
        let fetch = batch_of (count - done) d.batch_sectors (last - lba) in
        let t = read_batch svc (slot_of d.unit_slot unit) lba fetch off buf d in
        both_cases Ends (ltb done count)
          (λ below.
            both_cases Ends (leb last lba) (λ _. (_, refl, r))
              (λ inside.
                let less = ltb→lt done count below in
                let within = leb→lt last lba inside in
                let bounds =
                  batch_of_bounds (count - done) d.batch_sectors (last - lba) (omega arith) r.low
                    (omega arith) in
                let tried =
                  read_batch-Attempted (slot_of d.unit_slot unit) lba fetch off buf d r bounds.2 in
                both_options Ends (cache_find d.cache unit lba)
                  (λ _.
                    all_outcomes Ends t.outcome (λ _. (_, refl, tried.ready))
                      (λ e.
                        input_loop-Ends fuel unit count last done lba t.buf t.dos tried.ready
                          (omega (arith, tried.less e, enough)))
                      (λ _.
                        input_loop-Ends fuel unit count last (done + fetch) ((lba + fetch) % 2 ^ 32)
                          t.buf (store_all fetch unit lba done t.buf t.dos)
                          (store_all-IsReady fetch unit lba done t.buf t.dos tried.ready)
                          (omega (
                            arith,
                            (store_all-limits fetch unit lba done t.buf t.dos).0,
                            tried.no_more,
                            bounds.0,
                            bounds.1,
                            enough,
                          )))
                      (λ e. absurd (tried.ends e)))
                  (λ i _.
                    input_loop-Ends fuel unit count last (done + 1) ((lba + 1) % 2 ^ 32)
                      (copy_at buf off (cached_bytes d.cache i)) d r (omega arith))))
          (λ _. (_, refl, r))

    finish-dos : (count : ℕ) (s : Served C) → (finish count s).dos ≡ s.dos
    unfolding finish
    finish-dos count s = ground arith

    pub finish-IsReady : (count : ℕ) (s : Served C) → IsReady s.dos → IsReady (finish count s).dos
    finish-IsReady count s r = rw (finish-dos count s) r

    unfoldable pub Completes : Option (Finished C) → Type 0
    Completes o = (out : Finished C) × (o ≡ some out) × IsReady out.dos

    pub input_cmd-Completes :
        (t : IoRequest) (d : Dos C) → IsReady d → Completes (input_cmd svc t d)
    unfolding input_cmd Completes Ends
    input_cmd-Completes t d r =
        let (s, e, ready) =
          input_loop-Ends (t.count + d.batch_sectors + 1) t.unit t.count
            (sector_max d.bpb_table t.unit) 0 (first_sector t) t.buffer d r (omega arith) in
        both_branches Completes (leb max_dev t.unit) (λ _. (_, refl, r))
          (λ _. rw e (finish t.count s, refl, finish-IsReady t.count s ready))
