-- ===== src/Dos/Answers.antt =====
-- dispatch.c: requests of DOS are answered, and marked as done.
use fujinet_nio_driver.Base.{
  ℕ, zero, suc, ◌+◌, ◌-◌, ◌*◌, ◌%◌, ◌^◌, ◌≤◌, ◌<◌, ◌≡◌, refl, Bool, true, false, ◌&&◌, and_true, [],
  ◌∷◌, Option, some, List, arith, leb, ltb, ltb→lt, leb→lt, both_branches, both_cases, both_options,
  drop, bit_and, get_or, not, ◌==◌, ltb→le,
}
use fujinet_nio_driver.Base.Bits.{bit_and-bit_or}
use fujinet_nio_driver.Dos.Types.{max_dev, sector_size, done_bit, info_readonly, DiskService, Dos}
use fujinet_nio_driver.Dos.Cache.{slot_of, disk_info_cached}
use fujinet_nio_driver.Dos.Input.{
  Finished, IoRequest, offset_of, batch_of, finish, first_sector, sector_max,
}
use fujinet_nio_driver.Dos.Output.{is_written, update_all, output_loop, output_cmd}
use fujinet_nio_driver.Dos.Dispatch.{
  Sysreq, Function, Answer, io_view, finished, control, current_function, dispatch_table,
  max_command, interrupt,
}
use fujinet_nio_driver.Dos.Coherence.{SameLimits}
use fujinet_nio_driver.Dos.Reading.{batch_of_bounds}
use fujinet_nio_driver.Dos.Limits.{
  update_all-limits, disk_info_cached-limits, media_check_cmd-limits, build_bpb_cmd-limits,
  handle_ioctl_buffer-limits,
}
use fujinet_nio_driver.Dos.Returns.{IsReady, Ends, Completes, input_cmd-Completes, finish-IsReady}

-- The function of the command 0, Init_cmd.
starts : Function → Bool
starts Function.init_cmd = true
starts _ = false

starts_none : List Function → Bool
starts_none [] = true
starts_none (f ∷ fs) = not (starts f) && starts_none fs

get_or-starts :
    (fs : List Function) (n : ℕ)
    → starts_none fs ≡ true
    → starts (get_or fs n Function.unknown) ≡ false
unfolding starts starts_none
get_or-starts [] n h = refl
get_or-starts (f ∷ fs) zero h = ground (arith, (and_true (not (starts f)) (starts_none fs) h).0)
get_or-starts (f ∷ fs) (suc n) h =
    get_or-starts fs n (and_true (not (starts f)) (starts_none fs) h).1

-- The first command alone goes to Init_cmd.
dispatch_table-starts : (n : ℕ) → 1 ≤ n → starts (get_or dispatch_table n Function.unknown) ≡ false
unfolding dispatch_table starts starts_none
dispatch_table-starts zero h = absurd (omega arith)
dispatch_table-starts (suc n) h = get_or-starts (drop 1 dispatch_table) n refl

module _ {C : Type 0} where
  same-IsReady : (d e : Dos C) → SameLimits d e → IsReady d → IsReady e
  same-IsReady d e same r = record {
    low = omega (arith, same.0, r.low);
    high = omega (arith, same.0, r.high);
    patient = omega (arith, same.1, r.patient);
  }

  module _ (svc : DiskService C) where
    output_loop-Ends :
        (fuel unit count last done lba : ℕ) (buf : List ℕ) (d : Dos C)
        → IsReady d
        → count - done < fuel
        → Ends svc (output_loop svc fuel unit count last done lba buf d)
    unfolding output_loop Ends
    output_loop-Ends zero unit count last done lba buf d r enough = absurd (omega arith)
    output_loop-Ends (suc fuel) unit count last done lba buf d r enough =
        let P = Ends svc in
        let batch = batch_of (count - done) d.batch_sectors (last - lba) in
        let size = batch * sector_size % 2 ^ 16 in
        let answer =
          svc.write_sectors d.ctx (slot_of d.unit_slot unit) lba batch (drop (offset_of done) buf)
            size in
        let after = record d { ctx = answer.1 } in
        let next = update_all batch unit lba done buf after in
        both_cases P (ltb done count)
          (λ below.
            both_cases P (leb last lba) (λ _. (_, refl, r))
              (λ inside.
                let less = ltb→lt done count below in
                let within = leb→lt last lba inside in
                let bounds =
                  batch_of_bounds (count - done) d.batch_sectors (last - lba) (omega arith) r.low
                    (omega arith) in
                both_cases P (is_written size answer.0)
                  (λ _.
                    output_loop-Ends fuel unit count last (done + batch) ((lba + batch) % 2 ^ 32)
                      buf next
                      (same-IsReady d next (update_all-limits batch unit lba done buf after) r)
                      (omega (arith, bounds.0, bounds.1, enough)))
                  (λ _. (_, refl, record { low = r.low; high = r.high; patient = r.patient }))))
          (λ _. (_, refl, r))

    output_cmd-Completes :
        (t : IoRequest) (d : Dos C) → IsReady d → Completes svc (output_cmd svc t d)
    unfolding output_cmd Completes Ends
    output_cmd-Completes t d r =
        let P = Completes svc in
        let asked = (disk_info_cached svc t.unit d).1 in
        let ready = same-IsReady d asked (disk_info_cached-limits svc t.unit d) r in
        let (s, e, end) =
          output_loop-Ends (t.count + 1) t.unit t.count (sector_max asked.bpb_table t.unit) 0
            (first_sector t) t.buffer asked ready (omega arith) in
        both_branches P (leb max_dev t.unit) (λ _. (_, refl, r))
          (λ _.
            both_options P (disk_info_cached svc t.unit d).0 (λ _. (_, refl, ready))
              (λ i _.
                both_branches P (not (bit_and i.flags info_readonly == 0)) (λ _. (_, refl, ready))
                  (λ _. rw e (finish t.count s, refl, finish-IsReady svc t.count s end))))

    module _ (call_size : ℕ) (init : Sysreq → Dos C → Answer C) where
      unfoldable Answers : Option (Answer C) → Type 0
      Answers o = (a : Answer C) × (o ≡ some a) × IsReady a.dos

      finished-Answers :
          (req : Sysreq) (o : Option (Finished C)) → Completes svc o → Answers (finished req o)
      unfolding finished Completes Answers
      finished-Answers req o (f, e, r) = rw e (_, refl, r)

      control-Answers :
          (req : Sysreq) (d : Dos C) → IsReady d → Answers (control call_size init svc req d)
      unfolding control Answers
      control-Answers req d r = (
        _,
        refl,
        same-IsReady d _ (handle_ioctl_buffer-limits svc call_size req.unit req.count req.memory d)
            r,
      )

      current_function-Answers :
          (f : Function) (req : Sysreq) (d : Dos C)
          → IsReady d
          → starts f ≡ false
          → Answers (current_function call_size init svc f req d)
      unfolding current_function Answers starts
      current_function-Answers Function.init_cmd req d r kind = absurd (ground (arith, kind))
      current_function-Answers Function.media_check req d r kind =
          (_, refl, same-IsReady d _ (media_check_cmd-limits svc req.unit req.return_info d) r)
      current_function-Answers Function.build_bpb req d r kind =
          (_, refl, same-IsReady d _ (build_bpb_cmd-limits svc req.unit req.table req.memory d) r)
      current_function-Answers Function.ioctl_input req d r kind = control-Answers req d r
      current_function-Answers Function.ioctl_output req d r kind = control-Answers req d r
      current_function-Answers Function.input req d r kind =
          finished-Answers req _ (input_cmd-Completes svc (io_view req) d r)
      current_function-Answers Function.output req d r kind =
          finished-Answers req _ (output_cmd-Completes (io_view req) d r)
      current_function-Answers Function.input_no_wait req d r kind = (_, refl, r)
      current_function-Answers Function.input_status req d r kind = (_, refl, r)
      current_function-Answers Function.input_flush req d r kind = (_, refl, r)
      current_function-Answers Function.output_verify req d r kind = (_, refl, r)
      current_function-Answers Function.output_status req d r kind = (_, refl, r)
      current_function-Answers Function.output_flush req d r kind = (_, refl, r)
      current_function-Answers Function.dev_open req d r kind = (_, refl, r)
      current_function-Answers Function.dev_close req d r kind = (_, refl, r)
      current_function-Answers Function.remove_media req d r kind = (_, refl, r)
      current_function-Answers Function.unknown req d r kind = (_, refl, r)
      current_function-Answers Function.ioctl req d r kind = (_, refl, r)
      current_function-Answers Function.get_l_d_map req d r kind = (_, refl, r)
      current_function-Answers Function.set_l_d_map req d r kind = (_, refl, r)

      -- With a limit of 1 to 255 sectors to a batch and at most 254 retries, every request of a
      -- command other than the first, which goes to Init_cmd, is answered: the code that handles it
      -- ends, the done bit of its status is set, and both limits are still in that range. A command
      -- behind the last one is answered as an unknown command, and changes nothing.
      pub interrupt-IsReady :
          (req : Sysreq) (d : Dos C)
          → 1 ≤ req.command
          → IsReady d
          → (out : Sysreq × Dos C) × (interrupt call_size init svc req d ≡ some out)
            × IsReady out.1
            × (bit_and out.0.status done_bit ≡ done_bit)
            × (max_command < req.command → (out.0.status ≡ 0x8103) × (out.1 ≡ d))
      unfolding interrupt Answers
      interrupt-IsReady req d other r =
          let f = get_or dispatch_table req.command Function.unknown in
          let (a, e, ready) =
            current_function-Answers f req d r (dispatch_table-starts req.command other) in
          both_branches
            (λ (o : Option (Sysreq × Dos C)).
              (out : Sysreq × Dos C) × (o ≡ some out)
              × IsReady out.1
              × (bit_and out.0.status done_bit ≡ done_bit)
              × (max_command < req.command → (out.0.status ≡ 0x8103) × (out.1 ≡ d)))
            (ltb max_command req.command) (λ _. (_, refl, r, refl, λ _. (refl, refl)))
            (λ small. rw e (
              _,
              refl,
              ready,
              bit_and-bit_or a.status done_bit,
              λ big. absurd (omega (arith, ltb→le max_command req.command small)),
            ))
