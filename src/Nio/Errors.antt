-- ===== src/Nio/Errors.antt =====
-- nio.c: `nio_last_error` tells whether a call went well.
use fujinet_nio_driver.Base.{
  ℕ, ◌≡◌, ◌≢◌, refl, sym, subst, not, Bool, true, false, Option, none, some, List, arith, replicate,
  both_branches, both_options, some_ne_none,
}
use fujinet_nio_driver.DiskProtocol.{
  build_read_sector_request, build_read_sectors_request, parse_info_response,
  parse_read_sector_response, parse_read_sectors_response, slot_request_size,
  read_sector_request_size, read_sectors_request_size,
}
use fujinet_nio_driver.Transaction.{
  Diag, Request, Machine, request, bind_port, usable_port, err_none, Reply, in_place,
}
use fujinet_nio_driver.Transaction.Outcome.{Outcome, HasError, HasNoError, transaction_call-Outcome}
use fujinet_nio_driver.Transaction.Bounds.{transaction_call_total}
use fujinet_nio_driver.Transaction.Diagnosed.{IsThere, transaction_call-IsThere}
use fujinet_nio_driver.Nio.Types.{
  PortIo, Nio, NioCalled, blank_answer, nio_buffers, nio_port, nio_machine, nio_request, nio_called,
  nio_call, nio_call_in_place, max_rx, nio_fail, nio_status_ok,
}
use fujinet_nio_driver.Nio.Disk.{
  accepted, refuse, ask_slot, nio_disk_info, nio_disk_read_sector, nio_disk_read_sectors, built,
  cmd_info, cmd_read_sector, cmd_read_sectors, device_disk, data_from,
}

-- A result `true` leaves no error behind, and `false` leaves one.
pub record IsReported (ok : Bool) (d : Diag) : Type 0 where
  pub good : ok ≡ true → d.error ≡ err_none
  pub bad : ok ≡ false → d.error ≢ err_none

-- The same of a result that is there or not.
pub record IsTold {A S : Type 0} (out : Option A × Nio S) : Type 0 where
  pub nothing : out.0 ≡ none → out.1.last.error ≢ err_none
  pub something : (a : A) → out.0 ≡ some a → out.1.last.error ≡ err_none

not-true : (b : Bool) → not b ≡ true → b ≡ false
not-true true h = sym h
not-true false h = refl

not-false : (b : Bool) → not b ≡ false → b ≡ true
not-false true h = refl
not-false false h = sym h

module _ {S : Type 0} where
  refuse_ne : (c : NioCalled S) → (refuse c).last.error ≢ err_none
  unfolding refuse nio_fail
  refuse_ne c = ground arith

  nio_called-IsReported :
      (r : Request) (reply : Reply) (n : Nio S) (out : Bool × Machine S)
      → IsThere out.1.diag
      → Outcome r reply (some blank_answer) out
      → IsReported (nio_called n out).ok (nio_called n out).nio.last
  unfolding nio_called
  nio_called-IsReported r reply n (true, m) (d, there) o = record {
    good = λ _. rw there (subst (HasNoError o.parsed.status) there o.clear).0;
    bad = λ e. absurd cc;
  }
  nio_called-IsReported r reply n (false, m) (d, there) o = record {
    good = λ e. absurd cc;
    bad = λ _. rw there (subst HasError there o.error);
  }

  accepted-IsTold :
      {A : Type 0} (c : NioCalled S) (parsed : Option A)
      → IsReported c.ok c.nio.last
      → IsTold (accepted c parsed)
  unfolding accepted refuse nio_fail
  accepted-IsTold c parsed r =
      let refused : IsTold (none, refuse c) = record {
        nothing = λ _. refuse_ne c;
        something = λ a e. absurd (some_ne_none (sym e));
      } in
      both_branches IsTold (not c.ok) {x = (none, c.nio)}
        (λ bad. record {
          nothing = λ _. r.bad (not-true c.ok bad);
          something = λ a e. absurd (some_ne_none (sym e));
        })
        (λ good.
          both_branches IsTold (nio_status_ok c.response.status) {y = (none, refuse c)}
            (λ _.
              both_options IsTold parsed {x = (none, refuse c)} {f = λ a. (some a, c.nio)}
                (λ _. refused)
                (λ a _. record {
                  nothing = λ e. absurd (some_ne_none e);
                  something = λ b _. r.good (not-false c.ok good);
                }))
            (λ _. refused))

  module _ (io : PortIo S) where
    -- Every call returns, and it reports an error in `nio_last_error` just where its result is
    -- `false`.
    pub nio_call-IsReported :
        (device command size capacity : ℕ) (payload : List ℕ) (reply : Reply) (n : Nio S)
        → IsReported
            (nio_call io device command payload size reply capacity n).ok
            (nio_call io device command payload size reply capacity n).nio.last
    unfolding nio_call usable_port request bind_port
    nio_call-IsReported device command size capacity payload reply n =
        let raw = some (nio_port io) in
        let r = nio_request device command payload size capacity n in
        let m = nio_machine reply n in
        let (out, e) =
          transaction_call_total raw (some nio_buffers) r n.transport_retries m (omega arith) in
        rw (nio_call, e)
          (nio_called-IsReported r reply n out
            (transaction_call-IsThere raw (some nio_buffers) _ r n.transport_retries m out refl
              (n.diag, refl) e)
            (transaction_call-Outcome raw (some nio_buffers) _ r n.transport_retries m out refl e))

    in_place-IsReported :
        (device command size : ℕ) (payload : List ℕ) (n : Nio S)
        → IsReported
            (nio_call_in_place io device command payload size n).ok
            (nio_call_in_place io device command payload size n).nio.last
    unfolding nio_call_in_place
    in_place-IsReported device command size payload n =
        nio_call-IsReported device command size max_rx payload in_place n

    -- The information of a disk and its sectors, read one by one or in a batch: where there is no
    -- result, `nio_last_error` names an error, and where there is one, it names none.
    pub nio_disk-IsTold :
        (slot lba count size : ℕ) (n : Nio S)
        → IsTold (nio_disk_info io slot n)
          × IsTold (nio_disk_read_sector io slot lba size n)
          × IsTold (nio_disk_read_sectors io slot lba count size n)
    unfolding nio_disk_info ask_slot nio_disk_read_sector nio_disk_read_sectors
    nio_disk-IsTold slot lba count size n =
        let asked = ask_slot io cmd_info slot 16 n in
        let one =
          nio_call_in_place io device_disk cmd_read_sector
            (built (build_read_sector_request slot lba size (some (replicate 8 0)) 8))
            read_sector_request_size n in
        let many =
          nio_call_in_place io device_disk cmd_read_sectors
            (built (build_read_sectors_request slot lba count size (some (replicate 10 0)) 10))
            read_sectors_request_size n in
        (
          accepted-IsTold asked
              (parse_info_response (some asked.reply) asked.response.payload_length)
              (nio_call-IsReported device_disk cmd_info slot_request_size 16 _ _ n),
          accepted-IsTold one
              (data_from 11 one.reply
                (parse_read_sector_response (some one.reply) one.response.payload_length size))
              (in_place-IsReported device_disk cmd_read_sector read_sector_request_size _ n),
          accepted-IsTold many
              (data_from 13 many.reply
                (parse_read_sectors_response (some many.reply) many.response.payload_length size))
              (in_place-IsReported device_disk cmd_read_sectors read_sectors_request_size _ n),
        )
