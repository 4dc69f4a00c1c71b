-- ===== src/Serial/Tests.antt =====
-- Runs of the serial device, and its theorems at concrete inputs.
use fujinet_nio_driver.Base.{◌+◌, ◌≡◌, refl, true, false, some, [], ◌∷◌, arith}
use fujinet_nio_driver.Serial.{
  Lc, lc_init, lc_open_at_baud, lc_write, lc_tbe_handler, lc_write_softint, lc_close, lc_ok,
  lc_hw_rx, write_waits, rx_again, tbe_off, rearm_receive, drain_rbf, drain_loop, end_write,
  take_pending_write,
}
use fujinet_nio_driver.Serial.Inv.{IsLc, IsDry, IsRequested, drain_rbf-empty}
use fujinet_nio_driver.Serial.Session.{lc_close-IsClosed}
use fujinet_nio_driver.Serial.Reach.{
  Reached, starts, goes, opens, writes, handles_tbe, Reached-IsLc, lc_write_softint_complete,
}

abbrev opened : Lc
opened = (lc_open_at_baud 9600 lc_init).1

abbrev writing : Lc
writing = (lc_write (some (65 ∷ 66 ∷ [])) 2 opened).1

abbrev sent : Lc
sent = lc_tbe_handler (lc_tbe_handler (lc_tbe_handler writing))

writing-Reached : Reached writing
writing-Reached =
    goes opened writing (goes lc_init opened starts (opens 9600 lc_init))
      (writes (some (65 ∷ 66 ∷ [])) 2 opened (omega arith))

sent-Reached : Reached sent
sent-Reached =
    let once = goes writing (lc_tbe_handler writing) writing-Reached (handles_tbe writing) in
    let twice =
      goes _ (lc_tbe_handler (lc_tbe_handler writing)) once
        (handles_tbe (lc_tbe_handler writing)) in
    goes _ sent twice (handles_tbe (lc_tbe_handler (lc_tbe_handler writing)))

is_due : sent.writer.write_softint_pending ≡ true
unfolding lc_init lc_open_at_baud lc_write lc_tbe_handler rearm_receive drain_rbf drain_loop
    rx_again tbe_off write_waits
is_due = refl

completes : (lc_write_softint sent).0 ≡ true
unfolding lc_init lc_open_at_baud lc_write lc_tbe_handler lc_write_softint rearm_receive drain_rbf
    drain_loop rx_again tbe_off write_waits end_write take_pending_write
completes = refl

Reached-IsLc_example : IsLc sent
Reached-IsLc_example = Reached-IsLc sent sent-Reached

lc_write_softint_complete_example :
    ((lc_write_softint sent).1.writer.write_actual ≡ sent.writer.write_length)
    × ((lc_write_softint sent).1.writer.write_error ≡ lc_ok)
    × ((lc_write_softint sent).1.audit.reply_count ≡ sent.audit.reply_count + 1)
lc_write_softint_complete_example = lc_write_softint_complete sent sent-Reached is_due completes

lc_close-IsClosed_example : IsLc (lc_close sent).1 × ((lc_close sent).1.open_cnt ≡ 0)
lc_close-IsClosed_example = lc_close-IsClosed sent (Reached-IsLc sent sent-Reached)

-- A byte that waits in the chip.
abbrev holding : Lc
holding = lc_hw_rx 65 false lc_init

holding_on : holding.chip.inten_master ≡ true
unfolding lc_hw_rx lc_init
holding_on = refl

holding_asks : IsRequested holding
unfolding lc_hw_rx lc_init
holding_asks = refl

drain_rbf-empty_example : IsDry (drain_rbf holding)
drain_rbf-empty_example = drain_rbf-empty holding holding_on holding_asks
