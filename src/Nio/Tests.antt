-- ===== src/Nio/Tests.antt =====
-- Runs of the disk calls over a scripted port, and the theorems of nio.c at concrete inputs.
use fujinet_nio_driver.Base.{ℕ, ◌+◌, ◌≤◌, ◌≡◌, refl, none, some, [], ◌∷◌, length}
use fujinet_nio_driver.Protocol.{header_bytes, validate_response}
use fujinet_nio_driver.Transaction.{request_header}
use fujinet_nio_driver.Nio.Types.{PortIo, Nio}
use fujinet_nio_driver.Nio.Disk.{
  device_disk, cmd_write_sector, write_header, send_write, write_answer, write_frame, nio_disk_info,
  nio_disk_read_sector, nio_disk_read_sectors,
}
use fujinet_nio_driver.Nio.Reports.{
  read_length, write_header-request_header, nio_disk_read_sectors-le,
}
use fujinet_nio_driver.Nio.Errors.{IsTold, nio_disk-IsTold}

-- The port keeps the number of bytes it has sent, and never receives any.
abbrev silent : PortIo ℕ
silent = record {
  flush_rx = λ s. s;
  putc = λ s c. s + 1;
  putbuf_slip = λ s bytes. s + length bytes;
  wait_tx_empty = λ s. s;
  getbuf_slip_dual = λ s n header payload capacity timeout. record {
    rx_len = 0;
    header = header;
    payload = payload;
    ctx = s;
  };
  slip_last_reason = λ s. 1;
  slip_last_lsr = λ s. 0;
}

abbrev idle : Nio ℕ
idle = record {
  port = 0;
  rx_header = record { device = 0; command = 0; length = 0; checksum = 0; fields = 0 };
  rx_payload = [];
  diag = record { error = 0; status = 0; rx_len = 0; expected_len = 0; lsr = 0 };
  last = record { error = 0; status = 0; rx_len = 0; expected_len = 0; lsr = 0 };
  network_timeout_ms = 15000;
  transport_retries = 2;
}

-- A write of four bytes sends 20 bytes in all, and leaves the error of the last call as it was.
write_unanswered :
    write_frame silent cmd_write_sector
      (1 ∷ 1 ∷ 5 ∷ 0 ∷ 0 ∷ 0 ∷ 4 ∷ 0 ∷ [])
      8
      (9 ∷ 8 ∷ 7 ∷ 6 ∷ [])
      4
      11
      10
      idle
    ≡ (none, record idle { port = 20 })
unfolding write_frame send_write write_answer write_header header_bytes validate_response
write_unanswered = refl

write_header-request_header_example :
    write_header cmd_write_sector (1 ∷ 2 ∷ []) 2 (3 ∷ 4 ∷ []) 2
    ≡ request_header device_disk cmd_write_sector (some (1 ∷ 2 ∷ 3 ∷ 4 ∷ [])) 4
write_header-request_header_example =
    write_header-request_header cmd_write_sector (1 ∷ 2 ∷ []) (3 ∷ 4 ∷ []) 2

nio_disk_read_sectors-le_example :
    read_length (nio_disk_read_sectors silent 1 5 2 1024 idle).0 ≤ 1024
nio_disk_read_sectors-le_example = nio_disk_read_sectors-le silent 1 5 2 1024 idle

nio_disk-IsTold_example :
    IsTold (nio_disk_info silent 1 idle)
    × IsTold (nio_disk_read_sector silent 1 5 1024 idle)
    × IsTold (nio_disk_read_sectors silent 1 5 2 1024 idle)
nio_disk-IsTold_example = nio_disk-IsTold silent 1 5 2 1024 idle
