-- ===== src/Nio/Service.antt =====
-- nio.c as the disk service of the DOS driver.
use fujinet_nio_driver.Base.{ℕ, List, take}
use fujinet_nio_driver.Dos.{Called, DiskService}
use fujinet_nio_driver.Transaction.{own}
use fujinet_nio_driver.Nio.Types.{PortIo, Nio, nio_call}
use fujinet_nio_driver.Nio.Disk.{
  nio_disk_info, nio_disk_clear_changed, nio_disk_read_sector, nio_disk_read_sectors,
  nio_disk_write_sectors,
}

module _ {S : Type 0} where
  -- `nio_call` with its reply in the buffer of the request: what an answer has put there.
  unfoldable pub raw_call : PortIo S → Nio S → ℕ → ℕ → List ℕ → ℕ → ℕ → Called (Nio S)
  unfolding nio_call
  raw_call io n device command payload payload_length capacity =
      let c = nio_call io device command payload payload_length (own payload) capacity n in
      record {
        answered = c.ok;
        status = c.response.status;
        payload_length = c.response.payload_length;
        bytes = take c.response.payload_length c.reply;
        ctx = c.nio;
      }

  unfoldable pub nio_service : PortIo S → DiskService (Nio S)
  unfolding nio_disk_info nio_disk_clear_changed nio_disk_read_sector nio_disk_read_sectors
      nio_disk_write_sectors raw_call
  nio_service io = record {
    info = λ n slot. nio_disk_info io slot n;
    clear_changed = λ n slot. nio_disk_clear_changed io slot n;
    read_sector = λ n slot lba size. nio_disk_read_sector io slot lba size n;
    read_sectors = λ n slot lba count size. nio_disk_read_sectors io slot lba count size n;
    write_sectors =
        λ n slot lba count bytes size. nio_disk_write_sectors io slot lba count bytes size n;
    call = λ n device command payload length capacity.
        raw_call io n device command payload length capacity;
    last = λ n. n.last;
  }
