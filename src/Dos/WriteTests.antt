-- ===== src/Dos/WriteTests.antt =====
-- Runs of Output_cmd over a service whose context is its medium.
use fujinet_nio_driver.Base.{
  ℕ, zero, suc, inl, inr, ◌==◌, ◌&&◌, ◌^◌, ◌∙◌, drop, take, ◌+◌, ◌%◌, ◌≤◌, ◌≡◌, refl, true, false,
  some, List, [], ◌∷◌, arith, replicate, length-replicate,
}
use fujinet_nio_driver.Dos.Types.{sector_size, DiskService, Dos}
use fujinet_nio_driver.Dos.Cache.{blank_info, blank_line}
use fujinet_nio_driver.Dos.Input.{Finished, blank_bpb, sector_max}
use fujinet_nio_driver.Dos.Output.{output_cmd}
use fujinet_nio_driver.Dos.Writing.{IsWritable, written}
use fujinet_nio_driver.Dos.Batches.{written_from, WritesMedium, IsElsewhere}
use fujinet_nio_driver.Dos.Outputs.{IsWritten, output_cmd-IsWritten}
use fujinet_nio_driver.Dos.Sectors.{sectors}
use fujinet_nio_driver.Dos.Coherence.{IsCurrent}
use fujinet_nio_driver.Dos.Tests.{sector, diag, held_line, driver, two_sectors}

-- A service that writes: its context is the medium.
abbrev Medium : Type 0
Medium = ℕ → ℕ → List ℕ

abbrev contents : Medium → ℕ → ℕ → List ℕ
contents s = s

abbrev writer : DiskService Medium
writer = record {
  info = λ s slot. (some (record blank_info { flags = 1; slot = slot }), s);
  clear_changed = λ s slot. (true, s);
  read_sector = λ s slot lba n. (some (s slot lba), s);
  read_sectors = λ s slot lba n need. (some (sectors (s slot) lba n), s);
  write_sectors = λ s slot lba n bytes size. (some size, written_from n s slot lba bytes);
  call = λ s device command payload n capacity. record {
    answered = false;
    status = 0;
    payload_length = 0;
    bytes = [];
    ctx = s;
  };
  last = λ s. diag;
}

written_elsewhere :
    (slot lba slot' lba' n : ℕ)
    → IsElsewhere slot lba (suc n) slot' lba'
    → (slot' == slot) && (lba' == lba) ≡ false
written_elsewhere slot lba slot' lba' n (inl differ) = ground (arith, differ)
written_elsewhere slot lba slot' lba' n (inr (inl below)) = ground (arith, below)
written_elsewhere slot lba slot' lba' n (inr (inr above)) = ground (arith, above)

written_from-elsewhere :
    (n : ℕ) (medium : Medium) (slot lba : ℕ) (bytes : List ℕ) (slot' lba' : ℕ)
    → lba + n ≤ 2 ^ 32
    → IsElsewhere slot lba n slot' lba'
    → written_from n medium slot lba bytes slot' lba' ≡ medium slot' lba'
written_from-elsewhere zero medium slot lba bytes slot' lba' fits away = refl
written_from-elsewhere (suc zero) medium slot lba bytes slot' lba' fits away =
    rw (written_elsewhere slot lba slot' lba' 0 away) refl
written_from-elsewhere (suc (suc n)) medium slot lba bytes slot' lba' fits away =
    let wide : (lba + 1) % 2 ^ 32 ≡ lba + 1 = omega (arith, fits) in
    let rest : IsElsewhere slot ((lba + 1) % 2 ^ 32) (suc n) slot' lba' = elim away [
      | inl differ ↦ inl differ
      | inr (inl below) ↦ inr (inl (omega (arith, below, wide)))
      | inr (inr above) ↦ inr (inr (omega (arith, above, wide)))
    ] in
    written_from-elsewhere (suc n) (written medium slot lba (take sector_size bytes)) slot
      ((lba + 1) % 2 ^ 32) (drop sector_size bytes) slot' lba' (omega (arith, fits, wide)) rest
    ∙ rw (written_elsewhere slot lba slot' lba' (suc n) away) refl

writer-WritesMedium : WritesMedium writer contents
writer-WritesMedium = record {
  asked = λ s slot. refl;
  wrote = λ s slot lba n bytes one e. refl;
  failed = λ s slot lba n bytes one slot' lba'.
      written_from-elsewhere n s slot lba bytes slot' lba' one.sectors;
}

abbrev writing : Dos Medium
writing = record {
  ctx = sector 0;
  bpb_table = replicate 8 (record blank_bpb { bps = 512; num_sectors = 720 });
  unit_slot = driver.unit_slot;
  current_uri = [];
  display_path = [];
  current_uri_len = 0;
  display_path_len = 0;
  cache = held_line ∷ blank_line ∷ [];
  cache_next = 1;
  info_cache_valid = replicate 8 false;
  info_cache = replicate 8 blank_info;
  media_changed = replicate 8 false;
  batch_sectors = 16;
  io_retries = 2;
  auto_downshift = true;
}

writing-IsWritable : IsWritable 0 (sector 0) writing
unfolding IsCurrent
writing-IsWritable = record {
  unique = (((λ a b. absurd cc), tt), (tt, tt));
  apart = ((λ v ne. absurd (ne refl)), ((λ v. absurd cc), tt));
  current = ((λ _. refl), ((λ e. absurd cc), tt));
}

output_cmd-IsWritten_example :
    (out : Finished Medium) × (output_cmd writer two_sectors writing ≡ some out)
    × IsWritten writer contents two_sectors writing out
unfolding sector_max
output_cmd-IsWritten_example =
    output_cmd-IsWritten writer contents writer-WritesMedium two_sectors writing (omega arith)
      (omega arith) (omega arith) (omega (arith, length-replicate {A = ℕ} 1024 0)) (omega arith)
      (omega arith) writing-IsWritable
