-- ===== src/Packet/Tests.antt =====
-- Runs of the packet backend, and its theorems at concrete inputs.
use fujinet_nio_driver.Base.{ℕ, ◌+◌, ◌≡◌, ◌≢◌, refl, true, false, some, none, List, [], ◌∷◌, arith}
use fujinet_nio_driver.Base.Words.{join16}
use fujinet_nio_driver.Packet.{
  PacketLib, PacketIo, Backend, complete, descriptors, valid_packet, packet_exchange, packet_open,
  finish_exchange, packet_recover, ask,
}
use fujinet_nio_driver.Packet.Descriptors.{descriptors_total}
use fujinet_nio_driver.Packet.Quarantine.{
  opens, IsAnswered, quarantined_sends_nothing, quarantined_stays, packet_exchange-IsAnswered,
}

abbrev lib : PacketLib
lib = record {
  ok = 0;
  invalid = 2;
  busy = 6;
  transport = 7;
  header_size = 6;
  checksum = λ packet n. 9;
}

-- The adapter answers with a packet of the device 0x70 and the command 1.
abbrev io : PacketIo ℕ
io = record {
  open_io = none;
  close_io = none;
  transfer = λ s request n scratch capacity. record {
    outcome = complete;
    scratch = 0x70 ∷ 1 ∷ 7 ∷ 0 ∷ 9 ∷ 0 ∷ 5 ∷ [];
    length = 7;
    ctx = s + 1;
  };
  local_reset = none;
  quiesce = some (λ s. (0, s));
}

abbrev held : Backend ℕ
held = record {
  io = io;
  context = 0;
  scratch = [];
  capacity = 16;
  opened = true;
  active = false;
  quarantined = true;
}

abbrev free : Backend ℕ
free = record held { quarantined = false }

abbrev asking : List ℕ
asking = 0x70 ∷ 1 ∷ 6 ∷ 0 ∷ 9 ∷ 0 ∷ []

exchange_succeeds : (packet_exchange lib asking 6 [] 8 free).0 ≡ 0
unfolding packet_exchange finish_exchange valid_packet descriptors join16
exchange_succeeds = refl

recovers : packet_recover lib held ≡ (0, free)
unfolding packet_recover ask
recovers = refl

descriptors_total_example : descriptors 3 (0x70 ∷ 1 ∷ 7 ∷ 0 ∷ 9 ∷ 0x81 ∷ 1 ∷ []) 7 6 0 0x81 ≢ none
descriptors_total_example =
    descriptors_total 3 (0x70 ∷ 1 ∷ 7 ∷ 0 ∷ 9 ∷ 0x81 ∷ 1 ∷ []) 7 6 0 0x81 (omega arith)
      (omega arith) (omega arith)

quarantined_sends_nothing_example : (packet_exchange lib asking 6 [] 8 held).3 ≡ held
quarantined_sends_nothing_example = quarantined_sends_nothing lib asking 6 [] 8 held refl

quarantined_stays_example :
    ((packet_open lib held).1.active ≡ false) × ((packet_open lib held).1.quarantined ≡ true)
quarantined_stays_example =
    quarantined_stays lib held (packet_open lib held).1 (opens held) refl refl

packet_exchange-IsAnswered_example :
    IsAnswered lib asking 6 8 [] free
      (packet_exchange lib asking 6 [] 8 free).1
      (packet_exchange lib asking 6 [] 8 free).2
      (packet_exchange lib asking 6 [] 8 free).3
packet_exchange-IsAnswered_example =
    packet_exchange-IsAnswered lib asking 6 [] 8 free (λ e. absurd (omega (arith, e)))
      (λ e. absurd (omega (arith, e))) (λ e. absurd (omega (arith, e))) exchange_succeeds
