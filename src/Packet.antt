-- ===== src/Packet.antt =====
-- amiga/nio.device/fujinet_nio_packet_backend.c: exchanging whole packets over an adapter, with a
-- quarantine for exchanges whose end is not known. The backend is never NULL in the callers, and
-- no callback calls the backend again.
pub mod Descriptors
pub mod Quarantine
mod Tests
use fujinet_nio_driver.Base.{
  ℕ, zero, suc, ◌+◌, ◌-◌, ◌%◌, ◌^◌, Bool, true, false, ◌&&◌, ◌||◌, not, Option, none, some, List,
  [], ◌∷◌, ◌++◌, bit_and, leb, ltb, ◌==◌, if◌then◌else◌, take, drop, replicate,
}
use fujinet_nio_driver.Base.Words.{at, join16}

-- Constants of fujinet-nio-lib, and its checksum of the first bytes of a packet.
pub record PacketLib : Type 0 where
  pub ok : ℕ
  pub invalid : ℕ
  pub busy : ℕ
  pub transport : ℕ
  pub header_size : ℕ
  pub checksum : List ℕ → ℕ → ℕ

-- `fn_packet_outcome_t`
pub data PacketOutcome : Type 0 where
  rejected : PacketOutcome
  complete : PacketOutcome
  unknown : PacketOutcome

-- What a transfer gives back: the outcome, `scratch`, `*length` and the context.
pub record Transfer (C : Type 0) : Type 0 where
  pub outcome : PacketOutcome
  pub scratch : List ℕ
  pub length : ℕ
  pub ctx : C

-- `fn_packet_io_t`; only `transfer` has to be there.
pub record PacketIo (C : Type 0) : Type 0 where
  pub open_io : Option (C → ℕ × C)
  pub close_io : Option (C → C)
  pub transfer : C → List ℕ → ℕ → List ℕ → ℕ → Transfer C
  pub local_reset : Option (C → ℕ × C)
  pub quiesce : Option (C → ℕ × C)

-- `fn_packet_backend_t`
pub record Backend (C : Type 0) : Type 0 where
  pub io : PacketIo C
  pub context : C
  pub scratch : List ℕ
  pub capacity : ℕ
  pub opened : Bool
  pub active : Bool
  pub quarantined : Bool

abbrev pub field_sizes : List ℕ
field_sizes = 0 ∷ 1 ∷ 2 ∷ 3 ∷ 4 ∷ 2 ∷ 4 ∷ 4 ∷ []

-- The loop over the descriptors, `none` where the fuel ran out.
unfoldable pub descriptors : ℕ → List ℕ → ℕ → ℕ → ℕ → ℕ → Option Bool
descriptors zero packet length offset fields descriptor = none
descriptors (suc fuel) packet length offset fields descriptor =
    let size = at field_sizes (bit_and descriptor 7) in
    let fields' = (fields + size) % 2 ^ 16 in
    let rest = descriptors fuel packet length ((offset + 1) % 2 ^ 16) fields' (at packet offset) in
    if ltb (length - offset) size || ltb (length - offset - size) fields
    then some false
    else if bit_and descriptor 0x80 == 0
    then some (leb fields' (length - offset))
    else if offset == length
    then some false
    else rest

module _ (lib : PacketLib) where
  -- Every round but the last moves the offset on, so the length and one more is enough fuel.
  unfoldable pub valid_packet : List ℕ → ℕ → Bool
  unfolding descriptors
  valid_packet packet length =
      if ltb length lib.header_size
        || not (join16 (at packet 2) (at packet 3) == length)
        || not (lib.checksum packet length == at packet 4)
      then false
      else elim (descriptors (length + 1) packet length lib.header_size 0 (at packet 5)) [
        | none ↦ false
        | some valid ↦ valid
      ]

  -- `io` is `none` where it or its `transfer` is NULL; a refusal leaves the backend as it was.
  unfoldable pub packet_init :
      {C : Type 0} → Option (PacketIo C) → C → Option (List ℕ) → ℕ → Option (Backend C)
  packet_init none context scratch capacity = none
  packet_init (some io) context none capacity = none
  packet_init (some io) context (some scratch) capacity =
      if ltb capacity lib.header_size
      then none
      else some (record {
        io = io;
        context = context;
        scratch = scratch;
        capacity = capacity;
        opened = false;
        active = false;
        quarantined = true;
      })

-- A callback that may be missing, and the result without it.
unfoldable pub ask : {C : Type 0} → Option (C → ℕ × C) → ℕ → C → ℕ × C
ask none default s = (default, s)
ask (some f) default s = f s

module _ (lib : PacketLib) {C : Type 0} where
  unfoldable pub packet_open : Backend C → ℕ × Backend C
  unfolding ask
  packet_open b =
      let (result, s) = ask b.io.open_io lib.ok b.context in
      if b.active
      then (lib.busy, b)
      else if b.opened
      then (lib.ok, b)
      else (result, record b { context = s; active = false; opened = (result == lib.ok) })

  unfoldable pub packet_reset : Backend C → ℕ × Backend C
  unfolding ask
  packet_reset b =
      let (result, s) = ask b.io.local_reset lib.transport b.context in
      if b.active
      then (lib.busy, b)
      else (result, record b { context = s; active = false; quarantined = true })

  unfoldable pub packet_recover : Backend C → ℕ × Backend C
  unfolding ask
  packet_recover b =
      let (result, s) = ask b.io.quiesce lib.transport b.context in
      if b.active
      then (lib.busy, b)
      else (result, record b { context = s; active = false; quarantined = not (result == lib.ok) })

  -- The end of an exchange behind the transfer: the result, the response, its length, the backend.
  unfoldable pub finish_exchange :
      List ℕ → List ℕ → ℕ → PacketOutcome → ℕ → Backend C → ℕ × List ℕ × ℕ × Backend C
  unfolding valid_packet
  finish_exchange request response room rejected length b =
      (lib.transport, response, 0, record b { quarantined = false })
  finish_exchange request response room unknown length b = (lib.transport, response, 0, b)
  finish_exchange request response room complete length b =
      if ltb b.capacity length
        || ltb room length
        || not (valid_packet lib b.scratch length)
        || not (at b.scratch 0 == at request 0)
        || not (at b.scratch 1 == at request 1)
      then (lib.transport, response, 0, b)
      else (
        lib.ok,
        take length b.scratch ++ drop length response,
        length,
        record b { quarantined = false },
      )

  -- `response_length` is not NULL here; a missing request or response is refused like a wrong one.
  unfoldable pub packet_exchange : List ℕ → ℕ → List ℕ → ℕ → Backend C → ℕ × List ℕ × ℕ × Backend C
  unfolding valid_packet finish_exchange
  packet_exchange request request_length response room b =
      let sent = b.io.transfer b.context request request_length b.scratch b.capacity in
      let after = record b {
        context = sent.ctx;
        scratch = sent.scratch;
        active = false;
        quarantined = true;
      } in
      if b.active
      then (lib.busy, response, 0, b)
      else if ltb b.capacity request_length || not (valid_packet lib request request_length)
      then (lib.invalid, response, 0, b)
      else if not b.opened || b.quarantined
      then (lib.transport, response, 0, b)
      else finish_exchange request response room sent.outcome sent.length after

unfoldable pub packet_close : {C : Type 0} → Backend C → Backend C
packet_close b = if b.active || not b.opened then b else record b {
  context = (elim b.io.close_io [ none ↦ b.context | some f ↦ f b.context ]);
  opened = false;
  active = false;
}
