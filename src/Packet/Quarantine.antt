-- ===== src/Packet/Quarantine.antt =====
-- What the quarantine of a packet backend promises.
use fujinet_nio_driver.Base.{
  ℕ, ◌≤◌, ◌≡◌, ◌≢◌, refl, sym, Bool, true, false, ◌||◌, not, List, arith, ltb, ◌==◌, if◌then◌else◌,
  both_branches, ==→eq, take, drop, ◌++◌,
}
use fujinet_nio_driver.Base.Words.{at}
use fujinet_nio_driver.Packet.{
  PacketLib, PacketOutcome, rejected, complete, unknown, Backend, valid_packet, packet_open,
  packet_reset, packet_close, packet_exchange, finish_exchange,
}

all_passed :
    (a b c d e : Bool)
    → a || b || not c || not d || not e ≡ false
    → (b ≡ false) × (c ≡ true) × (d ≡ true) × (e ≡ true)
all_passed a b c d e h = ground (arith, h)

module _ (lib : PacketLib) {C : Type 0} where
  -- An operation other than recovery.
  pub data Step : Backend C → Backend C → Type 0 where
    opens : (b : Backend C) → Step b (packet_open lib b).1
    closes : (b : Backend C) → Step b (packet_close b)
    resets : (b : Backend C) → Step b (packet_reset lib b).1
    exchanges :
        (request : List ℕ) (n : ℕ) (response : List ℕ) (room : ℕ) (b : Backend C)
        → Step b (packet_exchange lib request n response room b).3

  -- An exchange on a backend in quarantine sends nothing: it leaves the backend, its context and its
  -- scratch buffer as they were.
  pub quarantined_sends_nothing :
      (request : List ℕ) (n : ℕ) (response : List ℕ) (room : ℕ) (b : Backend C)
      → b.quarantined ≡ true
      → (packet_exchange lib request n response room b).3 ≡ b
  unfolding packet_exchange
  quarantined_sends_nothing request n response room b held = ground (arith, held)

  -- A backend in quarantine that runs no operation stays so under every operation but recovery.
  pub quarantined_stays :
      (a b : Backend C)
      → Step a b
      → a.active ≡ false
      → a.quarantined ≡ true
      → (b.active ≡ false) × (b.quarantined ≡ true)
  unfolding packet_open packet_reset packet_exchange packet_close
  quarantined_stays a _ (opens _) idle held =
      both_branches (λ (o : ℕ × Backend C). (o.1.active ≡ false) × (o.1.quarantined ≡ true))
        a.active (λ _. (idle, held))
        (λ _.
          both_branches (λ (o : ℕ × Backend C). (o.1.active ≡ false) × (o.1.quarantined ≡ true))
            a.opened (λ _. (idle, held)) (λ _. (refl, held)))
  quarantined_stays a _ (closes _) idle held =
      both_branches (λ (o : Backend C). (o.active ≡ false) × (o.quarantined ≡ true))
        (a.active || not a.opened) (λ _. (idle, held)) (λ _. (refl, held))
  quarantined_stays a _ (resets _) idle held =
      both_branches (λ (o : ℕ × Backend C). (o.1.active ≡ false) × (o.1.quarantined ≡ true))
        a.active (λ _. (idle, held)) (λ _. (refl, refl))
  quarantined_stays a _ (exchanges request n response room _) idle held =
      rw (quarantined_sends_nothing request n response room a held) (idle, held)

  -- A response of `got` bytes behind an exchange on the backend `b`: `old` and `new` are the
  -- caller's buffer before and behind it.
  pub record IsAnswered (request : List ℕ) (n : ℕ) (room : ℕ) (old : List ℕ) (b : Backend C)
      (new : List ℕ) (got : ℕ) (after : Backend C) : Type 0 where
    pub was_open : b.opened ≡ true
    pub was_free : b.quarantined ≡ false
    pub asked : valid_packet lib request n ≡ true
    pub answer : valid_packet lib after.scratch got ≡ true
    pub fits : got ≤ room
    pub device : at after.scratch 0 ≡ at request 0
    pub command : at after.scratch 1 ≡ at request 1
    pub copied : new ≡ take got after.scratch ++ drop got old
    pub free : after.quarantined ≡ false

  finish_exchange-IsAnswered :
      (request : List ℕ) (n : ℕ) (response : List ℕ) (room : ℕ) (b : Backend C)
      (outcome : PacketOutcome) (got : ℕ) (after : Backend C)
      → lib.ok ≢ lib.transport
      → b.opened ≡ true
      → b.quarantined ≡ false
      → valid_packet lib request n ≡ true
      → (finish_exchange lib request response room outcome got after).0 ≡ lib.ok
      → IsAnswered request n room response b
          (finish_exchange lib request response room outcome got after).1
          (finish_exchange lib request response room outcome got after).2
          (finish_exchange lib request response room outcome got after).3
  unfolding finish_exchange
  finish_exchange-IsAnswered request n response room b rejected got after differ o f a e =
      absurd (differ (sym e))
  finish_exchange-IsAnswered request n response room b unknown got after differ o f a e =
      absurd (differ (sym e))
  finish_exchange-IsAnswered request n response room b complete got after differ o f a e =
      both_branches
        (λ (out : ℕ × List ℕ × ℕ × Backend C).
          out.0 ≡ lib.ok → IsAnswered request n room response b out.1 out.2 out.3)
        (ltb after.capacity got
          || ltb room got
          || not (valid_packet lib after.scratch got)
          || not (at after.scratch 0 == at request 0)
          || not (at after.scratch 1 == at request 1))
        {x = (lib.transport, response, 0, after)}
        {y = (
          lib.ok,
          take got after.scratch ++ drop got response,
          got,
          record after { quarantined = false },
        )}
        (λ _ e'. absurd (differ (sym e')))
        (λ good _.
          let (small, valid, device, command) =
            all_passed (ltb after.capacity got) (ltb room got) (valid_packet lib after.scratch got)
              (at after.scratch 0 == at request 0) (at after.scratch 1 == at request 1) good in
          record {
            was_open = o;
            was_free = f;
            asked = a;
            answer = valid;
            fits = ground (arith, small);
            device = ==→eq _ _ device;
            command = ==→eq _ _ command;
            copied = refl;
            free = refl;
          })
        e

  -- Where the failure codes differ from success, a successful exchange has started from an open
  -- backend that was not in quarantine, with a valid request. The scratch buffer then begins with a
  -- valid packet for the request's device and command, whose length fits the caller's buffer; the
  -- caller's buffer begins with the bytes of that packet and is as before behind them, and the
  -- backend is not in quarantine.
  pub packet_exchange-IsAnswered :
      (request : List ℕ) (n : ℕ) (response : List ℕ) (room : ℕ) (b : Backend C)
      → lib.ok ≢ lib.transport
      → lib.ok ≢ lib.invalid
      → lib.ok ≢ lib.busy
      → (packet_exchange lib request n response room b).0 ≡ lib.ok
      → IsAnswered request n room response b
          (packet_exchange lib request n response room b).1
          (packet_exchange lib request n response room b).2
          (packet_exchange lib request n response room b).3
  unfolding packet_exchange
  packet_exchange-IsAnswered request n response room b t i u e =
      let sent = b.io.transfer b.context request n b.scratch b.capacity in
      let after = record b {
        context = sent.ctx;
        scratch = sent.scratch;
        active = false;
        quarantined = true;
      } in
      let last = finish_exchange lib request response room sent.outcome sent.length after in
      let sending =
        if not b.opened || b.quarantined then (lib.transport, response, 0, b) else last in
      let checking =
        if ltb b.capacity n || not (valid_packet lib request n)
        then (lib.invalid, response, 0, b)
        else sending in
      both_branches Fine b.active {x = (lib.busy, response, 0, b)} {y = checking}
        (λ _ x. absurd (u (sym x)))
        (λ _.
          both_branches Fine (ltb b.capacity n || not (valid_packet lib request n))
            {x = (lib.invalid, response, 0, b)} {y = sending} (λ _ x. absurd (i (sym x)))
            (λ good.
              both_branches Fine (not b.opened || b.quarantined)
                {x = (lib.transport, response, 0, b)} {y = last} (λ _ x. absurd (t (sym x)))
                (λ free.
                  finish_exchange-IsAnswered request n response room b sent.outcome sent.length
                    after t (ground (arith, free)) (ground (arith, free)) (ground (arith, good)))))
        e
    where
      Fine : ℕ × List ℕ × ℕ × Backend C → Type 0
      Fine out = out.0 ≡ lib.ok → IsAnswered request n room response b out.1 out.2 out.3
