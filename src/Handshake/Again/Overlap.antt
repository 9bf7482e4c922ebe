-- ===== src/Handshake/Again/Overlap.antt =====
-- What holds while a request begins before the target has seen the end of its answer.
use lptstore.Prelude.{
  ℕ, ◌≡◌, ◌<◌, ◌⊎◌, refl, sym, subst, inl, inr, Bool, true, false, Option, none, some, Bool-cases,
  arith,
}
use lptstore.Handshake.{Board, Pins, bit, readlpt, IsWired}
use lptstore.Handshake.ToTarget.{
  Sender, out_high, wait_ack, finished, Receiver, wait_flag, got, giving_up, failed, send_step,
  receive_step, receive_timeout, Config, Step, host, target,
}
use lptstore.Handshake.ToTarget
use lptstore.Handshake.ToTarget.Safety.{Phase, Step-Inv}
use lptstore.Handshake.ToHost
use lptstore.Handshake.ToHost.{Writer, write_step, write_timeout}
use lptstore.Handshake.Again.{
  Again, AgainStep, put, end_answer, run_out, call, take, expire, AgainReach, begun, onward,
}

-- lptcomms_readbyte is called once lptcomms_writebyte has returned.
abbrev pub Stand : Writer → Bool → Receiver → Type 0
Stand ToHost.wait_down false r = r ≡ wait_flag
Stand ToHost.giving_up false r = r ≡ wait_flag
Stand ToHost.sent false r = r ≡ wait_flag
Stand ToHost.failed false r = r ≡ wait_flag
Stand ToHost.sent true r = Unit
Stand ToHost.failed true r = Unit
Stand _ _ r = ⊥

-- The two machines of ToTarget.
abbrev as_config : Again → Config
as_config c = record {
  sender = c.sender;
  receiver = c.receiver;
  pins = c.pins;
  port = c.port;
  d = c.d;
}

abbrev AfterWrite : Bool → Sender → Receiver → ℕ → ℕ → ℕ → Option (Writer × Pins) → Type 0
AfterWrite at x r b port d none = Unit
AfterWrite at x r b port d (some (wr, p)) = Stand wr at r × Phase x r b p port d

-- Where lptcomms_readbyte is not yet called, pin 19 may be lowered again.
lowered :
    (x : Sender) (b : ℕ) (p : Pins) (port d : ℕ)
    → Phase x wait_flag b p port d
    → Phase x wait_flag b (record p { pin19 = false }) port d
lowered out_high b p port d (pin, flag) = (refl, flag)
lowered wait_ack b p port d (pin, e) = (refl, e)
lowered _ b p port d h = absurd h

module _ {w : Board} (wired : IsWired w) (b a : ℕ) (byte : b < 256) where
  write_stays :
      (wr : Writer) (at : Bool) (x : Sender) (r : Receiver) (p : Pins) (port d : ℕ)
      → Stand wr at r
      → Phase x r b p port d
      → AfterWrite at x r b port d (write_step w a wr p port)
  unfolding write_step
  write_stays ToHost.wait_down false x r p port d early phase =
      elim (Bool-cases (bit (readlpt w port) 4)) [
        | inl up ↦ rw up tt
        | inr down ↦ rw down (early, phase)
      ]
  write_stays ToHost.giving_up false x r p port d early phase = (
    early,
    subst (λ r. Phase x r b (record p { pin19 = false }) port d) (sym early)
        (lowered x b p port d (subst (λ r. Phase x r b p port d) early phase)),
  )
  write_stays ToHost.sent at x r p port d stand phase = tt
  write_stays ToHost.failed at x r p port d stand phase = tt
  write_stays _ _ x r p port d stand phase = absurd stand

  timeout_stays :
      (wr : Writer) (at : Bool) (x : Sender) (r : Receiver) (p : Pins) (port d : ℕ)
      → Stand wr at r
      → Phase x r b p port d
      → AfterWrite at x r b port d (write_timeout w wr p port)
  unfolding write_timeout
  timeout_stays ToHost.wait_down false x r p port d early phase =
      elim (Bool-cases (bit (readlpt w port) 4)) [
        | inl up ↦ rw up (early, phase)
        | inr down ↦ rw down tt
      ]
  timeout_stays ToHost.giving_up false x r p port d early phase = tt
  timeout_stays ToHost.sent at x r p port d stand phase = tt
  timeout_stays ToHost.failed at x r p port d stand phase = tt
  timeout_stays _ _ x r p port d stand phase = absurd stand

  pub record Inv (c : Again) : Type 0 where
    pub stand : Stand c.writer c.called c.receiver
    pub phase : Phase c.sender c.receiver b c.pins c.port c.d

  called-Stand :
      (wr : Writer) (at : Bool) (r r' : Receiver) → at ≡ true → Stand wr at r → Stand wr at r'
  called-Stand ToHost.sent true r r' e stand = tt
  called-Stand ToHost.failed true r r' e stand = tt
  called-Stand _ true r r' e stand = absurd stand
  called-Stand wr false r r' e stand = absurd (ground arith)

  over-Stand :
      (wr : Writer) (r : Receiver) → (wr ≡ ToHost.sent) ⊎ (wr ≡ ToHost.failed) → Stand wr true r
  over-Stand wr r (inl e) = rw e tt
  over-Stand wr r (inr e) = rw e tt

  AgainStep-Inv : {c e : Again} → Inv c → AgainStep w b a c e → Inv e
  AgainStep-Inv {c} inv (put next port e) =
      let st : Step w b (as_config c) (record (as_config c) { sender = next; port = port }) =
        host next port e in
      record { stand = inv.stand; phase = Step-Inv wired b byte inv.phase st }
  AgainStep-Inv {c} inv (end_answer next p e) =
      let (stand, phase) =
        subst (AfterWrite c.called c.sender c.receiver b c.port c.d) e (
          write_stays c.writer c.called c.sender c.receiver c.pins c.port c.d inv.stand
            inv.phase) in
      record { stand = stand; phase = phase }
  AgainStep-Inv {c} inv (run_out next p e) =
      let (stand, phase) = subst (AfterWrite c.called c.sender c.receiver b c.port c.d) e (
        timeout_stays c.writer c.called c.sender c.receiver c.pins c.port c.d inv.stand
          inv.phase) in
      record { stand = stand; phase = phase }
  AgainStep-Inv {c} inv (call not_yet over up) = record {
    stand = over-Stand c.writer c.receiver over;
    phase = inv.phase;
  }
  AgainStep-Inv {c} inv (take next p d at e) =
      let st : Step w b (as_config c) (record (as_config c) { receiver = next; pins = p; d = d }) =
        target next p d e in
      record {
        stand = called-Stand c.writer c.called c.receiver next at inv.stand;
        phase = Step-Inv wired b byte inv.phase st;
      }
  AgainStep-Inv {c} inv (expire next p at e) =
      let st : Step w b (as_config c) (record (as_config c) { receiver = next; pins = p }) =
        ToTarget.expire next p e in
      record {
        stand = called-Stand c.writer c.called c.receiver next at inv.stand;
        phase = Step-Inv wired b byte inv.phase st;
      }

  pub AgainReach-Inv : {c : Again} → AgainReach w b a c → Inv c
  AgainReach-Inv (begun c is) = record {
    stand = rw (is.writer_lem, is.called_lem) is.receiver_lem;
    phase = rw (is.sender_lem, is.receiver_lem) (is.pin_lem, is.port_lem);
  }
  AgainReach-Inv (onward r st) = AgainStep-Inv (AgainReach-Inv r) st
