-- ===== src/Handshake/Turn/Answer.antt =====
-- An answer that lptcomms_writebyte has put is the answer that read_byte takes.
use lptstore.Prelude.{ℕ, ◌≡◌, ◌<◌, refl, sym, subst, ◌∙◌, false, some, arith}
use lptstore.Handshake.{Board, Pins, bit, IsWired}
use lptstore.Handshake.ToTarget.{Sender, wait_end, finished, send_step}
use lptstore.Handshake.ToHost.{
  Reader, wait_high, sent, received, Config, Step, target, host, expire,
}
use lptstore.Handshake.ToHost.Safety.{Phase, Step-Inv, sent-Phase}
use lptstore.Handshake.Turn.{Turn, TurnStep, ask, hear, answer, run_out, TurnReach, turned, onward}

-- The host is in the last wait of write_byte, or read_byte runs.
abbrev pub Side : Sender → Reader → ℕ → Type 0
Side wait_end r port = (r ≡ wait_high) × (bit port 4 ≡ false)
Side finished r port = Unit
Side _ r port = ⊥

-- The two machines of ToHost, where the host may still be in write_byte.
abbrev as_config : Turn → Config
as_config c = record {
  writer = c.writer;
  reader = c.reader;
  pins = c.pins;
  port = c.port;
  ah = c.ah;
}

-- The host goes on from its last wait to read_byte, and the port stays as it is.
pub ask-ends :
    (w : Board) (b : ℕ) (x next : Sender) (r : Reader) (p : Pins) (port port' : ℕ)
    → Side x r port
    → send_step w b x p port ≡ some (next, port')
    → (next ≡ finished) × (port ≡ port')
unfolding send_step
ask-ends w b wait_end next r p port port' h e = (ground arith, ground arith)
ask-ends w b finished next r p port port' h e = absurd (ground arith)
ask-ends w b _ next r p port port' h e = absurd h

module _ {w : Board} (wired : IsWired w) (b a : ℕ) (byte : a < 256) where
  pub record Inv (c : Turn) : Type 0 where
    pub phase : Phase c.writer c.reader a c.pins c.port c.ah
    pub side : Side c.sender c.reader c.port

  TurnStep-Inv : {c d : Turn} → Inv c → TurnStep w b a c d → Inv d
  TurnStep-Inv {c} inv (ask next port e) =
      let (over, still) = ask-ends w b c.sender next c.reader c.pins c.port port inv.side e in
      record {
        phase = subst (λ n. Phase c.writer c.reader a c.pins n c.ah) still inv.phase;
        side = subst (λ x. Side x c.reader port) (sym over) tt;
      }
  TurnStep-Inv {c} inv (hear next port ah over e) =
      let st : Step w a (as_config c)
          (record (as_config c) { reader = next; port = port; ah = ah }) =
        host next port ah e in
      record {
        phase = Step-Inv wired a byte inv.phase st;
        side = subst (λ x. Side x next port) (sym over) tt;
      }
  TurnStep-Inv {c} inv (answer next p e) =
      let st : Step w a (as_config c) (record (as_config c) { writer = next; pins = p }) =
        target next p e in
      record { phase = Step-Inv wired a byte inv.phase st; side = inv.side }
  TurnStep-Inv {c} inv (run_out next p e) =
      let st : Step w a (as_config c) (record (as_config c) { writer = next; pins = p }) =
        expire next p e in
      record { phase = Step-Inv wired a byte inv.phase st; side = inv.side }

  pub TurnReach-Inv : {c : Turn} → TurnReach w b a c → Inv c
  TurnReach-Inv (turned c is) = record {
    phase = rw (is.writer_lem, is.reader_lem) (is.pin_lem, is.port_lem, tt);
    side = rw (is.sender_lem, is.reader_lem) (refl, is.port_lem);
  }
  TurnReach-Inv (onward r st) = TurnStep-Inv (TurnReach-Inv r) st

  received-Side : (x : Sender) (r : Reader) (port : ℕ) → r ≡ received → Side x r port → x ≡ finished
  received-Side finished r port at h = refl
  received-Side wait_end r port at (early, flag) =
      let clash : received ≡ wait_high = sym at ∙ early in absurd (ground arith)
  received-Side _ r port at h = absurd h

  -- With the cable wired as the code takes it to be, and however the last wait of write_byte of a
  -- request and read_byte behind it interleave with lptcomms_writebyte of the answer: once
  -- lptcomms_writebyte has returned 0, write_byte has returned, read_byte has returned that byte, and
  -- the lines are idle.
  pub answer_received :
      {c : Turn}
      → TurnReach w b a c
      → c.writer ≡ sent
      → (c.sender ≡ finished)
        × (c.reader ≡ received)
        × (c.ah ≡ a)
        × (c.pins.pin19 ≡ false)
        × (bit c.port 4 ≡ false)
  answer_received {c} reach over =
      let inv = TurnReach-Inv reach in
      let (at, got, pin, flag) =
        sent-Phase wired a c.reader c.pins c.port c.ah
          (subst (λ x. Phase x c.reader a c.pins c.port c.ah) over inv.phase) in
      (received-Side c.sender c.reader c.port at inv.side, at, got, pin, flag)
