-- ===== src/Handshake/Turn/Lost.antt =====
-- An answer that begins too early is lost.
use lptstore.Prelude.{
  ℕ, suc, ◌+◌, ◌≡◌, ◌<◌, ◌≤◌, ◌⊎◌, refl, sym, subst, ◌∙◌, inl, inr, true, false, Option, none, some,
  arith,
}
use lptstore.Handshake.{Board, Pins, bit, IsWired}
use lptstore.Handshake.ToTarget.{Sender, wait_end, finished, send_step}
use lptstore.Handshake.ToHost.{
  Writer, Reader, wait_high, wait_up, giving_up, failed, write_step, write_timeout, read_step,
}
use lptstore.Handshake.ToHost.Safety.{Phase, signal}
use lptstore.Handshake.Turn.{
  Turn, TurnStep, ask, hear, answer, run_out, TurnReach, TurnRun, stay, one_more,
}
use lptstore.Handshake.Turn.Answer.{Side, TurnReach-Inv}

-- Pin 19 is up before the host has seen it low, and what follows from there.
abbrev Early : Writer → Sender → Pins → ℕ → Type 0
Early wait_up wait_end p port = (p.pin19 ≡ true) × (bit port 4 ≡ false)
Early giving_up wait_end p port = (p.pin19 ≡ true) × (bit port 4 ≡ false)
Early failed wait_end p port = (p.pin19 ≡ false) × (bit port 4 ≡ false)
Early failed finished p port = (p.pin19 ≡ false) × (bit port 4 ≡ false)
Early _ _ p port = ⊥

abbrev left_of : Writer → Sender → ℕ
left_of wait_up x = 3
left_of giving_up x = 2
left_of failed wait_end = 1
left_of _ _ = 0

abbrev AfterAnswer : ℕ → Sender → ℕ → Option (Writer × Pins) → Type 0
AfterAnswer n x port none = Unit
AfterAnswer n x port (some (wr, p)) = Early wr x p port × (n ≡ suc (left_of wr x))

abbrev AfterAsk : ℕ → Writer → Pins → Option (Sender × ℕ) → Type 0
AfterAsk n wr p none = Unit
AfterAsk n wr p (some (x, port)) = Early wr x p port × (n ≡ suc (left_of wr x))

module _ {w : Board} (wired : IsWired w) (b a : ℕ) where
  answer_stays :
      (wr : Writer) (x : Sender) (p : Pins) (port : ℕ)
      → Early wr x p port
      → AfterAnswer (left_of wr x) x port (write_step w a wr p port)
  unfolding write_step
  answer_stays wait_up wait_end p port (pin, flag) = rw (signal wired a port, flag) tt
  answer_stays giving_up wait_end p port (pin, flag) = ((refl, flag), refl)
  answer_stays failed x p port h = tt
  answer_stays _ _ p port h = absurd h

  run_out-stays :
      (wr : Writer) (x : Sender) (p : Pins) (port : ℕ)
      → Early wr x p port
      → AfterAnswer (left_of wr x) x port (write_timeout w wr p port)
  unfolding write_timeout
  run_out-stays wait_up wait_end p port (pin, flag) =
      rw (signal wired a port, flag) ((pin, flag), refl)
  run_out-stays giving_up wait_end p port h = tt
  run_out-stays failed x p port h = tt
  run_out-stays _ _ p port h = absurd h

  ask_stays :
      (wr : Writer) (x : Sender) (p : Pins) (port : ℕ)
      → Early wr x p port
      → AfterAsk (left_of wr x) wr p (send_step w b x p port)
  unfolding send_step
  ask_stays wait_up wait_end p port (pin, flag) = rw (wired.status_signal p ∙ pin) tt
  ask_stays giving_up wait_end p port (pin, flag) = rw (wired.status_signal p ∙ pin) tt
  ask_stays failed wait_end p port (pin, flag) =
      rw (wired.status_signal p ∙ pin) ((pin, flag), refl)
  ask_stays failed finished p port h = tt
  ask_stays _ _ p port h = absurd h

  hear_waits :
      (wr : Writer) (p : Pins) (port ah : ℕ)
      → Early wr finished p port
      → read_step w wait_high p port ah ≡ none
  unfolding read_step
  hear_waits failed p port ah (pin, flag) = rw (wired.status_signal p ∙ pin)
  hear_waits _ p port ah h = absurd h

  record Doomed (n : ℕ) (c : Turn) : Type 0 where
    early : Early c.writer c.sender c.pins c.port
    reader_lem : c.reader ≡ wait_high
    count : n + left_of c.writer c.sender ≡ 3

  TurnStep-Doomed : {n : ℕ} {c d : Turn} → Doomed n c → TurnStep w b a c d → Doomed (suc n) d
  TurnStep-Doomed {n} {c} h (ask next port e) =
      let (early, fewer) =
        subst (AfterAsk (left_of c.writer c.sender) c.writer c.pins) e
          (ask_stays c.writer c.sender c.pins c.port h.early) in
      record { early = early; reader_lem = h.reader_lem; count = omega (arith, fewer, h.count) }
  TurnStep-Doomed {n} {c} h (hear next port ah over e) =
      let waits =
        hear_waits c.writer c.pins c.port c.ah
          (subst (λ x. Early c.writer x c.pins c.port) over h.early) in
      let reads : read_step w wait_high c.pins c.port c.ah ≡ some (next, port, ah) =
        subst (λ r. read_step w r c.pins c.port c.ah ≡ some (next, port, ah)) h.reader_lem e in
      let nothing : Option (Reader × ℕ × ℕ) = none in
      let clash : nothing ≡ some (next, port, ah) = sym waits ∙ reads in absurd (ground arith)
  TurnStep-Doomed {n} {c} h (answer next p e) =
      let (early, fewer) =
        subst (AfterAnswer (left_of c.writer c.sender) c.sender c.port) e
          (answer_stays c.writer c.sender c.pins c.port h.early) in
      record { early = early; reader_lem = h.reader_lem; count = omega (arith, fewer, h.count) }
  TurnStep-Doomed {n} {c} h (run_out next p e) =
      let (early, fewer) =
        subst (AfterAnswer (left_of c.writer c.sender) c.sender c.port) e
          (run_out-stays c.writer c.sender c.pins c.port h.early) in
      record { early = early; reader_lem = h.reader_lem; count = omega (arith, fewer, h.count) }

  TurnRun-Doomed : {c : Turn} {n : ℕ} {d : Turn} → Doomed 0 c → TurnRun w b a c n d → Doomed n d
  TurnRun-Doomed h stay = h
  TurnRun-Doomed h (one_more run st) = TurnStep-Doomed (TurnRun-Doomed h run) st

  early-Doomed :
      {c : Turn}
      → TurnReach w b a c
      → a < 256
      → c.sender ≡ wait_end
      → c.writer ≡ wait_up
      → Doomed 0 c
  early-Doomed {c} reach byte waits up =
      let inv = TurnReach-Inv wired b a byte reach in
      let (at, flag) = subst (λ x. Side x c.reader c.port) waits inv.side in
      let phase =
        subst (λ wr. Phase wr wait_high a c.pins c.port c.ah) up
          (subst (λ r. Phase c.writer r a c.pins c.port c.ah) at inv.phase) in
      record {
        early = rw (waits, up) (phase.0, phase.1);
        reader_lem = at;
        count = rw (waits, up) refl;
      }

  -- Where no step is left, the answer is given up, and the host waits.
  Hangs : Turn → Type 0
  Hangs d = (d.writer ≡ failed) × (d.sender ≡ finished) × ((e : Turn) → TurnStep w b a d e → ⊥)

  goes_on :
      {n : ℕ} (d : Turn)
      → Doomed n d
      → (wr : Writer) (x : Sender) → d.writer ≡ wr
      → d.sender ≡ x
      → Early wr x d.pins d.port
      → Hangs d ⊎ ((e : Turn) × TurnStep w b a d e)
  unfolding write_step write_timeout send_step Hangs
  goes_on d h wait_up wait_end at ends (pin, flag) =
      inr (_, run_out giving_up d.pins (rw (at, signal wired a d.port, flag)))
  goes_on d h giving_up wait_end at ends (pin, flag) =
      inr (_, answer failed (record (d.pins) { pin19 = false }) (rw at))
  goes_on d h failed wait_end at ends (pin, flag) =
      inr (_, ask finished d.port (rw (ends, wired.status_signal d.pins, pin)))
  goes_on d h failed finished at ends (pin, flag) = inl (
    at,
    ends,
    λ e st.
        let over = (TurnStep-Doomed h st).count in
        let all = h.count in
        let zero_left : left_of d.writer d.sender ≡ 0 = rw (at, ends) refl in
        absurd (omega (arith, over, all, zero_left)),
  )
  goes_on d h _ _ at ends early = absurd early

  -- With the cable wired as the code takes it to be: if lptcomms_writebyte of an answer raises pin 19
  -- before the last wait of write_byte of the request has seen it low, the answer is lost, however the
  -- two sides go on. read_byte never begins to take it, at most three more accesses are made, and
  -- where no step is left lptcomms_writebyte has returned -1 and write_byte has returned, so the host
  -- waits in read_byte for ever.
  pub early_answer_lost :
      {c d : Turn} {n : ℕ}
      → a < 256
      → TurnReach w b a c
      → c.sender ≡ wait_end
      → c.writer ≡ wait_up
      → TurnRun w b a c n d
      → (d.reader ≡ wait_high)
        × (n ≤ 3)
        × (((d.writer ≡ failed) × (d.sender ≡ finished) × ((e : Turn) → TurnStep w b a d e → ⊥))
            ⊎ ((e : Turn) × TurnStep w b a d e))
  unfolding Hangs
  early_answer_lost {c} {d} {n} byte reach waits up run =
      let h = TurnRun-Doomed (early-Doomed reach byte waits up) run in
      (h.reader_lem, omega (arith, h.count), goes_on d h d.writer d.sender refl refl h.early)
