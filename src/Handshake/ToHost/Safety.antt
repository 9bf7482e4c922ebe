-- ===== src/Handshake/ToHost/Safety.antt =====
-- The host reads the byte that the target wrote.
use lptstore.Prelude.{
  ℕ, ◌*◌, ◌/◌, ◌%◌, ◌^◌, ◌≡◌, ◌<◌, refl, subst, ap, ◌∙◌, inl, inr, Bool, true, false, Option, none,
  some, Bool-cases, arith, ◌==◌,
}
use lptstore.Handshake.{
  Board, Pins, bit, readlpt, nybble, IsWired, Put, nybble-high, nybble-low, readlpt-port,
}
use lptstore.Handshake.ToHost.{
  Writer, high_16, high_17, high_18, high_20, raise, wait_up, low_16, low_17, low_18, low_20, drop,
  wait_down, sent, giving_up, failed, Reader, wait_high, take_high, ack, wait_low, take_low,
  release, received, write_step, write_timeout, read_step, Config, Step, target, host, expire,
  Reach, start, later,
}

-- Lines that are idle but for the first `n` bits of the high nybble.
abbrev pub Before : ℕ → ℕ → Pins → ℕ → Type 0
Before n b p port = (p.pin19 ≡ false) × (bit port 4 ≡ false) × Put n 4 b p

-- The high nybble is signalled; `port_high` says what the host answers.
abbrev pub High : Bool → ℕ → Pins → ℕ → Type 0
High up b p port = (p.pin19 ≡ true) × (bit port 4 ≡ up) × Put 4 4 b p

-- The host has the high nybble, and the first `n` bits of the low one are set.
abbrev pub Between : ℕ → ℕ → Pins → ℕ → ℕ → Type 0
Between n b p port ah =
    (p.pin19 ≡ true) × (bit port 4 ≡ true) × (ah ≡ b / 2 ^ 4 % 16 * 16) × Put n 0 b p

abbrev pub Low : Bool → ℕ → Pins → ℕ → Type 0
Low up b p port = (p.pin19 ≡ false) × (bit port 4 ≡ up) × Put 4 0 b p

-- What holds of the wires and of AH where the two sides stand so; no other pair is reached.
abbrev pub Phase : Writer → Reader → ℕ → Pins → ℕ → ℕ → Type 0
Phase giving_up _ b p port ah = Unit
Phase failed _ b p port ah = Unit
Phase high_16 wait_high b p port ah = Before 0 b p port
Phase high_17 wait_high b p port ah = Before 1 b p port
Phase high_18 wait_high b p port ah = Before 2 b p port
Phase high_20 wait_high b p port ah = Before 3 b p port
Phase raise wait_high b p port ah = Before 4 b p port
Phase wait_up wait_high b p port ah = High false b p port
Phase wait_up take_high b p port ah = High false b p port
Phase wait_up ack b p port ah = High false b p port × (ah ≡ b / 2 ^ 4 % 16 * 16)
Phase wait_up wait_low b p port ah = High true b p port × (ah ≡ b / 2 ^ 4 % 16 * 16)
Phase low_16 wait_low b p port ah = Between 0 b p port ah
Phase low_17 wait_low b p port ah = Between 1 b p port ah
Phase low_18 wait_low b p port ah = Between 2 b p port ah
Phase low_20 wait_low b p port ah = Between 3 b p port ah
Phase drop wait_low b p port ah = Between 4 b p port ah
Phase wait_down wait_low b p port ah = Low true b p port × (ah ≡ b / 2 ^ 4 % 16 * 16)
Phase wait_down take_low b p port ah = Low true b p port × (ah ≡ b / 2 ^ 4 % 16 * 16)
Phase wait_down release b p port ah = Low true b p port × (ah ≡ b)
Phase wait_down received b p port ah = Low false b p port × (ah ≡ b)
Phase sent received b p port ah = Low false b p port × (ah ≡ b)
Phase _ _ b p port ah = ⊥

abbrev AfterWrite : Reader → ℕ → ℕ → ℕ → Option (Writer × Pins) → Type 0
AfterWrite r b port ah none = Unit
AfterWrite r b port ah (some (wr, p)) = Phase wr r b p port ah

abbrev AfterRead : Writer → ℕ → Pins → Option (Reader × ℕ × ℕ) → Type 0
AfterRead wr b p none = Unit
AfterRead wr b p (some (r, port, ah)) = Phase wr r b p port ah

module _ {w : Board} (wired : IsWired w) (b : ℕ) where
  -- lptcomms_readlpt shows the signal of the host.
  pub signal : (port : ℕ) → bit (readlpt w port) 4 ≡ bit port 4
  signal port =
      let e : port % 2 ^ 5 / 2 ^ 4 % 2 ≡ port / 2 ^ 4 % 2 = omega arith in
      rw (readlpt-port wired port) (ap (λ (n : ℕ). n == 1) e)

  write_keeps :
      (wr : Writer) (r : Reader) (p : Pins) (port ah : ℕ)
      → Phase wr r b p port ah
      → AfterWrite r b port ah (write_step w b wr p port)
  unfolding write_step
  write_keeps high_16 wait_high p port ah (pin, flag, put) = (pin, flag, refl)
  write_keeps high_17 wait_high p port ah (pin, flag, e0) = (pin, flag, (e0, refl))
  write_keeps high_18 wait_high p port ah (pin, flag, (e0, e1)) = (pin, flag, (e0, e1, refl))
  write_keeps high_20 wait_high p port ah (pin, flag, (e0, e1, e2)) =
      (pin, flag, (e0, e1, e2, refl))
  write_keeps raise wait_high p port ah (pin, flag, put) = (refl, flag, put)
  write_keeps wait_up wait_high p port ah (pin, flag, put) = rw (signal port, flag) tt
  write_keeps wait_up take_high p port ah (pin, flag, put) = rw (signal port, flag) tt
  write_keeps wait_up ack p port ah ((pin, flag, put), got) = rw (signal port, flag) tt
  write_keeps wait_up wait_low p port ah ((pin, flag, put), got) =
      rw (signal port, flag) (pin, flag, got, tt)
  write_keeps low_16 wait_low p port ah (pin, flag, got, put) = (pin, flag, got, refl)
  write_keeps low_17 wait_low p port ah (pin, flag, got, e0) = (pin, flag, got, (e0, refl))
  write_keeps low_18 wait_low p port ah (pin, flag, got, (e0, e1)) =
      (pin, flag, got, (e0, e1, refl))
  write_keeps low_20 wait_low p port ah (pin, flag, got, (e0, e1, e2)) =
      (pin, flag, got, (e0, e1, e2, refl))
  write_keeps drop wait_low p port ah (pin, flag, got, put) = ((refl, flag, put), got)
  write_keeps wait_down wait_low p port ah ((pin, flag, put), got) = rw (signal port, flag) tt
  write_keeps wait_down take_low p port ah ((pin, flag, put), got) = rw (signal port, flag) tt
  write_keeps wait_down release p port ah ((pin, flag, put), got) = rw (signal port, flag) tt
  write_keeps wait_down received p port ah ((pin, flag, put), got) =
      rw (signal port, flag) ((pin, flag, put), got)
  write_keeps sent received p port ah h = tt
  write_keeps giving_up r p port ah h = tt
  write_keeps failed r p port ah h = tt
  write_keeps _ _ p port ah h = absurd h

  -- What read_byte makes of the status port, for the high and for the low nybble.
  high_nybble : (p : Pins) → w.status p * 2 % 256 / 16 * 16 ≡ nybble p * 16
  high_nybble p = omega (arith, wired.status_nybble p)

  low_nybble : (p : Pins) → w.status p / 2 / 2 / 2 % 16 ≡ nybble p
  low_nybble p = omega (arith, wired.status_nybble p)

  read_keeps :
      (wr : Writer) (r : Reader) (p : Pins) (port ah : ℕ)
      → b < 256
      → Phase wr r b p port ah
      → AfterRead wr b p (read_step w r p port ah)
  unfolding read_step
  read_keeps giving_up wait_high p port ah byte h = elim (Bool-cases (bit (w.status p) 7)) [
    | inl e ↦ rw e tt
    | inr e ↦ rw e tt
  ]
  read_keeps giving_up take_high p port ah byte h = tt
  read_keeps giving_up ack p port ah byte h = tt
  read_keeps giving_up wait_low p port ah byte h = elim (Bool-cases (bit (w.status p) 7)) [
    | inl e ↦ rw e tt
    | inr e ↦ rw e tt
  ]
  read_keeps giving_up take_low p port ah byte h = tt
  read_keeps giving_up release p port ah byte h = tt
  read_keeps giving_up received p port ah byte h = tt
  read_keeps failed wait_high p port ah byte h = elim (Bool-cases (bit (w.status p) 7)) [
    | inl e ↦ rw e tt
    | inr e ↦ rw e tt
  ]
  read_keeps failed take_high p port ah byte h = tt
  read_keeps failed ack p port ah byte h = tt
  read_keeps failed wait_low p port ah byte h = elim (Bool-cases (bit (w.status p) 7)) [
    | inl e ↦ rw e tt
    | inr e ↦ rw e tt
  ]
  read_keeps failed take_low p port ah byte h = tt
  read_keeps failed release p port ah byte h = tt
  read_keeps failed received p port ah byte h = tt
  read_keeps high_16 wait_high p port ah byte (pin, flag, put) = rw (wired.status_signal p ∙ pin) tt
  read_keeps high_17 wait_high p port ah byte (pin, flag, put) = rw (wired.status_signal p ∙ pin) tt
  read_keeps high_18 wait_high p port ah byte (pin, flag, put) = rw (wired.status_signal p ∙ pin) tt
  read_keeps high_20 wait_high p port ah byte (pin, flag, put) = rw (wired.status_signal p ∙ pin) tt
  read_keeps raise wait_high p port ah byte (pin, flag, put) = rw (wired.status_signal p ∙ pin) tt
  read_keeps wait_up wait_high p port ah byte (pin, flag, put) =
      rw (wired.status_signal p ∙ pin) (pin, flag, put)
  read_keeps wait_up take_high p port ah byte (pin, flag, put) =
      ((pin, flag, put), high_nybble p ∙ ap (λ n. n * 16) (nybble-high b p put))
  read_keeps wait_up ack p port ah byte ((pin, flag, put), got) = ((pin, refl, put), got)
  read_keeps wait_up wait_low p port ah byte ((pin, flag, put), got) =
      rw (wired.status_signal p ∙ pin) tt
  read_keeps low_16 wait_low p port ah byte (pin, flag, got, put) =
      rw (wired.status_signal p ∙ pin) tt
  read_keeps low_17 wait_low p port ah byte (pin, flag, got, put) =
      rw (wired.status_signal p ∙ pin) tt
  read_keeps low_18 wait_low p port ah byte (pin, flag, got, put) =
      rw (wired.status_signal p ∙ pin) tt
  read_keeps low_20 wait_low p port ah byte (pin, flag, got, put) =
      rw (wired.status_signal p ∙ pin) tt
  read_keeps drop wait_low p port ah byte (pin, flag, got, put) =
      rw (wired.status_signal p ∙ pin) tt
  read_keeps wait_down wait_low p port ah byte ((pin, flag, put), got) =
      rw (wired.status_signal p ∙ pin) ((pin, flag, put), got)
  read_keeps wait_down take_low p port ah byte ((pin, flag, put), got) =
      ((pin, flag, put), omega (arith, low_nybble p, nybble-low b p put))
  read_keeps wait_down release p port ah byte ((pin, flag, put), got) = ((pin, refl, put), got)
  read_keeps wait_down received p port ah byte h = tt
  read_keeps sent received p port ah byte h = tt
  read_keeps _ _ p port ah byte h = absurd h

  expire_keeps :
      (wr : Writer) (r : Reader) (p : Pins) (port ah : ℕ)
      → AfterWrite r b port ah (write_timeout w wr p port)
  unfolding write_timeout
  expire_keeps wait_up r p port ah = elim (Bool-cases (bit (readlpt w port) 4)) [
    | inl e ↦ rw e tt
    | inr e ↦ rw e tt
  ]
  expire_keeps wait_down r p port ah = elim (Bool-cases (bit (readlpt w port) 4)) [
    | inl e ↦ rw e tt
    | inr e ↦ rw e tt
  ]
  expire_keeps _ r p port ah = tt

  abbrev pub Inv : Config → Type 0
  Inv c = Phase c.writer c.reader b c.pins c.port c.ah

  pub Step-Inv : {c d : Config} → b < 256 → Inv c → Step w b c d → Inv d
  Step-Inv {c} byte h (target next p e) =
      subst (AfterWrite c.reader b c.port c.ah) e
        (write_keeps c.writer c.reader c.pins c.port c.ah h)
  Step-Inv {c} byte h (host next port ah e) =
      subst (AfterRead c.writer b c.pins) e (read_keeps c.writer c.reader c.pins c.port c.ah byte h)
  Step-Inv {c} byte h (expire next p e) =
      subst (AfterWrite c.reader b c.port c.ah) e
        (expire_keeps c.writer c.reader c.pins c.port c.ah)

  pub Reach-Inv : {c : Config} → b < 256 → Reach w b c → Inv c
  Reach-Inv byte (start c is) = rw (is.writer_lem, is.reader_lem) (is.pin_lem, is.port_lem, tt)
  Reach-Inv byte (later r st) = Step-Inv byte (Reach-Inv byte r) st

  pub sent-Phase :
      (r : Reader) (p : Pins) (port ah : ℕ)
      → Phase sent r b p port ah
      → (r ≡ received) × (ah ≡ b) × (p.pin19 ≡ false) × (bit port 4 ≡ false)
  sent-Phase received p port ah ((pin, flag, put), got) = (refl, got, pin, flag)
  sent-Phase _ p port ah h = absurd h

  -- With the cable wired as the code takes it to be, and however the two sides interleave from idle
  -- lines on, once lptcomms_writebyte has returned 0 for a byte, read_byte has returned that byte,
  -- and the lines are idle for the next one.
  pub sent-received :
      {c : Config}
      → b < 256
      → Reach w b c
      → c.writer ≡ sent
      → (c.reader ≡ received) × (c.ah ≡ b) × (c.pins.pin19 ≡ false) × (bit c.port 4 ≡ false)
  sent-received {c} byte reach over =
      sent-Phase c.reader c.pins c.port c.ah
        (subst (λ wr. Phase wr c.reader b c.pins c.port c.ah) over (Reach-Inv byte reach))
