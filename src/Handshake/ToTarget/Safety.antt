-- ===== src/Handshake/ToTarget/Safety.antt =====
-- The target reads the byte that the host wrote.
use lptstore.Prelude.{
  ℕ, ◌+◌, ◌*◌, ◌/◌, ◌%◌, ◌^◌, ◌≡◌, ◌<◌, refl, subst, ap, ◌∙◌, inl, inr, ◌⊎◌, Bool, true, false,
  Option, none, some, Bool-cases, arith, ◌==◌,
}
use lptstore.Handshake.{Board, Pins, bit, readlpt, IsWired, readlpt-port}
use lptstore.Handshake.ToTarget.{
  Sender, out_high, wait_ack, out_low, wait_end, finished, Receiver, wait_flag, take_high, raise,
  wait_clear, take_low, lower, got, giving_up, failed, send_step, receive_step, receive_timeout,
  Config, Step, host, target, expire, Reach, start, later,
}

-- The high nybble is on the lines, with the host's signal; then the low one, without it.
abbrev pub High : Bool → ℕ → Pins → ℕ → Type 0
High up b p port = (p.pin19 ≡ up) × (port ≡ b / 2 ^ 4 + 0x10)

abbrev pub Low : Bool → ℕ → Pins → ℕ → Type 0
Low up b p port = (p.pin19 ≡ up) × (port ≡ b % 16)

-- What holds of the wires and of `d` where the two sides stand so; no other pair is reached.
abbrev pub Phase : Sender → Receiver → ℕ → Pins → ℕ → ℕ → Type 0
Phase _ giving_up b p port d = Unit
Phase _ failed b p port d = Unit
Phase out_high wait_flag b p port d = (p.pin19 ≡ false) × (bit port 4 ≡ false)
Phase wait_ack wait_flag b p port d = High false b p port
Phase wait_ack take_high b p port d = High false b p port
Phase wait_ack raise b p port d = High false b p port × (d ≡ b / 2 ^ 4 * 16)
Phase wait_ack wait_clear b p port d = High true b p port × (d ≡ b / 2 ^ 4 * 16)
Phase out_low wait_clear b p port d = High true b p port × (d ≡ b / 2 ^ 4 * 16)
Phase wait_end wait_clear b p port d = Low true b p port × (d ≡ b / 2 ^ 4 * 16)
Phase wait_end take_low b p port d = Low true b p port × (d ≡ b / 2 ^ 4 * 16)
Phase wait_end lower b p port d = Low true b p port × (d ≡ b)
Phase wait_end got b p port d = Low false b p port × (d ≡ b)
Phase finished got b p port d = Low false b p port × (d ≡ b)
Phase _ _ b p port d = ⊥

abbrev AfterSend : Receiver → ℕ → Pins → ℕ → Option (Sender × ℕ) → Type 0
AfterSend r b p d none = Unit
AfterSend r b p d (some (s, port)) = Phase s r b p port d

abbrev AfterReceive : Sender → ℕ → ℕ → Option (Receiver × Pins × ℕ) → Type 0
AfterReceive s b port none = Unit
AfterReceive s b port (some (r, p, d)) = Phase s r b p port d

abbrev AfterTimeout : Sender → ℕ → ℕ → ℕ → Option (Receiver × Pins) → Type 0
AfterTimeout s b port d none = Unit
AfterTimeout s b port d (some (r, p)) = Phase s r b p port d

module _ {w : Board} (wired : IsWired w) (b : ℕ) (byte : b < 256) where
  -- lptcomms_readlpt while a nybble is on the lines.
  pub flag_up : (port : ℕ) → port ≡ b / 2 ^ 4 + 0x10 → bit (readlpt w port) 4 ≡ true
  flag_up port e =
      let one : (b / 2 ^ 4 + 0x10) % 2 ^ 5 / 2 ^ 4 % 2 ≡ 1 = omega (arith, byte) in
      rw (readlpt-port wired port, e) (ap (λ (n : ℕ). n == 1) one)

  pub flag_down : (port : ℕ) → port ≡ b % 16 → bit (readlpt w port) 4 ≡ false
  flag_down port e =
      let zero : b % 16 % 2 ^ 5 / 2 ^ 4 % 2 ≡ 0 = omega arith in
      rw (readlpt-port wired port, e) (ap (λ (n : ℕ). n == 1) zero)

  pub idle_down : (port : ℕ) → bit port 4 ≡ false → bit (readlpt w port) 4 ≡ false
  idle_down port h =
      let e : port % 2 ^ 5 / 2 ^ 4 % 2 ≡ port / 2 ^ 4 % 2 = omega arith in
      rw (readlpt-port wired port) (ap (λ (n : ℕ). n == 1) e ∙ h)

  send_keeps :
      (s : Sender) (r : Receiver) (p : Pins) (port d : ℕ)
      → Phase s r b p port d
      → AfterSend r b p d (send_step w b s p port)
  unfolding send_step
  send_keeps out_high giving_up p port d h = tt
  send_keeps wait_ack giving_up p port d h = elim (Bool-cases (bit (w.status p) 7)) [
    | inl e ↦ rw e tt
    | inr e ↦ rw e tt
  ]
  send_keeps out_low giving_up p port d h = tt
  send_keeps wait_end giving_up p port d h = elim (Bool-cases (bit (w.status p) 7)) [
    | inl e ↦ rw e tt
    | inr e ↦ rw e tt
  ]
  send_keeps finished giving_up p port d h = tt
  send_keeps out_high failed p port d h = tt
  send_keeps wait_ack failed p port d h = elim (Bool-cases (bit (w.status p) 7)) [
    | inl e ↦ rw e tt
    | inr e ↦ rw e tt
  ]
  send_keeps out_low failed p port d h = tt
  send_keeps wait_end failed p port d h = elim (Bool-cases (bit (w.status p) 7)) [
    | inl e ↦ rw e tt
    | inr e ↦ rw e tt
  ]
  send_keeps finished failed p port d h = tt
  send_keeps out_high wait_flag p port d (pin, flag) = (pin, omega (arith, byte))
  send_keeps wait_ack wait_flag p port d (pin, e) = rw (wired.status_signal p ∙ pin) tt
  send_keeps wait_ack take_high p port d (pin, e) = rw (wired.status_signal p ∙ pin) tt
  send_keeps wait_ack raise p port d ((pin, e), half) = rw (wired.status_signal p ∙ pin) tt
  send_keeps wait_ack wait_clear p port d ((pin, e), half) =
      rw (wired.status_signal p ∙ pin) ((pin, e), half)
  send_keeps out_low wait_clear p port d ((pin, e), half) = ((pin, refl), half)
  send_keeps wait_end wait_clear p port d ((pin, e), half) = rw (wired.status_signal p ∙ pin) tt
  send_keeps wait_end take_low p port d ((pin, e), half) = rw (wired.status_signal p ∙ pin) tt
  send_keeps wait_end lower p port d ((pin, e), whole) = rw (wired.status_signal p ∙ pin) tt
  send_keeps wait_end got p port d ((pin, e), whole) =
      rw (wired.status_signal p ∙ pin) ((pin, e), whole)
  send_keeps finished got p port d h = tt
  send_keeps _ _ p port d h = absurd h

  receive_keeps :
      (s : Sender) (r : Receiver) (p : Pins) (port d : ℕ)
      → Phase s r b p port d
      → AfterReceive s b port (receive_step w r p port d)
  unfolding receive_step
  receive_keeps s giving_up p port d h = tt
  receive_keeps s failed p port d h = tt
  receive_keeps out_high wait_flag p port d (pin, flag) = rw (idle_down port flag) tt
  receive_keeps wait_ack wait_flag p port d (pin, e) = rw (flag_up port e) (pin, e)
  receive_keeps wait_ack take_high p port d (pin, e) =
      ((pin, e), omega (arith, byte, e, readlpt-port wired port))
  receive_keeps wait_ack raise p port d ((pin, e), half) = ((refl, e), half)
  receive_keeps wait_ack wait_clear p port d ((pin, e), half) = rw (flag_up port e) tt
  receive_keeps out_low wait_clear p port d ((pin, e), half) = rw (flag_up port e) tt
  receive_keeps wait_end wait_clear p port d ((pin, e), half) =
      rw (flag_down port e) ((pin, e), half)
  receive_keeps wait_end take_low p port d ((pin, e), half) =
      ((pin, e), omega (arith, readlpt-port wired port))
  receive_keeps wait_end lower p port d ((pin, e), whole) = ((refl, e), whole)
  receive_keeps wait_end got p port d h = tt
  receive_keeps finished got p port d h = tt
  receive_keeps _ _ p port d h = absurd h

  expire_keeps :
      (s : Sender) (r : Receiver) (p : Pins) (port d : ℕ)
      → AfterTimeout s b port d (receive_timeout w r p port)
  unfolding receive_timeout
  expire_keeps s wait_flag p port d = elim (Bool-cases (bit (readlpt w port) 4)) [
    | inl e ↦ rw e tt
    | inr e ↦ rw e tt
  ]
  expire_keeps s wait_clear p port d = elim (Bool-cases (bit (readlpt w port) 4)) [
    | inl e ↦ rw e tt
    | inr e ↦ rw e tt
  ]
  expire_keeps s _ p port d = tt

  abbrev pub Inv : Config → Type 0
  Inv c = Phase c.sender c.receiver b c.pins c.port c.d

  pub Step-Inv : {c e : Config} → Inv c → Step w b c e → Inv e
  Step-Inv {c} h (host next port e) =
      subst (AfterSend c.receiver b c.pins c.d) e
        (send_keeps c.sender c.receiver c.pins c.port c.d h)
  Step-Inv {c} h (target next p d e) =
      subst (AfterReceive c.sender b c.port) e
        (receive_keeps c.sender c.receiver c.pins c.port c.d h)
  Step-Inv {c} h (expire next p e) =
      subst (AfterTimeout c.sender b c.port c.d) e
        (expire_keeps c.sender c.receiver c.pins c.port c.d)

  pub Reach-Inv : {c : Config} → Reach w b c → Inv c
  Reach-Inv (start c is) = rw (is.sender_lem, is.receiver_lem) (is.pin_lem, is.port_lem)
  Reach-Inv (later r st) = Step-Inv (Reach-Inv r) st

  pub got-Phase :
      (s : Sender) (p : Pins) (port d : ℕ)
      → Phase s got b p port d
      → (d ≡ b) × (p.pin19 ≡ false) × (port < 16) × ((s ≡ wait_end) ⊎ (s ≡ finished))
  got-Phase wait_end p port d ((pin, e), whole) = (whole, pin, omega (arith, e), inl refl)
  got-Phase finished p port d ((pin, e), whole) = (whole, pin, omega (arith, e), inr refl)
  got-Phase _ p port d h = absurd h

  pub finished-Phase :
      (r : Receiver) (p : Pins) (port d : ℕ)
      → Phase finished r b p port d
      → (r ≡ giving_up) ⊎ (r ≡ failed) ⊎ ((r ≡ got) × (d ≡ b))
  finished-Phase giving_up p port d h = inl refl
  finished-Phase failed p port d h = inr (inl refl)
  finished-Phase got p port d ((pin, e), whole) = inr (inr (refl, whole))
  finished-Phase _ p port d h = absurd h

  -- With the cable wired as the code takes it to be, and however the two sides interleave from idle
  -- lines on, what lptcomms_readbyte returns is the byte of write_byte, and both signals are low
  -- then: the host has only its last wait before it. And once write_byte has returned,
  -- lptcomms_readbyte has returned the byte too, or gives up.
  pub got-sent :
      {c : Config}
      → Reach w b c
      → (c.receiver ≡ got
          → (c.d ≡ b)
            × (c.pins.pin19 ≡ false)
            × (c.port < 16)
            × ((c.sender ≡ wait_end) ⊎ (c.sender ≡ finished)))
        × (c.sender ≡ finished
            → (c.receiver ≡ giving_up) ⊎ (c.receiver ≡ failed) ⊎ ((c.receiver ≡ got) × (c.d ≡ b)))
  got-sent {c} reach = (
    λ e.
        got-Phase c.sender c.pins c.port c.d
          (subst (λ r. Phase c.sender r b c.pins c.port c.d) e (Reach-Inv reach)),
    λ e.
        finished-Phase c.receiver c.pins c.port c.d
          (subst (λ s. Phase s c.receiver b c.pins c.port c.d) e (Reach-Inv reach)),
  )
