-- ===== src/Handshake/ToTarget/Progress.antt =====
-- A byte to the target always gets through: no state is stuck, and there are 10 accesses at most.
use lptstore.Prelude.{ℕ, suc, ◌+◌, ◌≡◌, ◌<◌, ◌≤◌, ◌⊎◌, refl, ◌∙◌, inl, inr, some, arith}
use lptstore.Handshake.{Board, Pins, IsWired}
use lptstore.Handshake.ToTarget.{
  Sender, out_high, wait_ack, out_low, wait_end, finished, Receiver, wait_flag, take_high, raise,
  wait_clear, take_low, lower, got, giving_up, failed, send_step, receive_step, receive_timeout,
  Config, Step, host, target, expire, Reach,
}
use lptstore.Handshake.ToTarget.Safety.{Phase, flag_up, flag_down, Reach-Inv}

-- The accesses that a side has made; a target that gives up is taken to make its last.
abbrev sends : Sender → ℕ
sends out_high = 0
sends wait_ack = 1
sends out_low = 2
sends wait_end = 3
sends finished = 4

abbrev takes : Receiver → ℕ
takes wait_flag = 0
takes take_high = 1
takes raise = 2
takes wait_clear = 3
takes take_low = 4
takes lower = 5
takes got = 6
takes giving_up = 5
takes failed = 6

abbrev pub accesses : Config → ℕ
accesses c = sends c.sender + takes c.receiver

sends-le : (s : Sender) → sends s ≤ 4
sends-le out_high = omega arith
sends-le _ = omega arith

takes-le : (r : Receiver) → takes r ≤ 6
takes-le wait_flag = omega arith
takes-le _ = omega arith

send_step-counts :
    (w : Board) (b : ℕ) (s next : Sender) (p : Pins) (port port' : ℕ)
    → send_step w b s p port ≡ some (next, port')
    → sends next ≡ suc (sends s)
unfolding send_step
send_step-counts w b out_high next p port port' e = ground arith
send_step-counts w b _ next p port port' e = ground arith

receive_step-counts :
    (w : Board) (r next : Receiver) (p p' : Pins) (port d d' : ℕ)
    → receive_step w r p port d ≡ some (next, p', d')
    → takes next ≡ suc (takes r)
unfolding receive_step
receive_step-counts w wait_flag next p p' port d d' e = ground arith
receive_step-counts w _ next p p' port d d' e = ground arith

receive_timeout-fails :
    (w : Board) (r next : Receiver) (p p' : Pins) (port : ℕ)
    → receive_timeout w r p port ≡ some (next, p')
    → (next ≡ giving_up) ⊎ (next ≡ failed)
unfolding receive_timeout
receive_timeout-fails w wait_flag next p p' port e = ground arith
receive_timeout-fails w wait_clear next p p' port e = ground arith
receive_timeout-fails w _ next p p' port e = ground arith

-- One more access of either side.
abbrev pub Moves : Board → ℕ → Config → Type 0
Moves w b c =
    ((next : Sender) × (port : ℕ) × (send_step w b c.sender c.pins c.port ≡ some (next, port))
      × (sends next ≡ suc (sends c.sender)))
    ⊎ ((next : Receiver) × (p : Pins) × (d : ℕ) × (receive_step w c.receiver c.pins c.port c.d
          ≡ some (next, p, d))
        × (takes next ≡ suc (takes c.receiver)))

module _ {w : Board} (wired : IsWired w) (b : ℕ) (byte : b < 256) where
  -- Where write_byte has not ended nor lptcomms_readbyte given up, one side can go on.
  pub moves :
      (s : Sender) (r : Receiver) (p : Pins) (port d : ℕ)
      → Phase s r b p port d
      → (s ≡ finished)
        ⊎ (r ≡ failed)
        ⊎ Moves w b (record { sender = s; receiver = r; pins = p; port = port; d = d })
  unfolding send_step receive_step
  moves finished r p port d h = inl refl
  moves s giving_up p port d h = inr (inr (inr (failed, _, _, refl, refl)))
  moves s failed p port d h = inr (inl refl)
  moves out_high r p port d h = inr (inr (inl (wait_ack, _, refl, refl)))
  moves out_low r p port d h = inr (inr (inl (wait_end, _, refl, refl)))
  moves wait_ack wait_flag p port d (pin, e) =
      inr (inr (inr (take_high, p, d, rw (flag_up wired b byte port e), refl)))
  moves wait_ack take_high p port d h = inr (inr (inr (raise, p, _, refl, refl)))
  moves wait_ack raise p port d h = inr (inr (inr (wait_clear, _, d, refl, refl)))
  moves wait_ack wait_clear p port d ((pin, e), half) =
      inr (inr (inl (out_low, port, rw (wired.status_signal p ∙ pin), refl)))
  moves wait_end wait_clear p port d ((pin, e), half) =
      inr (inr (inr (take_low, p, d, rw (flag_down wired b byte port e), refl)))
  moves wait_end take_low p port d h = inr (inr (inr (lower, p, _, refl, refl)))
  moves wait_end lower p port d h = inr (inr (inr (got, _, d, refl, refl)))
  moves wait_end got p port d ((pin, e), whole) =
      inr (inr (inl (finished, port, rw (wired.status_signal p ∙ pin), refl)))
  moves _ _ p port d h = absurd h

  step-counts :
      {c e : Config}
      → Step w b c e
      → (e.receiver ≡ giving_up) ⊎ (e.receiver ≡ failed) ⊎ (accesses e ≡ suc (accesses c))
  step-counts {c} (host next port e) =
      inr (inr (omega (arith, send_step-counts w b c.sender next c.pins c.port port e)))
  step-counts {c} (target next p d e) =
      inr (inr (omega (arith, receive_step-counts w c.receiver next c.pins p c.port c.d d e)))
  step-counts {c} (expire next p e) =
      elim (receive_timeout-fails w c.receiver next c.pins p c.port e) [
        | inl gone ↦ inl gone
        | inr gone ↦ inr (inl gone)
      ]

  pub as_step :
      {c : Config} → Moves w b c → (e : Config) × Step w b c e × (accesses e ≡ suc (accesses c))
  as_step {c} (inl (next, port, e, one)) =
      (record c { sender = next; port = port }, host next port e, omega (arith, one))
  as_step {c} (inr (next, p, d, e, one)) =
      (record c { receiver = next; pins = p; d = d }, target next p d e, omega (arith, one))

  -- With the cable wired as the code takes it to be, no interleaving from idle lines on of
  -- write_byte and lptcomms_readbyte has made more than 10 accesses of the wires. Every step but a
  -- timeout of the target is one more of them, and where neither write_byte has returned nor
  -- lptcomms_readbyte failed, a side can make the next.
  pub readbyte_progress :
      {c : Config}
      → Reach w b c
      → (accesses c ≤ 10)
        × ((e : Config)
            → Step w b c e
            → (e.receiver ≡ giving_up) ⊎ (e.receiver ≡ failed) ⊎ (accesses e ≡ suc (accesses c)))
        × ((c.sender ≡ finished)
            ⊎ (c.receiver ≡ failed)
            ⊎ ((e : Config) × Step w b c e × (accesses e ≡ suc (accesses c))))
  readbyte_progress {c} reach = (
    omega (arith, sends-le c.sender, takes-le c.receiver),
    λ e st. step-counts st,
    elim (moves c.sender c.receiver c.pins c.port c.d (Reach-Inv wired b byte reach)) [
      | inl over ↦ inl over
      | inr (inl gone) ↦ inr (inl gone)
      | inr (inr move) ↦ inr (inr (as_step move))
    ],
  )
