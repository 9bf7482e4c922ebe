-- ===== src/Handshake/ToHost/Progress.antt =====
-- A byte to the host always gets through: no state is stuck, and there are 18 accesses at most.
use lptstore.Prelude.{ℕ, suc, ◌+◌, ◌≡◌, ◌<◌, ◌≤◌, ◌⊎◌, refl, ◌∙◌, inl, inr, some, arith}
use lptstore.Handshake.{Board, Pins, IsWired}
use lptstore.Handshake.ToHost.{
  Writer, high_16, high_17, high_18, high_20, raise, wait_up, low_16, low_17, low_18, low_20, drop,
  wait_down, sent, giving_up, failed, Reader, wait_high, take_high, ack, wait_low, take_low,
  release, received, write_step, write_timeout, read_step, Config, Step, target, host, expire,
  Reach,
}
use lptstore.Handshake.ToHost.Safety.{Phase, signal, Reach-Inv}

-- The accesses that a side has made; a target that gives up is taken to make its last.
abbrev written : Writer → ℕ
written high_16 = 0
written high_17 = 1
written high_18 = 2
written high_20 = 3
written raise = 4
written wait_up = 5
written low_16 = 6
written low_17 = 7
written low_18 = 8
written low_20 = 9
written drop = 10
written wait_down = 11
written sent = 12
written giving_up = 11
written failed = 12

abbrev read : Reader → ℕ
read wait_high = 0
read take_high = 1
read ack = 2
read wait_low = 3
read take_low = 4
read release = 5
read received = 6

abbrev pub accesses : Config → ℕ
accesses c = written c.writer + read c.reader

written-le : (wr : Writer) → written wr ≤ 12
written-le high_16 = omega arith
written-le _ = omega arith

read-le : (r : Reader) → read r ≤ 6
read-le wait_high = omega arith
read-le _ = omega arith

-- An access of lptcomms_writebyte is one more.
write_step-counts :
    (w : Board) (b : ℕ) (wr next : Writer) (p p' : Pins) (port : ℕ)
    → write_step w b wr p port ≡ some (next, p')
    → written next ≡ suc (written wr)
unfolding write_step
write_step-counts w b high_16 next p p' port e = ground arith
write_step-counts w b _ next p p' port e = ground arith

read_step-counts :
    (w : Board) (r next : Reader) (p : Pins) (port port' ah ah' : ℕ)
    → read_step w r p port ah ≡ some (next, port', ah')
    → read next ≡ suc (read r)
unfolding read_step
read_step-counts w wait_high next p port port' ah ah' e = ground arith
read_step-counts w _ next p port port' ah ah' e = ground arith

write_timeout-fails :
    (w : Board) (wr next : Writer) (p p' : Pins) (port : ℕ)
    → write_timeout w wr p port ≡ some (next, p')
    → next ≡ giving_up
unfolding write_timeout
write_timeout-fails w wait_up next p p' port e = ground arith
write_timeout-fails w wait_down next p p' port e = ground arith
write_timeout-fails w _ next p p' port e = ground arith

-- One more access of either side.
abbrev pub Moves : Board → ℕ → Config → Type 0
Moves w b c =
    ((next : Writer) × (p : Pins) × (write_step w b c.writer c.pins c.port ≡ some (next, p))
      × (written next ≡ suc (written c.writer)))
    ⊎ ((next : Reader) × (port : ℕ) × (ah : ℕ) × (read_step w c.reader c.pins c.port c.ah
          ≡ some (next, port, ah))
        × (read next ≡ suc (read c.reader)))

module _ {w : Board} (wired : IsWired w) (b : ℕ) where
  -- Where lptcomms_writebyte has neither ended nor given up, one side can go on.
  pub moves :
      (wr : Writer) (r : Reader) (p : Pins) (port ah : ℕ)
      → Phase wr r b p port ah
      → (wr ≡ sent)
        ⊎ (wr ≡ failed)
        ⊎ Moves w b (record { writer = wr; reader = r; pins = p; port = port; ah = ah })
  unfolding write_step read_step
  moves high_16 r p port ah h = inr (inr (inl (high_17, _, refl, refl)))
  moves high_17 r p port ah h = inr (inr (inl (high_18, _, refl, refl)))
  moves high_18 r p port ah h = inr (inr (inl (high_20, _, refl, refl)))
  moves high_20 r p port ah h = inr (inr (inl (raise, _, refl, refl)))
  moves raise r p port ah h = inr (inr (inl (wait_up, _, refl, refl)))
  moves low_16 r p port ah h = inr (inr (inl (low_17, _, refl, refl)))
  moves low_17 r p port ah h = inr (inr (inl (low_18, _, refl, refl)))
  moves low_18 r p port ah h = inr (inr (inl (low_20, _, refl, refl)))
  moves low_20 r p port ah h = inr (inr (inl (drop, _, refl, refl)))
  moves drop r p port ah h = inr (inr (inl (wait_down, _, refl, refl)))
  moves sent r p port ah h = inl refl
  moves giving_up r p port ah h = inr (inr (inl (failed, _, refl, refl)))
  moves failed r p port ah h = inr (inl refl)
  moves wait_up wait_high p port ah (pin, flag, put) =
      inr (inr (inr (take_high, port, ah, rw (wired.status_signal p ∙ pin), refl)))
  moves wait_up take_high p port ah h = inr (inr (inr (ack, port, _, refl, refl)))
  moves wait_up ack p port ah h = inr (inr (inr (wait_low, _, ah, refl, refl)))
  moves wait_up wait_low p port ah ((pin, flag, put), got) =
      inr (inr (inl (low_16, p, rw (signal wired b port ∙ flag), refl)))
  moves wait_down wait_low p port ah ((pin, flag, put), got) =
      inr (inr (inr (take_low, port, ah, rw (wired.status_signal p ∙ pin), refl)))
  moves wait_down take_low p port ah h = inr (inr (inr (release, port, _, refl, refl)))
  moves wait_down release p port ah h = inr (inr (inr (received, _, ah, refl, refl)))
  moves wait_down received p port ah ((pin, flag, put), got) =
      inr (inr (inl (sent, p, rw (signal wired b port ∙ flag), refl)))
  moves _ _ p port ah h = absurd h

  step-counts :
      {c d : Config} → Step w b c d → (d.writer ≡ giving_up) ⊎ (accesses d ≡ suc (accesses c))
  step-counts {c} (target next p e) =
      inr (omega (arith, write_step-counts w b c.writer next c.pins p c.port e))
  step-counts {c} (host next port ah e) =
      inr (omega (arith, read_step-counts w c.reader next c.pins c.port port c.ah ah e))
  step-counts {c} (expire next p e) = inl (write_timeout-fails w c.writer next c.pins p c.port e)

  pub as_step :
      {c : Config} → Moves w b c → (d : Config) × Step w b c d × (accesses d ≡ suc (accesses c))
  as_step {c} (inl (next, p, e, one)) =
      (record c { writer = next; pins = p }, target next p e, omega (arith, one))
  as_step {c} (inr (next, port, ah, e, one)) =
      (record c { reader = next; port = port; ah = ah }, host next port ah e, omega (arith, one))

  -- With the cable wired as the code takes it to be, no interleaving from idle lines on of
  -- lptcomms_writebyte and read_byte has made more than 18 accesses of the wires. Every step but a
  -- timeout of the target is one more of them, and where lptcomms_writebyte has not returned, a side
  -- can make the next.
  pub handshake_progress :
      {c : Config}
      → b < 256
      → Reach w b c
      → (accesses c ≤ 18)
        × ((d : Config) → Step w b c d → (d.writer ≡ giving_up) ⊎ (accesses d ≡ suc (accesses c)))
        × ((c.writer ≡ sent)
            ⊎ (c.writer ≡ failed)
            ⊎ ((d : Config) × Step w b c d × (accesses d ≡ suc (accesses c))))
  handshake_progress {c} byte reach = (
    omega (arith, written-le c.writer, read-le c.reader),
    λ d st. step-counts st,
    elim (moves c.writer c.reader c.pins c.port c.ah (Reach-Inv wired b byte reach)) [
      | inl over ↦ inl over
      | inr (inl gone) ↦ inr (inl gone)
      | inr (inr move) ↦ inr (inr (as_step move))
    ],
  )
