-- ===== src/Handshake/ToHost/Ending.antt =====
-- The loops of lptcomms_writebytes and of the calls of read_byte come to an end.
use lptstore.Prelude.{
  ℕ, zero, suc, ◌+◌, ◌*◌, ◌≡◌, ◌<◌, ◌⊎◌, refl, sym, subst, ap, inl, inr, false, List, [], ◌∷◌, some,
  All, length, length-append, arith,
}
use lptstore.Compress.{IsByte}
use lptstore.Handshake.{Board, Pins, bit, IsWired}
use lptstore.Handshake.ToHost.{
  Writer, high_16, high_17, high_18, high_20, raise, wait_up, low_16, low_17, low_18, low_20, drop,
  wait_down, sent, giving_up, failed, Reader, wait_high, take_high, ack, wait_low, take_low,
  release, received, write_step, write_timeout, read_step, Config, Step, target, host, expire,
}
use lptstore.Handshake.ToHost.Safety.{signal}
use lptstore.Handshake.ToHost.Progress.{Moves, moves}
use lptstore.Handshake.ToHost.Stream.{
  Stream, StreamStep, access, next_write, next_read, StreamReach,
}
use lptstore.Handshake.ToHost.Place.{Gone, Place, broken, same, behind, ahead, over-Phase}
use lptstore.Handshake.ToHost.Cut.{Live, write_step-Live}
use lptstore.Handshake.ToHost.Delivery.{IsDelivered, Inv, StreamReach-Inv, ended}

-- More than the accesses that a call still makes.
abbrev pub to_write : Writer → ℕ
to_write high_16 = 13
to_write high_17 = 12
to_write high_18 = 11
to_write high_20 = 10
to_write raise = 9
to_write wait_up = 8
to_write low_16 = 7
to_write low_17 = 6
to_write low_18 = 5
to_write low_20 = 4
to_write drop = 3
to_write wait_down = 2
to_write sent = 0
to_write giving_up = 1
to_write failed = 0

abbrev to_read : Reader → ℕ
to_read wait_high = 6
to_read take_high = 5
to_read ack = 4
to_read wait_low = 3
to_read take_low = 2
to_read release = 1
to_read received = 0

-- The steps that the two loops have left, at most.
abbrev pub work : Stream → ℕ
work s = to_write s.config.writer + 14 * length s.left + (to_read s.config.reader + 7 * s.after)

pub write_step-falls :
    (w : Board) (b : ℕ) (wr next : Writer) (p p' : Pins) (port : ℕ)
    → write_step w b wr p port ≡ some (next, p')
    → to_write next < to_write wr
unfolding write_step
write_step-falls w b high_16 next p p' port e = ground arith
write_step-falls w b _ next p p' port e = ground arith

pub write_timeout-falls :
    (w : Board) (wr next : Writer) (p p' : Pins) (port : ℕ)
    → write_timeout w wr p port ≡ some (next, p')
    → to_write next < to_write wr
unfolding write_timeout
write_timeout-falls w wait_up next p p' port e = ground arith
write_timeout-falls w _ next p p' port e = ground arith

read_step-falls :
    (w : Board) (r next : Reader) (p : Pins) (port port' ah ah' : ℕ)
    → read_step w r p port ah ≡ some (next, port', ah')
    → to_read next < to_read r
unfolding read_step
read_step-falls w wait_high next p port port' ah ah' e = ground arith
read_step-falls w _ next p port port' ah ah' e = ground arith

StreamStep-work : {w : Board} {s t : Stream} → StreamStep w s t → work t < work s
StreamStep-work {w} {s} (access _ (target next p e)) =
    omega (arith, write_step-falls w s.byte s.config.writer next s.config.pins p s.config.port e)
StreamStep-work {w} {s} (access _ (host next port ah e)) = omega (
  arith,
  read_step-falls w s.config.reader next s.config.pins s.config.port port s.config.ah ah e,
)
StreamStep-work {w} {s} (access _ (expire next p e)) =
    omega (arith, write_timeout-falls w s.config.writer next s.config.pins p s.config.port e)
StreamStep-work (next_write b rest over more) = omega (arith, ap to_write over, ap length more)
StreamStep-work (next_read n over one) = omega (arith, ap to_read over, one)

-- A step that is no timeout: lptcomms_writebyte has not given up behind it, if not before.
abbrev pub Moved : Board → Stream → Type 0
Moved w s = (t : Stream) × StreamStep w s t × (Gone t.config.writer → Gone s.config.writer)

-- Everything is delivered, lptcomms_writebyte has returned -1, or the next step is no timeout.
abbrev GoesOn : Board → List ℕ → Stream → Type 0
GoesOn w bytes s = IsDelivered bytes s ⊎ (s.config.writer ≡ failed) ⊎ Moved w s

module _ {w : Board} (wired : IsWired w) (bytes : List ℕ) where
  at_end : (s : Stream) → Inv wired bytes s → s.config.writer ≡ sent → GoesOn w bytes s
  at_end s inv over = next s.left refl
    where
      next : (l : List ℕ) → s.left ≡ l → GoesOn w bytes s
      next [] e = inl (ended wired bytes inv inv.place over e)
      next (b ∷ rest) e = inr (inr (_, next_write b rest over e, λ gone. absurd gone))

  broken-goes : (s : Stream) (wr : Writer) → s.config.writer ≡ wr → Gone wr → GoesOn w bytes s
  unfolding write_step
  broken-goes s giving_up e gone = inr (
      inr (
        _,
        access _ (target failed (record (s.config.pins) { pin19 = false }) (rw e)),
        λ _. subst Gone (sym e) tt,
      ))
  broken-goes s failed e gone = inr (inl e)
  broken-goes s _ e gone = absurd gone

  last_wait : (s : Stream) → s.config.writer ≡ wait_down → bit s.config.port 4 ≡ false → Moved w s
  unfolding write_step
  last_wait s at flag = (
    _,
    access _ (target sent s.config.pins (rw (at, signal wired s.byte s.config.port, flag))),
    λ gone. absurd gone,
  )

  more_reads : (s : Stream) (n : ℕ) → s.config.reader ≡ received → n ≡ s.after → 0 < n → Moved w s
  more_reads s zero at e some_left = absurd (omega (arith, some_left))
  more_reads s (suc n) at e some_left = (_, next_read n at (sym e), λ gone. gone)

  -- An access of either side does not make lptcomms_writebyte give up.
  as_quiet :
      (s : Stream)
      → (Gone s.config.writer → ⊥)
      → Moves w s.byte s.config
      → (d : Config) × Step w s.byte s.config d × (Gone d.writer → Gone s.config.writer)
  as_quiet s live (inl (next, p, e, _)) =
      let c = s.config in
      (
        _,
        target next p e,
        λ gone. absurd (subst Live e (write_step-Live w s.byte c.writer c.pins c.port live) gone),
      )
  as_quiet s live (inr (next, port, ah, e, _)) = (_, host next port ah e, λ gone. gone)

  goes_on : (s : Stream) → Inv wired bytes s → Place bytes s → GoesOn w bytes s
  goes_on s inv (broken gone) = broken-goes s s.config.writer refl gone
  goes_on s inv (same live phase all) =
      elim (moves wired s.byte s.config.writer s.config.reader s.config.pins s.config.port
        s.config.ah phase) [
          | inl over ↦ at_end s inv over
          | inr (inl gone) ↦ inr (inl gone)
          | inr (inr move) ↦
              let (d, st, quiet) = as_quiet s live move in inr (inr (_, access d st, quiet))
        ]
  goes_on s inv (behind live at phase all) =
      let some_left : 0 < s.after =
        omega (
          arith,
          inv.count,
          ap length all,
          length-append s.taken (s.config.ah ∷ s.byte ∷ s.left),
        ) in
      inr (inr (more_reads s s.after at refl some_left))
  goes_on s inv (ahead live at phase all) =
      let (pin, flag, got, place) =
        over-Phase s.config.writer s.byte s.config.pins s.config.port s.config.ah live phase in
      elim place [ inl waits ↦ inr (inr (last_wait s waits flag)) | inr over ↦ at_end s inv over ]

  -- With the cable wired as the code takes it to be, and where the host calls read_byte as often as
  -- there are bytes: every step of the two loops, a timeout included, lowers `work`, so every run from
  -- idle lines on comes to an end. And at every moment all bytes are delivered in order and the lines
  -- are idle, or lptcomms_writebyte has timed out before and returned -1, or one of the two sides has
  -- a next step that is no timeout: the two never wait for each other.
  pub stream_progress :
      {s : Stream}
      → All IsByte bytes
      → StreamReach w bytes s
      → ((t : Stream) → StreamStep w s t → work t < work s)
        × (IsDelivered bytes s ⊎ (s.config.writer ≡ failed) ⊎ Moved w s)
  stream_progress {s} small reach =
      let inv = StreamReach-Inv wired bytes small reach in
      (λ t st. StreamStep-work st, goes_on s inv inv.place)
