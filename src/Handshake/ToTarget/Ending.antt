-- ===== src/Handshake/ToTarget/Ending.antt =====
-- The loops of the calls of write_byte and of lptcomms_readbytes come to an end.
use lptstore.Prelude.{
  ℕ, zero, suc, ◌+◌, ◌*◌, ◌≡◌, ◌<◌, ◌⊎◌, refl, sym, subst, ap, inl, inr, false, List, [], ◌∷◌,
  Option, none, some, All, Bool-cases, length, length-append, arith,
}
use lptstore.Compress.{IsByte}
use lptstore.Handshake.{IsFront, Board, Pins, IsWired, bit, readlpt}
use lptstore.Handshake.ToTarget.{
  Sender, out_high, wait_ack, out_low, wait_end, finished, Receiver, wait_flag, take_high, raise,
  wait_clear, take_low, lower, got, giving_up, failed, send_step, receive_step, receive_timeout,
  Config, Step, host, target, expire,
}
use lptstore.Handshake.ToTarget.Safety.{got-Phase}
use lptstore.Handshake.ToTarget.Progress.{Moves, moves}
use lptstore.Handshake.ToTarget.Stream.{
  Stream, StreamStep, access, next_send, next_receive, StreamReach,
}
use lptstore.Handshake.ToTarget.Place.{Gone, Place, broken, same, behind, ahead, Place-IsFront}
use lptstore.Handshake.ToTarget.Delivery.{IsDelivered, Inv, StreamReach-Inv, read_all, sent_all}

-- More than the accesses that a call still makes.
abbrev pub to_send : Sender → ℕ
to_send out_high = 4
to_send wait_ack = 3
to_send out_low = 2
to_send wait_end = 1
to_send finished = 0

abbrev pub to_take : Receiver → ℕ
to_take wait_flag = 7
to_take take_high = 6
to_take raise = 5
to_take wait_clear = 4
to_take take_low = 3
to_take lower = 2
to_take got = 0
to_take giving_up = 1
to_take failed = 0

-- The steps that the two loops have left, at most.
abbrev pub work : Stream → ℕ
work s = to_send s.config.sender + 5 * length s.left + (to_take s.config.receiver + 8 * s.after)

pub send_step-falls :
    (w : Board) (b : ℕ) (x next : Sender) (p : Pins) (port port' : ℕ)
    → send_step w b x p port ≡ some (next, port')
    → to_send next < to_send x
unfolding send_step
send_step-falls w b out_high next p port port' e = ground arith
send_step-falls w b _ next p port port' e = ground arith

pub receive_step-falls :
    (w : Board) (r next : Receiver) (p p' : Pins) (port d d' : ℕ)
    → receive_step w r p port d ≡ some (next, p', d')
    → to_take next < to_take r
unfolding receive_step
receive_step-falls w wait_flag next p p' port d d' e = ground arith
receive_step-falls w _ next p p' port d d' e = ground arith

pub receive_timeout-falls :
    (w : Board) (r next : Receiver) (p p' : Pins) (port : ℕ)
    → receive_timeout w r p port ≡ some (next, p')
    → to_take next < to_take r
unfolding receive_timeout
receive_timeout-falls w wait_flag next p p' port e = ground arith
receive_timeout-falls w _ next p p' port e = ground arith

StreamStep-work : {w : Board} {s t : Stream} → StreamStep w s t → work t < work s
StreamStep-work {w} {s} (access _ (host next port e)) =
    let c = s.config in omega (arith, send_step-falls w s.byte c.sender next c.pins c.port port e)
StreamStep-work {w} {s} (access _ (target next p d e)) =
    let c = s.config in omega (arith, receive_step-falls w c.receiver next c.pins p c.port c.d d e)
StreamStep-work {w} {s} (access _ (expire next p e)) =
    let c = s.config in omega (arith, receive_timeout-falls w c.receiver next c.pins p c.port e)
StreamStep-work (next_send b rest over more) = omega (arith, ap to_send over, ap length more)
StreamStep-work (next_receive n over one) = omega (arith, ap to_take over, one)

-- A step that is no timeout: lptcomms_readbyte has not given up behind it, if not before.
abbrev pub Moved : Board → Stream → Type 0
Moved w s = (t : Stream) × StreamStep w s t × (Gone t.config.receiver → Gone s.config.receiver)

-- Everything is read, lptcomms_readbyte has returned -1, or the next step is no timeout.
abbrev GoesOn : Board → List ℕ → Stream → Type 0
GoesOn w bytes s =
    ((s.config.receiver ≡ got) × (s.after ≡ 0) × IsDelivered bytes s)
    ⊎ (s.config.receiver ≡ failed)
    ⊎ Moved w s

abbrev Live : Option (Receiver × Pins × ℕ) → Type 0
Live none = Unit
Live (some (r, p, d)) = Gone r → ⊥

-- No access but a timeout ends in giving up.
receive_step-Live :
    (w : Board) (r : Receiver) (p : Pins) (port d : ℕ)
    → (Gone r → ⊥)
    → Live (receive_step w r p port d)
unfolding receive_step
receive_step-Live w wait_flag p port d live = elim (Bool-cases (bit (readlpt w port) 4)) [
  | inl e ↦ rw e (λ h. h)
  | inr e ↦ rw e tt
]
receive_step-Live w wait_clear p port d live = elim (Bool-cases (bit (readlpt w port) 4)) [
  | inl e ↦ rw e tt
  | inr e ↦ rw e (λ h. h)
]
receive_step-Live w giving_up p port d live = absurd (live tt)
receive_step-Live w failed p port d live = absurd (live tt)
receive_step-Live w got p port d live = tt
receive_step-Live w _ p port d live = λ h. h

module _ {w : Board} (wired : IsWired w) (bytes : List ℕ) where
  broken-goes : (s : Stream) (r : Receiver) → s.config.receiver ≡ r → Gone r → GoesOn w bytes s
  unfolding receive_step
  broken-goes s giving_up e gone =
      let c = s.config in
      inr (
        inr (
          _,
          access _ (target failed (record (c.pins) { pin19 = false }) c.d (rw e)),
          λ _. subst Gone (sym e) tt,
        ))
  broken-goes s failed e gone = inr (inl e)
  broken-goes s _ e gone = absurd gone

  at_end : (s : Stream) → Inv wired bytes s → s.config.sender ≡ finished → GoesOn w bytes s
  at_end s inv over = next s.left refl
    where
      next : (l : List ℕ) → s.left ≡ l → GoesOn w bytes s
      next (b ∷ rest) e = inr (inr (_, next_send b rest over e, λ gone. gone))
      next [] e = elim (sent_all wired bytes inv inv.place over e) [
        | inl gone ↦ broken-goes s s.config.receiver refl gone
        | inr (at, last) ↦ inl (at, last, read_all wired bytes inv inv.place at last)
      ]

  last_wait : (s : Stream) → s.config.sender ≡ wait_end → s.config.pins.pin19 ≡ false → Moved w s
  unfolding send_step
  last_wait s at pin =
      let c = s.config in
      (_, access _ (host finished c.port (rw (at, wired.status_signal c.pins, pin))), λ gone. gone)

  more_reads : (s : Stream) (n : ℕ) → s.config.receiver ≡ got → n ≡ s.after → 0 < n → Moved w s
  more_reads s zero at e some_left = absurd (omega (arith, some_left))
  more_reads s (suc n) at e some_left = (_, next_receive n at (sym e), λ gone. absurd gone)

  -- An access of either side does not make lptcomms_readbyte give up.
  as_quiet :
      (s : Stream)
      → (Gone s.config.receiver → ⊥)
      → Moves w s.byte s.config
      → (t : Config) × Step w s.byte s.config t × (Gone t.receiver → Gone s.config.receiver)
  as_quiet s live (inl (next, port, e, _)) = (_, host next port e, λ gone. gone)
  as_quiet s live (inr (next, p, d, e, _)) =
      let c = s.config in
      (
        _,
        target next p d e,
        λ gone. absurd (subst Live e (receive_step-Live w c.receiver c.pins c.port c.d live) gone),
      )

  goes_on : (s : Stream) → Inv wired bytes s → Place bytes s → GoesOn w bytes s
  goes_on s inv (broken rest gone all) = broken-goes s s.config.receiver refl gone
  goes_on s inv (same live phase all) =
      let c = s.config in
      elim (moves wired s.byte inv.small.0 c.sender c.receiver c.pins c.port c.d phase) [
        | inl over ↦ at_end s inv over
        | inr (inl gone) ↦ inr (inl gone)
        | inr (inr move) ↦
            let (t, st, quiet) = as_quiet s live move in inr (inr (_, access t st, quiet))
      ]
  goes_on s inv (behind at phase all) =
      let some_left : 0 < s.after =
        omega
          (arith, inv.count, ap length all, length-append s.taken (s.config.d ∷ s.byte ∷ s.left)) in
      inr (inr (more_reads s s.after at refl some_left))
  goes_on s inv (ahead at phase all) =
      let c = s.config in
      let (_, pin, _, place) =
        got-Phase wired s.byte inv.small.0 c.sender c.pins c.port c.d phase in
      elim place [ inl waits ↦ inr (inr (last_wait s waits pin)) | inr over ↦ at_end s inv over ]

  -- With the cable wired as the code takes it to be, and where lptcomms_readbytes is given the number
  -- of bytes that the host writes: at every moment, timeouts included, what it has put into the buffer
  -- is a front of these bytes. Every step of the two loops lowers `work`; so every run from idle lines
  -- on comes to an end. And at every moment all bytes are in the buffer in order and the signals are
  -- low, or lptcomms_readbyte has timed out before and returned -1, or one of the two sides has a next
  -- step that is no timeout: the two never wait for each other.
  pub stream_ends :
      {s : Stream}
      → All IsByte bytes
      → StreamReach w bytes s
      → IsFront bytes s.taken
        × ((t : Stream) → StreamStep w s t → work t < work s)
        × (((s.config.receiver ≡ got) × (s.after ≡ 0) × IsDelivered bytes s)
            ⊎ (s.config.receiver ≡ failed)
            ⊎ Moved w s)
  stream_ends {s} small reach =
      let inv = StreamReach-Inv wired bytes small reach in
      (Place-IsFront bytes s inv.place, λ t st. StreamStep-work st, goes_on s inv inv.place)
