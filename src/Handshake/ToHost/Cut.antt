-- ===== src/Handshake/ToHost/Cut.antt =====
-- What the host has read where lptcomms_writebytes breaks off.
use mathlib.Core.List.{append_assoc}
use lptstore.Prelude.{
  ℕ, ◌≡◌, ◌⊎◌, refl, sym, subst, ◌∙◌, inl, inr, true, false, List, [], ◌∷◌, ◌++◌, Option, none,
  some, arith, Bool-cases,
}
use lptstore.Handshake.{Board, Pins, bit, readlpt, IsWired}
use lptstore.Handshake.ToHost.{
  Writer, wait_up, wait_down, giving_up, failed, Reader, wait_high, take_high, ack, wait_low,
  take_low, release, received, sent, write_step, write_timeout, read_step, Config, Step, target,
  host, expire,
}
use lptstore.Handshake.ToHost.Safety.{Phase}
use lptstore.Handshake.ToHost.Stream.{Stream}
use lptstore.Handshake.ToHost.Place.{
  Gone, Place, broken, same, behind, ahead, waits-low, received-rests,
}

-- read_byte has not yet seen the signal go low.
abbrev pub Early : Reader → Type 0
Early wait_high = Unit
Early take_high = Unit
Early ack = Unit
Early wait_low = Unit
Early _ = ⊥

-- Once lptcomms_writebyte has timed out: read_byte has a byte that was sent before; it may be at the
-- byte that was cut; or it has returned for that byte, and waits.
pub data Left (bytes : List ℕ) (s : Stream) : Type 0 where
  late :
      (rest : List ℕ)
      → s.config.reader ≡ received
      → bytes ≡ s.taken ++ (s.config.ah ∷ rest)
      → Left bytes s
  during :
      (rest : List ℕ)
      → (s.config.pins.pin19 ≡ false) ⊎ Early s.config.reader
      → bytes ≡ s.taken ++ rest
      → Left bytes s
  over :
      (front rest : List ℕ) (x : ℕ)
      → s.config.reader ≡ wait_high
      → s.config.pins.pin19 ≡ false
      → s.taken ≡ front ++ (x ∷ [])
      → bytes ≡ front ++ rest
      → Left bytes s

-- A timeout leaves the pins as they are.
timeout_while :
    (w : Board) (b : ℕ) (wr next : Writer) (r : Reader) (p p' : Pins) (port ah : ℕ)
    → Phase wr r b p port ah
    → write_timeout w wr p port ≡ some (next, p')
    → (p ≡ p') × ((p.pin19 ≡ false) ⊎ Early r)
unfolding write_timeout
timeout_while w b wait_up next wait_high p p' port ah phase e = (ground arith, inr tt)
timeout_while w b wait_up next take_high p p' port ah phase e = (ground arith, inr tt)
timeout_while w b wait_up next ack p p' port ah phase e = (ground arith, inr tt)
timeout_while w b wait_up next wait_low p p' port ah phase e = (ground arith, inr tt)
timeout_while w b wait_up next _ p p' port ah phase e = absurd phase
timeout_while w b wait_down next wait_low p p' port ah phase e = (ground arith, inl phase.0.0)
timeout_while w b wait_down next take_low p p' port ah phase e = (ground arith, inl phase.0.0)
timeout_while w b wait_down next release p p' port ah phase e = (ground arith, inl phase.0.0)
timeout_while w b wait_down next received p p' port ah phase e = (ground arith, inl phase.0.0)
timeout_while w b wait_down next _ p p' port ah phase e = absurd phase
timeout_while w b _ next r p p' port ah phase e = absurd (ground arith)

abbrev pub Live : Option (Writer × Pins) → Type 0
Live none = Unit
Live (some (wr, p)) = Gone wr → ⊥

-- No access but a timeout ends in giving up.
pub write_step-Live :
    (w : Board) (b : ℕ) (wr : Writer) (p : Pins) (port : ℕ)
    → (Gone wr → ⊥)
    → Live (write_step w b wr p port)
unfolding write_step
write_step-Live w b wait_up p port live = elim (Bool-cases (bit (readlpt w port) 4)) [
  | inl e ↦ rw e (λ h. h)
  | inr e ↦ rw e tt
]
write_step-Live w b wait_down p port live = elim (Bool-cases (bit (readlpt w port) 4)) [
  | inl e ↦ rw e tt
  | inr e ↦ rw e (λ h. h)
]
write_step-Live w b giving_up p port live = absurd (live tt)
write_step-Live w b failed p port live = absurd (live tt)
write_step-Live w b sent p port live = tt
write_step-Live w b _ p port live = λ h. h

-- And after it pin 19 is lowered at most, and no wait is left.
write_step-lowers :
    (w : Board) (b : ℕ) (wr next : Writer) (p p' : Pins) (port : ℕ)
    → Gone wr
    → write_step w b wr p port ≡ some (next, p')
    → p'.pin19 ≡ false
unfolding write_step
write_step-lowers w b giving_up next p p' port gone e = ground arith
write_step-lowers w b failed next p p' port gone e = absurd (ground arith)
write_step-lowers w b _ next p p' port gone e = absurd gone

write_timeout-over :
    (w : Board) (wr next : Writer) (p p' : Pins) (port : ℕ)
    → Gone wr
    → write_timeout w wr p port ≡ some (next, p')
    → ⊥
unfolding write_timeout
write_timeout-over w giving_up next p p' port gone e = absurd (ground arith)
write_timeout-over w failed next p p' port gone e = absurd (ground arith)
write_timeout-over w _ next p p' port gone e = gone

abbrev StaysEarly : Option (Reader × ℕ × ℕ) → Type 0
StaysEarly none = Unit
StaysEarly (some (r, port, ah)) = Early r

module _ {w : Board} (wired : IsWired w) where
  read_step-early :
      (r : Reader) (p : Pins) (port ah : ℕ)
      → p.pin19 ≡ true
      → Early r
      → StaysEarly (read_step w r p port ah)
  unfolding read_step
  read_step-early wait_high p port ah pin early = rw (wired.status_signal p ∙ pin) tt
  read_step-early take_high p port ah pin early = tt
  read_step-early ack p port ah pin early = tt
  read_step-early wait_low p port ah pin early = rw (wired.status_signal p ∙ pin) tt
  read_step-early _ p port ah pin early = absurd early

  read_step-while :
      (r next : Reader) (p : Pins) (port port' ah ah' : ℕ)
      → (p.pin19 ≡ false) ⊎ Early r
      → read_step w r p port ah ≡ some (next, port', ah')
      → (p.pin19 ≡ false) ⊎ Early next
  read_step-while r next p port port' ah ah' (inl low) e = inl low
  read_step-while r next p port port' ah ah' (inr early) e = elim (Bool-cases p.pin19) [
    | inl high ↦ inr (subst StaysEarly e (read_step-early r p port ah high early))
    | inr low ↦ inl low
  ]

module _ {w : Board} (wired : IsWired w) (bytes : List ℕ) where
  pub access-Left :
      (s : Stream) (d : Config)
      → Gone s.config.writer
      → Left bytes s
      → Step w s.byte s.config d
      → Left bytes (record s { config = d })
  access-Left s _ gone (late rest at all) (target next p e) = late rest at all
  access-Left s _ gone (during rest while all) (target next p e) =
      let c = s.config in
      during rest (inl (write_step-lowers w s.byte c.writer next c.pins p c.port gone e)) all
  access-Left s _ gone (over front rest x at low more all) (target next p e) =
      let c = s.config in
      over front rest x at (write_step-lowers w s.byte c.writer next c.pins p c.port gone e) more
        all
  access-Left s _ gone (late rest at all) (host next port ah e) =
      let c = s.config in absurd (received-rests w c.reader next c.pins c.port port c.ah ah at e)
  access-Left s _ gone (during rest while all) (host next port ah e) =
      let c = s.config in
      during rest (read_step-while wired c.reader next c.pins c.port port c.ah ah while e) all
  access-Left s _ gone (over front rest x at low more all) (host next port ah e) =
      let c = s.config in absurd (waits-low wired c.reader next c.pins c.port port c.ah ah at low e)
  access-Left s _ gone left (expire next p e) =
      let c = s.config in absurd (write_timeout-over w c.writer next c.pins p c.port gone e)

  pub next_read-Left :
      (s : Stream) (n : ℕ)
      → s.config.reader ≡ received
      → Left bytes s
      → Left bytes (record s {
        config = record (s.config) { reader = wait_high };
        taken = s.taken ++ (s.config.ah ∷ []);
        after = n;
      })
  next_read-Left s n ends (late rest at all) =
      during rest (inr tt) (all ∙ sym (append_assoc s.taken (s.config.ah ∷ []) rest))
  next_read-Left s n ends (during rest (inl low) all) =
      over s.taken rest s.config.ah refl low refl all
  next_read-Left s n ends (during rest (inr early) all) = absurd (subst Early ends early)
  next_read-Left s n ends (over front rest x at low more all) =
      let clash : received ≡ wait_high = sym ends ∙ at in absurd (ground arith)

  -- The timeout of a call that had not timed out before.
  break-Left :
      (s : Stream) (next : Writer) (p : Pins)
      → (Gone s.config.writer → ⊥)
      → Place bytes s
      → write_timeout w s.config.writer s.config.pins s.config.port ≡ some (next, p)
      → Left bytes (record s { config = record (s.config) { writer = next; pins = p } })
  break-Left s next p live (broken gone) e = absurd (live gone)
  break-Left s next p live (same live' phase all) e =
      let c = s.config in
      let (kept, while) =
        timeout_while w s.byte c.writer next c.reader c.pins p c.port c.ah phase e in
      during (s.byte ∷ s.left) (subst (λ p. (p.pin19 ≡ false) ⊎ Early c.reader) kept while) all
  break-Left s next p live (behind live' at phase all) e = late (s.byte ∷ s.left) at all
  break-Left s next p live (ahead live' at phase all) e =
      during s.left (inr (subst Early (sym at) tt)) all

  pub Step-Left :
      (s : Stream) (d : Config)
      → (Gone s.config.writer → ⊥)
      → Place bytes s
      → Step w s.byte s.config d
      → Gone d.writer
      → Left bytes (record s { config = d })
  Step-Left s _ live place (target next p e) gone =
      let c = s.config in
      absurd (subst Live e (write_step-Live w s.byte c.writer c.pins c.port live) gone)
  Step-Left s _ live place (host next port ah e) gone = absurd (live gone)
  Step-Left s _ live place (expire next p e) gone = break-Left s next p live place e
