-- ===== src/Handshake/ToHost/Place.antt =====
-- How the calls of lptcomms_writebyte and of read_byte stand to each other, over many bytes.
use mathlib.Core.List.{append_assoc}
use lptstore.Prelude.{
  ℕ, ◌≡◌, ◌<◌, ◌⊎◌, refl, sym, subst, ap, ◌∙◌, inl, inr, false, List, [], ◌∷◌, ◌++◌, some, arith,
}
use lptstore.Handshake.{Board, Pins, bit, IsWired}
use lptstore.Handshake.ToHost.{
  Writer, high_16, wait_down, sent, giving_up, failed, Reader, wait_high, received, write_step,
  write_timeout, read_step, Config, Step, target, host, expire,
}
use lptstore.Handshake.ToHost.Safety.{Phase, Step-Inv, sent-Phase}
use lptstore.Handshake.ToHost.Stream.{Stream}

-- lptcomms_writebyte has timed out, or not.
abbrev pub Gone : Writer → Type 0
Gone giving_up = Unit
Gone failed = Unit
Gone _ = ⊥

pub gone_or : (wr : Writer) (P : Type 0) → (Gone wr → P) → ((Gone wr → ⊥) → P) → P
gone_or giving_up P yes_gone not_gone = yes_gone tt
gone_or failed P yes_gone not_gone = yes_gone tt
gone_or high_16 P yes_gone not_gone = not_gone (λ h. h)
gone_or _ P yes_gone not_gone = not_gone (λ h. h)

-- How the calls of the two sides stand to each other: lptcomms_writebyte has timed out; both are at the
-- same byte; read_byte has not yet been called for the byte that is written; or it has been called for
-- the next one.
pub data Place (bytes : List ℕ) (s : Stream) : Type 0 where
  broken : Gone s.config.writer → Place bytes s
  same :
      (Gone s.config.writer → ⊥)
      → Phase s.config.writer s.config.reader s.byte s.config.pins s.config.port s.config.ah
      → bytes ≡ s.taken ++ (s.byte ∷ s.left)
      → Place bytes s
  behind :
      (Gone s.config.writer → ⊥)
      → s.config.reader ≡ received
      → Phase s.config.writer wait_high s.byte s.config.pins s.config.port s.config.ah
      → bytes ≡ s.taken ++ (s.config.ah ∷ s.byte ∷ s.left)
      → Place bytes s
  ahead :
      (Gone s.config.writer → ⊥)
      → s.config.reader ≡ wait_high
      → Phase s.config.writer received s.byte s.config.pins s.config.port s.config.ah
      → bytes ≡ s.taken ++ s.left
      → Place bytes s

write_step-Gone :
    (w : Board) (b : ℕ) (wr next : Writer) (p p' : Pins) (port : ℕ)
    → Gone wr
    → write_step w b wr p port ≡ some (next, p')
    → Gone next
unfolding write_step
write_step-Gone w b giving_up next p p' port gone e =
    let eq : failed ≡ next = ground arith in subst Gone eq tt
write_step-Gone w b failed next p p' port gone e = absurd (ground arith)
write_step-Gone w b _ next p p' port gone e = absurd gone

write_timeout-Gone :
    (w : Board) (wr next : Writer) (p p' : Pins) (port : ℕ)
    → Gone wr
    → write_timeout w wr p port ≡ some (next, p')
    → Gone next
unfolding write_timeout
write_timeout-Gone w giving_up next p p' port gone e = absurd (ground arith)
write_timeout-Gone w failed next p p' port gone e = absurd (ground arith)
write_timeout-Gone w _ next p p' port gone e = absurd gone

pub Step-Gone : (w : Board) (b : ℕ) {c d : Config} → Gone c.writer → Step w b c d → Gone d.writer
Step-Gone w b {c} gone (target next p e) = write_step-Gone w b c.writer next c.pins p c.port gone e
Step-Gone w b gone (host next port ah e) = gone
Step-Gone w b {c} gone (expire next p e) = write_timeout-Gone w c.writer next c.pins p c.port gone e

-- A call of read_byte that has returned makes no access.
pub received-rests :
    (w : Board) (r next : Reader) (p : Pins) (port port' ah ah' : ℕ)
    → r ≡ received
    → read_step w r p port ah ≡ some (next, port', ah')
    → ⊥
unfolding read_step
received-rests w r next p port port' ah ah' at e =
    let over : read_step w received p port ah ≡ some (next, port', ah') =
      subst (λ r. read_step w r p port ah ≡ some (next, port', ah')) at e in
    absurd (ground arith)

-- Where the host is ahead, the signal of the target is low, and so read_byte waits.
pub over-Phase :
    (wr : Writer) (b : ℕ) (p : Pins) (port ah : ℕ)
    → (Gone wr → ⊥)
    → Phase wr received b p port ah
    → (p.pin19 ≡ false) × (bit port 4 ≡ false) × (ah ≡ b) × ((wr ≡ wait_down) ⊎ (wr ≡ sent))
over-Phase giving_up b p port ah live h = absurd (live tt)
over-Phase failed b p port ah live h = absurd (live tt)
over-Phase wait_down b p port ah live ((pin, flag, put), got) = (pin, flag, got, inl refl)
over-Phase sent b p port ah live ((pin, flag, put), got) = (pin, flag, got, inr refl)
over-Phase _ b p port ah live h = absurd h

pub waits-low :
    {w : Board} (wired : IsWired w) (r next : Reader) (p : Pins) (port port' ah ah' : ℕ)
    → r ≡ wait_high
    → p.pin19 ≡ false
    → read_step w r p port ah ≡ some (next, port', ah')
    → ⊥
unfolding read_step
waits-low {w} wired r next p port port' ah ah' at low e =
    let over : read_step w wait_high p port ah ≡ some (next, port', ah') =
      subst (λ r. read_step w r p port ah ≡ some (next, port', ah')) at e in
    let down : bit (w.status p) 7 ≡ false = wired.status_signal p ∙ low in
    absurd (ground (arith, down))

module _ {w : Board} (wired : IsWired w) (bytes : List ℕ) where
  pub access-Place :
      (s : Stream) (d : Config)
      → s.byte < 256
      → Place bytes s
      → Step w s.byte s.config d
      → Place bytes (record s { config = d })
  access-Place s d byte (broken gone) st = broken (Step-Gone w s.byte gone st)
  access-Place s d byte (same live phase all) st =
      let phase' = Step-Inv wired s.byte byte phase st in
      gone_or d.writer _ (λ gone. broken gone) (λ live'. same live' phase' all)
  access-Place s _ byte (behind live at phase all) (target next p e) =
      let c = record (s.config) { reader = wait_high } in
      let st : Step w s.byte c (record c { writer = next; pins = p }) = target next p e in
      let phase' = Step-Inv wired s.byte byte phase st in
      gone_or next _ (λ gone. broken gone) (λ live'. behind live' at phase' all)
  access-Place s _ byte (behind live at phase all) (host next port ah e) =
      absurd
        (received-rests w s.config.reader next s.config.pins s.config.port port s.config.ah ah at e)
  access-Place s _ byte (behind live at phase all) (expire next p e) =
      let c = record (s.config) { reader = wait_high } in
      let st : Step w s.byte c (record c { writer = next; pins = p }) = expire next p e in
      let phase' = Step-Inv wired s.byte byte phase st in
      gone_or next _ (λ gone. broken gone) (λ live'. behind live' at phase' all)
  access-Place s _ byte (ahead live at phase all) (target next p e) =
      let c = record (s.config) { reader = received } in
      let st : Step w s.byte c (record c { writer = next; pins = p }) = target next p e in
      let phase' = Step-Inv wired s.byte byte phase st in
      gone_or next _ (λ gone. broken gone) (λ live'. ahead live' at phase' all)
  access-Place s _ byte (ahead live at phase all) (host next port ah e) =
      let low =
        over-Phase s.config.writer s.byte s.config.pins s.config.port s.config.ah live phase in
      absurd (
        waits-low wired s.config.reader next s.config.pins s.config.port port s.config.ah ah at
          low.0 e)
  access-Place s _ byte (ahead live at phase all) (expire next p e) =
      let c = record (s.config) { reader = received } in
      let st : Step w s.byte c (record c { writer = next; pins = p }) = expire next p e in
      let phase' = Step-Inv wired s.byte byte phase st in
      gone_or next _ (λ gone. broken gone) (λ live'. ahead live' at phase' all)

  pub next_write-Place :
      (s : Stream) (b : ℕ) (rest : List ℕ)
      → s.config.writer ≡ sent
      → s.left ≡ b ∷ rest
      → Place bytes s
      → Place bytes
          (record s { config = record (s.config) { writer = high_16 }; byte = b; left = rest })
  next_write-Place s b rest over more (broken gone) = absurd (subst Gone over gone)
  next_write-Place s b rest over more (same live phase all) =
      let (at, got, pin, flag) =
        sent-Phase wired s.byte s.config.reader s.config.pins s.config.port s.config.ah (
          subst (λ wr. Phase wr s.config.reader s.byte s.config.pins s.config.port s.config.ah) over
            phase) in
      behind (λ h. h) at (pin, flag, tt)
        (all
          ∙ ap (λ n. s.taken ++ (n ∷ s.left)) (sym got)
          ∙ ap (λ l. s.taken ++ (s.config.ah ∷ l)) more)
  next_write-Place s b rest over more (behind live at phase all) =
      absurd
        (subst (λ wr. Phase wr wait_high s.byte s.config.pins s.config.port s.config.ah) over phase)
  next_write-Place s b rest over more (ahead live at phase all) =
      let (pin, flag, got, _) =
        over-Phase s.config.writer s.byte s.config.pins s.config.port s.config.ah live phase in
      same (λ h. h)
        (subst (λ r. Phase high_16 r b s.config.pins s.config.port s.config.ah) (sym at)
          (pin, flag, tt))
        (all ∙ ap (λ l. s.taken ++ l) more)

  pub next_read-Place :
      (s : Stream) (n : ℕ)
      → s.config.reader ≡ received
      → Place bytes s
      → Place bytes (record s {
        config = record (s.config) { reader = wait_high };
        taken = s.taken ++ (s.config.ah ∷ []);
        after = n;
      })
  next_read-Place s n over (broken gone) = broken gone
  next_read-Place s n over (same live phase all) =
      let phase' =
        subst (λ r. Phase s.config.writer r s.byte s.config.pins s.config.port s.config.ah) over
          phase in
      let (pin, flag, got, _) =
        over-Phase s.config.writer s.byte s.config.pins s.config.port s.config.ah live phase' in
      ahead live refl phase' (
        all
        ∙ ap (λ n. s.taken ++ (n ∷ s.left)) (sym got)
        ∙ sym (append_assoc s.taken (s.config.ah ∷ []) s.left))
  next_read-Place s n over (behind live at phase all) =
      same live phase (all ∙ sym (append_assoc s.taken (s.config.ah ∷ []) (s.byte ∷ s.left)))
  next_read-Place s n over (ahead live at phase all) =
      let clash : received ≡ wait_high = sym over ∙ at in absurd (ground arith)
