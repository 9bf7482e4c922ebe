-- ===== src/Handshake/ToTarget/Place.antt =====
-- How the calls of write_byte and of lptcomms_readbyte stand to each other, over many bytes.
use mathlib.Core.List.{append_assoc}
use lptstore.Prelude.{
  ℕ, ◌%◌, ◌/◌, ◌^◌, ◌≡◌, ◌<◌, refl, sym, subst, ap, ◌∙◌, false, List, [], ◌∷◌, ◌++◌, some, arith,
  ◌==◌,
}
use lptstore.Handshake.{IsFront, Board, Pins, bit, readlpt, IsWired}
use lptstore.Handshake.ToTarget.{
  out_high, finished, Receiver, wait_flag, wait_clear, got, giving_up, failed, receive_step,
  receive_timeout, Config, Step, target, host, expire,
}
use lptstore.Handshake.ToTarget.Safety.{Phase, Step-Inv, got-Phase, idle_down}
use lptstore.Handshake.ToTarget.Stream.{Stream}

-- lptcomms_readbyte has timed out, or not.
abbrev pub Gone : Receiver → Type 0
Gone giving_up = Unit
Gone failed = Unit
Gone _ = ⊥

pub gone_or : (r : Receiver) (P : Type 0) → (Gone r → P) → ((Gone r → ⊥) → P) → P
gone_or giving_up P yes_gone not_gone = yes_gone tt
gone_or failed P yes_gone not_gone = yes_gone tt
gone_or wait_flag P yes_gone not_gone = not_gone (λ h. h)
gone_or _ P yes_gone not_gone = not_gone (λ h. h)

-- How the calls of the two sides stand to each other: lptcomms_readbyte has timed out; both are at the
-- same byte; lptcomms_readbyte has not yet been called for the byte that is written; or it has been
-- called for the next one.
pub data Place (bytes : List ℕ) (s : Stream) : Type 0 where
  broken : (rest : List ℕ) → Gone s.config.receiver → bytes ≡ s.taken ++ rest → Place bytes s
  same :
      (Gone s.config.receiver → ⊥)
      → Phase s.config.sender s.config.receiver s.byte s.config.pins s.config.port s.config.d
      → bytes ≡ s.taken ++ (s.byte ∷ s.left)
      → Place bytes s
  behind :
      s.config.receiver ≡ got
      → Phase s.config.sender wait_flag s.byte s.config.pins s.config.port s.config.d
      → bytes ≡ s.taken ++ (s.config.d ∷ s.byte ∷ s.left)
      → Place bytes s
  ahead :
      s.config.receiver ≡ wait_flag
      → Phase s.config.sender got s.byte s.config.pins s.config.port s.config.d
      → bytes ≡ s.taken ++ s.left
      → Place bytes s

receive_step-Gone :
    (w : Board) (r next : Receiver) (p p' : Pins) (port d d' : ℕ)
    → Gone r
    → receive_step w r p port d ≡ some (next, p', d')
    → Gone next
unfolding receive_step
receive_step-Gone w giving_up next p p' port d d' gone e =
    let eq : failed ≡ next = ground arith in subst Gone eq tt
receive_step-Gone w failed next p p' port d d' gone e = absurd (ground arith)
receive_step-Gone w _ next p p' port d d' gone e = absurd gone

receive_timeout-Gone :
    (w : Board) (r next : Receiver) (p p' : Pins) (port : ℕ)
    → receive_timeout w r p port ≡ some (next, p')
    → Gone next
unfolding receive_timeout
receive_timeout-Gone w wait_flag next p p' port e =
    let eq : giving_up ≡ next = ground arith in subst Gone eq tt
receive_timeout-Gone w wait_clear next p p' port e =
    let eq : failed ≡ next = ground arith in subst Gone eq tt
receive_timeout-Gone w _ next p p' port e = absurd (ground arith)

Step-Gone : (w : Board) (b : ℕ) {c t : Config} → Gone c.receiver → Step w b c t → Gone t.receiver
Step-Gone w b gone (host next port e) = gone
Step-Gone w b {c} gone (target next p d e) =
    receive_step-Gone w c.receiver next c.pins p c.port c.d d gone e
Step-Gone w b {c} gone (expire next p e) = receive_timeout-Gone w c.receiver next c.pins p c.port e

-- A call of lptcomms_readbyte that has returned makes no access, and does not time out.
got-rests :
    (w : Board) (r next : Receiver) (p p' : Pins) (port d d' : ℕ)
    → r ≡ got
    → receive_step w r p port d ≡ some (next, p', d')
    → ⊥
unfolding receive_step
got-rests w r next p p' port d d' at e =
    let over : receive_step w got p port d ≡ some (next, p', d') =
      subst (λ r. receive_step w r p port d ≡ some (next, p', d')) at e in
    absurd (ground arith)

got-lasts :
    (w : Board) (r next : Receiver) (p p' : Pins) (port : ℕ)
    → r ≡ got
    → receive_timeout w r p port ≡ some (next, p')
    → ⊥
unfolding receive_timeout
got-lasts w r next p p' port at e =
    let over : receive_timeout w got p port ≡ some (next, p') =
      subst (λ r. receive_timeout w r p port ≡ some (next, p')) at e in
    absurd (ground arith)

waits-low :
    (w : Board) (r next : Receiver) (p p' : Pins) (port d d' : ℕ)
    → r ≡ wait_flag
    → bit (readlpt w port) 4 ≡ false
    → receive_step w r p port d ≡ some (next, p', d')
    → ⊥
unfolding receive_step
waits-low w r next p p' port d d' at low e =
    let over : receive_step w wait_flag p port d ≡ some (next, p', d') =
      subst (λ r. receive_step w r p port d ≡ some (next, p', d')) at e in
    absurd (ground (arith, low))

low_flag : (port : ℕ) → port < 16 → bit port 4 ≡ false
low_flag port small =
    let zero : port / 2 ^ 4 % 2 ≡ 0 = omega (arith, small) in ap (λ (n : ℕ). n == 1) zero

module _ {w : Board} (wired : IsWired w) (bytes : List ℕ) where
  pub access-Place :
      (s : Stream) (t : Config)
      → s.byte < 256
      → Place bytes s
      → Step w s.byte s.config t
      → Place bytes (record s { config = t })
  access-Place s t byte (broken rest gone all) st = broken rest (Step-Gone w s.byte gone st) all
  access-Place s t byte (same live phase all) st =
      let phase' = Step-Inv wired s.byte byte phase st in
      gone_or t.receiver _ (λ gone. broken (s.byte ∷ s.left) gone all)
        (λ live'. same live' phase' all)
  access-Place s _ byte (behind at phase all) (host next port e) =
      let c = record (s.config) { receiver = wait_flag } in
      let st : Step w s.byte c (record c { sender = next; port = port }) = host next port e in
      behind at (Step-Inv wired s.byte byte phase st) all
  access-Place s _ byte (behind at phase all) (target next p d e) =
      let c = s.config in absurd (got-rests w c.receiver next c.pins p c.port c.d d at e)
  access-Place s _ byte (behind at phase all) (expire next p e) =
      let c = s.config in absurd (got-lasts w c.receiver next c.pins p c.port at e)
  access-Place s _ byte (ahead at phase all) (host next port e) =
      let c = record (s.config) { receiver = got } in
      let st : Step w s.byte c (record c { sender = next; port = port }) = host next port e in
      ahead at (Step-Inv wired s.byte byte phase st) all
  access-Place s _ byte (ahead at phase all) (target next p d e) =
      let c = s.config in
      let low = got-Phase wired s.byte byte c.sender c.pins c.port c.d phase in
      absurd (
        waits-low w c.receiver next c.pins p c.port c.d d at
          (idle_down wired s.byte byte c.port (low_flag c.port low.2)) e)
  access-Place s _ byte (ahead at phase all) (expire next p e) =
      let c = s.config in
      broken s.left (receive_timeout-Gone w c.receiver next c.pins p c.port e) all

  -- write_byte is over, and lptcomms_readbyte did not time out: so it has the byte.
  over-Phase :
      (b : ℕ) (byte : b < 256) (r : Receiver) (p : Pins) (port d : ℕ)
      → (Gone r → ⊥)
      → Phase finished r b p port d
      → (r ≡ got) × (d ≡ b) × (p.pin19 ≡ false) × (bit port 4 ≡ false)
  over-Phase b byte giving_up p port d live h = absurd (live tt)
  over-Phase b byte failed p port d live h = absurd (live tt)
  over-Phase b byte got p port d live h =
      let (same_byte, pin, small, _) = got-Phase wired b byte finished p port d h in
      (refl, same_byte, pin, low_flag port small)
  over-Phase b byte _ p port d live h = absurd h

  pub next_send-Place :
      (s : Stream) (b : ℕ) (rest : List ℕ)
      → s.byte < 256
      → s.config.sender ≡ finished
      → s.left ≡ b ∷ rest
      → Place bytes s
      → Place bytes
          (record s { config = record (s.config) { sender = out_high }; byte = b; left = rest })
  next_send-Place s b rest byte over more (broken back gone all) = broken back gone all
  next_send-Place s b rest byte over more (same live phase all) =
      let c = s.config in
      let (at, read, pin, flag) =
        over-Phase s.byte byte c.receiver c.pins c.port c.d live
          (subst (λ x. Phase x c.receiver s.byte c.pins c.port c.d) over phase) in
      behind at (pin, flag)
        (all ∙ ap (λ n. s.taken ++ (n ∷ s.left)) (sym read) ∙ ap (λ l. s.taken ++ (c.d ∷ l)) more)
  next_send-Place s b rest byte over more (behind at phase all) =
      let c = s.config in
      absurd (subst (λ x. Phase x wait_flag s.byte c.pins c.port c.d) over phase)
  next_send-Place s b rest byte over more (ahead at phase all) =
      let c = s.config in
      let (_, read, pin, flag) =
        over-Phase s.byte byte got c.pins c.port c.d (λ h. h)
          (subst (λ x. Phase x got s.byte c.pins c.port c.d) over phase) in
      same (λ gone. subst Gone at gone)
        (subst (λ r. Phase out_high r b c.pins c.port c.d) (sym at) (pin, flag))
        (all ∙ ap (λ l. s.taken ++ l) more)

  pub next_receive-Place :
      (s : Stream) (n : ℕ)
      → s.byte < 256
      → s.config.receiver ≡ got
      → Place bytes s
      → Place bytes (record s {
        config = record (s.config) { receiver = wait_flag };
        taken = s.taken ++ (s.config.d ∷ []);
        after = n;
      })
  next_receive-Place s n byte over (broken rest gone all) = absurd (subst Gone over gone)
  next_receive-Place s n byte over (same live phase all) =
      let c = s.config in
      let phase' = subst (λ r. Phase c.sender r s.byte c.pins c.port c.d) over phase in
      let read = (got-Phase wired s.byte byte c.sender c.pins c.port c.d phase').0 in
      ahead refl phase' (
        all
        ∙ ap (λ n. s.taken ++ (n ∷ s.left)) (sym read)
        ∙ sym (append_assoc s.taken (c.d ∷ []) s.left))
  next_receive-Place s n byte over (behind at phase all) =
      same (λ h. h) phase (all ∙ sym (append_assoc s.taken (s.config.d ∷ []) (s.byte ∷ s.left)))
  next_receive-Place s n byte over (ahead at phase all) =
      let clash : got ≡ wait_flag = sym over ∙ at in absurd (ground arith)

-- What lptcomms_readbytes has put into the buffer is a front of the bytes.
pub Place-IsFront : (bytes : List ℕ) (s : Stream) → Place bytes s → IsFront bytes s.taken
Place-IsFront bytes s (broken rest gone all) = (rest, all)
Place-IsFront bytes s (same live phase all) = (s.byte ∷ s.left, all)
Place-IsFront bytes s (behind at phase all) = (s.config.d ∷ s.byte ∷ s.left, all)
Place-IsFront bytes s (ahead at phase all) = (s.left, all)
