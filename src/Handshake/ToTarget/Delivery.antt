-- ===== src/Handshake/ToTarget/Delivery.antt =====
-- The bytes of the calls of write_byte reach the buffer of lptcomms_readbytes, each once and in order.
use lptstore.Prelude.{
  ℕ, suc, ◌+◌, ◌≡◌, ◌<◌, ◌⊎◌, refl, sym, subst, ap, ◌∙◌, inl, inr, false, List, [], ◌∷◌, ◌++◌, All,
  length, length-append, arith,
}
use lptstore.Compress.{IsByte}
use lptstore.Handshake.{Board, IsWired}
use lptstore.Handshake.ToTarget.{wait_end, finished, wait_flag, got}
use lptstore.Handshake.ToTarget.Safety.{Phase, got-Phase, finished-Phase}
use lptstore.Handshake.ToTarget.Stream.{
  Stream, StreamStep, access, next_send, next_receive, IsOpening, StreamReach, opening, further,
}
use lptstore.Handshake.ToTarget.Place.{
  Gone, Place, broken, same, behind, ahead, access-Place, next_send-Place, next_receive-Place,
}

-- Every byte is read, the signals are low, and the host has only its last wait before it, or is done.
abbrev pub IsDelivered : List ℕ → Stream → Type 0
IsDelivered bytes s =
    (s.left ≡ [])
    × (s.taken ++ (s.config.d ∷ []) ≡ bytes)
    × (s.config.pins.pin19 ≡ false)
    × (s.config.port < 16)
    × ((s.config.sender ≡ wait_end) ⊎ (s.config.sender ≡ finished))

module _ {w : Board} (wired : IsWired w) (bytes : List ℕ) where
  -- What holds of the two loops: where they stand, how many bytes are left, and that they are bytes.
  pub record Inv (s : Stream) : Type 0 where
    pub place : Place bytes s
    pub count : length s.taken + suc s.after ≡ length bytes
    pub small : All IsByte (s.byte ∷ s.left)

  StreamStep-Inv : {s t : Stream} → Inv s → StreamStep w s t → Inv t
  StreamStep-Inv {s} inv (access c st) = record {
    place = access-Place wired bytes s c inv.small.0 inv.place st;
    count = inv.count;
    small = inv.small;
  }
  StreamStep-Inv {s} inv (next_send b rest over more) = record {
    place = next_send-Place wired bytes s b rest inv.small.0 over more inv.place;
    count = inv.count;
    small = subst (All IsByte) more inv.small.1;
  }
  StreamStep-Inv {s} inv (next_receive n over one) = record {
    place = next_receive-Place wired bytes s n inv.small.0 over inv.place;
    count = omega (arith, inv.count, one, length-append s.taken (s.config.d ∷ []));
    small = inv.small;
  }

  opening-Place : {s : Stream} → IsOpening bytes s → Place bytes s
  opening-Place {s} is =
      let at = is.config_lem in
      same (λ gone. subst Gone at.receiver_lem gone)
        (rw (at.sender_lem, at.receiver_lem) (at.pin_lem, at.port_lem))
        (is.bytes_lem ∙ ap (λ l. l ++ (s.byte ∷ s.left)) (sym is.taken_lem))

  pub StreamReach-Inv : {s : Stream} → All IsByte bytes → StreamReach w bytes s → Inv s
  StreamReach-Inv small (opening s is) = record {
    place = opening-Place is;
    count = omega (arith, ap length is.taken_lem, is.after_lem);
    small = subst (All IsByte) is.bytes_lem small;
  }
  StreamReach-Inv small (further r st) = StreamStep-Inv (StreamReach-Inv small r) st

  none_left :
      (taken left : List ℕ) (b after : ℕ)
      → bytes ≡ taken ++ (b ∷ left)
      → length taken + suc after ≡ length bytes
      → after ≡ 0
      → left ≡ []
  none_left taken [] b after all count e = refl
  none_left taken (c ∷ left) b after all count e =
      absurd (omega (arith, ap length all, length-append taken (b ∷ c ∷ left), count, e))

  pub read_all :
      {s : Stream}
      → Inv s
      → Place bytes s
      → s.config.receiver ≡ got
      → s.after ≡ 0
      → IsDelivered bytes s
  read_all inv (broken rest gone all) over last = absurd (subst Gone over gone)
  read_all {s} inv (same live phase all) over last =
      let c = s.config in
      let (read, pin, small, at) =
        got-Phase wired s.byte inv.small.0 c.sender c.pins c.port c.d
          (subst (λ r. Phase c.sender r s.byte c.pins c.port c.d) over phase) in
      let no_more = none_left s.taken s.left s.byte s.after all inv.count last in
      let whole : s.taken ++ (c.d ∷ []) ≡ bytes =
        ap (λ n. s.taken ++ (n ∷ [])) read
        ∙ ap (λ l. s.taken ++ (s.byte ∷ l)) (sym no_more)
        ∙ sym all in
      (no_more, whole, pin, small, at)
  read_all {s} inv (behind at phase all) over last = absurd (
      omega (
        arith,
        inv.count,
        last,
        ap length all,
        length-append s.taken (s.config.d ∷ s.byte ∷ s.left),
      ))
  read_all {s} inv (ahead at phase all) over last =
      let clash : got ≡ wait_flag = sym over ∙ at in absurd (ground arith)

  -- With the cable wired as the code takes it to be, where lptcomms_readbytes is given the number of
  -- bytes that the host writes, and however the accesses of the two loops interleave from idle lines
  -- on: once the last lptcomms_readbyte has returned a byte, the buffer holds what write_byte was
  -- called with, in order, the signals are low, and no write_byte is left but the last wait of this one.
  pub stream_read :
      {s : Stream}
      → All IsByte bytes
      → StreamReach w bytes s
      → s.config.receiver ≡ got
      → s.after ≡ 0
      → IsDelivered bytes s
  stream_read small reach over last =
      let inv = StreamReach-Inv small reach in read_all inv inv.place over last

  pub sent_all :
      {s : Stream}
      → Inv s
      → Place bytes s
      → s.config.sender ≡ finished
      → s.left ≡ []
      → (Gone s.config.receiver) ⊎ ((s.config.receiver ≡ got) × (s.after ≡ 0))
  sent_all inv (broken rest gone all) over last = inl gone
  sent_all {s} inv (same live phase all) over last =
      let c = s.config in
      elim (finished-Phase wired s.byte inv.small.0 c.receiver c.pins c.port c.d
        (subst (λ x. Phase x c.receiver s.byte c.pins c.port c.d) over phase)) [
          | inl gone ↦ inl (subst Gone (sym gone) tt)
          | inr (inl gone) ↦ inl (subst Gone (sym gone) tt)
          | inr (inr (at, _)) ↦ inr (
            at,
            omega (
              arith,
              inv.count,
              ap length all,
              length-append s.taken (s.byte ∷ s.left),
              ap length last,
            ),
          )
        ]
  sent_all {s} inv (behind at phase all) over last =
      let c = s.config in
      absurd (subst (λ x. Phase x wait_flag s.byte c.pins c.port c.d) over phase)
  sent_all {s} inv (ahead at phase all) over last =
      absurd (omega (arith, inv.count, ap length all, length-append s.taken s.left, ap length last))
