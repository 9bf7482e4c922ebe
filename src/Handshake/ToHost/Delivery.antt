-- ===== src/Handshake/ToHost/Delivery.antt =====
-- The bytes of lptcomms_writebytes reach the host, each once and in order.
use lptstore.Prelude.{
  ℕ, suc, ◌+◌, ◌≡◌, sym, subst, ap, ◌∙◌, false, List, [], ◌∷◌, ◌++◌, All, length, length-append,
  arith,
}
use lptstore.Compress.{IsByte}
use lptstore.Handshake.{Board, bit, IsWired}
use lptstore.Handshake.ToHost.{sent, received, wait_high}
use lptstore.Handshake.ToHost.Safety.{Phase, sent-Phase}
use lptstore.Handshake.ToHost.Stream.{
  Stream, StreamStep, access, next_write, next_read, IsOpening, StreamReach, opening, further,
}
use lptstore.Handshake.ToHost.Place.{
  Gone, Place, broken, same, behind, ahead, access-Place, next_write-Place, next_read-Place,
}

-- Every byte is read, and the lines are idle.
abbrev pub IsDelivered : List ℕ → Stream → Type 0
IsDelivered bytes s =
    (s.config.reader ≡ received)
    × (s.after ≡ 0)
    × (s.taken ++ (s.config.ah ∷ []) ≡ bytes)
    × (s.config.pins.pin19 ≡ false)
    × (bit s.config.port 4 ≡ false)

module _ {w : Board} (wired : IsWired w) (bytes : List ℕ) where
  -- What holds of the two loops: where they stand, how many bytes are left, and that they are bytes.
  pub record Inv (s : Stream) : Type 0 where
    pub place : Place bytes s
    pub count : length s.taken + suc s.after ≡ length bytes
    pub small : All IsByte (s.byte ∷ s.left)

  StreamStep-Inv : {s t : Stream} → Inv s → StreamStep w s t → Inv t
  StreamStep-Inv {s} inv (access d st) = record {
    place = access-Place wired bytes s d inv.small.0 inv.place st;
    count = inv.count;
    small = inv.small;
  }
  StreamStep-Inv {s} inv (next_write b rest over more) = record {
    place = next_write-Place wired bytes s b rest over more inv.place;
    count = inv.count;
    small = subst (All IsByte) more inv.small.1;
  }
  StreamStep-Inv {s} inv (next_read n over one) = record {
    place = next_read-Place wired bytes s n over inv.place;
    count = omega (arith, inv.count, one, length-append s.taken (s.config.ah ∷ []));
    small = inv.small;
  }

  opening-Place : {s : Stream} → IsOpening bytes s → Place bytes s
  opening-Place {s} is =
      let at = is.config_lem in
      same (λ gone. subst Gone at.writer_lem gone)
        (rw (at.writer_lem, at.reader_lem) (at.pin_lem, at.port_lem, tt))
        (is.bytes_lem ∙ ap (λ l. l ++ (s.byte ∷ s.left)) (sym is.taken_lem))

  pub StreamReach-Inv : {s : Stream} → All IsByte bytes → StreamReach w bytes s → Inv s
  StreamReach-Inv small (opening s is) = record {
    place = opening-Place is;
    count = omega (arith, ap length is.taken_lem, is.after_lem);
    small = subst (All IsByte) is.bytes_lem small;
  }
  StreamReach-Inv small (further r st) = StreamStep-Inv (StreamReach-Inv small r) st

  pub ended :
      {s : Stream}
      → Inv s
      → Place bytes s
      → s.config.writer ≡ sent
      → s.left ≡ []
      → IsDelivered bytes s
  ended inv (broken gone) over last = absurd (subst Gone over gone)
  ended {s} inv (same live phase all) over last =
      let (at, got, pin, flag) =
        sent-Phase wired s.byte s.config.reader s.config.pins s.config.port s.config.ah (
          subst (λ wr. Phase wr s.config.reader s.byte s.config.pins s.config.port s.config.ah) over
            phase) in
      let whole : s.taken ++ (s.config.ah ∷ []) ≡ bytes =
        ap (λ n. s.taken ++ (n ∷ [])) got
        ∙ ap (λ l. s.taken ++ (s.byte ∷ l)) (sym last)
        ∙ sym all in
      let none_left : s.after ≡ 0 =
        omega (arith, inv.count, ap length whole, length-append s.taken (s.config.ah ∷ [])) in
      (at, none_left, whole, pin, flag)
  ended {s} inv (behind live at phase all) over last =
      absurd
        (subst (λ wr. Phase wr wait_high s.byte s.config.pins s.config.port s.config.ah) over phase)
  ended {s} inv (ahead live at phase all) over last =
      absurd (omega (arith, inv.count, ap length all, length-append s.taken s.left, ap length last))

  -- With the cable wired as the code takes it to be, where the host calls read_byte as often as there
  -- are bytes, and however the accesses of the two loops interleave from idle lines on: once
  -- lptcomms_writebyte has returned 0 for the last of the bytes, the last read_byte has returned too,
  -- what the host has read is what lptcomms_writebytes was given, and the lines are idle.
  pub stream_received :
      {s : Stream}
      → All IsByte bytes
      → StreamReach w bytes s
      → s.config.writer ≡ sent
      → s.left ≡ []
      → IsDelivered bytes s
  stream_received small reach over last =
      let inv = StreamReach-Inv small reach in ended inv inv.place over last
