-- ===== src/Handshake/Line.antt =====
-- The line of whole bytes in `Comms`, from which the other parts begin, and the wires under it.
use lptstore.Prelude.{
  ℕ, ◌+◌, ◌≡◌, ◌≤◌, refl, sym, ap, ◌∙◌, true, List, [], ◌∷◌, ◌++◌, All, length, overlay, arith,
}
use lptstore.Compress.{IsByte}
use lptstore.Comms.{Link, got, readbytes, writebytes}
use lptstore.Comms.Laws.{readbytes-all, writebytes-taken}
use lptstore.Handshake.{Board, IsWired}
use lptstore.Handshake.ToHost.{sent}
use lptstore.Handshake.ToHost.Stream.{Stream, StreamReach}
use lptstore.Handshake.ToHost.Delivery.{stream_received}
use lptstore.Handshake.ToTarget
use lptstore.Handshake.ToTarget.Stream as Asked
use lptstore.Handshake.ToTarget.Delivery.{stream_read}

-- With the cable wired as the code takes it to be: where lptcomms_readbytes has read a whole request,
-- which fits the buffer, off the wires, it leaves in the buffer what `readbytes` leaves there over a
-- line with the same request; and where lptcomms_writebytes has put a whole answer on the wires, the
-- calls of read_byte have returned what `writebytes` adds to that line, which has room for just that.
pub wires_line :
    {w : Board} {request answer : List ℕ} {s : Asked.Stream} {t : Stream}
    → IsWired w
    → All IsByte request
    → All IsByte answer
    → Asked.StreamReach w request s
    → s.config.receiver ≡ ToTarget.got
    → s.after ≡ 0
    → StreamReach w answer t
    → t.config.writer ≡ sent
    → t.left ≡ []
    → (l : Link) (buff : List ℕ) → l.incoming ≡ request
    → l.room ≡ length answer
    → length request ≤ length buff
    → (readbytes (length request) buff l
        ≡ got (overlay (s.taken ++ (s.config.d ∷ [])) buff) (record l { incoming = [] }))
      × (writebytes answer (record l { incoming = [] }) ≡ (
        true,
        record l {
          incoming = [];
          room = 0;
          outgoing = l.outgoing ++ (t.taken ++ (t.config.ah ∷ []));
        },
      ))
wires_line {w} {request} {answer} {s} {t} wired ins outs asks over_s last_s answers over_t last_t l
      buff waits room fits =
    let asked = (stream_read wired request ins asks over_s last_s).1 in
    let told = (stream_received wired answer outs answers over_t last_t).2 in
    let n = length request in
    let emptied = record l { incoming = [] } in
    let left : readbytes n buff l ≡ readbytes n buff (record l { incoming = request }) =
      ap (λ xs. readbytes n buff (record l { incoming = xs })) waits in
    let kept : emptied.room ≡ length answer + 0 = omega (arith, room) in
    (
      left
          ∙ readbytes-all request buff n l refl fits
          ∙ ap (λ xs. got (overlay xs buff) emptied) (sym asked),
      writebytes-taken answer 0 emptied kept outs
          ∙ ap (λ xs. (true, record emptied { room = 0; outgoing = l.outgoing ++ xs })) (sym told),
    )
