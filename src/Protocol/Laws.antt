-- ===== src/Protocol/Laws.antt =====
-- What the parts of lptprotocol_task send on a link with enough room.
use lptstore.Prelude.{ℕ, ◌+◌, ◌≡◌, refl, ap, ◌∙◌, List, [], ◌∷◌, ◌++◌, length, All, arith}
use lptstore.Compress.{IsByte}
use lptstore.Comms.{Link}
use lptstore.Comms.Laws.{after, writebyte-taken, writebytes-taken}
use lptstore.Protocol.{write_all}
use mathlib.Core.List.{append_assoc}

pub write_all-taken :
    (header bytes : List ℕ) (k : ℕ) (l : Link)
    → l.room ≡ length header + length bytes + k
    → All IsByte header
    → All IsByte bytes
    → write_all header bytes l ≡ after (header ++ bytes) k l
unfolding write_all
write_all-taken [] bytes k l h hs bs = rw (write_all, writebytes-taken bytes k l (omega arith) bs)
write_all-taken (x ∷ header) bytes k l h (hx, hs) bs =
    rw (writebyte-taken x (length header + length bytes + k) l (omega arith) hx) (
      write_all-taken header bytes k _ refl hs bs
      ∙ ap (λ out. record l { room = k; outgoing = out })
          (append_assoc l.outgoing (x ∷ []) (header ++ bytes)))
