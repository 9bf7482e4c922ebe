-- ===== src/Comms/Laws.antt =====
-- The block transfers on a link with enough bytes, or enough room.
use lptstore.Prelude.{
  ℕ, zero, suc, ◌+◌, ◌≤◌, ◌<◌, ◌≡◌, refl, sym, ap, subst, ◌∙◌, true, false, List, [], ◌∷◌, ◌++◌,
  length, overlay, All, arith,
}
use lptstore.Compress.{IsByte}
use lptstore.Comms.{Link, readbyte, writebyte, got, late, keep, readbytes, writebytes}
use mathlib.Core.List.{append_assoc, append-nil}

-- Every byte asked for is there, and the buffer has room: they lie over its front.
pub readbytes-got :
    (xs rest buff : List ℕ) (l : Link)
    → length xs ≤ length buff
    → readbytes (length xs) buff (record l { incoming = xs ++ rest })
      ≡ got (overlay xs buff) (record l { incoming = rest })
unfolding readbytes readbyte
readbytes-got [] rest buff l h = refl
readbytes-got (x ∷ xs) rest [] l h = absurd (omega arith)
readbytes-got (x ∷ xs) rest (b ∷ buff) l h =
    ap (keep x) (readbytes-got xs rest buff l (omega arith))

-- The link after the host has taken `xs`, with room for `k` bytes more.
abbrev pub after : List ℕ → ℕ → Link → Link
after xs k l = record l { room = k; outgoing = l.outgoing ++ xs }

pub writebyte-taken :
    (x k : ℕ) (l : Link) → l.room ≡ suc k → x < 256 → writebyte x l ≡ (true, after (x ∷ []) k l)
unfolding writebyte
writebyte-taken x k l h byte = ground arith

pub writebytes-taken :
    (xs : List ℕ) (k : ℕ) (l : Link)
    → l.room ≡ length xs + k
    → All IsByte xs
    → writebytes xs l ≡ (true, after xs k l)
unfolding writebytes
writebytes-taken [] k l h bytes =
    let e : l.room ≡ k = omega arith in
    ap (λ (m : Link). (true, m))
      (λ i. record l { room = e i; outgoing = sym (append-nil l.outgoing) i })
writebytes-taken (x ∷ xs) k l h (byte, bytes) =
    rw (writebyte-taken x (length xs + k) l (omega arith) byte) (
      writebytes-taken xs k (after (x ∷ []) (length xs + k) l) refl bytes
      ∙ ap (λ out. (true, record l { room = k; outgoing = out }))
          (append_assoc l.outgoing (x ∷ []) xs))

-- The same where the bytes are all that there is, and `n` of them are asked for.
pub readbytes-all :
    (xs buff : List ℕ) (n : ℕ) (l : Link)
    → length xs ≡ n
    → n ≤ length buff
    → readbytes n buff (record l { incoming = xs })
      ≡ got (overlay xs buff) (record l { incoming = [] })
readbytes-all xs buff n l e h =
    let whole = readbytes-got xs [] buff l (omega arith) in
    let cut : readbytes (length xs) buff (record l { incoming = xs })
        ≡ got (overlay xs buff) (record l { incoming = [] }) =
      subst
        (λ ys.
          readbytes (length xs) buff (record l { incoming = ys })
          ≡ got (overlay xs buff) (record l { incoming = [] }))
        (append-nil xs) whole in
    subst
      (λ m.
        readbytes m buff (record l { incoming = xs })
        ≡ got (overlay xs buff) (record l { incoming = [] }))
      e cut

-- The bytes end before the count is reached.
pub readbytes-late :
    (n : ℕ) (xs buff : List ℕ) (l : Link)
    → length xs < n
    → length xs ≤ length buff
    → (buff' : List ℕ) × (readbytes n buff (record l { incoming = xs })
        ≡ late buff' (record l { incoming = []; hanging = false }))
unfolding readbytes readbyte
readbytes-late zero xs buff l h room = absurd (omega arith)
readbytes-late (suc n) [] buff l h room = (buff, refl)
readbytes-late (suc n) (x ∷ xs) [] l h room = absurd (omega arith)
readbytes-late (suc n) (x ∷ xs) (b ∷ buff) l h room =
    let (buff', e) = readbytes-late n xs buff l (omega arith) (omega arith) in
    (x ∷ buff', ap (keep x) e)
