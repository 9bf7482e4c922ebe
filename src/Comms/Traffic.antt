-- ===== src/Comms/Traffic.antt =====
-- How many bytes go out in the transfers of pico/lptcomms.c.
use lptstore.Prelude.{
  ℕ, zero, suc, ◌+◌, ◌%◌, ◌≡◌, ◌≤◌, refl, ap, ◌∙◌, List, [], ◌∷◌, length, take, arith,
  length-append,
}
use lptstore.Comms.{
  Link, Fill, got, late, overrun, keep, readbyte, writebyte, readbytes, writebytes,
}

-- At most `n` bytes more have been sent.
abbrev pub Sent : ℕ → Link → Link → Type 0
Sent n l m = length m.outgoing ≤ length l.outgoing + n

pub writebyte-Sent : (b : ℕ) (l : Link) → Sent 1 l (writebyte b l).1
unfolding writebyte
writebyte-Sent b l = ground (arith, length-append l.outgoing ((b % 256) ∷ []))

pub writebytes-Sent : (bytes : List ℕ) (l : Link) → Sent (length bytes) l (writebytes bytes l).1
unfolding writebytes
writebytes-Sent [] l = omega arith
writebytes-Sent (b ∷ rest) l =
    ground (arith, writebyte-Sent b l, writebytes-Sent rest (writebyte b l).1)

-- Nothing is sent while bytes are read.
abbrev pub Silent : Link → Fill → Type 0
Silent l (got bytes m) = m.outgoing ≡ l.outgoing
Silent l (late bytes m) = m.outgoing ≡ l.outgoing
Silent l overrun = Unit

keep-Silent : (l : Link) (b : ℕ) (f : Fill) → Silent l f → Silent l (keep b f)
keep-Silent l b (got bytes m) e = e
keep-Silent l b (late bytes m) e = e
keep-Silent l b overrun e = tt

pub readbytes-Silent :
    (n : ℕ) (xs buff : List ℕ) (l : Link) → Silent l (readbytes n buff (record l { incoming = xs }))
unfolding readbytes readbyte
readbytes-Silent zero xs buff l = refl
readbytes-Silent (suc n) [] buff l = refl
readbytes-Silent (suc n) (x ∷ xs) [] l = tt
readbytes-Silent (suc n) (x ∷ xs) (b ∷ buff) l =
    keep-Silent l x (readbytes n buff (record l { incoming = xs })) (readbytes-Silent n xs buff l)

pub length-take : (n : ℕ) (xs : List ℕ) → length (take n xs) ≤ n
length-take zero xs = omega arith
length-take (suc n) [] = omega arith
length-take (suc n) (x ∷ xs) = omega (arith, length-take n xs)

pub passes : (l m : Link) → m.outgoing ≡ l.outgoing → (f : Fill) → Silent m f → Silent l f
passes l m e (got bytes k) e' = e' ∙ e
passes l m e (late bytes k) e' = e' ∙ e
passes l m e overrun e' = tt

pub Sent-later :
    (n : ℕ) (l m k : Link) → m.outgoing ≡ l.outgoing → n ≤ 514 → Sent n m k → Sent 514 l k
Sent-later n l m k e small sent = omega (arith, ap length e, sent)
