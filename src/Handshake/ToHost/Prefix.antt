-- ===== src/Handshake/ToHost/Prefix.antt =====
-- At every moment the host has read a front of the bytes, but for one byte that was cut.
use lptstore.Prelude.{ℕ, ◌≡◌, ◌⊎◌, refl, subst, inl, inr, false, List, [], ◌∷◌, ◌++◌, All}
use lptstore.Compress.{IsByte}
use lptstore.Handshake.{IsFront, Board, IsWired}
use lptstore.Handshake.ToHost.{Writer, giving_up, failed, wait_high}
use lptstore.Handshake.ToHost.Stream.{
  Stream, StreamStep, access, next_write, next_read, StreamReach, opening, further,
}
use lptstore.Handshake.ToHost.Place.{Gone, gone_or, Place, broken, same, behind, ahead, Step-Gone}
use lptstore.Handshake.ToHost.Delivery.{StreamReach-Inv}
use lptstore.Handshake.ToHost.Cut.{Left, late, during, over, access-Left, next_read-Left, Step-Left}

-- Its last byte is not one of them; lptcomms_writebyte has timed out, and read_byte waits.
abbrev pub IsCut : List ℕ → Stream → Type 0
IsCut bytes s =
    (front : List ℕ) × (x : ℕ) × (s.taken ≡ front ++ (x ∷ []))
    × IsFront bytes front
    × ((s.config.writer ≡ giving_up) ⊎ (s.config.writer ≡ failed))
    × (s.config.reader ≡ wait_high)
    × (s.config.pins.pin19 ≡ false)

which_Gone : (wr : Writer) → Gone wr → (wr ≡ giving_up) ⊎ (wr ≡ failed)
which_Gone giving_up gone = inl refl
which_Gone failed gone = inr refl
which_Gone _ gone = absurd gone

module _ {w : Board} (wired : IsWired w) (bytes : List ℕ) where
  cut :
      {s : Stream}
      → All IsByte bytes
      → StreamReach w bytes s
      → (Gone s.config.writer → ⊥) ⊎ (Gone s.config.writer × Left bytes s)
  cut small (opening s is) = inl (λ gone. subst Gone is.config_lem.writer_lem gone)
  cut small (further {s} reach st) = step (cut small reach) st
    where
      step :
          {t : Stream}
          → (Gone s.config.writer → ⊥) ⊎ (Gone s.config.writer × Left bytes s)
          → StreamStep w s t
          → (Gone t.config.writer → ⊥) ⊎ (Gone t.config.writer × Left bytes t)
      step (inl live) (access d st) =
          let place = (StreamReach-Inv wired bytes small reach).place in
          gone_or d.writer _ (λ gone. inr (gone, Step-Left wired bytes s d live place st gone))
            (λ live'. inl live')
      step (inl live) (next_write b rest ends more) = inl (λ h. h)
      step (inl live) (next_read n ends one) = inl live
      step (inr (gone, left)) (access d st) =
          inr (Step-Gone w s.byte gone st, access-Left wired bytes s d gone left st)
      step (inr (gone, left)) (next_write b rest ends more) = absurd (subst Gone ends gone)
      step (inr (gone, left)) (next_read n ends one) =
          inr (gone, next_read-Left wired bytes s n ends left)

  live-IsFront : (s : Stream) → (Gone s.config.writer → ⊥) → Place bytes s → IsFront bytes s.taken
  live-IsFront s live (broken gone) = absurd (live gone)
  live-IsFront s live (same live' phase all) = (s.byte ∷ s.left, all)
  live-IsFront s live (behind live' at phase all) = (s.config.ah ∷ s.byte ∷ s.left, all)
  live-IsFront s live (ahead live' at phase all) = (s.left, all)

  left-IsFront :
      (s : Stream) → Gone s.config.writer → Left bytes s → IsFront bytes s.taken ⊎ IsCut bytes s
  left-IsFront s gone (late rest at all) = inl (s.config.ah ∷ rest, all)
  left-IsFront s gone (during rest while all) = inl (rest, all)
  left-IsFront s gone (over front rest x at low more all) =
      inr (front, x, more, (rest, all), which_Gone s.config.writer gone, at, low)

  -- With the cable wired as the code takes it to be, and at every moment of every interleaving,
  -- timeouts included, what the host has read is a front of the bytes of lptcomms_writebytes; but for
  -- one byte at most, its last, where lptcomms_writebyte has timed out, and then read_byte waits for
  -- a signal that is low.
  pub stream-IsFront :
      {s : Stream}
      → All IsByte bytes
      → StreamReach w bytes s
      → IsFront bytes s.taken ⊎ IsCut bytes s
  stream-IsFront {s} small reach = elim (cut small reach) [
    | inl live ↦ inl (live-IsFront s live (StreamReach-Inv wired bytes small reach).place)
    | inr (gone, left) ↦ left-IsFront s gone left
  ]
