-- ===== src/Protocol/Cut.antt =====
-- A request to write a sector that breaks off.
use lptstore.Prelude.{
  ℕ, ◌+◌, ◌*◌, ◌^◌, ◌≡◌, ◌<◌, ◌≤◌, refl, ◌∙◌, true, false, Bool, List, [], ◌∷◌, length, drop,
  length-drop, arith, ◌==◌, if◌then◌else◌,
}
use lptstore.Disk.{Disk}
use lptstore.Comms.{Link, hasbyte, readbyte, readbytes, late}
use lptstore.Comms.Laws.{readbytes-got, readbytes-late}
use lptstore.Protocol.{
  Pico, Outcome, done, lpts_write_block, word_at, take_plain, take_packed, write_block, run_command,
  lptprotocol_task,
}
use lptstore.Protocol.Sectors.{IsReady}

-- The bytes of a sector that the header announces: as they are, or compressed.
abbrev pub announced : List ℕ → ℕ
announced request = if word_at request 1 == 0 then 512 else word_at request 1

module _ (D : Disk) where
  -- The disk is as before, and no answer was sent.
  abbrev pub IsQuiet : Pico D → Link → Outcome D → Type 0
  IsQuiet p l o =
      (q : Pico D) × (o ≡ done q (record l { incoming = []; hanging = false })) × (q.disk ≡ p.disk)

  take_plain-late :
      (drv lba : ℕ) (p : Pico D) (l m : Link) (buff : List ℕ)
      → readbytes 512 p.buff l ≡ late buff m
      → take_plain D drv lba p l ≡ done (record p { buff = buff }) m
  unfolding take_plain
  take_plain-late drv lba p l m buff e = rw (take_plain, e)

  take_packed-late :
      (drv lba compressed : ℕ) (p : Pico D) (l m : Link) (zipped : List ℕ)
      → readbytes compressed p.compress_buff l ≡ late zipped m
      → take_packed D drv lba compressed p l ≡ done (record p { compress_buff = zipped }) m
  unfolding take_packed
  take_packed-late drv lba compressed p l m zipped e = rw (take_packed, e)

  write_block-late :
      (p : Pico D) (l m : Link) (buff : List ℕ)
      → readbytes 5 p.buff l ≡ late buff m
      → write_block D p l ≡ done (record p { buff = buff }) m
  unfolding write_block
  write_block-late p l m buff e = rw (write_block, e)

  header_cut :
      (p : Pico D) (l : Link) (request : List ℕ)
      → length request < 5
      → IsReady D p
      → IsQuiet p l (write_block D p (record l { incoming = request }))
  header_cut p l request short ready =
      let (buff', e) = readbytes-late 5 request p.buff l short (omega (arith, ready.buff_size)) in
      (record p { buff = buff' }, write_block-late p _ _ buff' e, refl)

  -- The header has come.
  abbrev with_header : ℕ → ℕ → ℕ → ℕ → ℕ → Pico D → Pico D
  with_header a b c d e p = record p { buff = a ∷ b ∷ c ∷ d ∷ e ∷ drop 5 p.buff }

  abbrev take_sector : Bool → ℕ → ℕ → ℕ → Pico D → Link → Outcome D
  take_sector plain drv lba compressed p l =
      if plain then take_plain D drv lba p l else take_packed D drv lba compressed p l

  write_block-header :
      (p : Pico D) (l : Link) (a b c d e : ℕ) (payload : List ℕ)
      → IsReady D p
      → write_block D p (record l { incoming = a ∷ b ∷ c ∷ d ∷ e ∷ payload })
        ≡ take_sector
            (b * 2 ^ 8 + c == 0)
            a
            (d * 2 ^ 8 + e)
            (b * 2 ^ 8 + c)
            (with_header a b c d e p)
            (record l { incoming = payload })
  unfolding write_block
  write_block-header p l a b c d e payload ready = rw (
    write_block,
    readbytes-got (a ∷ b ∷ c ∷ d ∷ e ∷ []) payload p.buff l (omega (arith, ready.buff_size)),
  )

  -- The payload breaks off.
  take_sector-cut :
      (plain : Bool) (lba a b c d e : ℕ) (p : Pico D) (l : Link) (payload : List ℕ)
      → (b * 2 ^ 8 + c == 0) ≡ plain
      → length payload < announced (a ∷ b ∷ c ∷ d ∷ e ∷ payload)
      → length payload ≤ 512
      → IsReady D p
      → IsQuiet p l (
          take_sector plain a lba
            (b * 2 ^ 8 + c)
            (with_header a b c d e p)
            (record l { incoming = payload }))
  take_sector-cut true lba a b c d e p l payload plain short few ready =
      let (buff', cut) =
        readbytes-late 512 payload (with_header a b c d e p).buff l (ground arith)
          (omega (arith, ready.buff_size, length-drop 5 p.buff)) in
      (
        record (with_header a b c d e p) { buff = buff' },
        take_plain-late a lba (with_header a b c d e p) (record l { incoming = payload }) _ buff'
            cut,
        refl,
      )
  take_sector-cut false lba a b c d e p l payload packed short few ready =
      let (zipped, cut) =
        readbytes-late (b * 2 ^ 8 + c) payload p.compress_buff l (ground arith)
          (omega (arith, ready.compress_buff_size)) in
      (
        record (with_header a b c d e p) { compress_buff = zipped },
        take_packed-late a lba (b * 2 ^ 8 + c) (with_header a b c d e p)
            (record l { incoming = payload }) _ zipped cut,
        refl,
      )

  payload_cut :
      (p : Pico D) (l : Link) (a b c d e : ℕ) (payload : List ℕ)
      → length payload < announced (a ∷ b ∷ c ∷ d ∷ e ∷ payload)
      → length payload ≤ 512
      → IsReady D p
      → IsQuiet p l (write_block D p (record l { incoming = a ∷ b ∷ c ∷ d ∷ e ∷ payload }))
  payload_cut p l a b c d e payload short few ready =
      let (q, cut, same) =
        take_sector-cut (b * 2 ^ 8 + c == 0) (d * 2 ^ 8 + e) a b c d e p l payload refl short few
          ready in
      (q, write_block-header p l a b c d e payload ready ∙ cut, same)

  -- Where the host ends a request to write a sector before the last byte of it, however far it came,
  -- lptprotocol_task of a target that is ready leaves the disk as it was and sends no answer. (Of a
  -- compressed sector 512 bytes at most have come.)
  pub lptprotocol_task-cut :
      (p : Pico D) (l : Link) (request : List ℕ)
      → length request < 5 + announced request
      → length request ≤ 517
      → IsReady D p
      → IsQuiet p l (lptprotocol_task D p (record l { incoming = lpts_write_block ∷ request }))
  unfolding lptprotocol_task hasbyte readbyte run_command
  lptprotocol_task-cut p l [] short few ready = header_cut p l [] (omega arith) ready
  lptprotocol_task-cut p l (a ∷ []) short few ready = header_cut p l (a ∷ []) (omega arith) ready
  lptprotocol_task-cut p l (a ∷ b ∷ []) short few ready =
      header_cut p l (a ∷ b ∷ []) (omega arith) ready
  lptprotocol_task-cut p l (a ∷ b ∷ c ∷ []) short few ready =
      header_cut p l (a ∷ b ∷ c ∷ []) (omega arith) ready
  lptprotocol_task-cut p l (a ∷ b ∷ c ∷ d ∷ []) short few ready =
      header_cut p l (a ∷ b ∷ c ∷ d ∷ []) (omega arith) ready
  lptprotocol_task-cut p l (a ∷ b ∷ c ∷ d ∷ e ∷ payload) short few ready =
      payload_cut p l a b c d e payload (ground arith) (omega arith) ready
