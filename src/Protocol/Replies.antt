-- ===== src/Protocol/Replies.antt =====
-- How long an answer of the target is.
use lptstore.Prelude.{
  ℕ, ◌+◌, ◌/◌, ◌%◌, ◌^◌, ◌≡◌, ◌≤◌, refl, ap, subst, true, false, Bool, List, [], ◌∷◌, length, take,
  arith, ◌==◌, ltb, if◌then◌else◌, get_or, set, overlay, Bool-cases, inl, inr,
}
use lptstore.Disk.{Disk}
use lptstore.Compress.{compress, decompress}
use lptstore.Compress.Bounds.{compress_bounds}
use lptstore.Comms.{
  Link, Fill, got, late, overrun, hasbyte, readbyte, writebyte, readbytes, writebytes,
}
use lptstore.Protocol.{
  lpts_hello, lpts_query_disks, lpts_query_disk_caps, lpts_read_block, lpts_write_block,
  lpts_version_major, lpts_version_minor, long_at, word_at, put_word, Pico, Outcome, done, fault,
  write_all, hello, query_disks, send_caps, query_disk_caps, send_sector, read_block, store_sector,
  take_plain, take_packed, write_block, run_command, lptprotocol_task,
}
use lptstore.Comms.Traffic.{
  Sent, Silent, writebyte-Sent, writebytes-Sent, readbytes-Silent, passes, Sent-later, length-take,
}

write_all-Sent :
    (header bytes : List ℕ) (l : Link)
    → Sent (length header + length bytes) l (write_all header bytes l)
unfolding write_all
write_all-Sent [] bytes l = omega (arith, writebytes-Sent bytes l)
write_all-Sent (b ∷ header) bytes l =
    ground (arith, writebyte-Sent b l, write_all-Sent header bytes (writebyte b l).1)

module _ (D : Disk) where
  -- The answer has at most 514 bytes, where the code stays within its buffers.
  abbrev Answers : Link → Outcome D → Type 0
  Answers l (done q m) = Sent 514 l m
  Answers l fault = Unit

  writebytes-Answers :
      (bytes : List ℕ) (q : Pico D) (l m : Link)
      → m.outgoing ≡ l.outgoing
      → length bytes ≤ 514
      → Answers l (done q (writebytes bytes m).1)
  writebytes-Answers bytes q l m e few =
      Sent-later (length bytes) l m (writebytes bytes m).1 e few (writebytes-Sent bytes m)

  writebyte-Answers :
      (b : ℕ) (q : Pico D) (l m : Link)
      → m.outgoing ≡ l.outgoing
      → Answers l (done q (writebyte b m).1)
  writebyte-Answers b q l m e =
      Sent-later 1 l m (writebyte b m).1 e (omega arith) (writebyte-Sent b m)

  -- What follows lptcomms_readbytes.
  after_read :
      (l : Link) (f : Fill) (p : List ℕ → Pico D) (then_do : List ℕ → Link → Outcome D)
      → Silent l f
      → ((bytes : List ℕ) (m : Link) → m.outgoing ≡ l.outgoing → Answers l (then_do bytes m))
      → Answers l (elim f [
        | late bytes m ↦ done (p bytes) m
        | got bytes m ↦ then_do bytes m
        | overrun ↦ fault
      ])
  after_read l (got bytes m) p then_do e next = next bytes m e
  after_read l (late bytes m) p then_do e next = omega (arith, ap length e)
  after_read l overrun p then_do e next = tt

  send_sector-Answers :
      (p : Pico D) (l m : Link) → m.outgoing ≡ l.outgoing → Answers l (send_sector D p m)
  unfolding send_sector
  send_sector-Answers p l m e =
      let packed = compress p.buff in
      let zipped = overlay packed.written p.compress_buff in
      let (_, few) = compress_bounds p.buff in
      elim (Bool-cases (ltb (length p.compress_buff) (length packed.written))) [
        | inl over ↦ rw over tt
        | inr fits ↦ elim (Bool-cases (packed.ret == 0)) [
          | inl plain ↦
              rw (fits, plain)
                (Sent-later 513 l m (write_all (0x00 ∷ []) (take 512 p.buff) m) e (omega arith) (
                  omega (
                    arith,
                    write_all-Sent (0x00 ∷ []) (take 512 p.buff) m,
                    length-take 512 p.buff,
                  )))
          | inr zip ↦
              (let header = 0x02 ∷ (packed.ret / 2 ^ 8) ∷ (packed.ret % 256) ∷ [] in
                rw (fits, zip)
                  (Sent-later 514 l m (write_all header (take packed.ret zipped) m) e (omega arith)
                    (omega (
                      arith,
                      write_all-Sent header (take packed.ret zipped) m,
                      length-take packed.ret zipped,
                    ))))
        ]
      ]

  read_block-Answers : (p : Pico D) (l : Link) → Answers l (read_block D p l)
  unfolding read_block
  read_block-Answers p l =
      after_read l (readbytes 5 p.buff l) _ _ (readbytes-Silent 5 l.incoming p.buff l)
        λ request m e.
          let (r, buff, disk) =
            D.read_sector (get_or request 0 0) (long_at request 1) request p.disk in
          let q = record p { buff = buff; disk = disk } in
          elim (Bool-cases (r % 256 == 0)) [
            | inl good ↦ rw good (send_sector-Answers q l m e)
            | inr bad ↦ rw bad (writebyte-Answers 0x01 q l m e)
          ]

  store_sector-Answers :
      (drv lba : ℕ) (p : Pico D) (l m : Link)
      → m.outgoing ≡ l.outgoing
      → Answers l (store_sector D drv lba p m)
  unfolding store_sector
  store_sector-Answers drv lba p l m e =
      let (r, disk) = D.write_sector drv lba p.buff p.disk in
      writebyte-Answers (r % 256) (record p { disk = disk }) l m e

  take_plain-Answers :
      (drv lba : ℕ) (p : Pico D) (l m : Link)
      → m.outgoing ≡ l.outgoing
      → Answers l (take_plain D drv lba p m)
  unfolding take_plain
  take_plain-Answers drv lba p l m e =
      after_read l (readbytes 512 p.buff m) _ _
        (passes l m e (readbytes 512 p.buff m) (readbytes-Silent 512 m.incoming p.buff m))
        λ bytes k e'. store_sector-Answers drv lba (record p { buff = bytes }) l k e'

  take_packed-Answers :
      (drv lba compressed : ℕ) (p : Pico D) (l m : Link)
      → m.outgoing ≡ l.outgoing
      → Answers l (take_packed D drv lba compressed p m)
  unfolding take_packed
  take_packed-Answers drv lba compressed p l m e =
      after_read l (readbytes compressed p.compress_buff m) _ _
        (passes l m e (readbytes compressed p.compress_buff m)
          (readbytes-Silent compressed m.incoming p.compress_buff m))
        λ zipped k e'.
          elim (Bool-cases
            (ltb (length p.buff) (length (decompress (take compressed zipped)).written))) [
              | inl over ↦ rw over tt
              | inr fits ↦ rw fits (store_sector-Answers drv lba _ l k e')
            ]

  write_block-Answers : (p : Pico D) (l : Link) → Answers l (write_block D p l)
  unfolding write_block
  write_block-Answers p l =
      after_read l (readbytes 5 p.buff l) _ _ (readbytes-Silent 5 l.incoming p.buff l)
        λ request m e.
          let q = record p { buff = request } in
          elim (Bool-cases (word_at request 1 == 0)) [
            | inl plain ↦
                rw plain (take_plain-Answers (get_or request 0 0) (word_at request 3) q l m e)
            | inr zip ↦ rw zip (
                take_packed-Answers (get_or request 0 0) (word_at request 3) (word_at request 1) q l
                  m e)
          ]

  send_caps-Answers :
      (p : Pico D) (l m : Link) → m.outgoing ≡ l.outgoing → Answers l (send_caps D p m)
  unfolding send_caps
  send_caps-Answers p l m e =
      let buff = put_word (D.get_blocks (get_or p.buff 0 0) p.disk) p.buff in
      writebytes-Answers (take 4 buff) (record p { buff = buff }) l m e
        (omega (arith, length-take 4 buff))

  query_disk_caps-Answers : (p : Pico D) (l : Link) → Answers l (query_disk_caps D p l)
  unfolding query_disk_caps
  query_disk_caps-Answers p l =
      after_read l (readbytes 1 p.buff l) _ _ (readbytes-Silent 1 l.incoming p.buff l)
        λ request m e. send_caps-Answers (record p { buff = request }) l m e

  if-Answers :
      (l : Link) (test : Bool) (x y : Outcome D)
      → Answers l x
      → Answers l y
      → Answers l (if test then x else y)
  if-Answers l true x y is other = is
  if-Answers l false x y other is = is

  hello-Answers : (p : Pico D) (l : Link) → Answers l (hello D p l)
  unfolding hello
  hello-Answers p l =
      let buff = set (set p.buff 0 lpts_version_major) 1 lpts_version_minor in
      writebytes-Answers (take 2 buff) (record p { buff = buff }) l l refl
        (omega (arith, length-take 2 buff))

  query_disks-Answers : (p : Pico D) (l : Link) → Answers l (query_disks D p l)
  unfolding query_disks
  query_disks-Answers p l =
      let buff = put_word (D.get_drives p.disk) p.buff in
      writebytes-Answers (take 4 buff) (record p { buff = buff }) l l refl
        (omega (arith, length-take 4 buff))

  run_command-Answers : (cmd : ℕ) (p : Pico D) (l : Link) → Answers l (run_command D cmd p l)
  unfolding run_command
  run_command-Answers cmd p l = if-Answers l (cmd == lpts_hello) _ _ (hello-Answers p l) (
      if-Answers l (cmd == lpts_query_disks) _ _ (query_disks-Answers p l) (
        if-Answers l (cmd == lpts_query_disk_caps) _ _ (query_disk_caps-Answers p l) (
          if-Answers l (cmd == lpts_read_block) _ _ (read_block-Answers p l)
            (if-Answers l (cmd == lpts_write_block) _ _ (write_block-Answers p l) (omega arith)))))

  task-Answers :
      (xs : List ℕ) (p : Pico D) (l : Link)
      → Answers l (lptprotocol_task D p (record l { incoming = xs }))
  unfolding lptprotocol_task hasbyte readbyte
  task-Answers [] p l = if-Answers l l.hanging _ _ (omega arith) (omega arith)
  task-Answers (cmd ∷ xs) p l =
      if-Answers l (cmd == 0xff) _ _ (omega arith)
        (run_command-Answers cmd p (record l { incoming = xs }))

  -- Whatever the host sends, one call of lptprotocol_task that stays within its buffers answers with at
  -- most 514 bytes.
  pub lptprotocol_task-answers :
      (p q : Pico D) (l m : Link)
      → lptprotocol_task D p l ≡ done q m
      → length m.outgoing ≤ length l.outgoing + 514
  lptprotocol_task-answers p q l m e = subst (Answers l) e (task-Answers l.incoming p l)
