-- ===== src/FakeLpt/Agreement.antt =====
-- The driver built with FAKE_LPT and the driver on a cable to the fake disk of the target agree.
use lptstore.Prelude.{ℕ, ◌^◌, ◌<◌, ◌≡◌, ap, List}
use lptstore.Protocol.Sectors.{IsSector}
use lptstore.Host as Host
use lptstore.Session.Read.{Reads}
use lptstore.DiskFake.{Block, disk_fake, get_block}
use lptstore.DiskFake as DiskFake

module _ (unit : ℕ) where
  -- The cable's disk read where its sectors are those of `content`.
  abbrev reads_of :
      (content : ℕ → List ℕ) (disk : List Block)
      → ((lba : ℕ) → lba < 2 ^ 16 → get_block unit lba disk ≡ content lba)
      → Reads disk_fake unit content
          (λ blocks. blocks ≡ disk)
          (λ lba. IsSector (content lba) × (lba < 2 ^ 16))
  reads_of content disk kept = record {
    sector = λ lba has. has.0;
    reads = λ lba buff blocks e has.
        (blocks, rw e (ap (λ bytes. (0, bytes, disk)) (kept lba has.1)), e);
  }
