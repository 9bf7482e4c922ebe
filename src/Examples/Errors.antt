-- ===== src/Examples/Errors.antt =====
-- A disk of zeros whose sectors from 101 on cannot be read.
use lptstore.Prelude.{
  ℕ, ◌*◌, ◌+◌, ◌<◌, ◌≡◌, refl, ap, true, ◌++◌, replicate, drop, ltb, if◌then◌else◌, arith,
}
use lptstore.Disk.{Disk}
use lptstore.Protocol.{Pico}
use lptstore.Host.{ok}
use lptstore.Session.{cable_peer}
use lptstore.Session.Read.{idle, Reads, sectors}
use lptstore.Driver.{Driver}
use lptstore.Driver.Requests.{done, error, bad_sector, lpt_driver}
use lptstore.Driver.Errors.{lpt_driver-refused}
use lptstore.Examples.Cable.{zeros-IsSector}
use lptstore.Examples.Requests.{driver, request}

abbrev scratched : Disk
scratched = record {
  State = ℕ;
  read_sector = λ unit lbn buff s. (if ltb lbn 101 then 0 else 0xffff_ffff, replicate 512 0, s);
  write_sector = λ unit lbn buff s. (0, s);
  get_blocks = λ unit s. 200;
  get_drives = λ s. 0xffff;
}

readable : (lbn : ℕ) → lbn < 101 → ◌≡◌ {A = ℕ} (if ltb lbn 101 then 0 else 0xffff_ffff) 0
readable lbn h = ground arith

abbrev scratched_reads : Reads scratched 3 (λ _. replicate 512 0) (λ s. s ≡ 0) (λ lba. lba < 101)
scratched_reads = record {
  sector = λ lba h. zeros-IsSector;
  reads = λ lba buff s good h. (s, ap (λ r. (r, replicate 512 0, s)) (readable lba h), good);
}

abbrev target : Pico scratched
target = record { buff = replicate 512 0; compress_buff = replicate 512 0; disk = 0 }

lpt_driver-refused_example :
    (d' : Driver) × (q : Pico scratched) × (lpt_driver
        (cable_peer scratched)
        driver
        request
        (idle scratched target)
      ≡ ok
          (
            d',
            record request {
              dta = sectors (λ _. replicate 512 0) 1 100 ++ drop (1 * 512) (replicate 1024 9);
              status = done + error + bad_sector;
            },
          )
          (idle scratched q))
    × ((i : ℕ) → i < 16 → d'.init_needed i ≡ true)
lpt_driver-refused_example =
    lpt_driver-refused scratched request (λ _. replicate 512 0) scratched_reads 101
      (λ buff s good. (0xffff_ffff, replicate 512 0, s, refl, omega arith)) 1 driver target
      (omega arith) refl (omega arith) refl (omega arith) (omega arith) (omega arith, tt) refl
      (record { buff_size = refl; compress_buff_size = refl }) refl
