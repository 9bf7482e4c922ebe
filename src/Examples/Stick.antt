-- ===== src/Examples/Stick.antt =====
-- A stick that is an array of sectors, and one that refuses every command.
use lptstore.Prelude.{ℕ, ◌≡◌, refl, false, true, List, replicate, ◌==◌, if◌then◌else◌, arith, Bool}
use lptstore.Usb.{
  Stick, Usb, refused, finished, returns, hangs, power_on, settle, read_sector, write_sector,
}
use lptstore.Usb.Settle.{Reliable, Coherent}
use lptstore.Usb.Coherence.{read_sector-Coherent, write_sector-Coherent}
use lptstore.Usb.Faults.{read_sector-stale, read_sector-hangs}

abbrev pub array : Stick
array = record {
  State = ℕ → List ℕ;
  read10 = λ lba s. finished 0 (s lba) s;
  write10 = λ lba bytes s. finished 0 tt (λ j. if j == lba then bytes else s j);
}

pub array-Reliable : Reliable array (λ s. s)
array-Reliable = record {
  reads = λ lba s. (s, refl, refl);
  writes = λ lba bytes s. ((λ j. if j == lba then bytes else s j), refl, λ j. refl);
}

abbrev pub blank : ℕ → List ℕ
blank lba = replicate 512 0

abbrev pub mounted : Usb
mounted = record (power_on (replicate 512 0)) { usb_disk_inserted = true }

pub mounted-Coherent : Coherent blank mounted
unfolding settle
mounted-Coherent = record {
  inserted = refl;
  ready = refl;
  passed = refl;
  same = λ small. absurd (omega arith);
}

-- After sector 8 is read, sector 9 is fetched ahead.
abbrev pub ahead : Usb
ahead = record mounted { prefetching_lba = 9; prefetching_buff = replicate 512 0 }

pub ahead-Coherent : Coherent blank ahead
unfolding settle
ahead-Coherent = record { inserted = refl; ready = refl; passed = refl; same = λ small. refl }

read_sector-Coherent_example :
    (u' : Usb) × (s' : ℕ → List ℕ) × (read_sector array false 8 (replicate 512 1) mounted blank
      ≡ returns 0 (blank 8) u' s')
    × Coherent s' u'
    × (s' ≡ blank)
read_sector-Coherent_example =
    read_sector-Coherent array-Reliable false 8 (replicate 512 1) mounted blank (omega arith)
      mounted-Coherent

write_sector-Coherent_example :
    (u' : Usb) × (s' : ℕ → List ℕ) × (write_sector array 8 (replicate 512 7) ahead blank
      ≡ (0, u', s'))
    × Coherent s' u'
    × ((j : ℕ) → s' j ≡ (if j == 8 then replicate 512 7 else blank j))
    × (u'.prefetching_lba ≡ 9)
write_sector-Coherent_example =
    write_sector-Coherent array-Reliable 8 (replicate 512 7) ahead blank (omega arith)
      ahead-Coherent

read_sector-stale_example :
    (u' : Usb) × (s' : ℕ → List ℕ) × (v : Usb) × (t : ℕ → List ℕ) × (write_sector array 9
        (replicate 512 7)
        ahead
        blank
      ≡ (0, u', s'))
    × (s' 9 ≡ replicate 512 7)
    × (read_sector array true 9 (replicate 512 1) u' s' ≡ returns 0 (blank 9) v t)
read_sector-stale_example =
    read_sector-stale array-Reliable true (replicate 512 7) (replicate 512 1) ahead blank
      (omega arith) ahead-Coherent

abbrev refusing : Stick
refusing = record { State = ℕ; read10 = λ lba s. refused s; write10 = λ lba bytes s. refused s }

read_sector-hangs_example :
    (u' : Usb) × (read_sector refusing false 9 (replicate 512 1) ahead 0
      ≡ returns 1 (replicate 512 0) u' 0)
    × ((early' : Bool) (next : ℕ) (into : List ℕ) (t : ℕ)
        → read_sector refusing early' next into u' t ≡ hangs)
    × ((at : ℕ) (bytes : List ℕ) (t t' : ℕ)
        → refusing.write10 at bytes t ≡ refused t'
        → write_sector refusing at bytes u' t ≡ (1, u', t'))
    × ((at : ℕ) (bytes : List ℕ) (t t' : ℕ) (status : ℕ)
        → refusing.write10 at bytes t ≡ finished status tt t'
        → (write_sector refusing at bytes u' t).1.prefetching_complete ≡ true)
read_sector-hangs_example =
    read_sector-hangs refusing false 9 (replicate 512 1) ahead 0 0 refl refl refl refl refl refl
