-- ===== src/Usb/Settle.antt =====
-- The state of pico/msc_app.c once no callback is pending, and when it agrees with the stick.
use lptstore.Prelude.{
  ℕ, ◌≡◌, ◌≢◌, ap, ◌∙◌, Bool, true, false, not, List, ◌==◌, if◌then◌else◌, none, arith, ◌&&◌, ◌<◌,
}
use lptstore.Usb.{finished, Stick, Usb, settle}

-- A stick that accepts every command and keeps what is written to it.
pub record Reliable (T : Stick) (view : T.State → ℕ → List ℕ) : Type 0 where
  pub reads :
      (lba : ℕ) (s : T.State)
      → (s' : T.State) × (T.read10 lba s ≡ finished 0 (view s lba) s') × (view s' ≡ view s)
  pub writes :
      (lba : ℕ) (bytes : List ℕ) (s : T.State)
      → (s' : T.State) × (T.write10 lba bytes s ≡ finished 0 tt s')
        × ((j : ℕ) → view s' j ≡ (if j == lba then bytes else view s j))

-- The command before passed, no wait is without end, and the sector that is or will be in the buffer
-- is the one on the stick. (`prefetching_lba` is -1 where nothing was fetched.)
pub record Coherent (view : ℕ → List ℕ) (u : Usb) : Type 0 where
  pub inserted : u.usb_disk_inserted ≡ true
  pub ready : (settle u).prefetching_complete ≡ true
  pub passed : (settle u).result ≡ 0
  pub same : u.prefetching_lba < 0xffff_ffff → (settle u).prefetching_buff ≡ view u.prefetching_lba

pub settle-lba : (u : Usb) → (settle u).prefetching_lba ≡ u.prefetching_lba
unfolding settle
settle-lba u = ground arith

pub settle-inserted : (u : Usb) → (settle u).usb_disk_inserted ≡ u.usb_disk_inserted
unfolding settle
settle-inserted u = ground arith

pub settle-pending : (u : Usb) → (settle u).pending ≡ none
unfolding settle
settle-pending u = ground arith

pub settle-idle : (u : Usb) → u.pending ≡ none → settle u ≡ u
unfolding settle
settle-idle u h = ground arith

pub if_not {ℓ} : {A : Type ℓ} → (b : Bool) (x y : A) → b ≡ true → (if not b then x else y) ≡ y
if_not b x y h = ground arith

-- A state that has settled, given its buffer, is coherent.
pub rest-Coherent :
    (view : ℕ → List ℕ) (u : Usb)
    → u.pending ≡ none
    → u.usb_disk_inserted ≡ true
    → u.prefetching_complete ≡ true
    → u.result ≡ 0
    → (u.prefetching_lba < 0xffff_ffff → u.prefetching_buff ≡ view u.prefetching_lba)
    → Coherent view u
rest-Coherent view u idle inserted ready passed same =
    let e = settle-idle u idle in
    record {
      inserted = inserted;
      ready = ap (λ v. v.prefetching_complete) e ∙ ready;
      passed = ap (λ v. v.result) e ∙ passed;
      same = λ small. ap (λ v. v.prefetching_buff) e ∙ same small;
    }

pub and-left : (a b : Bool) → (a && b) ≡ true → a ≡ true
and-left a b h = ground arith

pub ==-other : (a b : ℕ) → b ≢ a → (a == b) ≡ false
==-other a b other = ground arith
