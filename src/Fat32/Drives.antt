-- ===== src/Fat32/Drives.antt =====
-- The bitmap that init_disk makes, one bit for each disk.
use Prim.Native.Nat.{bit_or, bit_or-bitwise, digits, max}
use lptstore.Prelude.{
  ℕ, zero, suc, ◌+◌, ◌/◌, ◌%◌, ◌^◌, ◌≡◌, ◌<◌, ◌≤◌, refl, sym, ap, ◌∙◌, List, arith, ◌==◌,
  if◌then◌else◌, get_or, set, get_or-set_miss, get_or-set_hit, length, false,
}
use lptstore.Fat32.{Disks}

-- The bits of the first `n` disks: one is set where the disk is active.
unfoldable pub active_bits : ℕ → List ℕ → ℕ
active_bits zero lbas = 0
active_bits (suc n) lbas = active_bits n lbas + (if get_or lbas n 0 == 0 then 0 else 2 ^ n)

-- The bit of the configuration.
abbrev pub config_bit : ℕ → ℕ
config_bit cluster = if cluster == 0 then 0 else 0x8000_0000

pub active_bits-zero : (lbas : List ℕ) → active_bits 0 lbas ≡ 0
unfolding active_bits
active_bits-zero lbas = refl

pub active_bits-lt : (n : ℕ) (lbas : List ℕ) → active_bits n lbas < 2 ^ n
unfolding active_bits
active_bits-lt zero lbas = omega arith
active_bits-lt (suc n) lbas = ground (arith, active_bits-lt n lbas)

pub active_bits-set :
    (n k v : ℕ) (lbas : List ℕ) → n ≤ k → active_bits n (set lbas k v) ≡ active_bits n lbas
unfolding active_bits
active_bits-set zero k v lbas h = refl
active_bits-set (suc n) k v lbas h =
    rw (active_bits-set n k v lbas (omega arith), get_or-set_miss lbas k n v 0 (omega arith)) refl

-- The bit of disk `n`: it is not active, it is, or it is dropped.
pub active_bits-idle :
    (n : ℕ) (lbas : List ℕ) → get_or lbas n 0 ≡ 0 → active_bits (n + 1) lbas ≡ active_bits n lbas
unfolding active_bits
active_bits-idle n lbas e = let next : n + 1 ≡ suc n = omega arith in rw (next, e) (omega arith)

pub active_bits-next :
    (n : ℕ) (lbas : List ℕ)
    → (get_or lbas n 0 == 0) ≡ false
    → active_bits (n + 1) lbas ≡ active_bits n lbas + 2 ^ n
unfolding active_bits
active_bits-next n lbas e = let next : n + 1 ≡ suc n = omega arith in rw (next, e)

pub active_bits-drop :
    (n : ℕ) (lbas : List ℕ)
    → n < length lbas
    → active_bits (n + 1) (set lbas n 0) ≡ active_bits n lbas
active_bits-drop n lbas within =
    active_bits-idle n (set lbas n 0) (get_or-set_hit lbas n 0 0 within)
    ∙ active_bits-set n n 0 lbas (omega arith)

-- The digits of a number below a power of two, and above them that power.
digits-above : (i n a : ℕ) → a ≤ n → a < 2 ^ i → digits (λ b. b) max n a (2 ^ i) ≡ a + 2 ^ i
digits-above i zero zero room small = omega arith
digits-above i (suc n) zero room small = omega arith
digits-above i zero (suc a) room small = absurd (omega arith)
digits-above zero (suc n) (suc a) room small = absurd (omega arith)
digits-above (suc i) (suc n) (suc a) room small =
    let half : 2 ^ suc i / 2 ≡ 2 ^ i = omega arith in
    let even : 2 ^ suc i % 2 ≡ 0 = omega arith in
    let rest = digits-above i n (suc a / 2) (omega arith) (omega arith) in
    rw (half, even, rest) (omega arith)

pub bit_or-above : (i b : ℕ) → b < 2 ^ i → bit_or b (2 ^ i) ≡ b + 2 ^ i
bit_or-above i b small = bit_or-bitwise b (2 ^ i) ∙ digits-above i b b (omega arith) small

-- One bit for each disk that is active, and one for the configuration.
abbrev pub drives : Disks → ℕ
drives d = active_bits 16 d.disk_lba + config_bit d.cfg_cluster

pub drives-eq :
    (e d : Disks)
    → e.disk_bitmap ≡ d.disk_bitmap + config_bit e.cfg_cluster
    → d.disk_bitmap ≡ active_bits 16 d.disk_lba
    → e.disk_lba ≡ d.disk_lba
    → e.disk_bitmap ≡ drives e
drives-eq e d bits all lbas =
    bits ∙ ap (λ n. n + config_bit e.cfg_cluster) (all ∙ ap (active_bits 16) (sym lbas))
