-- ===== src/Driver/Laws.antt =====
-- What LPTDriver answers without a word to the target.
use lptstore.Prelude.{
  ◌+◌, ◌*◌, ◌%◌, ◌^◌, ◌≡◌, ◌≢◌, ◌<◌, inl, inr, refl, Bool, true, false, ◌||◌, ◌==◌, Bool-cases,
  lt→ltb, arith, ◌/◌, some,
}
use lptstore.Host.{Peer, ok}
use lptstore.Driver.{Driver, update, find_volume, lpt_initialize, has_unit}
use lptstore.Driver.Requests.{
  Request, get_parameters, is_ignored, generic_ioctl, ioctl_query, drive_init, done, error,
  unknown_command, with_status,
}

-- Where unit 0 has a geometry, the generic IOCTL call answers every code, with the status that the
-- IOCTL query gives for it.
pub generic_ioctl-ioctl_query :
    {S : Type 0} (d : Driver) (rh : Request) (s : S)
    → (d.bpb 0).track_size * (d.bpb 0).head_count % 2 ^ 16 ≢ 0
    → (rh' : Request) × (generic_ioctl d rh s ≡ ok rh' s) × (rh'.status ≡ (ioctl_query rh).status)
unfolding generic_ioctl ioctl_query get_parameters
generic_ioctl-ioctl_query d rh s geometry = elim (Bool-cases (rh.major == 0x08)) [
  | inl disk ↦ elim (Bool-cases (rh.minor == 0x60)) [
    | inl get ↦ (
      record (with_status done rh) {
        params = some (
          (d.bpb 0).total_sectors / ((d.bpb 0).track_size * (d.bpb 0).head_count % 2 ^ 16),
          d.bpb 0,
        );
      },
      rw (disk, get, divides) refl,
      rw (disk, get, or-last (rh.minor == 0x47)),
    )
    | inr other ↦ elim (Bool-cases (rh.minor == 0x47)) [
      | inl access ↦ (
        record (with_status done rh) { allowed = 1 },
        rw (disk, other, access) refl,
        rw (disk, access),
      )
      | inr rest ↦ elim (Bool-cases (is_ignored rh.minor)) [
        | inl ignored ↦ (
          with_status done rh,
          rw (disk, other, rest, ignored) refl,
          rw (disk, other, rest, ignored),
        )
        | inr no_code ↦ (
          with_status (done + error + unknown_command) rh,
          rw (disk, other, rest, no_code) refl,
          rw (disk, other, rest, no_code),
        )
      ]
    ]
  ]
  | inr device ↦ (with_status (done + error + unknown_command) rh, rw device refl, rw device)
]
  where
    or-last : (b : Bool) → (b || (true || is_ignored rh.minor)) ≡ true
    or-last b = ground arith

    divides : ((d.bpb 0).track_size * (d.bpb 0).head_count % 2 ^ 16 == 0) ≡ false
    divides = ground arith

-- For a unit that find_volume has found once, drive_init succeeds and sends and takes no byte, even
-- where force_init asked for a new initialization; the BPBs and the mounted units stay as they were.
pub drive_init-mounted :
    (P : Peer) (d : Driver) (rh : Request) (s : P.State)
    → rh.unit < 16
    → has_unit d.disk_initialized rh.unit ≡ true
    → (d' : Driver) × (drive_init P d rh s ≡ ok (true, d', rh) s)
      × (d'.bpb ≡ d.bpb)
      × (d'.disk_initialized ≡ d.disk_initialized)
unfolding drive_init lpt_initialize find_volume
drive_init-mounted P d rh s small mounted = elim (Bool-cases (d.init_needed rh.unit)) [
  | inl stale ↦ (
    record d { init_needed = update d.init_needed rh.unit false },
    rw (lt→ltb rh.unit 16 small, stale, mounted),
    refl,
    refl,
  )
  | inr fresh ↦ (d, rw (lt→ltb rh.unit 16 small, fresh), refl, refl)
]
