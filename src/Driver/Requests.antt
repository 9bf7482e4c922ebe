-- ===== src/Driver/Requests.antt =====
-- The requests that DOS sends, and the routine that answers each of them (dos/SDPP10/DRIVER.C).
use lptstore.Prelude.{
  ℕ, ◌+◌, ◌*◌, ◌/◌, ◌%◌, ◌^◌, Bool, true, false, not, ◌||◌, List, ◌==◌, ltb, if◌then◌else◌, Option,
  none, some,
}
use lptstore.Host.{
  Peer, Run, pure, ◌>>=◌, halt, res_ok, res_error, res_wrprt, res_notrdy, res_parerr, lpt_read,
  lpt_write, waits,
}
use lptstore.Driver.{Bpb, Driver, nr_drives, update, lpt_initialize}
use lptstore.Driver.Options.{parse_options}

-- The status word: ERROR, DONE and the error codes.
abbrev pub error : ℕ
error = 0x8000

abbrev pub done : ℕ
done = 0x0100

abbrev pub write_protect : ℕ
write_protect = 0

abbrev pub not_ready : ℕ
not_ready = 2

abbrev pub unknown_command : ℕ
unknown_command = 3

abbrev pub crc_error : ℕ
crc_error = 4

abbrev pub bad_sector : ℕ
bad_sector = 8

abbrev pub general_failure : ℕ
general_failure = 12

-- The request headers in one record: rh_t and the fields of the others that the driver uses. `dta` is the
-- memory from `dta` on, `options` the text after `DEVICE=`, `params` what GET_PARAMETERS fills in, and
-- `resident` whether `brkadr` keeps the driver in memory.
pub record Request : Type 0 where
  pub unit : ℕ
  pub command : ℕ
  pub status : ℕ
  pub start : ℕ
  pub count : ℕ
  pub dta : List ℕ
  pub major : ℕ
  pub minor : ℕ
  pub options : List ℕ
  pub nunits : ℕ
  pub resident : Bool
  pub media_status : ℕ
  pub table : Option Bpb
  pub params : Option (ℕ × Bpb)
  pub allowed : ℕ

abbrev pub with_status : ℕ → Request → Request
with_status word rh = record rh { status = word }

unfoldable pub force_init : Driver → Driver
force_init d = record d { init_needed = λ i. if ltb i nr_drives then true else d.init_needed i }

unfoldable pub dos_error : ℕ → Driver → ℕ × Driver
dos_error status d =
    if status == res_ok
    then (0, d)
    else if status == res_wrprt
    then (write_protect, d)
    else if status == res_notrdy
    then (not_ready, force_init d)
    else if status == res_error
    then (bad_sector, force_init d)
    else if status == res_parerr
    then (crc_error, d)
    else (general_failure, d)

-- LPTMediaCheck answers FALSE.
unfoldable pub media_check : Request → Request
media_check rh = record rh { media_status = 0; status = done }

unfoldable pub build_bpb : Driver → Request → Request
build_bpb d rh = record rh { table = some (d.bpb rh.unit); status = done }

-- The cylinders, and the BPB of unit 0; a division by zero is a fault.
unfoldable pub get_parameters : {S : Type 0} → Driver → Request → S → Run S Request
get_parameters d rh =
    let b = d.bpb 0 in
    let tracks = b.track_size * b.head_count % 2 ^ 16 in
    if tracks == 0
    then halt
    else pure (record rh { params = some (b.total_sectors / tracks, b); status = done })

-- The minor codes of the disk device that are answered with DONE and no more.
unfoldable pub is_ignored : ℕ → Bool
is_ignored minor = minor == 0x46 || (minor == 0x67 || (minor == 0x40 || minor == 0x42))

unfoldable pub generic_ioctl : {S : Type 0} → Driver → Request → S → Run S Request
generic_ioctl d rh =
    if rh.major == 0x08
    then (if rh.minor == 0x60
        then get_parameters d rh
        else if rh.minor == 0x47
        then pure (record rh { allowed = 1; status = done })
        else if is_ignored rh.minor
        then pure (with_status done rh)
        else pure (with_status (done + error + unknown_command) rh))
    else pure (with_status (done + error + unknown_command) rh)

unfoldable pub ioctl_query : Request → Request
ioctl_query rh =
    if rh.major == 0x08
    then (if rh.minor == 0x47 || (rh.minor == 0x60 || is_ignored rh.minor)
        then with_status done rh
        else with_status (done + error + unknown_command) rh)
    else with_status (done + error + unknown_command) rh

module _ (P : Peer) where
  -- An index past NR_DRIVES is a fault.
  unfoldable pub drive_init : Driver → Request → P.State → Run P.State (Bool × Driver × Request)
  drive_init d rh =
      if not (ltb rh.unit nr_drives)
      then halt
      else if not (d.init_needed rh.unit)
      then pure (true, d, rh)
      else (do
        (good, d') ← lpt_initialize P rh.unit d.partition_number d
        if good
            then pure (true, record d' { init_needed = update d'.init_needed rh.unit false }, rh)
            else pure (false, d', with_status (done + error + general_failure) rh))

  -- What ReadBlock and WriteBlock do with the status of the transfer.
  unfoldable pub finish : ℕ → Driver → Request → Driver × Request
  finish status d rh =
      if status == res_ok
      then (d, with_status done rh)
      else (let (code, d') = dos_error status d in (d', with_status (done + error + code) rh))

  unfoldable pub read_block : Driver → Request → P.State → Run P.State (Driver × Request)
  read_block d rh = do
    (good, d', rh') ← drive_init d rh
    if good
        then (do
          (status, memory) ← lpt_read P rh'.count rh'.unit rh'.start rh'.dta
          pure (finish status d' (record rh' { dta = memory })))
        else pure (d', rh')

  unfoldable pub write_block : Driver → Request → P.State → Run P.State (Driver × Request)
  write_block d rh = do
    (good, d', rh') ← drive_init d rh
    if good
        then (do
          status ← lpt_write P rh'.count rh'.unit rh'.start rh'.dta
          pure (finish status d' rh'))
        else pure (d', rh')

  -- unload1 and unload2.
  unfoldable pub unload : Request → Request
  unload rh = record rh { resident = false; nunits = 0; status = error }

  -- A parse_options that does not end would wait for ever.
  unfoldable pub initialize : Driver → Request → P.State → Run P.State (Driver × Request)
  initialize d rh =
      let forced = force_init d in
      elim (parse_options rh.options
        (record { debug = forced.debug; portbase = forced.portbase })) [
          | none ↦ λ s. waits
          | some (good, opts) ↦
              (let d1 = record forced { debug = opts.debug; portbase = opts.portbase } in
                if not good then pure (d1, unload rh) else (do
                  (mounted, d2) ← lpt_initialize P rh.unit d1.partition_number d1
                  if mounted
                      then pure
                          (d2, record rh { resident = true; nunits = nr_drives; status = done })
                      else pure (d2, unload rh)))
        ]

  -- The switch of LPTDriver.
  unfoldable pub dispatch : ℕ → Driver → Request → P.State → Run P.State (Driver × Request)
  dispatch command d rh =
      if command == 0
      then initialize d rh
      else if command == 1
      then pure (d, media_check rh)
      else if command == 2
      then pure (d, build_bpb d rh)
      else if command == 4
      then read_block d rh
      else if command == 8 || command == 9
      then write_block d rh
      else if command == 19
      then (do rh' ← generic_ioctl d rh; pure (d, rh'))
      else if command == 25
      then pure (d, ioctl_query rh)
      else if command == 23 || command == 24
      then pure (d, with_status done rh)
      else pure (d, with_status (done + error + unknown_command) rh)

  unfoldable pub lpt_driver : Driver → Request → P.State → Run P.State (Driver × Request)
  lpt_driver d rh = dispatch rh.command d rh
