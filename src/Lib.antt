-- ===== src/Lib.antt =====
-- LPTStore: a hard disk over the parallel port of a DOS computer. A Raspberry Pi Pico (the target) reads
-- the sectors of disk images in files of a FAT32 stick and serves them over the port; a DOS device driver
-- (the host) mounts them as drives.
--
-- The parts, from DOS down to the stick, and the files that model them:
--   Driver          find_volume, check_fs and LPTInitialize of dos/SDPP10/LPTSTORE.C, over the record of
--                   the driver's global variables; a boot sector becomes a BPB.
--   Driver/Requests LPTDriver and the routines it calls in dos/SDPP10/DRIVER.C; the structs of DRIVER.H are
--                   one record, Request, of the fields the driver uses.
--   Driver/Options  parse_options of dos/SDPP10/DRIVER.C.
--   Console         dos/SDPP10/CPRINT.C, as the characters that are printed.
--   Host            LPTRead and LPTWrite of dos/SDPP10/LPTSTORE.C, in a monad with the outcomes ok, waits
--                   (a loop without end, since the host has no timeout) and fault (a buffer overrun).
--   Compress        LPTCompress and LPTDecompress, which pico/lptprotocol.c and dos/SDPP10/LPTSTORE.C share.
--                   The result of LPTDecompress is the bytes it writes, laid over the output buffer.
--   Comp            main of fs/comp.c, which takes a file through both functions, with a round of its loop for
--                   each sector and one more.
--   Comms           lptcomms_readbytes and lptcomms_writebytes of pico/lptcomms.c, over a line of bytes with
--                   timeouts.
--   Handshake       the wires: the pins of the target and lptcomms_readlpt of pico/lptcomms.c. How the cable
--                   leads from port to pin is a parameter, with the wiring that the code assumes.
--   Handshake/ToHost  lptcomms_writebyte with read_byte of dos/SDPP10/LPTSTORE.C, each a machine that makes one
--                   access of the wires at a time; a step is one of either side or a timeout of the target.
--                   ToHost/Stream has the loops over many bytes, lptcomms_writebytes and the calls of
--                   read_byte: either may be at the next byte while the other is still at the last.
--   Handshake/ToTarget  write_byte of dos/SDPP10/LPTSTORE.C with lptcomms_readbyte, in the same way;
--                   ToTarget/Stream has the calls of write_byte and lptcomms_readbytes.
--   Handshake/Turn  the change from a request to its answer, on the same wires: the last wait of write_byte
--                   and read_byte behind it, with lptcomms_writebyte of the answer.
--   Handshake/Again  the change from an answer to the next request: write_byte, while lptcomms_writebyte may
--                   still be in its last wait, and then lptcomms_hasbyte and lptcomms_readbyte.
--   Protocol        lptprotocol_task of pico/lptprotocol.c, one call for each command; a part of it is a
--                   function for each case of its switch.
--   Session         host and target on one cable: the host's bytes are kept until they make a whole command,
--                   and the task is then called. The line takes 1024 bytes of an answer, and none is longer
--                   than 514 (Protocol/Replies).
--   Disk            the interface of pico/disk.h, as a record of operations; it is a parameter of Protocol.
--   DiskFake        pico/diskfake.c, an instance of that interface, with the images of dos/SDPP10/block0.h and
--                   block4.h.
--   FakeLpt         LPTRead and LPTWrite of dos/SDPP10/LPTSTORE.C as FAKE_LPT builds them.
--   Fat32           fs/fat32.c: the directory, the cluster chains and their gaps; the medium is a parameter.
--   Fat32/Volume    the access to disk images and init_disk of fs/fat32.c.
--   Usb             pico/msc_app.c: the sector fetched ahead and the mounting. TinyUSB is a parameter. Whether
--                   the callback of the fetch ahead runs before read_sector returns is the argument early.
--   Target          pico/disk.h as pico/msc_app.c implements it, over Fat32 and Usb: an instance of Disk, with
--                   msc_task and a round of the loop of lptcomms_core in pico/lptstore.c. Target/Mount is
--                   about a stick that was put in, Target/Files about its files, Target/Volumes
--                   about its drives in DOS, Target/ReadBack about what is written to it.
--   Prelude         the tests and list functions over the native numbers that all files share.
--   Examples        each theorem at a concrete input.
--
-- Numbers are natural numbers with the wrap-around of the C types written out; an int of the target is its
-- 32-bit pattern, an int of the driver its 16-bit pattern. A read or write outside an array is a result of
-- its own (none, fault, overrun) wherever the index is not a constant within it.
--
-- Fuel: the loops over a cluster chain in Fat32 take a number of rounds and say out_of_fuel when it is spent.
-- For file_has_gaps 0x0ffffff1 rounds are enough (Fat32/Ends, Fat32/Decides), since a chain without gaps
-- counts up. read_file has no such bound: a root directory that is a cycle is read for ever, and Fat32/Mount
-- supposes one that has an end. A volume is a list of sectors by number; Fat32/Verdicts
-- supposes that its table names only clusters that lie below sector 2 ^ 32, since the code wraps around
-- there. The loop of parse_options takes a round for each character of the line and one more, which is enough
-- (Driver/Lengths). outdec takes 5 levels, the digits of a 16-bit number.
-- main of fs/comp.c takes a round for each sector and one more. The machines of Handshake need no fuel: they
-- are step relations, and work counts the steps that are left.
--
-- Comms and Host begin at whole bytes. Handshake is what they rest on, and Handshake/Line is about how the line
-- of Comms and the wires agree.
--
-- Not modelled: the start-up of pico/lptstore.c, lptcomms_init and lptcomms_writelpt, which set pins; usbhost/,
-- an example of TinyUSB; the interrupt vectors, Shutdown and Timer of DRIVER.C; the timer of
-- LPTSTORE.C; HEADER.ASM; fs/testfat32.c and trials/, which are tests and trials.
-- Of what is modelled two things are left out: the offset of a far pointer, which wraps around at 64K in the
-- buffers of LPTRead and LPTWrite, and a callback of the fetch ahead that runs while write_sector waits for its
-- own, on the flag that the two share.
pub mod Prelude
pub mod Compress
pub mod Comp
pub mod Disk
pub mod Handshake
pub mod Comms
pub mod Protocol
pub mod Host
pub mod Session
pub mod DiskFake
pub mod FakeLpt
pub mod Fat32
pub mod Usb
pub mod Target
pub mod Driver
pub mod Console
pub mod Examples
