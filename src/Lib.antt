-- ===== src/Lib.antt =====
-- Verification of the FujiNet NIO drivers for MS-DOS and the Amiga.
--
-- A driver asks a FujiNet service over a serial line. On MS-DOS a call frames a request, sends it
-- over a port, and reads frames until one answers it; the disk service builds and parses the
-- payloads of such calls. On the Amiga a serial device runs the Paula chip, and a disk driver
-- offers the blocks of an image through a client that calls the service. A packet backend exchanges
-- whole packets, and holds itself in quarantine while the end of an exchange is not known.
--
-- Parts and files:
--   Base: names of the libraries, Boolean tests, buffers as lists, bits and words.
--   Protocol: msdos/src/nio/nio_protocol.c. `checksum` is nio_protocol_checksum and
--     `validate_response` is nio_protocol_validate_response.
--   DiskProtocol: msdos/src/nio/nio_disk_protocol.c, function by function.
--   Transaction: msdos/src/nio/nio_transaction.c. `transaction_call` is nio_transaction_call; the
--     port's callbacks are parameters over a context, and the buffers stand in `Machine`, where
--     `Reply` tells whether the reply goes to a buffer of its own or to the receive buffer.
--   Nio: msdos/src/nio/nio.c, function by function; the port functions of portio.asm are parameters.
--     `Service` gives it to Dos as the disk service.
--   Dos: msdos/src/driver/commands.c and dispatch.c. `x_cmd` is X_cmd, and `interrupt` is Interrupt.
--     `Types` has the variables and the disk service, `Cache` the two caches, `Input` and `Output`
--     the transfers, `Media` the media check and the parameter block, `Ioctl` the control requests,
--     `Config` the environment, `Dispatch` the table. `Sectors`, `Coherence`, `Attempts`, `Reading`
--     and `Reads` prove the reads, `Writing`, `Batches`, `Writes` and `Outputs` the writes,
--     `Limits`, `Returns` and `Answers` that requests are answered, `Remap` and `Settings` are about
--     the control requests, and `Stale` about two faults of the cache.
--   Paula: amiga/serial.device/fujinet_paula_uart.c, the divisor and the receive ring.
--   Serial: amiga/serial.device/fujinet_serial_lifecycle.c; `lc_x` is fn_serial_lc_x, and the
--     fields of fn_serial_lc_t stand in groups.
--   Disk: amiga/common/fujinet_disk_driver.c; `disk_x` is fujinet_disk_x. The client and the
--     constants of fujinet-nio-lib are parameters.
--   Packet: amiga/nio.device/fujinet_nio_packet_backend.c; `packet_x` is fn_packet_backend_x. The
--     adapter, and the constants and the checksum of fujinet-nio-lib, are parameters.
--   Retry: common/fujinet_disk_retry.c; `retry_exchange` is fujinet_disk_retry_exchange. The
--     transport and the observer are parameters.
--
-- Serial uses the ring of Paula, Transaction the check of Protocol, Nio both of them and
-- DiskProtocol; Dos takes a disk service as a record, which Nio fills. Parameters stand for code
-- that is not in the repository or not in C: the callbacks of a port, the functions of portio.asm,
-- the client of a disk, fujinet-nio-lib, getenv and atoi.
--
-- Numbers are natural numbers with the wrap-around of the C type written out; a counter of type
-- `int` that only counts events does not wrap. A NULL pointer is `none` where the code tests for
-- it, except for the objects that every caller has. The loop of Input_cmd has a round for each
-- sector and one for each step by which the limit of a batch can fall, the one of Output_cmd a
-- round for each sector, and both one for the end. The attempts of a batch have 256 rounds, one for
-- each value of their 8-bit count, which is enough for every limit of retries but 255, where the
-- code does not end while reads fail. The loop at `read_response` has 256 rounds of
-- fuel, one for each value of its 8-bit count; the drain of the chip has one round more than the
-- chip holds bytes; the block loops have one round for each block; the loop over the descriptors of
-- a packet has one round more than the packet has bytes.
--
-- Not modelled: Init_cmd, which is a parameter of the dispatch of which nothing is assumed, the
-- request queue and media profiles of the Amiga, assembly, port I/O, DOS and Exec entry points,
-- printing, tools, tests.
pub mod Base
pub mod Protocol
pub mod DiskProtocol
pub mod Transaction
pub mod Disk
pub mod Dos
pub mod Nio
pub mod Packet
pub mod Paula
pub mod Retry
pub mod Serial
