-- ===== src/Lib.antt =====
-- Verification of protozoa, the transcoder and mixer of camera control (pan, tilt and zoom)
-- protocols.
--
-- The program polls a set of channels. The bytes that a channel receives go to its receive buffer
-- (src/buffer.c), from which the channel's reader (src/ccreader.c) decodes messages of one protocol
-- into a camera control packet (src/ccpacket.c). Each packet is handed to writers
-- (src/ccwriter.c), which encode it in the protocol of their own channel and append it to that
-- channel's transmit buffer.
--
-- Ccpacket is src/ccpacket.c. A packet is a record with the fields of `struct ccpacket`; the flags
-- are a natural number, and `int` fields are integers. Flags has the constants of
-- src/ccpacket.h, Modes the static checks (`ccpacket_pan` is Modes.pan), Packet the setters and
-- getters (`ccpacket_set_pan` is Packet.set_pan), Queries the tests of a whole packet. Group,
-- Values, Frames, Preset and Bounds hold the proofs.
--
-- Buffer is src/buffer.c. The block is a list of bytes, `pin` and `pout` are offsets in it.
-- A function with an assert gives a `Run` (Base.Run), which aborts where the assert fails. What
-- `malloc`, `read` and `write` answer is a parameter; the loops that repeat a call on EINTR run
-- over the list of its answers. Inv has the invariant, Queue the buffer as a queue of bytes.
--
-- Bitarray is src/bitarray.h. Timeval is src/timeval.c, with the clock as an argument.
--
-- Ccwriter is src/ccwriter.c. Append is `ccwriter_append`, and the use that a protocol makes of the
-- pointer it returns: `message` appends zeros and fills them in place. Writer is the sending of a
-- packet (`ccwriter_do_write` is Writer.do_write), where the `do_write` callback of a protocol is a
-- field of the writer, and Protocols the table of callbacks and times. Slots, Safety, Gap, Stops,
-- Repeated and Ready hold the proofs.
--
-- Defer is src/defer.c. A pointer to a deferred packet is a number, and `pkts` is the memory behind
-- it; the packets of a writer stand from `deferred` on, one for each receiver. Engine has
-- `defer_packet`, and Next what happens when the timer fires (`defer_next`), which calls the writers
-- again. The tree that src/defer.c keeps its packets in comes from the clump library: Queue has its
-- operations as a parameter, with the laws that Order and Waiting use, and Listed an implementation
-- by an ordered list, for which the laws are proved; Lists has lemmas on ordered lists. Timer is
-- src/timer.c, with the system calls as
-- parameters. Stats is src/stats.c.
--
-- Ccreader is src/ccreader.c. Reading has what the protocol readers work on, and their common loop;
-- `ccreader_process_packet` is a parameter of a reader, a function on whatever stands behind the
-- reader and on the packet. Nodes has the list of writers of a reader, with the receivers that each
-- serves, and Writers the processing of a packet (`ccreader_do_writers` is Writers.do_writers),
-- where `ccwriter_do_write` and `ptz_stats_count` are parameters; `sscanf` is too. Protocols has
-- the table of callbacks, and applies each to a reader with its writers.
--
-- PelcoD is src/pelco_d.c, PelcoP is src/pelco_p.c, Vicon is src/vicon.c, Manchester is
-- src/manchester.c and Infinova is src/infinova.c: Encode (or Write) and Decode have one definition
-- for each function of the source, with its name less the prefix (`pelco_d_do_read` is
-- PelcoD.Decode.do_read). An encoder of part of a message is a function on the message. Vicon.Message,
-- PelcoP.Message and Bitarray.Sets take an encoder as a list of bits to set, and Vicon.Decoded,
-- PelcoP.Decoded and Ccpacket.Updates a decoder as a list of setters to call. Vicon.Received puts
-- the writer and the reader together, over the buffers. Joystick is src/joystick.c: Events decodes
-- an event, Read is the reader; a `short` is read with the lower byte first.
--
-- Numbers: `uint8_t` values are natural numbers taken modulo 2 ^ 8 where the source narrows to them.
-- An `int` is an unbounded integer (Base.Int), with the truncating division, the arithmetic shift
-- and the two's complement pattern of C; the values that the code computes stay far from the
-- limits. `ms * 1000` of `timeval_adjust` wraps at 2 ^ 32.
--
-- Clock: a function that reads the clock more than once takes each reading as an argument, or all of
-- them as a function `clock` from the number of the reading. The clock of a reader, which is asked
-- once for each packet, is a function on the state that stands behind the reader.
--
-- Fuel: the loop of a reader has a round for each available byte and one more, and each round
-- consumes a byte, so it never runs out on a valid buffer. The loop of `timeval_adjust` has a round
-- for each second in the microseconds.
--
-- Not modelled: what the program logs and prints; src/axis.c, which writes HTTP requests as strings;
-- src/rbtree.c, src/pool.c and src/clump.h, a copy of the clump library; and the input and output of
-- src/channel.c, src/poller.c, src/config.c, src/log.c and src/main.c, with the signal handler of
-- src/timer.c. `deferred_pkt_init` is modelled where `ccpacket_create` finds memory.
pub mod Base
pub mod Timeval
pub mod Ccpacket
pub mod Buffer
pub mod Bitarray
pub mod Ccwriter
pub mod Ccreader
pub mod PelcoD
pub mod Manchester
pub mod PelcoP
pub mod Vicon
pub mod Stats
pub mod Timer
pub mod Defer
pub mod Joystick
pub mod Infinova
