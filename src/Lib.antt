-- ===== src/Lib.antt =====
-- The transfer core of udpcast-rs, a program that sends one file to many receivers by multicast.
--
-- The sender reads a file into a ring buffer and cuts it into slices of up to 1024 blocks. A slice
-- is sent, then the receivers are asked about it round by round: each answers that it has the
-- slice, or which blocks it lacks, and these are sent again. When every participant has a slice,
-- its memory returns to the ring. Paths are from the repository's root.
--
-- - Protocol (src/protocol.rs): the messages and constants; Protocol.Pack has `pack` and `unpack`
--   of each message, on lists of bytes. `none` is the panic of a read out of range.
-- - Produconsum (src/produconsum.rs): the counting queue between two threads. A method is one
--   critical section on the record of the mutex's fields. A wait takes the list of its wakeups:
--   the clock and the state that the other threads left at each of them. Produconsum.Handshake is
--   the step relation of a sleeping consumer and the notifications of the producer.
-- - Fifo (src/fifo.rs): the ring buffer and its two queues; `write_at` and `read_at`.
-- - DiskIo (src/diskio.rs): the loops of `local_reader_fifo` and `writer` on the two ends of a ring,
--   cut at their critical sections. A step relation interleaves them in any order; what `read` and
--   `write_all` return is the environment's. DiskIo.Pipe has what every run promises.
-- - Fec (src/fec.rs): the tables of the field of 256 elements and the operations on blocks;
--   Fec.Matrix has `invert_mat` and `fec_decode`. A block is a list of bytes.
-- - Bitmap (src/participants.rs, src/senddata.rs): bit tests and writes on arrays of bytes.
-- - Participants (src/participants.rs): the table of receivers.
-- - Negotiate (src/negotiate.rs): the rounds before a transfer, as functions of what `select`, the
--   sockets, the keys and the clock give; Negotiate.Start is `start_sender_with_socks` up to the
--   transfer. What `do_transfer` takes over from the participants is there too.
-- - Statistics (src/statistics.rs): the counters that a transfer keeps.
-- - SendData (src/senddata.rs): the sender's slices. SendData.Messages is `handle_next_message`,
--   what an answer does to the slices and to the table; SendData.Answers is `ack_slice`,
--   `send_reqack` and the two passes of the main loop of `spawn_net_sender` that call them.
--   SendData.Blocks is `append_ring`, `send_slice` and `rexmit_slice`: the packets as a list.
--   SendData.Drop is what the loop does when no answer came in time; SendData.Transmit fills a new
--   slice, sends missing blocks, and repeats the replies to receivers that never answered.
--   SendData.Parity is `fec_encode_slice` and `send_fec_blocks`.
-- - ReceiveData (src/receivedata.rs): the receiver's slices and `complete_slice`. ReceiveData.Table
--   finds and opens slices, ReceiveData.Recover is `check_slice_complete` and `try_fec_recover`,
--   ReceiveData.Blocks is `process_data_block` and `process_fec_block`, ReceiveData.Requests is
--   `process_reqack`, and ReceiveData.Loop is the main loop of `spawn_net_receiver` with
--   `send_disconnect`, as a function of what the sockets, the clock and the writer thread
--   give in each pass. ReceiveData.Leaving says why the loop is left.
-- - Connect (src/receiver.rs): the loop of `start_receiver` that finds a sender before a transfer.
-- - Base: Boolean tests, lists, big-endian bytes, machine arithmetic and counting.
--
-- A `usize` and a u64 are numbers modulo 2 ^ 64, an i32 is its pattern modulo 2 ^ 32: the
-- arithmetic wraps around, as in the release profile. A state that is written in place is passed
-- and returned. `none` as the result of an operation is the end of the process, by `fatal` or by
-- a panic. Loops run over lists or count their rounds down, so no fuel is used; the loops of the two
-- disk threads, which nothing bounds, are a step relation.
--
-- Not modelled: the system calls on sockets, terminals, files and pipes, and the option parsing,
-- which are input and output only; the rate governor, which stands on clocks and floating-point
-- numbers. The sender's main loop is modelled by its passes and not as a whole. The index of a
-- participant in a message of the sender's queue is looked up when the message is queued; the
-- handlers are modelled from there on. A block size is not 0 where a number of blocks is divided by
-- it. DiskIo puts the two threads at the ends of one ring, where in the program each stands at the
-- end of its own, with the network thread at the other; its waits are tests of what is in the
-- queues, and the sleep on the condition variable with its notifications is in
-- Produconsum.Handshake.
pub mod Base
pub mod Protocol
pub mod Produconsum
pub mod Fifo
pub mod DiskIo
pub mod Fec
pub mod Bitmap
pub mod Participants
pub mod Negotiate
pub mod Statistics
pub mod SendData
pub mod ReceiveData
pub mod Connect
