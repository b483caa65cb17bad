-- ===== src/Protocol.antt =====
-- The wire protocol, src/protocol.rs: opcodes, capabilities, and the fixed layouts of the
-- messages. A message's `pack` gives the datagram's bytes and its `unpack` reads a buffer of at
-- least that many bytes; `none` is the panic of a slice out of range.
pub mod Pack
use udpcast_rs.Base.{ℕ, Bool, ◌||◌, ◌==◌, Bytes, bit_or}

-- Receiver to sender
abbrev pub cmd_ok : ℕ
cmd_ok = 0

abbrev pub cmd_retransmit : ℕ
cmd_retransmit = 1

abbrev pub cmd_go : ℕ
cmd_go = 2

abbrev pub cmd_connect_req : ℕ
cmd_connect_req = 3

abbrev pub cmd_disconnect : ℕ
cmd_disconnect = 4

-- Sender to receiver
abbrev pub cmd_reqack : ℕ
cmd_reqack = 6

abbrev pub cmd_connect_reply : ℕ
cmd_connect_reply = 7

abbrev pub cmd_data : ℕ
cmd_data = 8

abbrev pub cmd_fec : ℕ
cmd_fec = 9

abbrev pub cmd_hello_new : ℕ
cmd_hello_new = 10

abbrev pub cmd_hello_streaming : ℕ
cmd_hello_streaming = 11

abbrev pub cmd_hello : ℕ
cmd_hello = 0x0500

pub is_hello : ℕ → Bool
is_hello opcode = opcode == cmd_hello_new || opcode == cmd_hello || opcode == cmd_hello_streaming

abbrev pub cap_new_gen : ℕ
cap_new_gen = 0x0001

abbrev pub cap_fec : ℕ
cap_fec = 0x0004

abbrev pub cap_big_endian : ℕ
cap_big_endian = 0x0008

abbrev pub cap_async : ℕ
cap_async = 0x0020

abbrev pub cap_late_join : ℕ
cap_late_join = 0x0040

abbrev pub sender_capabilities_base : ℕ
sender_capabilities_base = bit_or cap_new_gen cap_big_endian

abbrev pub receiver_capabilities : ℕ
receiver_capabilities = bit_or (bit_or cap_new_gen cap_big_endian) cap_late_join

-- The messages. An i32 field is its 32-bit pattern; an array is a list of bytes.
pub record OkMsg : Type 0 where
  pub slice_no : ℕ

pub record Retransmit : Type 0 where
  pub slice_no : ℕ
  pub rxmit : ℕ
  pub map : Bytes

pub record ConnectReq : Type 0 where
  pub capabilities : ℕ
  pub rcvbuf : ℕ

pub record ConnectReply : Type 0 where
  pub cl_nr : ℕ
  pub block_size : ℕ
  pub capabilities : ℕ
  pub mcast : Bytes

pub record Hello : Type 0 where
  pub capabilities : ℕ
  pub mcast : Bytes
  pub block_size : ℕ

pub record DataBlock : Type 0 where
  pub slice_no : ℕ
  pub block_no : ℕ
  pub bytes : ℕ

pub record FecBlock : Type 0 where
  pub stripes : ℕ
  pub slice_no : ℕ
  pub block_no : ℕ
  pub bytes : ℕ

pub record Reqack : Type 0 where
  pub slice_no : ℕ
  pub bytes : ℕ
  pub rxmit : ℕ
