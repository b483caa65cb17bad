-- ===== src/Protocol/Pack/RoundTrip.antt =====
-- What `pack` writes, `unpack` reads back, with any bytes behind it. A message is first brought
-- into the form of its fields one after the other.
use mathlib.Core.List.{append-nil, append_assoc}
use udpcast_rs.Base.{
  ℕ, ◌+◌, ◌<◌, ◌^◌, ◌%◌, ◌≡◌, refl, ap, some, ◌++◌, ◌∷◌, [], arith, Bytes, be16, be32, length,
  range-append, u16_at-append, u32_at-append, take-append_of_length, drop-append_past, as_i16,
  i16_as_i32-as_i16,
}
use udpcast_rs.Protocol.{
  cmd_ok, cmd_data, cmd_fec, cmd_reqack, cmd_retransmit, cmd_connect_req, cmd_connect_reply, OkMsg,
  DataBlock, FecBlock, Reqack, Retransmit, ConnectReq, ConnectReply, Hello,
}
use udpcast_rs.Protocol.Pack.{
  pack_ok, unpack_ok, pack_data_block, unpack_data_block, pack_fec_block, unpack_fec_block,
  pack_reqack, unpack_reqack, pack_retransmit, unpack_retransmit, pack_connect_req,
  unpack_connect_req, pack_connect_reply, unpack_connect_reply, pack_hello, unpack_hello,
}

-- A 32-bit pattern whose signed value an i16 can hold.
abbrev pub FitsI16 : ℕ → Type 0
FitsI16 x = (x < 2 ^ 32) × ((x + 2 ^ 15) % 2 ^ 32 < 2 ^ 16)

abbrev header : ℕ → ℕ → Bytes
header opcode reserved = be16 opcode ++ be16 reserved

-- The `ok` answer comes back with its slice number.
pub unpack-pack_ok :
    (m : OkMsg) (rest : Bytes) → m.slice_no < 2 ^ 32 → unpack_ok (pack_ok m ++ rest) ≡ some m
unfolding pack_ok unpack_ok
unpack-pack_ok m rest h = rw (u32_at-append 4 (header cmd_ok 0) m.slice_no rest refl h)

-- The header of a data block is read back, with any bytes behind it, if its fields fit their 32 and
-- 16 bits.
pub unpack-pack_data_block :
    (m : DataBlock) (rest : Bytes)
    → m.slice_no < 2 ^ 32
    → m.block_no < 2 ^ 16
    → m.bytes < 2 ^ 32
    → unpack_data_block (pack_data_block m ++ rest) ≡ some m
unfolding pack_data_block unpack_data_block
unpack-pack_data_block m rest h k l = rw (
  u32_at-append 4 (header cmd_data 0) m.slice_no
      (be16 m.block_no ++ (be16 0 ++ (be32 m.bytes ++ rest))) refl h,
  u16_at-append 8 (header cmd_data 0 ++ be32 m.slice_no) m.block_no
      (be16 0 ++ (be32 m.bytes ++ rest)) refl k,
  u32_at-append 12 (header cmd_data 0 ++ (be32 m.slice_no ++ (be16 m.block_no ++ be16 0))) m.bytes
      rest refl l,
)

-- The header of a FEC block is read back, with any bytes behind it, if the number of stripes fits a
-- signed 16 bits and the other fields their 32 and 16 bits.
pub unpack-pack_fec_block :
    (m : FecBlock) (rest : Bytes)
    → FitsI16 m.stripes
    → m.slice_no < 2 ^ 32
    → m.block_no < 2 ^ 16
    → m.bytes < 2 ^ 32
    → unpack_fec_block (pack_fec_block m ++ rest) ≡ some m
unfolding pack_fec_block unpack_fec_block
unpack-pack_fec_block m rest s h k l = rw (
  u16_at-append 2 (be16 cmd_fec) (as_i16 m.stripes)
      (be32 m.slice_no ++ (be16 m.block_no ++ (be16 0 ++ (be32 m.bytes ++ rest)))) refl
      (omega arith),
  u32_at-append 4 (header cmd_fec (as_i16 m.stripes)) m.slice_no
      (be16 m.block_no ++ (be16 0 ++ (be32 m.bytes ++ rest))) refl h,
  u16_at-append 8 (header cmd_fec (as_i16 m.stripes) ++ be32 m.slice_no) m.block_no
      (be16 0 ++ (be32 m.bytes ++ rest)) refl k,
  u32_at-append 12
      (header cmd_fec (as_i16 m.stripes) ++ (be32 m.slice_no ++ (be16 m.block_no ++ be16 0)))
      m.bytes rest refl l,
  i16_as_i32-as_i16 m.stripes s.0 s.1,
)

-- A REQACK message is read back, with any bytes behind it, if its fields fit 32 bits.
pub unpack-pack_reqack :
    (m : Reqack) (rest : Bytes)
    → m.slice_no < 2 ^ 32
    → m.bytes < 2 ^ 32
    → m.rxmit < 2 ^ 32
    → unpack_reqack (pack_reqack m ++ rest) ≡ some m
unfolding pack_reqack unpack_reqack
unpack-pack_reqack m rest h k l = rw (
  u32_at-append 4 (header cmd_reqack 0) m.slice_no (be32 m.bytes ++ (be32 m.rxmit ++ rest)) refl h,
  u32_at-append 8 (header cmd_reqack 0 ++ be32 m.slice_no) m.bytes (be32 m.rxmit ++ rest) refl k,
  u32_at-append 12 (header cmd_reqack 0 ++ (be32 m.slice_no ++ be32 m.bytes)) m.rxmit rest refl l,
)

pub unpack-pack_connect_req :
    (m : ConnectReq) (rest : Bytes)
    → m.capabilities < 2 ^ 32
    → m.rcvbuf < 2 ^ 32
    → unpack_connect_req (pack_connect_req m ++ rest) ≡ some m
unfolding pack_connect_req unpack_connect_req
unpack-pack_connect_req m rest h k = rw (
  u32_at-append 4 (header cmd_connect_req 0) m.capabilities (be32 m.rcvbuf ++ rest) refl h,
  u32_at-append 8 (header cmd_connect_req 0 ++ be32 m.capabilities) m.rcvbuf rest refl k,
)

pack_retransmit-append :
    (m : Retransmit) (rest : Bytes)
    → length m.map ≡ 128
    → pack_retransmit m ++ rest
      ≡ header cmd_retransmit 0 ++ (be32 m.slice_no ++ (be32 m.rxmit ++ (m.map ++ rest)))
unfolding pack_retransmit
pack_retransmit-append m rest l = rw (l, append-nil)

-- A RETRANSMIT message is read back, with any bytes behind it, if its slice number and round fit 32
-- bits and its map has 128 bytes.
pub unpack-pack_retransmit :
    (m : Retransmit) (rest : Bytes)
    → m.slice_no < 2 ^ 32
    → m.rxmit < 2 ^ 32
    → length m.map ≡ 128
    → unpack_retransmit (pack_retransmit m ++ rest) ≡ some m
unfolding unpack_retransmit
unpack-pack_retransmit m rest h k l = rw (
  pack_retransmit-append m rest l,
  range-append 12 140 (header cmd_retransmit 0 ++ (be32 m.slice_no ++ be32 m.rxmit)) m.map rest refl
      (omega arith),
  u32_at-append 4 (header cmd_retransmit 0) m.slice_no (be32 m.rxmit ++ (m.map ++ rest)) refl h,
  u32_at-append 8 (header cmd_retransmit 0 ++ be32 m.slice_no) m.rxmit (m.map ++ rest) refl k,
)

pack_connect_reply-append :
    (m : ConnectReply) (rest : Bytes)
    → length m.mcast ≡ 16
    → pack_connect_reply m ++ rest
      ≡ header cmd_connect_reply 0
        ++ (be32 m.cl_nr ++ (be32 m.block_size ++ (be32 m.capabilities ++ (m.mcast ++ rest))))
unfolding pack_connect_reply
pack_connect_reply-append m rest l = rw (l, append-nil)

-- A CONNECT_REPLY message is read back, with any bytes behind it, if its numbers fit 32 bits and
-- its address has 16 bytes.
pub unpack-pack_connect_reply :
    (m : ConnectReply) (rest : Bytes)
    → m.cl_nr < 2 ^ 32
    → m.block_size < 2 ^ 32
    → m.capabilities < 2 ^ 32
    → length m.mcast ≡ 16
    → unpack_connect_reply (pack_connect_reply m ++ rest) ≡ some m
unfolding unpack_connect_reply
unpack-pack_connect_reply m rest h k c l = rw (
  pack_connect_reply-append m rest l,
  range-append 16 32
      (header cmd_connect_reply 0 ++ (be32 m.cl_nr ++ (be32 m.block_size ++ be32 m.capabilities)))
      m.mcast rest refl (omega arith),
  u32_at-append 4 (header cmd_connect_reply 0) m.cl_nr
      (be32 m.block_size ++ (be32 m.capabilities ++ (m.mcast ++ rest))) refl h,
  u32_at-append 8 (header cmd_connect_reply 0 ++ be32 m.cl_nr) m.block_size
      (be32 m.capabilities ++ (m.mcast ++ rest)) refl k,
  u32_at-append 12 (header cmd_connect_reply 0 ++ (be32 m.cl_nr ++ be32 m.block_size))
      m.capabilities (m.mcast ++ rest) refl c,
)

pack_hello-append :
    (m : Hello) (opcode : ℕ) (rest : Bytes)
    → length m.mcast ≡ 16
    → pack_hello m opcode ++ rest
      ≡ header opcode 0
        ++ (be32 m.capabilities ++ (m.mcast ++ (be16 (as_i16 m.block_size) ++ (be16 0 ++ rest))))
unfolding pack_hello
pack_hello-append m opcode rest l =
    rw
      (
        l,
        take-append_of_length 16 m.mcast (0 ∷ 0 ∷ 0 ∷ 0 ∷ []) l,
        drop-append_past 16 2 m.mcast (0 ∷ 0 ∷ 0 ∷ 0 ∷ []) l,
      )
      (ap (λ fields. header opcode 0 ++ (be32 m.capabilities ++ fields))
        (append_assoc m.mcast (be16 (as_i16 m.block_size) ++ be16 0) rest))

-- A HELLO message of any opcode is read back, with any bytes behind it, if its fields fit: the
-- capabilities 32 bits, the block size a signed 16 bits, the address 16 bytes.
pub unpack-pack_hello :
    (m : Hello) (opcode : ℕ) (rest : Bytes)
    → m.capabilities < 2 ^ 32
    → FitsI16 m.block_size
    → length m.mcast ≡ 16
    → unpack_hello (pack_hello m opcode ++ rest) ≡ some m
unfolding unpack_hello
unpack-pack_hello m opcode rest h k l = rw (
  pack_hello-append m opcode rest l,
  range-append 8 24 (header opcode 0 ++ be32 m.capabilities) m.mcast
      (be16 (as_i16 m.block_size) ++ (be16 0 ++ rest)) refl (omega arith),
  u32_at-append 4 (header opcode 0) m.capabilities
      (m.mcast ++ (be16 (as_i16 m.block_size) ++ (be16 0 ++ rest))) refl h,
  u16_at-append 24 (header opcode 0 ++ (be32 m.capabilities ++ m.mcast)) (as_i16 m.block_size)
      (be16 0 ++ rest) (omega arith) (omega arith),
  i16_as_i32-as_i16 m.block_size k.0 k.1,
)
