-- ===== src/Protocol/Pack.antt =====
-- `pack` and `unpack` of each message of src/protocol.rs.
pub mod RoundTrip
mod Tests
use udpcast_rs.Base.{
  ℕ, Option, some, ◌>>=◌, Bytes, replicate, copy_at, range, u16_at, u32_at, be16, be32, as_i16,
  i16_as_i32,
}
use udpcast_rs.Protocol.{
  cmd_ok, cmd_retransmit, cmd_connect_req, cmd_connect_reply, cmd_data, cmd_fec, cmd_reqack, cmd_go,
  cmd_disconnect, OkMsg, Retransmit, ConnectReq, ConnectReply, Hello, DataBlock, FecBlock, Reqack,
}

-- `[0u8; n]`
abbrev pub zeros : ℕ → Bytes
zeros n = replicate n 0

pub pack_ok : OkMsg → Bytes
pack_ok m = copy_at 4 (be32 m.slice_no) (copy_at 2 (be16 0) (copy_at 0 (be16 cmd_ok) (zeros 8)))

pub unpack_ok : Bytes → Option OkMsg
unpack_ok buf = do slice_no ← u32_at buf 4; some (record { slice_no = slice_no })

pub pack_retransmit : Retransmit → Bytes
pack_retransmit m = copy_at 12 m.map (
    copy_at 8 (be32 m.rxmit)
      (copy_at 4 (be32 m.slice_no) (copy_at 0 (be16 cmd_retransmit) (zeros 140))))

pub unpack_retransmit : Bytes → Option Retransmit
unpack_retransmit buf = do
  map ← range buf 12 140
  slice_no ← u32_at buf 4
  rxmit ← u32_at buf 8
  some (record { slice_no = slice_no; rxmit = rxmit; map = map })

pub pack_connect_req : ConnectReq → Bytes
pack_connect_req m =
    copy_at 8 (be32 m.rcvbuf)
      (copy_at 4 (be32 m.capabilities) (copy_at 0 (be16 cmd_connect_req) (zeros 12)))

unfoldable pub unpack_connect_req : Bytes → Option ConnectReq
unpack_connect_req buf = do
  capabilities ← u32_at buf 4
  rcvbuf ← u32_at buf 8
  some (record { capabilities = capabilities; rcvbuf = rcvbuf })

pub pack_connect_reply : ConnectReply → Bytes
pack_connect_reply m = copy_at 16 m.mcast (
    copy_at 12 (be32 m.capabilities) (
      copy_at 8 (be32 m.block_size)
        (copy_at 4 (be32 m.cl_nr) (copy_at 0 (be16 cmd_connect_reply) (zeros 32)))))

unfoldable pub unpack_connect_reply : Bytes → Option ConnectReply
unpack_connect_reply buf = do
  mcast ← range buf 16 32
  cl_nr ← u32_at buf 4
  block_size ← u32_at buf 8
  capabilities ← u32_at buf 12
  some (record {
    cl_nr = cl_nr;
    block_size = block_size;
    capabilities = capabilities;
    mcast = mcast;
  })

-- The block size travels as an i16.
pub pack_hello : Hello → ℕ → Bytes
pack_hello m opcode =
    copy_at 24 (be16 (as_i16 m.block_size))
      (copy_at 8 m.mcast (copy_at 4 (be32 m.capabilities) (copy_at 0 (be16 opcode) (zeros 28))))

unfoldable pub unpack_hello : Bytes → Option Hello
unpack_hello buf = do
  mcast ← range buf 8 24
  capabilities ← u32_at buf 4
  block_size ← u16_at buf 24
  some (record { capabilities = capabilities; mcast = mcast; block_size = i16_as_i32 block_size })

unfoldable pub pack_data_block : DataBlock → Bytes
pack_data_block m = copy_at 12 (be32 m.bytes) (
    copy_at 8 (be16 m.block_no)
      (copy_at 4 (be32 m.slice_no) (copy_at 0 (be16 cmd_data) (zeros 16))))

unfoldable pub unpack_data_block : Bytes → Option DataBlock
unpack_data_block buf = do
  slice_no ← u32_at buf 4
  block_no ← u16_at buf 8
  bytes ← u32_at buf 12
  some (record { slice_no = slice_no; block_no = block_no; bytes = bytes })

-- The number of stripes travels as an i16 in the header's reserved field.
pub pack_fec_block : FecBlock → Bytes
pack_fec_block m = copy_at 12 (be32 m.bytes) (
    copy_at 8 (be16 m.block_no) (
      copy_at 4 (be32 m.slice_no)
        (copy_at 2 (be16 (as_i16 m.stripes)) (copy_at 0 (be16 cmd_fec) (zeros 16)))))

unfoldable pub unpack_fec_block : Bytes → Option FecBlock
unpack_fec_block buf = do
  stripes ← u16_at buf 2
  slice_no ← u32_at buf 4
  block_no ← u16_at buf 8
  bytes ← u32_at buf 12
  some (record {
    stripes = i16_as_i32 stripes;
    slice_no = slice_no;
    block_no = block_no;
    bytes = bytes;
  })

pub pack_reqack : Reqack → Bytes
pack_reqack m = copy_at 12 (be32 m.rxmit) (
    copy_at 8 (be32 m.bytes) (copy_at 4 (be32 m.slice_no) (copy_at 0 (be16 cmd_reqack) (zeros 16))))

unfoldable pub unpack_reqack : Bytes → Option Reqack
unpack_reqack buf = do
  slice_no ← u32_at buf 4
  bytes ← u32_at buf 8
  rxmit ← u32_at buf 12
  some (record { slice_no = slice_no; bytes = bytes; rxmit = rxmit })

pub pack_go : Bytes
pack_go = copy_at 0 (be16 cmd_go) (zeros 4)

pub pack_disconnect : Bytes
pack_disconnect = copy_at 0 (be16 cmd_disconnect) (zeros 4)

-- An address of four bytes at the start of the 16-byte field, and back.
pub ip4_into_16 : Bytes → Bytes
ip4_into_16 octets = copy_at 0 octets (zeros 16)

pub ip4_from_16 : Bytes → Option Bytes
ip4_from_16 field = range field 0 4
