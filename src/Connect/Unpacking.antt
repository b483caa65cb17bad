-- ===== src/Connect/Unpacking.antt =====
-- The messages that a receiver reads before a transfer are read from any full buffer.
use udpcast_rs.Base.{
  ◌≤◌, ◌≡◌, refl, arith, Bytes, length, some, range_within, u16_at_within, u32_at_within,
  i16_as_i32,
}
use udpcast_rs.Protocol.{ConnectReply, Hello, Reqack, DataBlock, FecBlock}
use udpcast_rs.Protocol.Pack.{
  unpack_connect_reply, unpack_hello, unpack_reqack, unpack_data_block, unpack_fec_block,
}

module _ (buf : Bytes) (h : 32 ≤ length buf) where
  pub unpack_connect_reply_within : (m : ConnectReply) × (unpack_connect_reply buf ≡ some m)
  unfolding unpack_connect_reply
  unpack_connect_reply_within =
      let (mcast, a) = range_within buf 16 32 (omega arith) in
      let (cl_nr, b) = u32_at_within buf 4 (omega arith) in
      let (block_size, c) = u32_at_within buf 8 (omega arith) in
      let (capabilities, d) = u32_at_within buf 12 (omega arith) in
      (
        record {
          cl_nr = cl_nr;
          block_size = block_size;
          capabilities = capabilities;
          mcast = mcast;
        },
        rw (a, b, c, d) refl,
      )

  pub unpack_hello_within : (m : Hello) × (unpack_hello buf ≡ some m)
  unfolding unpack_hello
  unpack_hello_within =
      let (mcast, a) = range_within buf 8 24 (omega arith) in
      let (capabilities, b) = u32_at_within buf 4 (omega arith) in
      let (block_size, c) = u16_at_within buf 24 (omega arith) in
      (
        record { capabilities = capabilities; mcast = mcast; block_size = i16_as_i32 block_size },
        rw (a, b, c) refl,
      )

  pub unpack_reqack_within : (m : Reqack) × (unpack_reqack buf ≡ some m)
  unfolding unpack_reqack
  unpack_reqack_within =
      let (slice_no, a) = u32_at_within buf 4 (omega arith) in
      let (bytes, b) = u32_at_within buf 8 (omega arith) in
      let (rxmit, c) = u32_at_within buf 12 (omega arith) in
      (record { slice_no = slice_no; bytes = bytes; rxmit = rxmit }, rw (a, b, c) refl)

  pub unpack_data_block_within : (m : DataBlock) × (unpack_data_block buf ≡ some m)
  unfolding unpack_data_block
  unpack_data_block_within =
      let (slice_no, a) = u32_at_within buf 4 (omega arith) in
      let (block_no, b) = u16_at_within buf 8 (omega arith) in
      let (bytes, c) = u32_at_within buf 12 (omega arith) in
      (record { slice_no = slice_no; block_no = block_no; bytes = bytes }, rw (a, b, c) refl)

  pub unpack_fec_block_within : (m : FecBlock) × (unpack_fec_block buf ≡ some m)
  unfolding unpack_fec_block
  unpack_fec_block_within =
      let (stripes, a) = u16_at_within buf 2 (omega arith) in
      let (slice_no, b) = u32_at_within buf 4 (omega arith) in
      let (block_no, c) = u16_at_within buf 8 (omega arith) in
      let (bytes, d) = u32_at_within buf 12 (omega arith) in
      (
        record {
          stripes = i16_as_i32 stripes;
          slice_no = slice_no;
          block_no = block_no;
          bytes = bytes;
        },
        rw (a, b, c, d) refl,
      )
