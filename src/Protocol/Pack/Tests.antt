-- ===== src/Protocol/Pack/Tests.antt =====
-- The messages' theorems, each at one message with bytes behind it.
use udpcast_rs.Base.{◌-◌, ◌^◌, ◌≡◌, refl, some, ◌++◌, [], ◌∷◌, arith, Bytes, replicate}
use udpcast_rs.Protocol.{
  OkMsg, DataBlock, FecBlock, Reqack, Retransmit, ConnectReq, ConnectReply, Hello, cmd_hello,
}
use udpcast_rs.Protocol.Pack.{
  pack_ok, unpack_ok, pack_data_block, unpack_data_block, pack_fec_block, unpack_fec_block,
  pack_reqack, unpack_reqack, pack_retransmit, unpack_retransmit, pack_connect_req,
  unpack_connect_req, pack_connect_reply, unpack_connect_reply, pack_hello, unpack_hello,
}
use udpcast_rs.Protocol.Pack.RoundTrip.{
  unpack-pack_ok, unpack-pack_data_block, unpack-pack_fec_block, unpack-pack_reqack,
  unpack-pack_retransmit, unpack-pack_connect_req, unpack-pack_connect_reply, unpack-pack_hello,
}

abbrev rest : Bytes
rest = 1 ∷ 2 ∷ []

abbrev ok_msg : OkMsg
ok_msg = record { slice_no = 258 }

abbrev data_block : DataBlock
data_block = record { slice_no = 3; block_no = 1023; bytes = 70000 }

-- Sixteen stripes, and a slice number with the sign bit set.
abbrev fec_block : FecBlock
fec_block = record { stripes = 16; slice_no = 2 ^ 32 - 1; block_no = 5; bytes = 70000 }

abbrev reqack : Reqack
reqack = record { slice_no = 3; bytes = 70000; rxmit = 2 }

abbrev retransmit : Retransmit
retransmit = record { slice_no = 3; rxmit = 2; map = replicate 128 255 }

abbrev connect_req : ConnectReq
connect_req = record { capabilities = 73; rcvbuf = 212992 }

abbrev connect_reply : ConnectReply
connect_reply = record {
  cl_nr = 2 ^ 32 - 1;
  block_size = 1456;
  capabilities = 9;
  mcast = replicate 16 232;
}

abbrev hello : Hello
hello = record { capabilities = 9; mcast = replicate 16 232; block_size = 1456 }

ok_bytes : pack_ok ok_msg ≡ 0 ∷ 0 ∷ 0 ∷ 0 ∷ 0 ∷ 0 ∷ 1 ∷ 2 ∷ []
unfolding pack_ok
ok_bytes = refl

unpack-pack_ok_example : unpack_ok (pack_ok ok_msg ++ rest) ≡ some ok_msg
unpack-pack_ok_example = unpack-pack_ok ok_msg rest (omega arith)

unpack-pack_data_block_example :
    unpack_data_block (pack_data_block data_block ++ rest) ≡ some data_block
unpack-pack_data_block_example =
    unpack-pack_data_block data_block rest (omega arith) (omega arith) (omega arith)

unpack-pack_fec_block_example : unpack_fec_block (pack_fec_block fec_block ++ rest) ≡ some fec_block
unpack-pack_fec_block_example =
    unpack-pack_fec_block fec_block rest (omega arith, omega arith) (omega arith) (omega arith)
      (omega arith)

unpack-pack_reqack_example : unpack_reqack (pack_reqack reqack ++ rest) ≡ some reqack
unpack-pack_reqack_example =
    unpack-pack_reqack reqack rest (omega arith) (omega arith) (omega arith)

unpack-pack_retransmit_example :
    unpack_retransmit (pack_retransmit retransmit ++ rest) ≡ some retransmit
unpack-pack_retransmit_example =
    unpack-pack_retransmit retransmit rest (omega arith) (omega arith) refl

unpack-pack_connect_req_example :
    unpack_connect_req (pack_connect_req connect_req ++ rest) ≡ some connect_req
unpack-pack_connect_req_example =
    unpack-pack_connect_req connect_req rest (omega arith) (omega arith)

unpack-pack_connect_reply_example :
    unpack_connect_reply (pack_connect_reply connect_reply ++ rest) ≡ some connect_reply
unpack-pack_connect_reply_example =
    unpack-pack_connect_reply connect_reply rest (omega arith) (omega arith) (omega arith) refl

unpack-pack_hello_example : unpack_hello (pack_hello hello cmd_hello ++ rest) ≡ some hello
unpack-pack_hello_example =
    unpack-pack_hello hello cmd_hello rest (omega arith) (omega arith, omega arith) refl
