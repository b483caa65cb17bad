-- ===== src/SendData/Answers/Adapt.antt =====
-- The size of the next slices, which losses make smaller and acknowledgements larger.
use udpcast_rs.Base.{◌^◌, ◌<◌, ◌≤◌, ◌≡◌, arith, some}
use udpcast_rs.SendData.{Slice, NetConfig}
use udpcast_rs.SendData.Answers.{Sender, grow, ack_slice, shrink, adapt, send_reqack}

-- The size is between 32 blocks and the maximum, whose quarter more a u32 can hold.
pub record IsSized (c : NetConfig) : Type 0 where
  pub least : 32 ≤ c.slice_size
  pub most : c.slice_size ≤ c.max_slice
  pub small : c.max_slice < 2 ^ 31

grow-IsSized : (c : NetConfig) → IsSized c → IsSized (grow c) × ((grow c).max_slice ≡ c.max_slice)
unfolding grow
grow-IsSized c s = ground arith

adapt-IsSized :
    (c : NetConfig) (s : Slice)
    → IsSized c
    → s.last_good_block ≤ c.max_slice
    → IsSized (adapt c s) × ((adapt c s).max_slice ≡ c.max_slice)
unfolding adapt shrink
adapt-IsSized c s z l = ground arith

ack_slice-IsSized :
    (w w' : Sender)
    → IsSized w.config
    → ack_slice w ≡ some w'
    → IsSized w'.config × (w'.config.max_slice ≡ w.config.max_slice)
unfolding ack_slice
ack_slice-IsSized w w' z e = ground (arith, grow-IsSized w.config z)

-- If the slice size is between 32 and a maximum below 2 ^ 31, and the last good block is no more
-- than the maximum, then asking for answers, where it does not end the process, leaves the slice
-- size between 32 and the same maximum.
pub send_reqack-IsSized :
    (w w' : Sender)
    → IsSized w.config
    → w.slice.last_good_block ≤ w.config.max_slice
    → send_reqack w ≡ some w'
    → IsSized w'.config × (w'.config.max_slice ≡ w.config.max_slice)
unfolding send_reqack
send_reqack-IsSized w w' z l e =
    ground (arith, ack_slice-IsSized w w' z, adapt-IsSized w.config w.slice z l)
