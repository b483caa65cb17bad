-- ===== src/Statistics.antt =====
-- The counters of src/statistics.rs that a transfer keeps. The clock and the fields that only
-- decide when and what to print are left out, and so is the printing. A u64 is 64 bits as a usize.
use udpcast_rs.Base.{ℕ, usize_add}

pub record SenderStats : Type 0 where
  pub total_bytes : ℕ
  pub retransmissions : ℕ
  pub cl_no : ℕ

unfoldable pub new : SenderStats
new = record { total_bytes = 0; retransmissions = 0; cl_no = 0 }

unfoldable pub add_bytes : SenderStats → ℕ → SenderStats
add_bytes s bytes = record s { total_bytes = usize_add s.total_bytes bytes }

unfoldable pub add_retransmissions : SenderStats → ℕ → SenderStats
add_retransmissions s retransmissions = record s {
  retransmissions = usize_add s.retransmissions retransmissions;
}

unfoldable pub set_answered : SenderStats → ℕ → SenderStats
set_answered s cl_no = record s { cl_no = cl_no }
