-- ===== src/Participants/Valid.antt =====
-- Which indices name participants, after an operation.
use udpcast_rs.Base.{ℕ, ◌≡◌, arith, false, not, ◌&&◌, ◌==◌, Option, get_or-set}
use udpcast_rs.Participants.{
  ParticipantsDb, ClientDesc, blank, stamp, is_participant_valid, mark_answered, remove_participant,
}
use udpcast_rs.Participants.Table.{slot}
use udpcast_rs.Participants.Invariant.{stamp-same, used_at-lt}

pub mark_answered-valid :
    (db : ParticipantsDb) (cl : ℕ) (sn : Option ℕ) (r j : ℕ)
    → is_participant_valid (mark_answered db cl sn r) j ≡ is_participant_valid db j
unfolding is_participant_valid mark_answered
mark_answered-valid db cl sn r j = ground (
  arith,
  get_or-set db.client_table cl j (stamp (slot db.client_table cl) sn r) blank,
  stamp-same (slot db.client_table cl) sn r,
)

pub remove_participant-valid :
    (db : ParticipantsDb) (cl j : ℕ)
    → is_participant_valid (remove_participant db cl) j
      ≡ (not (cl == j) && is_participant_valid db j)
unfolding is_participant_valid remove_participant
remove_participant-valid db cl j =
    ground (arith, get_or-set db.client_table cl j gone blank, used_at-lt db.client_table cl)
  where
    gone : ClientDesc
    gone = record (slot db.client_table cl) { used = false }
