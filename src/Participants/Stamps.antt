-- ===== src/Participants/Stamps.antt =====
-- The rounds that the drop budget starts from.
use udpcast_rs.Base.{ℕ, ◌<◌, ◌≡◌, ◌≢◌, arith, true, some, Option, length, length-set, get_or-set}
use udpcast_rs.Participants.{
  ParticipantsDb, ClientDesc, blank, stamp, other_slice, mark_answered, ever_answered,
  first_answered_round,
}
use udpcast_rs.Participants.Table.{slot}

stamp_twice :
    (c : ClientDesc) (sn r1 r2 : ℕ)
    → ((stamp (stamp c (some sn) r1) (some sn) r2).first_answered_round
        ≡ (stamp c (some sn) r1).first_answered_round)
      × ((stamp c (some sn) r1).ever_answered ≡ true)
unfolding stamp other_slice
stamp_twice c sn r1 r2 = ground arith

length-mark_answered :
    (db : ParticipantsDb) (i : ℕ) (sn : Option ℕ) (r : ℕ)
    → length (mark_answered db i sn r).client_table ≡ length db.client_table
unfolding mark_answered
length-mark_answered db i sn r = length-set db.client_table i _

stamped_at :
    (db : ParticipantsDb) (i : ℕ) (sn : Option ℕ) (r : ℕ)
    → i < length db.client_table
    → slot (mark_answered db i sn r).client_table i ≡ stamp (slot db.client_table i) sn r
unfolding mark_answered
stamped_at db i sn r lt =
    ground (arith, get_or-set db.client_table i i (stamp (slot db.client_table i) sn r) blank)

-- For an index in the table, a second answer to the same slice, whatever its round, keeps the stamp
-- that the first one left, and the participant counts as having answered.
pub mark_answered-first_wins :
    (db : ParticipantsDb) (i sn r1 r2 : ℕ)
    → i < length db.client_table
    → (first_answered_round (mark_answered (mark_answered db i (some sn) r1) i (some sn) r2) i
        ≡ first_answered_round (mark_answered db i (some sn) r1) i)
      × (ever_answered (mark_answered db i (some sn) r1) i ≡ true)
unfolding first_answered_round ever_answered
mark_answered-first_wins db i sn r1 r2 lt = ground (
  arith,
  stamped_at db i (some sn) r1 lt,
  stamped_at (mark_answered db i (some sn) r1) i (some sn) r2 still,
  stamp_twice (slot db.client_table i) sn r1 r2,
)
  where
    still : i < length (mark_answered db i (some sn) r1).client_table
    still = omega (arith, length-mark_answered db i (some sn) r1)

-- For an index in the table with a stamp of another slice, an answer stamps the new slice with its
-- round, and the stamp of another index is kept.
pub mark_answered-new_slice :
    (db : ParticipantsDb) (i j sn old round new_round : ℕ)
    → i < length db.client_table
    → first_answered_round db i ≡ some (old, round)
    → old ≢ sn
    → i ≢ j
    → (first_answered_round (mark_answered db i (some sn) new_round) i ≡ some (sn, new_round))
      × (first_answered_round (mark_answered db i (some sn) new_round) j
          ≡ first_answered_round db j)
unfolding first_answered_round mark_answered stamp other_slice
mark_answered-new_slice db i j sn old round new_round lt e ne other = ground (
  arith,
  stamped_at db i (some sn) new_round lt,
  get_or-set db.client_table i j (stamp (slot db.client_table i) (some sn) new_round) blank,
)
