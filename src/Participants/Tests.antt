-- ===== src/Participants/Tests.antt =====
-- Runs of the table, and its theorems at one table.
use udpcast_rs.Base.{ℕ, ◌≡◌, ◌≢◌, ◌↔◌, refl, arith, true, false, none, some, length}
use udpcast_rs.Participants.{
  SocketAddrV4, ParticipantsDb, max_clients, new, lookup_participant, lookup_from, free_from,
  add_participant, remove_participant, mark_answered, stamp, other_slice, first_answered_round,
  ever_answered,
}
use udpcast_rs.Participants.Invariant.{
  IsValid, new-IsValid, add_participant-IsValid, remove_participant-IsValid, mark_answered-IsValid,
}
use udpcast_rs.Participants.Members.{
  lookup-add_participant, add_participant-refused_iff, lookup-remove_participant,
}
use udpcast_rs.Participants.Stamps.{mark_answered-first_wins, mark_answered-new_slice}

abbrev first : SocketAddrV4
first = record { ip = 0xC0A80002; port = 9000 }

abbrev second : SocketAddrV4
second = record { ip = 0xC0A80003; port = 9000 }

-- One participant, then two.
abbrev one : ParticipantsDb
one = (add_participant new first 9 212992 false).1

abbrev two : ParticipantsDb
two = (add_participant one second 9 212992 false).1

one-IsValid : IsValid one
one-IsValid = add_participant-IsValid new first 9 212992 false new-IsValid

two-IsValid : IsValid two
two-IsValid = add_participant-IsValid one second 9 212992 false one-IsValid

found_second : lookup_participant two second ≡ some 1
unfolding lookup_participant add_participant lookup_from free_from new
found_second = refl

-- Point to point there is room for one.
refused_in_pointopoint : (add_participant one second 9 212992 true).0 ≡ none
unfolding lookup_participant add_participant lookup_from free_from new
refused_in_pointopoint = refl

added_second : (add_participant one second 9 212992 false).0 ≡ some 1
unfolding lookup_participant add_participant lookup_from free_from new
added_second = refl

found_first : lookup_participant one first ≡ some 0
unfolding lookup_participant add_participant lookup_from free_from new
found_first = refl

add_participant-IsValid_example : IsValid (add_participant two first 9 212992 false).1
add_participant-IsValid_example = add_participant-IsValid two first 9 212992 false two-IsValid

remove_participant-IsValid_example : IsValid (remove_participant two 0)
remove_participant-IsValid_example = remove_participant-IsValid two 0 two-IsValid

mark_answered-IsValid_example : IsValid (mark_answered two 1 (some 4) 2)
mark_answered-IsValid_example = mark_answered-IsValid two 1 (some 4) 2 two-IsValid

lookup-add_participant_example :
    (lookup_participant two second ≡ some 1)
    × ((other : SocketAddrV4) (j : ℕ)
        → lookup_participant one other ≡ some j
        → lookup_participant two other ≡ some j)
lookup-add_participant_example =
    lookup-add_participant one second 9 212992 false 1 one-IsValid added_second

add_participant-refused_iff_example :
    ((add_participant two first 9 212992 false).0 ≡ none)
    ↔ ((lookup_participant two first ≡ none) × (two.nr_participants ≡ max_clients))
add_participant-refused_iff_example = add_participant-refused_iff two first 9 212992 two-IsValid

lookup-remove_participant_example :
    (lookup_participant two second ≡ some 1
      → lookup_participant (remove_participant two 1) second ≡ none)
    × (lookup_participant two second ≢ some 1
        → lookup_participant (remove_participant two 1) second ≡ lookup_participant two second)
lookup-remove_participant_example = lookup-remove_participant two 1 second two-IsValid

-- The second participant has answered slice 4 in round 2.
abbrev answered : ParticipantsDb
answered = mark_answered two 1 (some 4) 2

two-length : length two.client_table ≡ max_clients
two-length = two-IsValid.whole

answered-length : length answered.client_table ≡ max_clients
answered-length = (mark_answered-IsValid two 1 (some 4) 2 two-IsValid).whole

stamped : first_answered_round answered 1 ≡ some (4, 2)
unfolding first_answered_round mark_answered stamp other_slice lookup_participant add_participant
    lookup_from free_from new
stamped = refl

mark_answered-first_wins_example :
    (first_answered_round (mark_answered answered 1 (some 4) 7) 1 ≡ first_answered_round answered 1)
    × (ever_answered answered 1 ≡ true)
mark_answered-first_wins_example = mark_answered-first_wins two 1 4 2 7 (omega (arith, two-length))

mark_answered-new_slice_example :
    (first_answered_round (mark_answered answered 1 (some 5) 3) 1 ≡ some (5, 3))
    × (first_answered_round (mark_answered answered 1 (some 5) 3) 0
        ≡ first_answered_round answered 0)
mark_answered-new_slice_example =
    mark_answered-new_slice answered 1 0 5 4 2 3 (omega (arith, answered-length)) stamped
      (omega arith) (omega arith)
