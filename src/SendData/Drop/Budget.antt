-- ===== src/SendData/Drop/Budget.antt =====
-- Who is dropped, and what a drop keeps.
use udpcast_rs.Base.{
  ℕ, zero, suc, ◌<◌, ◌≡◌, ◌≢◌, none, refl, ap, ◌∙◌, arith, Bool, true, false, not, ◌&&◌, ◌||◌, ◌==◌,
  ◌++◌, some, List, [], ◌∷◌, Bool-cases, inl, inr, if◌then◌else◌, ltb, i32_lt,
}
use udpcast_rs.Participants.{
  ParticipantsDb, max_clients, is_participant_valid, first_answered_round, remove_participant,
}
use udpcast_rs.Participants.Invariant
use udpcast_rs.Participants.Valid.{remove_participant-valid}
use udpcast_rs.SendData.{Slice, NetConfig}
use udpcast_rs.SendData.Messages.Members.{Within}
use udpcast_rs.SendData.Drop.{must_drop, to_drop, remove_all, drop_participants}

mem : ℕ → List ℕ → Bool
mem j [] = false
mem j (i ∷ is) = i == j || mem j is

mem-append : (j : ℕ) (xs ys : List ℕ) → mem j (xs ++ ys) ≡ (mem j xs || mem j ys)
unfolding mem
mem-append j [] ys = refl
mem-append j (x ∷ xs) ys = ground (arith, mem-append j xs ys)

mem-to_drop :
    (c : NetConfig) (db : ParticipantsDb) (s : Slice) (n j : ℕ)
    → mem j (to_drop c db s n) ≡ (ltb j n && must_drop c db s j)
unfolding mem to_drop
mem-to_drop c db s zero j = ground arith
mem-to_drop c db s (suc i) j = ground (
  arith,
  mem-to_drop c db s i j,
  mem-append j (to_drop c db s i) (if must_drop c db s i then i ∷ [] else []),
  ap (must_drop c db s),
)

remove_all-valid :
    (is : List ℕ) (db : ParticipantsDb) (j : ℕ)
    → is_participant_valid (remove_all is db) j ≡ (not (mem j is) && is_participant_valid db j)
unfolding mem remove_all
remove_all-valid [] db j = refl
remove_all-valid (i ∷ is) db j =
    ground (arith, remove_all-valid is (remove_participant db i) j, remove_participant-valid db i j)

-- After the drop, an index below 1024 is a participant if and only if it was one and not both the
-- slice has used up the retries and the index must be dropped.
pub drop_participants-valid :
    (c : NetConfig) (s : Slice) (db : ParticipantsDb) (j : ℕ)
    → j < max_clients
    → is_participant_valid (drop_participants c s db) j ≡ (
        is_participant_valid db j
        && not (i32_lt c.retries_until_drop s.rxmit_id && must_drop c db s j))
unfolding drop_participants
drop_participants-valid c s db j lt =
    ground
      (arith, remove_all-valid (to_drop c db s max_clients) db j, mem-to_drop c db s max_clients j)

-- The round that a participant's budget starts from: the one of its first answer to the slice, and 0
-- if it never answered to it.
pub data IsBase (db : ParticipantsDb) (s : Slice) (j : ℕ) : ℕ → Type 0 where
  answered :
      (round : ℕ) → first_answered_round db j ≡ some (s.slice_no, round) → IsBase db s j round
  silent : first_answered_round db j ≡ none → IsBase db s j 0
  elsewhere :
      (slice_no round : ℕ)
      → first_answered_round db j ≡ some (slice_no, round)
      → slice_no ≢ s.slice_no
      → IsBase db s j 0

remove_all-IsValid :
    (is : List ℕ) (db : ParticipantsDb)
    → Invariant.IsValid db
    → Invariant.IsValid (remove_all is db)
unfolding remove_all
remove_all-IsValid [] db v = v
remove_all-IsValid (i ∷ is) db v =
    remove_all-IsValid is (remove_participant db i) (Invariant.remove_participant-IsValid db i v)

-- The drop keeps a valid table valid.
pub drop_participants-IsValid :
    (c : NetConfig) (s : Slice) (db : ParticipantsDb)
    → Invariant.IsValid db
    → Invariant.IsValid (drop_participants c s db)
unfolding drop_participants
drop_participants-IsValid c s db v = elim (Bool-cases (i32_lt c.retries_until_drop s.rxmit_id)) [
  | inl e ↦ rw e (remove_all-IsValid (to_drop c db s max_clients) db v)
  | inr e ↦ rw e v
]

-- With a valid table and a slice whose ready set holds only participants, this still holds of the
-- slice after the drop that it causes: nobody who has it is dropped.
pub drop_participants-Within :
    (c : NetConfig) (s : Slice) (db : ParticipantsDb)
    → Invariant.IsValid db
    → Within db s
    → Within (drop_participants c s db) s
drop_participants-Within c s db v w j ready =
    drop_participants-valid c s db j (small (w j ready))
    ∙ (unfold must_drop in ground (arith, w j ready, ready))
  where
    small : is_participant_valid db j ≡ true → j < max_clients
    small u =
        omega (
          arith,
          Invariant.used_at-lt db.client_table j (unfold is_participant_valid in u),
          v.whole,
        )
