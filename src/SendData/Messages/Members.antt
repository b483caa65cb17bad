-- ===== src/SendData/Messages/Members.antt =====
-- Who is in a slice's ready set: while only participants answer, only participants.
use udpcast_rs.Base.{
  ℕ, ◌<◌, ◌≡◌, ap, ◌∙◌, arith, true, not, ◌&&◌, ◌||◌, ◌==◌, none, some, List, length, set, map,
  get_or-set, get_or-map, get_or-past, length-map, Bool-cases, Option-cases, inl, inr, dec_lt, ltb,
  Bytes,
}
use udpcast_rs.Bitmap.{bit_is_set}
use udpcast_rs.Bitmap.Laws.{bit_is_set-set_bit, bit_is_set-clear_bit, bit_is_set-zeros}
use udpcast_rs.Participants.{ParticipantsDb, max_clients, is_participant_valid, mark_answered}
use udpcast_rs.Participants.Invariant
use udpcast_rs.Participants.Valid.{mark_answered-valid, remove_participant-valid}
use udpcast_rs.SendData.{Slice, new_slice, find_slice}
use udpcast_rs.SendData.Messages.{
  IncomingMsg, ok, retransmit, disconnect, Dispatch, slice_at, count_ready, count_answered,
  request_blocks, forget_ready, forget_answered, handle_message,
}
use udpcast_rs.SendData.Messages.Counts.{IsCounted, AllCounted, sender_of}

-- The receivers that a slice counts as ready are participants.
abbrev pub Within : ParticipantsDb → Slice → Type 0
Within db s = (j : ℕ) → bit_is_set j s.ready_set ≡ true → is_participant_valid db j ≡ true

abbrev pub AllWithin : ParticipantsDb → List Slice → Type 0
AllWithin db slices = (i : ℕ) → Within db (slice_at slices i)

pub new_slice-Within : (db : ParticipantsDb) (n : ℕ) → Within db (new_slice n)
unfolding new_slice
new_slice-Within db n j h = absurd (ground (arith, bit_is_set-zeros 128 j))

pub set-AllWithin :
    (db : ParticipantsDb) (slices : List Slice) (i : ℕ) (s : Slice)
    → AllWithin db slices
    → Within db s
    → AllWithin db (set slices i s)
set-AllWithin db slices i s all w j =
    rw (get_or-set slices i j s (new_slice 0))
      (elim (Bool-cases (i == j && ltb i (length slices))) [
        | inl e ↦ rw e w
        | inr e ↦ rw e (all j)
      ])

module _ (s : Slice) (cl : ℕ) (c : IsCounted s) (lt : cl < max_clients) (j : ℕ) where
  ready-ok :
      bit_is_set j (count_answered cl (count_ready cl s)).ready_set
      ≡ (cl == j || bit_is_set j s.ready_set)
  unfolding count_answered count_ready
  ready-ok = ground (
    arith,
    bit_is_set-set_bit cl j s.ready_set c.ready.bytes (omega (arith, c.ready.whole)),
    congruent,
  )
    where
      congruent : cl ≡ j → bit_is_set cl s.ready_set ≡ bit_is_set j s.ready_set
      congruent e = ap (λ (k : ℕ). bit_is_set k s.ready_set) e

  ready-disconnect :
      bit_is_set j (forget_answered cl (forget_ready cl s)).ready_set
      ≡ (not (cl == j) && bit_is_set j s.ready_set)
  unfolding forget_answered forget_ready
  ready-disconnect = ground (
    arith,
    bit_is_set-clear_bit cl j s.ready_set c.ready.bytes (omega (arith, c.ready.whole)),
    congruent,
  )
    where
      congruent : cl ≡ j → bit_is_set cl s.ready_set ≡ bit_is_set j s.ready_set
      congruent e = ap (λ (k : ℕ). bit_is_set k s.ready_set) e

ready-retransmit :
    (s : Slice) (cl : ℕ) (map : Bytes)
    → (count_answered cl (request_blocks map s)).ready_set ≡ s.ready_set
unfolding count_answered request_blocks
ready-retransmit s cl map = ground arith

disconnect-Within :
    (d : Dispatch) (cl : ℕ)
    → AllCounted d.slices
    → AllWithin d.db d.slices
    → cl < max_clients
    → (i j : ℕ)
    → bit_is_set j
        (slice_at (map (λ s. forget_answered cl (forget_ready cl s)) d.slices) i).ready_set
      ≡ true
    → (not (cl == j) && is_participant_valid d.db j) ≡ true
unfolding new_slice
disconnect-Within d cl all within lt i j h = elim (dec_lt i (length d.slices)) [
  | yes p ↦ ground (
    arith,
    ready-disconnect (slice_at d.slices i) cl (all i) lt j,
    within i j,
    ap (λ (s : Slice). bit_is_set j s.ready_set)
        (get_or-map (λ s. forget_answered cl (forget_ready cl s)) d.slices i (new_slice 0)
          (new_slice 0) p),
  )
  | no p ↦ absurd (
      ground (
        arith,
        bit_is_set-zeros 128 j,
        ap (λ (s : Slice). bit_is_set j s.ready_set)
            (get_or-past (map (λ s. forget_answered cl (forget_ready cl s)) d.slices) i
              (new_slice 0)
              (omega (arith, length-map d.slices (λ s. forget_answered cl (forget_ready cl s))))),
      ))
]

-- If the counters are right and the ready sets hold only participants, any message that a
-- participant sent keeps it so for the table and slices that are left, a disconnection included.
pub handle_message-AllWithin :
    (m : IncomingMsg) (d : Dispatch)
    → AllCounted d.slices
    → AllWithin d.db d.slices
    → sender_of m < max_clients
    → is_participant_valid d.db (sender_of m) ≡ true
    → AllWithin (handle_message m d).db (handle_message m d).slices
unfolding handle_message
handle_message-AllWithin (ok slice_no cl) d all within lt member =
    elim (Option-cases (find_slice d.slices slice_no)) [
      | inl e ↦
          rw (e, handle_message) (λ i j h. mark_answered-valid d.db cl none 0 j ∙ within i j h)
      | inr (i, e) ↦
          rw (e, handle_message)
            (set-AllWithin (mark_answered d.db cl (some slice_no) (slice_at d.slices i).rxmit_id)
              d.slices i (count_answered cl (count_ready cl (slice_at d.slices i)))
              (λ k j h. mark_answered-valid d.db cl _ _ j ∙ within k j h)
              (λ j h.
                mark_answered-valid d.db cl _ _ j
                ∙ ground (
                  arith,
                  ready-ok (slice_at d.slices i) cl (all i) lt j,
                  within i j,
                  ap (λ (k : ℕ). is_participant_valid d.db k),
                  member,
                )))
    ]
handle_message-AllWithin (retransmit slice_no cl blocks rxmit) d all within lt member =
    elim (Option-cases (find_slice d.slices slice_no)) [
      | inl e ↦
          rw (e, handle_message) (λ i j h. mark_answered-valid d.db cl none 0 j ∙ within i j h)
      | inr (i, e) ↦
          rw (e, handle_message)
            (set-AllWithin (mark_answered d.db cl (some slice_no) (slice_at d.slices i).rxmit_id)
              d.slices i (count_answered cl (request_blocks blocks (slice_at d.slices i)))
              (λ k j h. mark_answered-valid d.db cl _ _ j ∙ within k j h)
              (λ j h.
                mark_answered-valid d.db cl _ _ j
                ∙ within i j (rw (ready-retransmit (slice_at d.slices i) cl blocks) at h)))
    ]
handle_message-AllWithin (disconnect cl) d all within lt member =
    λ i j h. remove_participant-valid d.db cl j ∙ disconnect-Within d cl all within lt i j h

-- Any message keeps a valid table of participants valid.
pub handle_message-IsValid :
    (m : IncomingMsg) (d : Dispatch)
    → Invariant.IsValid d.db
    → Invariant.IsValid (handle_message m d).db
unfolding handle_message
handle_message-IsValid (ok slice_no cl) d v = elim (Option-cases (find_slice d.slices slice_no)) [
  | inl e ↦ rw (e, handle_message) (Invariant.mark_answered-IsValid d.db cl none 0 v)
  | inr (i, e) ↦
      rw (e, handle_message)
        (Invariant.mark_answered-IsValid d.db cl (some slice_no) (slice_at d.slices i).rxmit_id v)
]
handle_message-IsValid (retransmit slice_no cl blocks rxmit) d v =
    elim (Option-cases (find_slice d.slices slice_no)) [
      | inl e ↦ rw (e, handle_message) (Invariant.mark_answered-IsValid d.db cl none 0 v)
      | inr (i, e) ↦
          rw (e, handle_message)
            (Invariant.mark_answered-IsValid d.db cl (some slice_no) (slice_at d.slices i).rxmit_id
              v)
    ]
handle_message-IsValid (disconnect cl) d v = Invariant.remove_participant-IsValid d.db cl v
