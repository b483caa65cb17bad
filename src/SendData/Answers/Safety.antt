-- ===== src/SendData/Answers/Safety.antt =====
-- What an acknowledgement promises: nobody who takes part lacks the slice.
use udpcast_rs.Base.{
  subst, ℕ, ◌≡◌, refl, sym, ap, ◌∙◌, arith, true, ◌&&◌, ◌==◌, ltb, some, List, [], ◌∷◌, length, set,
  get_or-set, Bool-cases, Option-cases, inl, inr, if◌then◌else◌, count_all,
}
use udpcast_rs.Bitmap.{bit_is_set}
use udpcast_rs.Participants.{ParticipantsDb, max_clients, is_participant_valid}
use udpcast_rs.Participants.Invariant
use udpcast_rs.SendData.{Slice, new_slice, is_free, free_slice}
use udpcast_rs.SendData.Messages.{slice_at}
use udpcast_rs.Bitmap.Sizes.{has_bit}
use udpcast_rs.SendData.Messages.Counts.{IsCounted, AllCounted, set-AllCounted}
use udpcast_rs.SendData.Messages.Members.{Within, AllWithin, set-AllWithin}
use udpcast_rs.SendData.Answers.{Sender, Transfer, at, all_ready, ack_slice, ack_and_free, ack_pass}

-- Every participant has the slice.
abbrev pub Everyone : ParticipantsDb → Slice → Type 0
Everyone db s = (j : ℕ) → is_participant_valid db j ≡ true → bit_is_set j s.ready_set ≡ true

-- If the table is valid, the slice's counters are right and its ready set holds only participants,
-- then a slice that passes the test of the main loop against the number of participants is in the
-- ready set of every participant.
pub all_ready-Everyone :
    (db : ParticipantsDb) (s : Slice)
    → Invariant.IsValid db
    → IsCounted s
    → Within db s
    → all_ready db.nr_participants s ≡ true
    → Everyone db s
unfolding is_participant_valid all_ready
all_ready-Everyone db s v c w ready j valid =
    count_all (has_bit s.ready_set) (is_participant_valid db) max_clients (λ k lt h. w k h)
      (ground (arith, ready, v.counted, c.ready.exact)) j
      (omega (arith, Invariant.used_at-lt db.client_table j valid, v.whole)) valid

-- What a pass over the pending slices does to one of them.
pub data Fate (db : ParticipantsDb) (s s' : Slice) : Type 0 where
  kept : s' ≡ s → Fate db s s'
  freed : Everyone db s → s'.ready_set ≡ s.ready_set → is_free s'.state ≡ true → Fate db s s'

pub ack_slice-slice :
    (w w' : Sender) → ack_slice w ≡ some w' → free_slice w'.slice ≡ free_slice w.slice
unfolding ack_slice free_slice
ack_slice-slice w w' e = ground arith

ack_and_free-slices :
    (t t' : Transfer) (i : ℕ)
    → ack_and_free t i ≡ some t'
    → t'.slices ≡ set t.slices i (free_slice (slice_at t.slices i))
unfolding ack_and_free
ack_and_free-slices t t' i e = elim (Option-cases (ack_slice (at t i))) [
  | inl n ↦ ground (arith, n, e)
  | inr (w, h) ↦ ground (arith, h, e, ack_slice-slice (at t i) w h)
]

free_slice-IsCounted : (s : Slice) → IsCounted s → IsCounted (free_slice s)
unfolding free_slice
free_slice-IsCounted s c = record { ready = c.ready; answered = c.answered; included = c.included }

free_slice-Within : (db : ParticipantsDb) (s : Slice) → Within db s → Within db (free_slice s)
unfolding free_slice
free_slice-Within db s w = w

-- One slot of the ring after one slice has been acknowledged and freed.
free_one :
    (slices : List Slice) (i j : ℕ) (f : Slice)
    → slice_at (set slices i f) j
      ≡ (if i == j && ltb i (length slices) then f else slice_at slices j)
free_one slices i j f = get_or-set slices i j f (new_slice 0)

step-Fate :
    (db : ParticipantsDb) (slices : List Slice) (i j : ℕ)
    → Everyone db (slice_at slices i)
    → Fate db (slice_at slices j) (slice_at (set slices i (free_slice (slice_at slices i))) j)
unfolding free_slice
step-Fate db slices i j every =
    rw (free_one slices i j (free_slice (slice_at slices i)))
      (elim (Bool-cases (i == j && ltb i (length slices))) [
        | inl e ↦ rw e (here (ground (arith, e)))
        | inr e ↦ rw e (kept refl)
      ])
  where
    here : i ≡ j → Fate db (slice_at slices j) (free_slice (slice_at slices i))
    here same =
        subst (λ (k : ℕ). Fate db (slice_at slices k) (free_slice (slice_at slices i))) same
          (freed every refl refl)

-- Two steps of a slot.
Fate-trans : (db : ParticipantsDb) (a b c : Slice) → Fate db a b → Fate db b c → Fate db a c
Fate-trans db a b c (kept e) (kept h) = kept (h ∙ e)
Fate-trans db a b c (kept e) (freed every r f) =
    freed (λ j v. sym (ap (λ (s : Slice). bit_is_set j s.ready_set) e) ∙ every j v)
      (r ∙ ap (λ (s : Slice). s.ready_set) e) f
Fate-trans db a b c (freed every r f) (kept h) =
    freed every (ap (λ (s : Slice). s.ready_set) h ∙ r) (ap (λ (s : Slice). is_free s.state) h ∙ f)
Fate-trans db a b c (freed every r f) (freed _ r' f') = freed every (r' ∙ r) f'

-- With a valid table, right counters and ready sets that hold only participants, the pass that
-- acknowledges slices, where it does not end the process, leaves each slot of the ring as it was,
-- or frees it, with the ready set kept, and then every participant had the slice.
pub ack_pass-Fate :
    (db : ParticipantsDb) (pending : List ℕ) (t t' : Transfer)
    → Invariant.IsValid db
    → AllCounted t.slices
    → AllWithin db t.slices
    → ack_pass db.nr_participants pending t ≡ some t'
    → (j : ℕ) → Fate db (slice_at t.slices j) (slice_at t'.slices j)
unfolding ack_pass
ack_pass-Fate db [] t t' v c w e j = kept (ground (arith, e))
ack_pass-Fate db (i ∷ pending) t t' v c w e j =
    elim (Bool-cases (all_ready db.nr_participants (slice_at t.slices i))) [
      | inr some_lack ↦ ack_pass-Fate db pending t t' v c w (ground (arith, some_lack, e)) j
      | inl all ↦ elim (Option-cases (ack_and_free t i)) [
        | inl n ↦ absurd (ground (arith, all, n, e))
        | inr (u, h) ↦
            Fate-trans db (slice_at t.slices j) (slice_at u.slices j) (slice_at t'.slices j)
              (rw (ack_and_free-slices t u i h) (step-Fate db t.slices i j (passed all)))
              (ack_pass-Fate db pending u t' v
                (rw (ack_and_free-slices t u i h) (
                  set-AllCounted t.slices i (free_slice (slice_at t.slices i)) c
                    (free_slice-IsCounted (slice_at t.slices i) (c i))))
                (rw (ack_and_free-slices t u i h) (
                  set-AllWithin db t.slices i (free_slice (slice_at t.slices i)) w
                    (free_slice-Within db (slice_at t.slices i) (w i))))
                (ground (arith, all, h, e)) j)
      ]
    ]
  where
    passed :
        all_ready db.nr_participants (slice_at t.slices i) ≡ true
        → Everyone db (slice_at t.slices i)
    passed all = all_ready-Everyone db (slice_at t.slices i) v (c i) (w i) all
