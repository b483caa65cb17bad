-- ===== src/SendData/Answers/Rounds.antt =====
-- The passes of the main loop keep the counters of the slices right.
use udpcast_rs.Base.{
  subst, not, ◌&&◌, ◌==◌, ℕ, ◌≡◌, arith, some, List, [], ◌∷◌, Option-cases, Bool-cases, inl, inr,
  set, if◌then◌else◌,
}
use udpcast_rs.Participants.{ParticipantsDb}
use udpcast_rs.SendData.{Slice, free_slice, has, flag_async}
use udpcast_rs.SendData.Answers.Safety.{ack_slice-slice}
use udpcast_rs.SendData.Messages.{slice_at}
use udpcast_rs.SendData.Messages.Counts.{IsCounted, AllCounted, set-AllCounted}
use udpcast_rs.SendData.Messages.Members.{Within, AllWithin, set-AllWithin}
use udpcast_rs.SendData.Answers.{
  Sender, Transfer, at, ack_slice, next_round, next_rxmit, send_reqack, start_round, round_pass,
  all_answered, is_acked,
}

-- What the loop relies on in a slice.
abbrev pub Sound : ParticipantsDb → Slice → Type 0
Sound db s = IsCounted s × Within db s

abbrev pub AllSound : ParticipantsDb → List Slice → Type 0
AllSound db slices = AllCounted slices × AllWithin db slices

set-AllSound :
    (db : ParticipantsDb) (slices : List Slice) (i : ℕ) (s : Slice)
    → AllSound db slices
    → Sound db s
    → AllSound db (set slices i s)
set-AllSound db slices i s (c, w) h =
    (set-AllCounted slices i s c h.0, set-AllWithin db slices i s w h.1)

next_round-Sound : (db : ParticipantsDb) (s : Slice) → Sound db s → Sound db (next_round s)
unfolding next_round
next_round-Sound db s (c, w) =
    (record { ready = c.ready; answered = c.ready; included = λ j h. h }, w)

free_slice-Sound : (db : ParticipantsDb) (s : Slice) → Sound db s → Sound db (free_slice s)
unfolding free_slice
free_slice-Sound db s (c, w) =
    (record { ready = c.ready; answered = c.answered; included = c.included }, w)

Sound-of_free_slice : (db : ParticipantsDb) (s : Slice) → Sound db (free_slice s) → Sound db s
unfolding free_slice
Sound-of_free_slice db s (c, w) =
    (record { ready = c.ready; answered = c.answered; included = c.included }, w)

ack_slice-Sound :
    (db : ParticipantsDb) (w w' : Sender)
    → Sound db w.slice
    → ack_slice w ≡ some w'
    → Sound db w'.slice
ack_slice-Sound db w w' h e =
    Sound-of_free_slice db w'.slice (rw (ack_slice-slice w w' e) (free_slice-Sound db w.slice h))

send_reqack-Sound :
    (db : ParticipantsDb) (w w' : Sender)
    → Sound db w.slice
    → send_reqack w ≡ some w'
    → Sound db w'.slice
unfolding send_reqack
send_reqack-Sound db w w' h e =
    elim (Bool-cases (has w.config.flags flag_async && not (w.slice.bytes == 0))) [
      | inl async ↦ ack_slice-Sound db w w' h (ground (arith, async, e))
      | inr sync ↦ subst (Sound db) (ground (arith, sync, e)) (next_round-Sound db w.slice h)
    ]

start_round-AllSound :
    (db : ParticipantsDb) (t t' : Transfer) (i : ℕ)
    → AllSound db t.slices
    → start_round t i ≡ some t'
    → AllSound db t'.slices
unfolding start_round
start_round-AllSound db t t' i (c, w) e = elim (Option-cases (send_reqack asked)) [
  | inl n ↦ absurd (ground (arith, n, e))
  | inr (u, h) ↦ subst (AllSound db) (ground (arith, h, e)) (stored u h)
]
  where
    asked : Sender
    asked = record (at t i) { slice = next_rxmit (slice_at t.slices i) }

    asked-Sound : Sound db asked.slice
    asked-Sound =
        (record { ready = (c i).ready; answered = (c i).answered; included = (c i).included }, w i)

    stored :
        (u : Sender)
        → send_reqack asked ≡ some u
        → AllSound db
            (set t.slices i (if is_acked u.slice.state then free_slice u.slice else u.slice))
    stored u h =
        set-AllSound db t.slices i _ (c, w)
          (elim (Bool-cases (is_acked u.slice.state)) [
            | inl a ↦
                rw a (free_slice-Sound db u.slice (send_reqack-Sound db asked u asked-Sound h))
            | inr a ↦ rw a (send_reqack-Sound db asked u asked-Sound h)
          ])

-- If every slice's counters are right and its ready set holds only participants, this still holds
-- after the pass that starts new rounds, where it does not end the process.
pub round_pass-AllSound :
    (db : ParticipantsDb) (nr_part : ℕ) (pending : List ℕ) (t t' : Transfer)
    → AllSound db t.slices
    → round_pass nr_part pending t ≡ some t'
    → AllSound db t'.slices
unfolding round_pass
round_pass-AllSound db n [] t t' h e =
    subst (AllSound db) {x = t.slices} {y = t'.slices} (ground (arith, e)) h
round_pass-AllSound db n (i ∷ pending) t t' h e =
    elim (Bool-cases (all_answered n (slice_at t.slices i))) [
      | inr some_lack ↦ round_pass-AllSound db n pending t t' h (ground (arith, some_lack, e))
      | inl all ↦ elim (Option-cases (start_round t i)) [
        | inl n ↦ absurd (ground (arith, all, n, e))
        | inr (u, k) ↦
            round_pass-AllSound db n pending u t' (start_round-AllSound db t u i h k)
              (ground (arith, all, k, e))
      ]
    ]
