-- ===== src/SendData/Drop.antt =====
-- What the main loop of src/senddata.rs does when no answer comes in time: it drops participants
-- that used up their retries, and asks about the oldest slice again.
pub mod Budget
mod Tests
use udpcast_rs.Base.{
  ℕ, zero, suc, Bool, true, false, not, ◌&&◌, ◌==◌, ◌++◌, Option, none, some, List, [], ◌∷◌, set,
  i32_lt, i32_sub, if◌then◌else◌,
}
use udpcast_rs.Bitmap.{bit_is_set}
use udpcast_rs.Participants.{
  ParticipantsDb, max_clients, is_participant_valid, first_answered_round, remove_participant,
}
use udpcast_rs.SendData.{Slice, NetConfig}
use udpcast_rs.SendData.Messages.{slice_at}
use udpcast_rs.SendData.Answers.{Transfer, at, next_rxmit, send_reqack}

-- The round that a participant's budget starts from: its first answer to this slice, or 0.
unfoldable pub drop_base : Option (ℕ × ℕ) → ℕ → ℕ
drop_base none slice_no = 0
drop_base (some (sn, round)) slice_no = if sn == slice_no then round else 0

unfoldable pub must_drop : NetConfig → ParticipantsDb → Slice → ℕ → Bool
must_drop c db s i =
    (is_participant_valid db i && not (bit_is_set i s.ready_set))
    && i32_lt c.retries_until_drop
        (i32_sub s.rxmit_id (drop_base (first_answered_round db i) s.slice_no))

-- The indices below `n` that are pushed to `to_drop`.
unfoldable pub to_drop : NetConfig → ParticipantsDb → Slice → ℕ → List ℕ
to_drop c db s zero = []
to_drop c db s (suc i) = to_drop c db s i ++ (if must_drop c db s i then i ∷ [] else [])

unfoldable pub remove_all : List ℕ → ParticipantsDb → ParticipantsDb
remove_all [] db = db
remove_all (i ∷ is) db = remove_all is (remove_participant db i)

unfoldable pub drop_participants : NetConfig → Slice → ParticipantsDb → ParticipantsDb
drop_participants c s db =
    if i32_lt c.retries_until_drop s.rxmit_id
    then remove_all (to_drop c db s max_clients) db
    else db

-- What a retry leaves; the loop ends when nobody is left.
pub data Retry : Type 0 where
  nobody_left : ParticipantsDb → Retry
  asked : ParticipantsDb → Transfer → Retry

-- For the first of the pending slices; `none` is the end of the process.
pub retry : ℕ → ParticipantsDb → Transfer → Option Retry
retry i db t =
    let db' = drop_participants t.config (slice_at t.slices i) db in
    if i32_lt t.config.retries_until_drop (slice_at t.slices i).rxmit_id && db'.nr_participants == 0
    then some (nobody_left db')
    else elim (send_reqack (record (at t i) { slice = next_rxmit (slice_at t.slices i) })) [
      | none ↦ none
      | some w ↦ some (
          asked db' (record t {
            slices = set t.slices i w.slice;
            config = w.config;
            free_mem = w.free_mem;
            stats = w.stats;
            sent = w.sent;
          }))
    ]
