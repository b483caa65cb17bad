-- ===== src/ReceiveData/Steps.antt =====
-- What a message does to the counters of the receiver's slices.
use mathlib.Core.Option.{some-injective}
use udpcast_rs.Base.{
  take, min, ◌⊎◌, ℕ, ◌<◌, ◌≡◌, refl, sym, ap, ◌∙◌, subst, arith, false, Option, some, none, List,
  Bytes, length, leb, ◌==◌, ◌||◌, Bool-cases, Option-cases, inl, inr, usize_mul, set,
}
use udpcast_rs.Bitmap.{bit_is_set}
use udpcast_rs.Bitmap.Sizes.{zeros-IsCount}
use udpcast_rs.Produconsum.{Wakeup, consume, get_consumer_position}
use udpcast_rs.Protocol.{DataBlock, FecBlock, Reqack}
use udpcast_rs.SendData.Answers.{nr_blocks}
use udpcast_rs.ReceiveData.{Slice, is_finished, is_completed}
use udpcast_rs.ReceiveData.Table.{
  Table, is_free, slot, find_slice, new_slice, NewSlice, no_slot, waiting, opened, open_slice, Step,
  next, panic, blocked, stepped, choose, as_usize,
}
use udpcast_rs.ReceiveData.Recover.{put_block}
use udpcast_rs.ReceiveData.Blocks.{
  learn_bytes, store_block, take_block, process_data_block, keep_fec, take_fec, process_fec_block,
}
use udpcast_rs.ReceiveData.Requests.{told, have_map, answer_reqack, process_reqack}
use udpcast_rs.ReceiveData.Tallies.{
  AllTallied, set-AllTallied, complete_at-AllTallied, check_slice_complete-AllTallied,
}
use udpcast_rs.ReceiveData.Counts.{IsTallied, marked-IsTallied, put_block-slice}

learn_bytes-IsTallied : (s : Slice) (n : ℕ) → IsTallied s → IsTallied (learn_bytes n s)
unfolding learn_bytes
learn_bytes-IsTallied s n c = elim (Bool-cases (n == 0)) [
  | inl e ↦ rw e c
  | inr e ↦ rw e (record { bytes = c.bytes; whole = c.whole; exact = c.exact })
]

learn_bytes-map : (s : Slice) (n : ℕ) → (learn_bytes n s).retransmit_map ≡ s.retransmit_map
unfolding learn_bytes
learn_bytes-map s n = ground arith

store_block-AllTallied :
    (block_size i : ℕ) (t t' : Table) (msg : DataBlock) (bytes : Bytes)
    → store_block block_size t i msg bytes ≡ some t'
    → msg.block_no < 1024
    → bit_is_set msg.block_no (slot t.slices i).retransmit_map ≡ false
    → AllTallied t
    → AllTallied t'
unfolding store_block
store_block-AllTallied block_size i t t' msg bytes e lt new a =
    elim (Option-cases (
      put_block block_size
        (record { slice = learn_bytes msg.bytes (slot t.slices i); fifo = t.fifo }) msg.block_no
        (take (min (length bytes) block_size) bytes))) [
          | inl n ↦ ground (arith, e, n)
          | inr (r, h) ↦ subst AllTallied (some-injective _ _ (rw h at e)) (
              set-AllTallied t.slices i r.slice a (
                subst IsTallied (sym (put_block-slice block_size msg.block_no _ _ r h)) (
                  marked-IsTallied (learn_bytes msg.bytes (slot t.slices i)) msg.block_no
                    (learn_bytes-IsTallied (slot t.slices i) msg.bytes (a i)) lt
                    (ap (bit_is_set msg.block_no) (learn_bytes-map (slot t.slices i) msg.bytes)
                      ∙ new))))
        ]

take_block-AllTallied :
    (block_size i : ℕ) (t t' : Table) (msg : DataBlock) (bytes : Bytes)
    → take_block block_size t i msg bytes ≡ some t'
    → AllTallied t
    → AllTallied t'
unfolding take_block
take_block-AllTallied block_size i t t' msg bytes e a =
    elim (Bool-cases (is_free (slot t.slices i).state || is_finished (slot t.slices i).state)) [
      | inl h ↦ subst AllTallied (some-injective _ _ (rw h at e)) a
      | inr h ↦ elim (Bool-cases (leb 1024 msg.block_no)) [
        | inl l ↦ subst AllTallied (some-injective _ _ (rw (h, l) at e)) a
        | inr l ↦ elim (Bool-cases (bit_is_set msg.block_no (slot t.slices i).retransmit_map)) [
          | inl b ↦ subst AllTallied (some-injective _ _ (rw (h, l, b) at e)) a
          | inr b ↦ elim (Option-cases (store_block block_size t i msg bytes)) [
            | inl n ↦ ground (arith, e, h, l, b, n)
            | inr (q, st) ↦
                check_slice_complete-AllTallied block_size i q t' (rw (h, l, b, st) at e)
                  (store_block-AllTallied block_size i t q msg bytes st (ground (arith, l)) b a)
          ]
        ]
      ]
    ]

take_fec-AllTallied :
    (block_size i : ℕ) (t t' : Table) (msg : FecBlock) (bytes : Bytes)
    → take_fec block_size t i msg bytes ≡ some t'
    → AllTallied t
    → AllTallied t'
unfolding take_fec keep_fec
take_fec-AllTallied block_size i t t' msg bytes e a =
    elim (Bool-cases (is_finished (slot t.slices i).state)) [
      | inl h ↦ subst AllTallied (some-injective _ _ (rw h at e)) a
      | inr h ↦
          check_slice_complete-AllTallied block_size i
            (record t { slices = set t.slices i (keep_fec (slot t.slices i) msg bytes) }) t'
            (rw h at e)
            (set-AllTallied t.slices i (keep_fec (slot t.slices i) msg bytes) a
              (record { bytes = (a i).bytes; whole = (a i).whole; exact = (a i).exact }))
    ]

-- What a REQACK tells of a slice.
told-IsTallied : (msg : Reqack) (s : Slice) → IsTallied s → IsTallied (told msg s)
unfolding told
told-IsTallied msg s c = record { bytes = c.bytes; whole = c.whole; exact = c.exact }

answer_reqack-AllTallied :
    (block_size i : ℕ) (t t' : Table) (msg : Reqack)
    → answer_reqack block_size t i msg ≡ some t'
    → AllTallied t
    → AllTallied t'
unfolding answer_reqack told
answer_reqack-AllTallied block_size i t t' msg e a =
    elim (Bool-cases
      (leb (nr_blocks (as_usize msg.bytes) block_size) (slot t.slices i).data_blocks_transferred)) [
        | inl h ↦ complete_at-AllTallied _ t' i (rw h at e) (
            set-AllTallied t.slices i (told msg (slot t.slices i)) a
              (told-IsTallied msg (slot t.slices i) (a i)))
        | inr h ↦
            elim (Option-cases (
              have_map (slot t.slices i).retransmit_map
                (nr_blocks (as_usize msg.bytes) block_size))) [
                  | inl n ↦ ground (arith, e, h, n)
                  | inr (map, m) ↦ subst AllTallied (some-injective _ _ (rw (h, m) at e)) (
                      set-AllTallied t.slices i (told msg (slot t.slices i)) a
                        (told-IsTallied msg (slot t.slices i) (a i)))
                ]
      ]

opened_table : Table → NewSlice → Table
opened_table t (opened i t') = t'
opened_table t _ = t

new_slice-AllTallied :
    (t t' : Table) (slice_no block_size i : ℕ) (wakeups : List Wakeup)
    → new_slice t slice_no block_size wakeups ≡ opened i t'
    → AllTallied t
    → AllTallied t'
unfolding new_slice opened_table open_slice
new_slice-AllTallied t t' slice_no block_size i wakeups e a =
    elim (Option-cases (choose t.slices)) [
      | inl n ↦ ground (arith, e, n)
      | inr (j, c) ↦
          elim (Option-cases (consume (usize_mul block_size 1024) t.fifo.free_mem_queue wakeups)) [
            | inl n ↦ ground (arith, e, c, n)
            | inr (r, w) ↦ subst AllTallied (ap (opened_table t) (rw (c, w, new_slice) at e)) (
                set-AllTallied t.slices j (open_slice slice_no (get_consumer_position r.queue)) a
                  zeros-IsCount)
          ]
    ]

-- What holds of the table that a step leaves.
unfoldable pub Leaves : (Table → Type 0) → Step → Type 0
Leaves P (next t) = P t
Leaves P panic = Unit
Leaves P blocked = Unit

stepped-Leaves :
    (o : Option Table) → ((t : Table) → o ≡ some t → AllTallied t) → Leaves AllTallied (stepped o)
unfolding Leaves
stepped-Leaves none k = tt
stepped-Leaves (some t) k = k t refl

new_slice-cases :
    (n : NewSlice) → (n ≡ no_slot) ⊎ (n ≡ waiting) ⊎ (i : ℕ) × (t : Table) × (n ≡ opened i t)
new_slice-cases no_slot = inl refl
new_slice-cases waiting = inr (inl refl)
new_slice-cases (opened i t) = inr (inr (i, t, refl))

pub process_data_block-Leaves :
    (block_size : ℕ) (t : Table) (wakeups : List Wakeup) (msg : DataBlock) (bytes : Bytes)
    → AllTallied t
    → Leaves AllTallied (process_data_block block_size t wakeups msg bytes)
unfolding process_data_block Leaves
process_data_block-Leaves block_size t wakeups msg bytes a =
    elim (Option-cases (find_slice t.slices t.current_slice msg.slice_no)) [
      | inr (i, f) ↦
          rw (f, process_data_block)
            (stepped-Leaves _ (λ t' e. take_block-AllTallied block_size i t t' msg bytes e a))
      | inl f ↦ elim (new_slice-cases (new_slice t msg.slice_no block_size wakeups)) [
        | inl n ↦ rw (f, n, process_data_block) a
        | inr (inl n) ↦ rw (f, n, process_data_block) tt
        | inr (inr (i, q, n)) ↦
            rw (f, n, process_data_block)
              (stepped-Leaves _ (λ t' e.
                take_block-AllTallied block_size i (record q { current_slice = some i }) t' msg
                  bytes e (new_slice-AllTallied t q msg.slice_no block_size i wakeups n a)))
      ]
    ]

pub process_fec_block-Leaves :
    (block_size : ℕ) (t : Table) (wakeups : List Wakeup) (msg : FecBlock) (bytes : Bytes)
    → AllTallied t
    → Leaves AllTallied (process_fec_block block_size t wakeups msg bytes)
unfolding process_fec_block Leaves
process_fec_block-Leaves block_size t wakeups msg bytes a =
    elim (Option-cases (find_slice t.slices none msg.slice_no)) [
      | inr (i, f) ↦
          rw (f, process_fec_block)
            (stepped-Leaves _ (λ t' e. take_fec-AllTallied block_size i t t' msg bytes e a))
      | inl f ↦ elim (new_slice-cases (new_slice t msg.slice_no block_size wakeups)) [
        | inl n ↦ rw (f, n, process_fec_block) a
        | inr (inl n) ↦ rw (f, n, process_fec_block) tt
        | inr (inr (i, q, n)) ↦
            rw (f, n, process_fec_block)
              (stepped-Leaves _ (λ t' e.
                take_fec-AllTallied block_size i q t' msg bytes e
                  (new_slice-AllTallied t q msg.slice_no block_size i wakeups n a)))
      ]
    ]

pub process_reqack-Leaves :
    (block_size : ℕ) (t : Table) (wakeups : List Wakeup) (msg : Reqack)
    → AllTallied t
    → Leaves AllTallied (process_reqack block_size t wakeups msg)
unfolding process_reqack Leaves
process_reqack-Leaves block_size t wakeups msg a =
    elim (Option-cases (find_slice t.slices none msg.slice_no)) [
      | inr (i, f) ↦
          rw (f, process_reqack)
            (stepped-Leaves _ (λ t' e. answer_reqack-AllTallied block_size i t t' msg e a))
      | inl f ↦ elim (Bool-cases (is_completed t.client.completed_slices (as_usize msg.slice_no))) [
        | inl d ↦ rw (f, d, process_reqack) a
        | inr d ↦ elim (new_slice-cases (new_slice t msg.slice_no block_size wakeups)) [
          | inl n ↦ rw (f, d, n, process_reqack) a
          | inr (inl n) ↦ rw (f, d, n, process_reqack) tt
          | inr (inr (i, q, n)) ↦
              rw (f, d, n, process_reqack)
                (stepped-Leaves _ (λ t' e.
                  answer_reqack-AllTallied block_size i q t' msg e
                    (new_slice-AllTallied t q msg.slice_no block_size i wakeups n a)))
        ]
      ]
    ]
