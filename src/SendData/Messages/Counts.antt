-- ===== src/SendData/Messages/Counts.antt =====
-- The counters of a slice count its sets: `nr_ready` the receivers that have the slice,
-- `nr_answered` those that answered this round.
use udpcast_rs.Base.{
  ◌≢◌, subst, not, ◌&&◌, ◌||◌, ◌∙◌, ltb, ℕ, ◌<◌, ◌≡◌, arith, true, false, List, Bytes, length, set,
  map, get_or-set, get_or-map, get_or-past, length-map, Bool-cases, Option-cases, inl, inr,
  usize_add, usize_sub, dec_lt, ◌==◌,
}
use udpcast_rs.Bitmap.{bit_is_set, set_bit, clear_bit}
use udpcast_rs.Bitmap.Sizes.{IsCount, add-IsCount, remove-IsCount, zeros-IsCount}
use udpcast_rs.Bitmap.Laws.{bit_is_set-set_bit, bit_is_set-clear_bit}
use udpcast_rs.Participants.{max_clients}
use udpcast_rs.SendData.{Slice, new_slice, no_bits, find_slice}
use udpcast_rs.SendData.Messages.{
  IncomingMsg, ok, retransmit, disconnect, Dispatch, slice_at, count_ready, count_answered,
  request_blocks, forget_ready, forget_answered, handle_message,
}

pub no_bits-IsCount : IsCount no_bits 0
no_bits-IsCount = zeros-IsCount

-- Both counters are right, and a receiver that is ready has answered.
pub record IsCounted (s : Slice) : Type 0 where
  pub ready : IsCount s.ready_set s.nr_ready
  pub answered : IsCount s.answered_set s.nr_answered
  pub included : (j : ℕ) → bit_is_set j s.ready_set ≡ true → bit_is_set j s.answered_set ≡ true

pub new_slice-IsCounted : (n : ℕ) → IsCounted (new_slice n)
unfolding new_slice
new_slice-IsCounted n = record {
  ready = no_bits-IsCount;
  answered = no_bits-IsCount;
  included = λ j h. h;
}

-- The ready set is right, and `count_answered` is still to come.
count_answered-IsCounted :
    (s : Slice) (cl : ℕ)
    → cl < max_clients
    → IsCount s.ready_set s.nr_ready
    → IsCount s.answered_set s.nr_answered
    → ((j : ℕ) → bit_is_set j s.ready_set ≡ true → (cl == j || bit_is_set j s.answered_set) ≡ true)
    → IsCounted (count_answered cl s)
unfolding count_answered
count_answered-IsCounted s cl lt r a inc = elim (Bool-cases (bit_is_set cl s.answered_set)) [
  | inl e ↦ rw e (record { ready = r; answered = a; included = λ j h. ground (arith, inc j h, e) })
  | inr e ↦ rw e (record {
    ready = r;
    answered = add-IsCount s.answered_set s.nr_answered cl a lt e;
    included =
        λ j h. bit_is_set-set_bit cl j s.answered_set a.bytes (omega (arith, a.whole)) ∙ inc j h;
  })
]

forget_answered-IsCounted :
    (s : Slice) (cl : ℕ)
    → cl < max_clients
    → IsCount s.ready_set s.nr_ready
    → IsCount s.answered_set s.nr_answered
    → ((j : ℕ)
        → bit_is_set j s.ready_set ≡ true
        → (not (cl == j) && bit_is_set j s.answered_set) ≡ true)
    → IsCounted (forget_answered cl s)
unfolding forget_answered
forget_answered-IsCounted s cl lt r a inc = elim (Bool-cases (bit_is_set cl s.answered_set)) [
  | inl e ↦ rw e (record {
    ready = r;
    answered = remove-IsCount s.answered_set s.nr_answered cl a lt e;
    included =
        λ j h. bit_is_set-clear_bit cl j s.answered_set a.bytes (omega (arith, a.whole)) ∙ inc j h;
  })
  | inr e ↦ rw e (record { ready = r; answered = a; included = λ j h. ground (arith, inc j h) })
]

module _ (s : Slice) (cl : ℕ) (c : IsCounted s) (lt : cl < max_clients) where
  -- An OK: the receiver is ready, and has answered.
  pub ok-IsCounted : IsCounted (count_answered cl (count_ready cl s))
  unfolding count_ready
  ok-IsCounted = elim (Bool-cases (bit_is_set cl s.ready_set)) [
    | inl e ↦ rw e (
        count_answered-IsCounted s cl lt c.ready c.answered (λ j h. ground (arith, c.included j h)))
    | inr e ↦ rw e (
        count_answered-IsCounted
          (record s { ready_set = set_bit cl s.ready_set; nr_ready = usize_add s.nr_ready 1 }) cl lt
          (add-IsCount s.ready_set s.nr_ready cl c.ready lt e) c.answered
          (λ j h. ground (
            arith,
            c.included j,
            bit_is_set-set_bit cl j s.ready_set c.ready.bytes (omega (arith, c.ready.whole)),
          )))
  ]

  pub retransmit-IsCounted : (map : Bytes) → IsCounted (count_answered cl (request_blocks map s))
  unfolding request_blocks
  retransmit-IsCounted map =
      count_answered-IsCounted (request_blocks map s) cl lt c.ready c.answered
        (λ j h. ground (arith, c.included j h))

  pub disconnect-IsCounted : IsCounted (forget_answered cl (forget_ready cl s))
  unfolding forget_ready
  disconnect-IsCounted = elim (Bool-cases (bit_is_set cl s.ready_set)) [
    | inl e ↦ rw e (
        forget_answered-IsCounted
          (record s { ready_set = clear_bit cl s.ready_set; nr_ready = usize_sub s.nr_ready 1 }) cl
          lt (remove-IsCount s.ready_set s.nr_ready cl c.ready lt e) c.answered
          (λ j h. ground (
            arith,
            c.included j,
            bit_is_set-clear_bit cl j s.ready_set c.ready.bytes (omega (arith, c.ready.whole)),
          )))
    | inr e ↦ rw e (
        forget_answered-IsCounted s cl lt c.ready c.answered
          (λ j h. ground (arith, c.included j h, different e j h)))
  ]
    where
      different :
          bit_is_set cl s.ready_set ≡ false → (j : ℕ) → bit_is_set j s.ready_set ≡ true → cl ≢ j
      different e j h same = cc (subst (λ (k : ℕ). bit_is_set k s.ready_set ≡ false) same e)

-- Every slice of the ring counts right.
abbrev pub AllCounted : List Slice → Type 0
AllCounted slices = (i : ℕ) → IsCounted (slice_at slices i)

pub set-AllCounted :
    (slices : List Slice) (i : ℕ) (s : Slice)
    → AllCounted slices
    → IsCounted s
    → AllCounted (set slices i s)
set-AllCounted slices i s all c j =
    rw (get_or-set slices i j s (new_slice 0))
      (elim (Bool-cases (i == j && ltb i (length slices))) [
        | inl e ↦ rw e c
        | inr e ↦ rw e (all j)
      ])

map-AllCounted :
    (slices : List Slice) (f : Slice → Slice)
    → AllCounted slices
    → ((s : Slice) → IsCounted s → IsCounted (f s))
    → AllCounted (map f slices)
map-AllCounted slices f all keep j = elim (dec_lt j (length slices)) [
  | yes p ↦
      rw (get_or-map f slices j (new_slice 0) (new_slice 0) p) (keep (slice_at slices j) (all j))
  | no p ↦
      rw (get_or-past (map f slices) j (new_slice 0) (omega (arith, length-map slices f)))
        (new_slice-IsCounted 0)
]

-- The participant that a message names.
abbrev pub sender_of : IncomingMsg → ℕ
sender_of (ok slice_no cl) = cl
sender_of (retransmit slice_no cl blocks rxmit) = cl
sender_of (disconnect cl) = cl

-- Any message from an index below the size of the table keeps the counters right in every slice:
-- each counts its set of 1024 bits, and the ready set stays within the answered set.
pub handle_message-AllCounted :
    (m : IncomingMsg) (d : Dispatch)
    → AllCounted d.slices
    → sender_of m < max_clients
    → AllCounted (handle_message m d).slices
unfolding handle_message
handle_message-AllCounted (ok slice_no cl) d all lt =
    elim (Option-cases (find_slice d.slices slice_no)) [
      | inl e ↦ rw (e, handle_message) all
      | inr (i, e) ↦
          rw (e, handle_message)
            (set-AllCounted d.slices i (count_answered cl (count_ready cl (slice_at d.slices i)))
              all (ok-IsCounted (slice_at d.slices i) cl (all i) lt))
    ]
handle_message-AllCounted (retransmit slice_no cl blocks rxmit) d all lt =
    elim (Option-cases (find_slice d.slices slice_no)) [
      | inl e ↦ rw (e, handle_message) all
      | inr (i, e) ↦
          rw (e, handle_message)
            (set-AllCounted d.slices i
              (count_answered cl (request_blocks blocks (slice_at d.slices i))) all
              (retransmit-IsCounted (slice_at d.slices i) cl (all i) lt blocks))
    ]
handle_message-AllCounted (disconnect cl) d all lt =
    map-AllCounted d.slices (λ s. forget_answered cl (forget_ready cl s)) all
      (λ s c. disconnect-IsCounted s cl c lt)
