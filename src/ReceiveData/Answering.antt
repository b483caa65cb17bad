-- ===== src/ReceiveData/Answering.antt =====
-- The answer to a REQACK for a slice that is not complete.
use mathlib.Core.List.{append-nil}
use udpcast_rs.Base.{
  count_up, first_failure, ◌↔◌, ℕ, zero, suc, ◌^◌, ◌<◌, ◌≤◌, ◌≡◌, refl, sym, ◌∙◌, subst, arith,
  true, false, not, some, none, [], Bytes, length, ltb, ◌&&◌, ◌||◌, Bool-cases, inl, inr, set,
  count-full, count-le, replicate, dec_lt, if◌then◌else◌,
}
use udpcast_rs.Bitmap.{bit_is_set, set_bit}
use udpcast_rs.Bitmap.Laws.{
  IsBytes, set_bit-IsBytes, length-set_bit, bit_is_set-set_bit, bit_is_set-zeros, zeros-IsBytes,
}
use udpcast_rs.Bitmap.Sizes.{has_bit}
use udpcast_rs.Protocol.{Reqack, Retransmit}
use udpcast_rs.Protocol.Pack.{pack_retransmit, unpack_retransmit}
use udpcast_rs.Protocol.Pack.RoundTrip.{unpack-pack_retransmit}
use udpcast_rs.SendData as Sending
use udpcast_rs.SendData.Messages.{request_blocks}
use udpcast_rs.SendData.Messages.Missing.{bit_is_set-request_blocks}
use udpcast_rs.SendData.Answers.{nr_blocks}
use udpcast_rs.ReceiveData.{Slice}
use udpcast_rs.ReceiveData.Table.{Table, slot, answer, as_usize}
use udpcast_rs.ReceiveData.Recover.{held}
use udpcast_rs.ReceiveData.Requests.{have_map, told, answer_reqack}
use udpcast_rs.ReceiveData.Counts.{IsTallied}

-- The map that the answer is to hold: the blocks below `n` that are there.
abbrev arrived : Bytes → ℕ → Bytes
arrived map zero = replicate 128 0
arrived map (suc i) = let rest = arrived map i in if bit_is_set i map then set_bit i rest else rest

pub arrived-whole : (map : Bytes) (n : ℕ) → IsBytes (arrived map n) × (length (arrived map n) ≡ 128)
arrived-whole map zero = (zeros-IsBytes 128, refl)
arrived-whole map (suc n) = elim (Bool-cases (bit_is_set n map)) [
  | inl e ↦ rw e (
    set_bit-IsBytes n (arrived map n) (arrived-whole map n).0,
    omega (arith, length-set_bit n (arrived map n), (arrived-whole map n).1),
  )
  | inr e ↦ rw e (arrived-whole map n)
]

-- The map of the answer has the blocks that are there, below the bound.
pub bit_is_set-arrived :
    (map : Bytes) (n j : ℕ)
    → n ≤ 1024
    → bit_is_set j (arrived map n) ≡ (ltb j n && bit_is_set j map)
bit_is_set-arrived map zero j le = ground (arith, bit_is_set-zeros 128 j)
bit_is_set-arrived map (suc n) j le = elim (Bool-cases (bit_is_set n map)) [
  | inl e ↦ rw e (
      ground (
        arith,
        bit_is_set-set_bit n j (arrived map n) (arrived-whole map n).0
            (omega (arith, le, (arrived-whole map n).1)),
        bit_is_set-arrived map n j (omega (arith, le)),
        same_bit n j e,
      ))
  | inr e ↦ rw e (ground (arith, bit_is_set-arrived map n j (omega (arith, le)), other_bit n j e))
]
  where
    same_bit : (n j : ℕ) → bit_is_set n map ≡ true → n ≡ j → bit_is_set j map ≡ true
    same_bit n j e h = subst (λ t. bit_is_set t map ≡ true) h e

    other_bit : (n j : ℕ) → bit_is_set n map ≡ false → n ≡ j → bit_is_set j map ≡ false
    other_bit n j e h = subst (λ t. bit_is_set t map ≡ false) h e

-- The loop over the blocks makes it as long as the maps reach, and panics past them.
have_map-arrived :
    (map : Bytes) (n : ℕ) → length map ≡ 128 → n ≤ 1024 → have_map map n ≡ some (arrived map n)
unfolding have_map held
have_map-arrived map zero l le = refl
have_map-arrived map (suc n) l le =
    rw (have_map-arrived map n l (omega arith)) (ground (arith, l, le, (arrived-whole map n).1))

have_map-panics : (map : Bytes) (n : ℕ) → length map ≡ 128 → 1024 < n → have_map map n ≡ none
unfolding have_map held
have_map-panics map zero l lt = absurd (omega arith)
have_map-panics map (suc n) l lt = elim (dec_lt 1024 n) [
  | yes p ↦ rw (have_map-panics map n l p) refl
  | no p ↦ rw (have_map-arrived map n l (omega (arith, p))) (ground (arith, l, lt))
]

-- A slice that has fewer than `n` blocks lacks one of the first `n`.
lacks_one :
    (s : Slice) (n : ℕ)
    → IsTallied s
    → n ≤ 1024
    → s.data_blocks_transferred < n
    → (j : ℕ) × (j < n) × (bit_is_set j s.retransmit_map ≡ false)
lacks_one s n c le lt = elim (first_failure (has_bit s.retransmit_map) n) [
  | inr found ↦ found
  | inl all ↦ absurd (
      omega (
        arith,
        lt,
        c.exact,
        count-full (has_bit s.retransmit_map) n all,
        count_up (has_bit s.retransmit_map) n 1024 le,
      ))
]

-- What is asked for, and the table with it.
abbrev pub asked : ℕ → Table → ℕ → Reqack → Retransmit
asked block_size t i msg = record {
  slice_no = msg.slice_no;
  rxmit = msg.rxmit;
  map = arrived (slot t.slices i).retransmit_map (nr_blocks (as_usize msg.bytes) block_size);
}

-- Let the slice's counter and map be right. A REQACK gives the slice a size of more than 1024
-- blocks if and only if it asks for more blocks than have arrived and its answer ends the process,
-- by an index out of range of a map.
pub answer_reqack-panics_iff :
    (block_size i : ℕ) (t : Table) (msg : Reqack)
    → IsTallied (slot t.slices i)
    → ((slot t.slices i).data_blocks_transferred < nr_blocks (as_usize msg.bytes) block_size)
        × (answer_reqack block_size t i msg ≡ none)
      ↔ (1024 < nr_blocks (as_usize msg.bytes) block_size)
unfolding answer_reqack told
answer_reqack-panics_iff block_size i t msg c = (
  λ (lt, e). elim (dec_lt 1024 (nr_blocks (as_usize msg.bytes) block_size)) [
    | yes p ↦ p
    | no p ↦ ground (
      arith,
      e,
      lt,
      have_map-arrived (slot t.slices i).retransmit_map (nr_blocks (as_usize msg.bytes) block_size)
          c.whole (omega (arith, p)),
    )
  ],
  λ h.
      let few : (slot t.slices i).data_blocks_transferred ≤ 1024 =
        omega (arith, c.exact, count-le (has_bit (slot t.slices i).retransmit_map) 1024) in
      (
        omega (arith, h, few),
        ground (
          arith,
          h,
          few,
          have_map-panics (slot t.slices i).retransmit_map
              (nr_blocks (as_usize msg.bytes) block_size) c.whole h,
        ),
      ),
)

module _ (block_size i : ℕ) (t : Table) (msg : Reqack) (c : IsTallied (slot t.slices i))
    (lt : (slot t.slices i).data_blocks_transferred < nr_blocks (as_usize msg.bytes) block_size)
    (le : nr_blocks (as_usize msg.bytes) block_size ≤ 1024) (n : msg.slice_no < 2 ^ 32)
    (x : msg.rxmit < 2 ^ 32) where
  sends :
      answer_reqack block_size t i msg
      ≡ some (
          answer
            (record t { slices = set t.slices i (told msg (slot t.slices i)) })
            (pack_retransmit (asked block_size t i msg)))
  unfolding answer_reqack told
  sends = ground (
    arith,
    lt,
    le,
    have_map-arrived (slot t.slices i).retransmit_map (nr_blocks (as_usize msg.bytes) block_size)
        c.whole le,
  )

  reads :
      unpack_retransmit (pack_retransmit (asked block_size t i msg))
      ≡ some (asked block_size t i msg)
  reads =
      subst (λ (p : Bytes). unpack_retransmit p ≡ some (asked block_size t i msg))
        (append-nil (pack_retransmit (asked block_size t i msg)))
        (unpack-pack_retransmit (asked block_size t i msg) [] n x
          (arrived-whole (slot t.slices i).retransmit_map
            (nr_blocks (as_usize msg.bytes) block_size)).1)

  still_lacks :
      (j : ℕ) × (j < nr_blocks (as_usize msg.bytes) block_size)
      × (bit_is_set j (asked block_size t i msg).map ≡ false)
  still_lacks =
      let (j, below, gone) = lacks_one (slot t.slices i) _ c le lt in
      (
        j,
        below,
        ground (
          arith,
          bit_is_set-arrived (slot t.slices i).retransmit_map
              (nr_blocks (as_usize msg.bytes) block_size) j le,
          gone,
        ),
      )

  -- Let a REQACK with a slice number and a round of 32 bits give the size of a slice as at most
  -- 1024 blocks, more than have arrived, with the slice's counter right. The answer is one packet,
  -- which is read back as a RETRANSMIT message. A bit of its map is set if and only if that block
  -- of the slice has arrived, and it lacks at least one of them.
  pub answer_reqack-asks :
      (packet : Bytes) × (m : Retransmit) × (answer_reqack block_size t i msg
        ≡ some (answer (record t { slices = set t.slices i (told msg (slot t.slices i)) }) packet))
      × (unpack_retransmit packet ≡ some m)
      × ((j : ℕ)
          → bit_is_set j m.map ≡ (
              ltb j (nr_blocks (as_usize msg.bytes) block_size)
              && bit_is_set j (slot t.slices i).retransmit_map))
      × (j : ℕ) × (j < nr_blocks (as_usize msg.bytes) block_size)
      × (bit_is_set j m.map ≡ false)
  answer_reqack-asks = (
    pack_retransmit (asked block_size t i msg),
    asked block_size t i msg,
    sends,
    reads,
    λ j. bit_is_set-arrived _ _ j le,
    still_lacks.0,
    still_lacks.1,
    still_lacks.2,
  )

  -- Let a REQACK with a slice number and a round of 32 bits give the size of a slice as at most
  -- 1024 blocks, more than have arrived, with the slice's counter right. The answer is one packet,
  -- which is read back as a RETRANSMIT message; when the sender has taken it up in a map of 128
  -- bytes, each block of the slice is sent again if it was to be sent again already or the receiver
  -- lacks it.
  pub answer_reqack-resends :
      (s : Sending.Slice)
      → length s.rxmit_map ≡ 128
      → (packet : Bytes) × (m : Retransmit) × (answer_reqack block_size t i msg
          ≡ some
              (answer (record t { slices = set t.slices i (told msg (slot t.slices i)) }) packet))
        × (unpack_retransmit packet ≡ some m)
        × ((j : ℕ)
            → j < nr_blocks (as_usize msg.bytes) block_size
            → bit_is_set j (request_blocks m.map s).rxmit_map
              ≡ (bit_is_set j s.rxmit_map || not (bit_is_set j (slot t.slices i).retransmit_map)))
  answer_reqack-resends s w = (
    pack_retransmit (asked block_size t i msg),
    asked block_size t i msg,
    sends,
    reads,
    λ j below. ground (
      arith,
      below,
      bit_is_set-request_blocks s (asked block_size t i msg).map j (w ∙ sym whole.1) whole.0
          (omega (arith, below, le, whole.1)),
      bit_is_set-arrived (slot t.slices i).retransmit_map
          (nr_blocks (as_usize msg.bytes) block_size) j le,
    ),
  )
    where
      whole : IsBytes (asked block_size t i msg).map × (length (asked block_size t i msg).map ≡ 128)
      whole =
          arrived-whole (slot t.slices i).retransmit_map (nr_blocks (as_usize msg.bytes) block_size)
