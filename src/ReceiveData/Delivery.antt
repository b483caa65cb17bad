-- ===== src/ReceiveData/Delivery.antt =====
-- A data block that arrives, and the completion of its slice, keep the slice's blocks in the ring.
use mathlib.Core.Option.{some-injective}
use udpcast_rs.Base.{
  ap₂, take_all, length-set, usize_add, usize_mul, ℕ, ◌%◌, ◌<◌, ◌≤◌, ◌≡◌, refl, sym, ap, ◌∙◌, subst,
  arith, false, true, not, ltb, ◌&&◌, ℕ_discrete, Option, some, List, Bytes, length, leb, ◌==◌,
  ◌||◌, Bool-cases, Option-cases, inl, inr, take, min, set, get_or-set,
}
use udpcast_rs.Bitmap.{bit_is_set, set_bit}
use udpcast_rs.Bitmap.Laws.{bit_is_set-set_bit}
use udpcast_rs.Fifo.{Fifo, read_at}
use udpcast_rs.Protocol.{DataBlock}
use udpcast_rs.SendData.Answers.{nr_blocks}
use udpcast_rs.ReceiveData.{Slice, Receiver, complete_slice, hand_over, end_transfer, is_finished}
use udpcast_rs.ReceiveData.Table.{Table, slot, empty_slice, place, complete_at, is_free}
use udpcast_rs.ReceiveData.Recover.{Recovery, marked, put_block, check_slice_complete, enough_fec}
use udpcast_rs.ReceiveData.Blocks.{learn_bytes, store_block, take_block}
use udpcast_rs.ReceiveData.Counts.{put_block-slice}
use udpcast_rs.ReceiveData.Holdings.{Stores, put_block-Stores, learn_bytes-Stores}

-- Completing a slice moves indices of the queues and keeps the bytes.
complete_slice-ring :
    (r r' : Receiver)
    → complete_slice r ≡ some r'
    → (r'.fifo.buffer ≡ r.fifo.buffer)
      × (r'.fifo.data_buf_size ≡ r.fifo.data_buf_size)
      × (r'.slice.base ≡ r.slice.base)
      × (r'.slice.retransmit_map ≡ r.slice.retransmit_map)
      × (r'.slice.data_blocks_transferred ≡ r.slice.data_blocks_transferred)
unfolding complete_slice hand_over end_transfer
complete_slice-ring r r' e = elim (Option-cases (hand_over r.slice r.fifo)) [
  | inl n ↦ (
    ground (arith, e, n),
    ground (arith, e, n),
    ground (arith, e, n),
    ground (arith, e, n),
    ground (arith, e, n),
  )
  | inr (f, h) ↦ (
    ground (arith, e, h),
    ground (arith, e, h),
    ground (arith, e, h),
    ground (arith, e, h),
    ground (arith, e, h),
  )
]

read_at-same :
    (f g : Fifo) (o n : ℕ)
    → g.buffer ≡ f.buffer
    → g.data_buf_size ≡ f.data_buf_size
    → read_at g o n ≡ read_at f o n
unfolding read_at
read_at-same f g o n b z = rw (b, z) refl

complete_slice-Stores :
    (block_size : ℕ) (sent : ℕ → Bytes) (r r' : Receiver)
    → complete_slice r ≡ some r'
    → Stores block_size sent r.slice r.fifo
    → Stores block_size sent r'.slice r'.fifo
complete_slice-Stores block_size sent r r' e h =
    let (eb, ez, base, map, n) = complete_slice-ring r r' e in
    record {
      room = record {
        valid = record { whole = rw (eb, ez) h.room.valid.whole; small = rw ez h.room.valid.small };
        some_bytes = h.room.some_bytes;
        slice_fits = rw ez h.room.slice_fits;
        small = rw ez h.room.small;
        inside = rw (ez, base) h.room.inside;
      };
      tallied = rw (map, n) h.tallied;
      there = λ j lt b.
          ap (λ (o : ℕ). read_at r'.fifo o (length (sent j)))
            (ap₂ (λ (x y : ℕ). usize_add x (usize_mul j block_size) % y) base ez)
          ∙ read_at-same r.fifo r'.fifo (place block_size r.slice r.fifo j) (length (sent j)) eb ez
          ∙ h.there j lt (rw map at b);
    }

pub slot-set :
    (slices : List Slice) (i : ℕ) (s : Slice) → i < length slices → slot (set slices i s) i ≡ s
slot-set slices i s lt = get_or-set slices i i s empty_slice ∙ ground (arith, lt)

complete_at-Stores :
    (block_size i : ℕ) (sent : ℕ → Bytes) (t t' : Table)
    → i < length t.slices
    → complete_at t i ≡ some t'
    → Stores block_size sent (slot t.slices i) t.fifo
    → Stores block_size sent (slot t'.slices i) t'.fifo
unfolding complete_at
complete_at-Stores block_size i sent t t' lt e h =
    elim (Option-cases
      (complete_slice (record { slice = slot t.slices i; fifo = t.fifo; client = t.client }))) [
        | inl n ↦ ground (arith, e, n)
        | inr (r, w) ↦
            subst (λ (q : Table). Stores block_size sent (slot q.slices i) q.fifo)
              (some-injective _ _ (rw w at e))
              (rw (slot-set t.slices i r.slice lt) (complete_slice-Stores block_size sent _ r w h))
      ]

pub check_slice_complete-Stores :
    (block_size i : ℕ) (sent : ℕ → Bytes) (t t' : Table)
    → i < length t.slices
    → (slot t.slices i).fec_stripes ≡ 0
    → check_slice_complete block_size t i ≡ some t'
    → Stores block_size sent (slot t.slices i) t.fifo
    → Stores block_size sent (slot t'.slices i) t'.fifo
unfolding check_slice_complete enough_fec
check_slice_complete-Stores block_size i sent t t' lt z e h =
    elim (Bool-cases (not (slot t.slices i).bytes_known || (slot t.slices i).bytes == 0)) [
      | inl a ↦
          subst (λ (q : Table). Stores block_size sent (slot q.slices i) q.fifo)
            (some-injective _ _ (rw a at e)) h
      | inr a ↦
          elim (Bool-cases (
            leb (nr_blocks (slot t.slices i).bytes block_size)
              (slot t.slices i).data_blocks_transferred)) [
                | inl f ↦ complete_at-Stores block_size i sent t t' lt (rw (a, f) at e) h
                | inr f ↦
                    subst (λ (q : Table). Stores block_size sent (slot q.slices i) q.fifo)
                      (some-injective _ _ (rw (a, f, z) at e)) h
              ]
    ]

marked-stripes : (i : ℕ) (s : Slice) → (marked i s).fec_stripes ≡ s.fec_stripes
unfolding marked
marked-stripes i s = refl

learn_bytes-kept :
    (n : ℕ) (s : Slice)
    → ((learn_bytes n s).retransmit_map ≡ s.retransmit_map)
      × ((learn_bytes n s).fec_stripes ≡ s.fec_stripes)
unfolding learn_bytes
learn_bytes-kept n s = (ground arith, ground arith)

module _ (block_size i : ℕ) (sent : ℕ → Bytes) (t t' : Table) (msg : DataBlock) (bytes : Bytes)
    (lt : i < length t.slices) where
  -- A block that is stored is put where the slice's block goes.
  store_block-put :
      bytes ≡ sent msg.block_no
      → length bytes ≤ block_size
      → store_block block_size t i msg bytes ≡ some t'
      → (r : Recovery) × (put_block block_size
            (record { slice = learn_bytes msg.bytes (slot t.slices i); fifo = t.fifo })
            msg.block_no
            (sent msg.block_no)
          ≡ some r)
        × (record t { slices = set t.slices i r.slice; fifo = r.fifo } ≡ t')
  unfolding store_block
  store_block-put same short e =
      elim (Option-cases (
        put_block block_size
          (record { slice = learn_bytes msg.bytes (slot t.slices i); fifo = t.fifo }) msg.block_no
          (take (min (length bytes) block_size) bytes))) [
            | inl n ↦ ground (arith, e, n)
            | inr (r, w) ↦ (
              r,
              ap (put_block block_size _ msg.block_no) (
                    sym (
                      take_all (min (length bytes) block_size) bytes (omega (arith, short)) ∙ same))
                  ∙ w,
              some-injective _ _ (rw w at e),
            )
          ]

  store_block-Stores :
      ((j : ℕ) → length (sent j) ≤ block_size)
      → msg.block_no < 1024
      → bit_is_set msg.block_no (slot t.slices i).retransmit_map ≡ false
      → bytes ≡ sent msg.block_no
      → store_block block_size t i msg bytes ≡ some t'
      → Stores block_size sent (slot t.slices i) t.fifo
      → Stores block_size sent (slot t'.slices i) t'.fifo
        × ((slot t'.slices i).fec_stripes ≡ (slot t.slices i).fec_stripes)
        × (i < length t'.slices)
  store_block-Stores short below new same e h =
      let (r, w, out) =
        store_block-put same (omega (arith, short msg.block_no, ap length same)) e in
      subst
        (λ (q : Table).
          Stores block_size sent (slot q.slices i) q.fifo
          × ((slot q.slices i).fec_stripes ≡ (slot t.slices i).fec_stripes)
          × (i < length q.slices))
        out
        (
          rw (slot-set t.slices i r.slice lt) (
              put_block-Stores block_size msg.block_no sent _ r short below
                (ap (bit_is_set msg.block_no) (learn_bytes-kept msg.bytes (slot t.slices i)).0
                  ∙ new)
                (learn_bytes-Stores block_size msg.bytes sent (slot t.slices i) t.fifo h) w),
          ap (λ (s : Slice). s.fec_stripes)
                (slot-set t.slices i r.slice lt ∙ put_block-slice block_size msg.block_no _ _ r w)
              ∙ marked-stripes msg.block_no _
              ∙ (learn_bytes-kept msg.bytes (slot t.slices i)).1,
          omega (arith, lt, length-set t.slices i r.slice),
        )

-- The blocks that are there after a block has been taken: those before it, and the new one, if the
-- slice is open and the block's number is one of a slice.
abbrev pub TakesIn : Slice → ℕ → Slice → Type 0
TakesIn s i s' =
    (j : ℕ)
    → bit_is_set j s'.retransmit_map ≡ (
        bit_is_set j s.retransmit_map
        || (not (is_free s.state || is_finished s.state) && ltb i 1024 && i == j))

complete_at-map :
    (t t' : Table) (i : ℕ)
    → i < length t.slices
    → complete_at t i ≡ some t'
    → (slot t'.slices i).retransmit_map ≡ (slot t.slices i).retransmit_map
unfolding complete_at
complete_at-map t t' i lt e =
    elim (Option-cases
      (complete_slice (record { slice = slot t.slices i; fifo = t.fifo; client = t.client }))) [
        | inl n ↦ ground (arith, e, n)
        | inr (r, w) ↦
            subst
              (λ (q : Table). (slot q.slices i).retransmit_map ≡ (slot t.slices i).retransmit_map)
              (some-injective _ _ (rw w at e))
              (ap (λ (s : Slice). s.retransmit_map) (slot-set t.slices i r.slice lt)
                ∙ (complete_slice-ring _ r w).3)
      ]

check_slice_complete-map :
    (block_size i : ℕ) (t t' : Table)
    → i < length t.slices
    → (slot t.slices i).fec_stripes ≡ 0
    → check_slice_complete block_size t i ≡ some t'
    → (slot t'.slices i).retransmit_map ≡ (slot t.slices i).retransmit_map
unfolding check_slice_complete enough_fec
check_slice_complete-map block_size i t t' lt z e =
    elim (Bool-cases (not (slot t.slices i).bytes_known || (slot t.slices i).bytes == 0)) [
      | inl a ↦ same_map (rw a at e)
      | inr a ↦
          elim (Bool-cases (
            leb (nr_blocks (slot t.slices i).bytes block_size)
              (slot t.slices i).data_blocks_transferred)) [
                | inl f ↦ complete_at-map t t' i lt (rw (a, f) at e)
                | inr f ↦ same_map (rw (a, f, z) at e)
              ]
    ]
  where
    same_map :
        ◌≡◌ {A = Option Table} (some t) (some t')
        → (slot t'.slices i).retransmit_map ≡ (slot t.slices i).retransmit_map
    same_map w = ap (λ (q : Table). (slot q.slices i).retransmit_map) (sym (some-injective _ _ w))

-- A new block is marked.
store_block-map :
    (block_size i : ℕ) (t t' : Table) (msg : DataBlock) (bytes : Bytes)
    → i < length t.slices
    → store_block block_size t i msg bytes ≡ some t'
    → (slot t'.slices i).retransmit_map ≡ set_bit msg.block_no (slot t.slices i).retransmit_map
unfolding store_block marked
store_block-map block_size i t t' msg bytes lt e =
    elim (Option-cases (
      put_block block_size
        (record { slice = learn_bytes msg.bytes (slot t.slices i); fifo = t.fifo }) msg.block_no
        (take (min (length bytes) block_size) bytes))) [
          | inl n ↦ ground (arith, e, n)
          | inr (r, w) ↦
              subst
                (λ (q : Table).
                  (slot q.slices i).retransmit_map
                  ≡ set_bit msg.block_no (slot t.slices i).retransmit_map)
                (some-injective _ _ (rw w at e))
                (ap (λ (s : Slice). s.retransmit_map)
                    (slot-set t.slices i r.slice lt
                      ∙ put_block-slice block_size msg.block_no _ _ r w)
                  ∙ ap (set_bit msg.block_no) (learn_bytes-kept msg.bytes (slot t.slices i)).0)
        ]

-- Let a block of at most the block size arrive as it was sent, for a slice without FEC blocks. If
-- the ring has room for a slice, and the blocks that the slice's map has are in it as they were
-- sent, this is still so where taking the block does not end the process. The map then has the
-- blocks that it had, and the new one if the slice is neither free nor done and the block's number
-- is below 1024, and no others.
pub take_block-Stores :
    (block_size i : ℕ) (sent : ℕ → Bytes) (t t' : Table) (msg : DataBlock) (bytes : Bytes)
    → ((j : ℕ) → length (sent j) ≤ block_size)
    → i < length t.slices
    → (slot t.slices i).fec_stripes ≡ 0
    → bytes ≡ sent msg.block_no
    → take_block block_size t i msg bytes ≡ some t'
    → Stores block_size sent (slot t.slices i) t.fifo
    → Stores block_size sent (slot t'.slices i) t'.fifo
      × TakesIn (slot t.slices i) msg.block_no (slot t'.slices i)
unfolding take_block
take_block-Stores block_size i sent t t' msg bytes short lt z same e h =
    elim (Bool-cases (is_free (slot t.slices i).state || is_finished (slot t.slices i).state)) [
      | inl a ↦ stays (rw a at e) (λ j. ground (arith, a))
      | inr a ↦ elim (Bool-cases (leb 1024 msg.block_no)) [
        | inl l ↦ stays (rw (a, l) at e) (λ j. ground (arith, a, l))
        | inr l ↦ elim (Bool-cases (bit_is_set msg.block_no (slot t.slices i).retransmit_map)) [
          | inl b ↦ stays (rw (a, l, b) at e) (λ j. there_already j b)
          | inr b ↦ elim (Option-cases (store_block block_size t i msg bytes)) [
            | inl n ↦ ground (arith, e, a, l, b, n)
            | inr (q, st) ↦
                let below : msg.block_no < 1024 = ground (arith, l) in
                let (hq, zq, lq) =
                  store_block-Stores block_size i sent t q msg bytes lt short below b same st h in
                let rest = rw (a, l, b, st) at e in
                let map_eq : (slot t'.slices i).retransmit_map
                    ≡ set_bit msg.block_no (slot t.slices i).retransmit_map =
                  check_slice_complete-map block_size i q t' lq (zq ∙ z) rest
                  ∙ store_block-map block_size i t q msg bytes lt st in
                (
                  check_slice_complete-Stores block_size i sent q t' lq (zq ∙ z) rest hq,
                  λ j.
                      ap (bit_is_set j) map_eq
                      ∙ bit_is_set-set_bit msg.block_no j (slot t.slices i).retransmit_map
                          h.tallied.bytes (omega (arith, below, h.tallied.whole))
                      ∙ ground (arith, a, below),
                )
          ]
        ]
      ]
    ]
  where
    stays :
        ◌≡◌ {A = Option Table} (some t) (some t')
        → TakesIn (slot t.slices i) msg.block_no (slot t.slices i)
        → Stores block_size sent (slot t'.slices i) t'.fifo
          × TakesIn (slot t.slices i) msg.block_no (slot t'.slices i)
    stays w k =
        subst
          (λ (q : Table).
            Stores block_size sent (slot q.slices i) q.fifo
            × TakesIn (slot t.slices i) msg.block_no (slot q.slices i))
          (some-injective _ _ w) (h, k)

    there_already :
        (j : ℕ)
        → bit_is_set msg.block_no (slot t.slices i).retransmit_map ≡ true
        → bit_is_set j (slot t.slices i).retransmit_map ≡ (
            bit_is_set j (slot t.slices i).retransmit_map
            || (not (is_free (slot t.slices i).state || is_finished (slot t.slices i).state)
                && ltb msg.block_no 1024
                && msg.block_no == j))
    there_already j b = elim (ℕ_discrete msg.block_no j) [
      | yes e ↦
          ground (arith, subst (λ k. bit_is_set k (slot t.slices i).retransmit_map ≡ true) e b)
      | no ne ↦ ground (arith, ne)
    ]
