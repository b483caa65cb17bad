-- ===== src/ReceiveData/Holdings.antt =====
-- The blocks that a slice's map has are in the ring with the bytes that were sent.
use mathlib.Core.Option.{some-injective}
use udpcast_rs.Base.{
  ℕ, ◌<◌, ◌≤◌, ◌≡◌, ◌≢◌, sym, ◌∙◌, subst, arith, true, false, some, Bytes, length, ◌==◌, Bool-cases,
  Option-cases, inl, inr, ℕ_discrete,
}
use udpcast_rs.Bitmap.{bit_is_set, set_bit}
use udpcast_rs.Bitmap.Laws.{bit_is_set-set_bit}
use udpcast_rs.Fifo.{Fifo, write_at, read_at}
use udpcast_rs.ReceiveData.{Slice}
use udpcast_rs.ReceiveData.Table.{place}
use udpcast_rs.ReceiveData.Recover.{Recovery, marked, put_block}
use udpcast_rs.ReceiveData.Blocks.{learn_bytes}
use udpcast_rs.ReceiveData.Counts.{IsTallied, marked-IsTallied, put_block-slice}
use udpcast_rs.ReceiveData.Content.{HasRoom, write_at-keeps, write_at-back}

-- Block `j` of the slice as it was sent is `sent j`, a block at most.
pub record Stores (block_size : ℕ) (sent : ℕ → Bytes) (s : Slice) (f : Fifo) : Type 0 where
  pub room : HasRoom block_size f s.base
  pub tallied : IsTallied s
  pub there :
      (j : ℕ)
      → j < 1024
      → bit_is_set j s.retransmit_map ≡ true
      → read_at f (place block_size s f j) (length (sent j)) ≡ some (sent j)

pub put_block-there :
    (block_size i : ℕ) (sent : ℕ → Bytes) (r r' : Recovery)
    → ((j : ℕ) → length (sent j) ≤ block_size)
    → i < 1024
    → Stores block_size sent r.slice r.fifo
    → put_block block_size r i (sent i) ≡ some r'
    → HasRoom block_size r'.fifo r'.slice.base
      × ((j : ℕ)
          → j < 1024
          → bit_is_set j r'.slice.retransmit_map ≡ true
          → read_at r'.fifo (place block_size r'.slice r'.fifo j) (length (sent j)) ≡ some (sent j))
unfolding put_block marked
put_block-there block_size i sent r r' short li h e =
    elim (Option-cases (write_at r.fifo (place block_size r.slice r.fifo i) (sent i))) [
      | inl n ↦ ground (arith, e, n)
      | inr (g, w) ↦
          subst
            (λ (t : Recovery).
              HasRoom block_size t.fifo t.slice.base
              × ((j : ℕ)
                  → j < 1024
                  → bit_is_set j t.slice.retransmit_map ≡ true
                  → read_at t.fifo (place block_size t.slice t.fifo j) (length (sent j))
                    ≡ some (sent j)))
            (some-injective _ _ (rw w at e))
            (
              (write_at-back block_size r.slice r.fifo h.room i (sent i) g li (short i) w).0,
              λ j lj b. elim (ℕ_discrete i j) [
                | yes same ↦
                    subst
                      (λ (k : ℕ).
                        read_at g (place block_size r.slice g k) (length (sent k)) ≡ some (sent k))
                      same
                      (write_at-back block_size r.slice r.fifo h.room i (sent i) g li (short i) w).1
                | no ne ↦
                    write_at-keeps block_size r.slice r.fifo h.room i j (length (sent j)) (sent i) g
                      li lj ne (short i) (short j) w
                    ∙ h.there j lj (older j ne b)
              ],
            )
    ]
  where
    older :
        (j : ℕ)
        → i ≢ j
        → bit_is_set j (set_bit i r.slice.retransmit_map) ≡ true
        → bit_is_set j r.slice.retransmit_map ≡ true
    older j ne b = ground (
      arith,
      bit_is_set-set_bit i j r.slice.retransmit_map h.tallied.bytes
          (omega (arith, li, h.tallied.whole)),
      b,
      ne,
    )

pub put_block-Stores :
    (block_size i : ℕ) (sent : ℕ → Bytes) (r r' : Recovery)
    → ((j : ℕ) → length (sent j) ≤ block_size)
    → i < 1024
    → bit_is_set i r.slice.retransmit_map ≡ false
    → Stores block_size sent r.slice r.fifo
    → put_block block_size r i (sent i) ≡ some r'
    → Stores block_size sent r'.slice r'.fifo
put_block-Stores block_size i sent r r' short li new h e =
    let (room, there) = put_block-there block_size i sent r r' short li h e in
    record {
      room = room;
      tallied =
          subst IsTallied (sym (put_block-slice block_size i (sent i) r r' e))
            (marked-IsTallied r.slice i h.tallied li new);
      there = there;
    }

pub learn_bytes-Stores :
    (block_size n : ℕ) (sent : ℕ → Bytes) (s : Slice) (f : Fifo)
    → Stores block_size sent s f
    → Stores block_size sent (learn_bytes n s) f
unfolding learn_bytes
learn_bytes-Stores block_size n sent s f h = elim (Bool-cases (n == 0)) [
  | inl e ↦ rw e h
  | inr e ↦ rw e (record {
    room = h.room;
    tallied = record { bytes = h.tallied.bytes; whole = h.tallied.whole; exact = h.tallied.exact };
    there = h.there;
  })
]
