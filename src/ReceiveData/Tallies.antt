-- ===== src/ReceiveData/Tallies.antt =====
-- Every message of the sender keeps the counters of all the receiver's slices right.
use mathlib.Core.Option.{some-injective}
use udpcast_rs.Base.{
  ℕ, ◌≡◌, subst, arith, not, some, List, length, ltb, leb, ◌==◌, ◌&&◌, ◌||◌, Bool-cases,
  Option-cases, inl, inr, set, get_or-set,
}
use udpcast_rs.SendData.Answers.{nr_blocks}
use udpcast_rs.ReceiveData.{Slice, Receiver, complete_slice, hand_over}
use udpcast_rs.ReceiveData.Table.{Table, slot, empty_slice, complete_at}
use udpcast_rs.ReceiveData.Recover.{
  recover_stripes, complete_if_full, try_fec_recover, check_slice_complete, enough_fec,
}
use udpcast_rs.ReceiveData.Counts.{IsTallied, recover_stripes-IsTallied}

abbrev pub AllTallied : Table → Type 0
AllTallied t = (i : ℕ) → IsTallied (slot t.slices i)

pub set-AllTallied :
    (slices : List Slice) (i : ℕ) (s : Slice)
    → ((j : ℕ) → IsTallied (slot slices j))
    → IsTallied s
    → (j : ℕ) → IsTallied (slot (set slices i s) j)
set-AllTallied slices i s a c j =
    rw (get_or-set slices i j s empty_slice)
      (elim (Bool-cases (i == j && ltb i (length slices))) [ inl e ↦ rw e c | inr e ↦ rw e (a j) ])

complete_slice-slice :
    (r r' : Receiver)
    → complete_slice r ≡ some r'
    → (r'.slice.retransmit_map ≡ r.slice.retransmit_map)
      × (r'.slice.data_blocks_transferred ≡ r.slice.data_blocks_transferred)
unfolding complete_slice
complete_slice-slice r r' e = elim (Option-cases (hand_over r.slice r.fifo)) [
  | inl n ↦ (ground (arith, e, n), ground (arith, e, n))
  | inr (f, h) ↦ (ground (arith, e, h), ground (arith, e, h))
]

pub complete_at-AllTallied :
    (t t' : Table) (i : ℕ) → complete_at t i ≡ some t' → AllTallied t → AllTallied t'
unfolding complete_at
complete_at-AllTallied t t' i e a =
    elim (Option-cases
      (complete_slice (record { slice = slot t.slices i; fifo = t.fifo; client = t.client }))) [
        | inl n ↦ ground (arith, e, n)
        | inr (r, h) ↦
            let (m, n) = complete_slice-slice _ r h in
            subst AllTallied (some-injective _ _ (rw h at e))
              (set-AllTallied t.slices i r.slice a (rw (m, n) (a i)))
      ]

complete_if_full-AllTallied :
    (block_size i : ℕ) (t t' : Table)
    → complete_if_full block_size t i ≡ some t'
    → AllTallied t
    → AllTallied t'
unfolding complete_if_full
complete_if_full-AllTallied block_size i t t' e a =
    elim (Bool-cases (
      leb (nr_blocks (slot t.slices i).bytes block_size)
        (slot t.slices i).data_blocks_transferred)) [
          | inl h ↦ complete_at-AllTallied t t' i (rw h at e) a
          | inr h ↦ subst AllTallied (some-injective _ _ (rw h at e)) a
        ]

try_fec_recover-AllTallied :
    (block_size i : ℕ) (t t' : Table)
    → try_fec_recover block_size t i ≡ some t'
    → AllTallied t
    → AllTallied t'
unfolding try_fec_recover
try_fec_recover-AllTallied block_size i t t' e a =
    elim (Bool-cases ((slot t.slices i).fec_stripes == 0)) [
      | inl z ↦ subst AllTallied (some-injective _ _ (rw z at e)) a
      | inr p ↦
          elim (Option-cases (
            recover_stripes block_size (slot t.slices i).fec_stripes 0
              (record { slice = slot t.slices i; fifo = t.fifo }))) [
                | inl n ↦ ground (arith, e, p, n)
                | inr (r, h) ↦
                    complete_if_full-AllTallied block_size i
                      (record t { slices = set t.slices i r.slice; fifo = r.fifo }) t'
                      (rw (p, h) at e)
                      (set-AllTallied t.slices i r.slice a
                        (recover_stripes-IsTallied block_size _ 0 _ r (ground (arith, p)) (a i)
                          h).0)
              ]
    ]

pub check_slice_complete-AllTallied :
    (block_size i : ℕ) (t t' : Table)
    → check_slice_complete block_size t i ≡ some t'
    → AllTallied t
    → AllTallied t'
unfolding check_slice_complete
check_slice_complete-AllTallied block_size i t t' e a =
    elim (Bool-cases (not (slot t.slices i).bytes_known || (slot t.slices i).bytes == 0)) [
      | inl h ↦ subst AllTallied (some-injective _ _ (rw h at e)) a
      | inr h ↦
          elim (Bool-cases (
            leb (nr_blocks (slot t.slices i).bytes block_size)
              (slot t.slices i).data_blocks_transferred)) [
                | inl f ↦ complete_at-AllTallied t t' i (rw (h, f) at e) a
                | inr f ↦ elim (Bool-cases (enough_fec block_size (slot t.slices i))) [
                  | inl g ↦ try_fec_recover-AllTallied block_size i t t' (rw (h, f, g) at e) a
                  | inr g ↦ subst AllTallied (some-injective _ _ (rw (h, f, g) at e)) a
                ]
              ]
    ]
