-- ===== src/ReceiveData/Ending.antt =====
-- When the receiver's data queue ends.
use udpcast_rs.Base.{
  ◌↔◌, ◌⊎◌, ◌<◌, ℕ, zero, suc, ◌+◌, ◌-◌, ◌<◌, ◌≡◌, refl, ap, arith, Bool, true, false, not, ◌&&◌,
  ◌||◌, ◌==◌, some, List, ◌++◌, length, replicate, get_or-set, get_or-append, get_or-past,
  get_or-replicate, length-replicate, length-append, leb, Option-cases, Bool-cases, inl, inr,
  ℕ_discrete,
}
use udpcast_rs.Fifo.{Fifo}
use udpcast_rs.Produconsum
use udpcast_rs.ReceiveData.{
  Slice, Receiver, is_finished, is_completed, mark_completed, all_done, hand_over, end_transfer,
  complete_slice,
}

padded :
    (completed : List Bool) (k j : ℕ)
    → is_completed (completed ++ replicate k false) j ≡ is_completed completed j
padded completed k j = ground (
  arith,
  get_or-append completed (replicate k false) j false,
  get_or-replicate k (j - length completed) false,
  get_or-past completed j false,
)

-- A mark completes its slice and no other.
pub mark_completed_lem :
    (completed : List Bool) (n j : ℕ)
    → is_completed (mark_completed completed n) j ≡ (n == j || is_completed completed j)
unfolding mark_completed
mark_completed_lem completed n j = elim (Bool-cases (leb (length completed) n)) [
  | inl e ↦ rw e (
      ground (
        arith,
        e,
        get_or-set (completed ++ replicate (n + 1 - length completed) false) n j true false,
        length-append completed (replicate (n + 1 - length completed) false),
        length-replicate (n + 1 - length completed) false,
        padded completed (n + 1 - length completed) j,
      ))
  | inr e ↦ rw e (ground (arith, e, get_or-set completed n j true false))
]

hand_over-at_end :
    (s : Slice) (f f' : Fifo) → hand_over s f ≡ some f' → f'.filled.at_end ≡ f.filled.at_end
unfolding hand_over Produconsum.produce
hand_over-at_end s f f' e = ground (arith, e)

end_transfer-at_end :
    (completed : List Bool) (n : ℕ) (f : Fifo)
    → (end_transfer completed n f).filled.at_end ≡ (all_done completed n || f.filled.at_end)
unfolding end_transfer Produconsum.produce_end
end_transfer-at_end completed n f = ground arith

all_done-completed :
    (completed : List Bool) (n j : ℕ)
    → all_done completed n ≡ true
    → j < n
    → is_completed completed j ≡ true
unfolding all_done
all_done-completed completed zero j h lt = absurd (omega arith)
all_done-completed completed (suc n) j h lt = elim (ℕ_discrete j n) [
  | yes e ↦ ground (arith, h, ap (is_completed completed) e)
  | no ne ↦ all_done-completed completed n j (ground (arith, h)) (omega arith)
]

all_done_ext :
    (a b : List Bool) (n : ℕ)
    → ((j : ℕ) → j < n → is_completed a j ≡ is_completed b j)
    → all_done a n ≡ all_done b n
unfolding all_done
all_done_ext a b zero h = refl
all_done_ext a b (suc n) h = ground (arith, h n, all_done_ext a b n (λ j lt. h j (omega arith)))

-- The marker's own mark does not count for the slices before it.
earlier :
    (completed : List Bool) (n : ℕ) → all_done (mark_completed completed n) n ≡ all_done completed n
earlier completed n =
    all_done_ext (mark_completed completed n) completed n
      (λ j lt. ground (arith, mark_completed_lem completed n j))

all_done_iff :
    (completed : List Bool) (n : ℕ)
    → (all_done completed n ≡ true) ↔ ((j : ℕ) → j < n → is_completed completed j ≡ true)
unfolding all_done
all_done_iff completed zero = (λ h j lt. absurd (omega arith), λ h. refl)
all_done_iff completed (suc n) = (
  λ h j lt. all_done-completed completed (suc n) j h lt,
  λ h. ground (arith, h n, (all_done_iff completed n).1 (λ j lt. h j (omega arith))),
)

complete_slice-at_end :
    (r r' : Receiver)
    → complete_slice r ≡ some r'
    → r'.fifo.filled.at_end ≡ (
        r.fifo.filled.at_end
        || (not (is_finished r.slice.state) && r.slice.bytes == 0)
          && all_done r.client.completed_slices r.slice.slice_no)
unfolding complete_slice
complete_slice-at_end r r' e = elim (Option-cases (hand_over r.slice r.fifo)) [
  | inl n ↦ ground (arith, e, n, ended, earlier r.client.completed_slices r.slice.slice_no)
  | inr (f, h) ↦ ground (
    arith,
    e,
    h,
    hand_over-at_end r.slice r.fifo f h,
    ended,
    earlier r.client.completed_slices r.slice.slice_no,
  )
]
  where
    ended :
        (end_transfer
          (mark_completed r.client.completed_slices r.slice.slice_no)
          r.slice.slice_no
          r.fifo).filled.at_end
        ≡ (all_done (mark_completed r.client.completed_slices r.slice.slice_no) r.slice.slice_no
            || r.fifo.filled.at_end)
    ended =
        end_transfer-at_end (mark_completed r.client.completed_slices r.slice.slice_no)
          r.slice.slice_no r.fifo

-- Why the data queue may have ended: it had, or an end marker came with nothing missing.
abbrev pub MayEnd : Receiver → Type 0
MayEnd r =
    (r.fifo.filled.at_end ≡ true)
    ⊎ (is_finished r.slice.state ≡ false)
      × (r.slice.bytes ≡ 0)
      × ((j : ℕ) → j < r.slice.slice_no → is_completed r.client.completed_slices j ≡ true)

-- Where completing a slice does not end the process, the receiver's data queue has ended afterwards
-- if and only if it had before, or the slice was not complete yet, is the empty end marker, and
-- every slice before it is complete.
pub complete_slice-ends :
    (r r' : Receiver) → complete_slice r ≡ some r' → (r'.fifo.filled.at_end ≡ true) ↔ MayEnd r
complete_slice-ends r r' e = (to, from)
  where
    to : r'.fifo.filled.at_end ≡ true → MayEnd r
    to h = elim (Bool-cases r.fifo.filled.at_end) [
      | inl before ↦ inl before
      | inr fresh ↦ inr (
        ground (arith, complete_slice-at_end r r' e, h, fresh),
        ground (arith, complete_slice-at_end r r' e, h, fresh),
        (all_done_iff r.client.completed_slices r.slice.slice_no).0
            (ground (arith, complete_slice-at_end r r' e, h, fresh)),
      )
    ]

    from : MayEnd r → r'.fifo.filled.at_end ≡ true
    from (inl before) = ground (arith, complete_slice-at_end r r' e, before)
    from (inr (open_slice, empty, all)) = ground (
      arith,
      complete_slice-at_end r r' e,
      open_slice,
      empty,
      (all_done_iff r.client.completed_slices r.slice.slice_no).1 all,
    )
