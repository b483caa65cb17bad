-- ===== src/Produconsum/Waiting.antt =====
-- The consumer's wait: what it returns, and when it returns.
use udpcast_rs.Base.{
  ℕ, ◌+◌, ◌-◌, ◌≤◌, ◌≡◌, ◌⊎◌, true, false, Option, none, some, List, [], ◌∷◌, arith, min, inl, inr,
  Option-cases,
}
use udpcast_rs.Produconsum.{
  Produconsum, get_produced_amount, get_consumer_position, Wakeup, Consumed, stop_waiting, enough,
  wait_loop, consume_any_inner, consume_contiguous_min_amount,
}
use udpcast_rs.Produconsum.Counters.{IsValid}

-- A round at which the deadline has passed, by one of the two readings of the clock.
abbrev pub Late : ℕ → List Wakeup → Type 0
Late d [] = ⊥
Late d (w ∷ ws) = (d ≤ w.before) ⊎ (d ≤ w.after) ⊎ Late d ws

abbrev pub TimedOut : Option ℕ → List Wakeup → Type 0
TimedOut none ws = ⊥
TimedOut (some d) ws = Late d ws

-- Why a wait may end: enough is there, the producer has ended, or the deadline has passed.
abbrev pub Reason : ℕ → Option ℕ → List Wakeup → Consumed → Type 0
Reason min_amount deadline ws r =
    (min_amount ≤ r.amount) ⊎ (r.queue.at_end ≡ true) ⊎ TimedOut deadline ws

-- The result is read off the state that is unlocked.
abbrev pub IsRead : Consumed → Type 0
IsRead r = (r.amount ≡ get_produced_amount r.queue) × (r.queue.consumer_waiting ≡ false)

stop-IsRead : (q : Produconsum) → IsRead (stop_waiting q)
unfolding stop_waiting get_produced_amount
stop-IsRead q = ground arith

enough-Reason :
    (min_amount : ℕ) (deadline : Option ℕ) (ws : List Wakeup) (q : Produconsum)
    → enough min_amount q ≡ true
    → Reason min_amount deadline ws (stop_waiting q)
unfolding enough stop_waiting
enough-Reason m d ws q h = ground arith

wait_loop_lem :
    (min_amount : ℕ) (deadline : Option ℕ) (q : Produconsum) (ws : List Wakeup) (r : Consumed)
    → wait_loop min_amount deadline q ws ≡ some r
    → Reason min_amount deadline ws r × IsRead r
unfolding wait_loop
wait_loop_lem m none q [] r h = ground arith
wait_loop_lem m (some d) q [] r h = ground arith
wait_loop_lem m none q (w ∷ ws) r h = ground (
  arith,
  wait_loop_lem m none w.queue ws r,
  stop-IsRead w.queue,
  enough-Reason m none (w ∷ ws) w.queue,
)
wait_loop_lem m (some d) q (w ∷ ws) r h = ground (
  arith,
  wait_loop_lem m (some d) w.queue ws r,
  stop-IsRead w.queue,
  stop-IsRead q,
  enough-Reason m (some d) (w ∷ ws) w.queue,
)

-- A wait that ends returns the amount that is waiting in the state it unlocks, with the waiting
-- flag off, and ends because that amount is enough, or the producer has ended, or the deadline has
-- passed.
pub consume_any_inner_lem :
    (min_amount : ℕ) (deadline : Option ℕ) (q : Produconsum) (ws : List Wakeup) (r : Consumed)
    → consume_any_inner min_amount deadline q ws ≡ some r
    → Reason min_amount deadline ws r × IsRead r
unfolding consume_any_inner
consume_any_inner_lem m d q ws r h =
    ground
      (arith, wait_loop_lem m d waiting ws r, enough-Reason m d ws waiting, stop-IsRead waiting)
  where
    waiting : Produconsum
    waiting = record q { consumer_waiting = true }

-- A round that finds enough, or the end.
abbrev pub Satisfied : ℕ → List Wakeup → Type 0
Satisfied min_amount [] = ⊥
Satisfied min_amount (w ∷ ws) =
    (min_amount ≤ get_produced_amount w.queue) ⊎ (w.queue.at_end ≡ true) ⊎ Satisfied min_amount ws

wait_loop-none :
    (min_amount : ℕ) (deadline : Option ℕ) (q : Produconsum) (ws : List Wakeup)
    → wait_loop min_amount deadline q ws ≡ none
    → Satisfied min_amount ws ⊎ TimedOut deadline ws
    → ⊥
unfolding wait_loop enough
wait_loop-none m none q [] h s = ground arith
wait_loop-none m (some d) q [] h s = ground arith
wait_loop-none m none q (w ∷ ws) h s = ground (arith, wait_loop-none m none w.queue ws)
wait_loop-none m (some d) q (w ∷ ws) h s = ground (arith, wait_loop-none m (some d) w.queue ws)

-- A wait returns if at one of its wakeups enough is waiting or the producer has ended, or if the
-- deadline has passed at one of them.
pub consume_any_inner-returns :
    (min_amount : ℕ) (deadline : Option ℕ) (q : Produconsum) (ws : List Wakeup)
    → Satisfied min_amount ws ⊎ TimedOut deadline ws
    → (r : Consumed) × (consume_any_inner min_amount deadline q ws ≡ some r)
consume_any_inner-returns m d q ws s = elim (Option-cases (consume_any_inner m d q ws)) [
  | inl e ↦ absurd (wait_loop-none m d (record q { consumer_waiting = true }) ws (blocked e) s)
  | inr found ↦ found
]
  where
    blocked :
        consume_any_inner m d q ws ≡ none
        → wait_loop m d (record q { consumer_waiting = true }) ws ≡ none
    blocked e = unfold consume_any_inner in ground arith

-- If a contiguous wait returns and leaves a valid queue, then what it returns is the smaller of the
-- amount that is waiting and of what is left to the end of the ring, it does not reach past that
-- end, and at least the amount asked for is waiting or the producer has ended.
pub consume_contiguous_bounds :
    (amount : ℕ) (q : Produconsum) (ws : List Wakeup) (r : Consumed)
    → consume_contiguous_min_amount amount q ws ≡ some r
    → IsValid r.queue
    → (get_consumer_position r.queue + r.amount ≤ r.queue.size)
      × (r.amount
          ≡ min (get_produced_amount r.queue) (r.queue.size - get_consumer_position r.queue))
      × ((amount ≤ get_produced_amount r.queue) ⊎ (r.queue.at_end ≡ true))
unfolding consume_contiguous_min_amount get_consumer_position
consume_contiguous_bounds amount q ws r h v =
    elim (Option-cases (consume_any_inner amount none q ws)) [
      | inl e ↦ ground arith
      | inr (c, e) ↦ ground (arith, consume_any_inner_lem amount none q ws c e)
    ]
