-- ===== src/Produconsum.antt =====
-- The counting queue between a producer and a consumer thread, src/produconsum.rs. The fields of
-- `Inner` behind the mutex stand beside `size`; a method is one critical section. `produce` ends
-- the process by `fatal` where it detects an overflow.
pub mod Counters
pub mod Overflow
pub mod Waiting
pub mod Handshake
mod Tests
use udpcast_rs.Base.{
  ℕ, ◌+◌, ◌-◌, ◌*◌, ◌%◌, Bool, true, false, ◌&&◌, ◌||◌, List, [], ◌∷◌, Option, none, some, ltb, leb,
  if◌then◌else◌, usize_add, usize_sub, usize_mul,
}

pub record Produconsum : Type 0 where
  pub size : ℕ
  pub produced : ℕ
  pub consumed : ℕ
  pub at_end : Bool
  pub consumer_waiting : Bool

-- `new`; the queue's name only serves its messages.
unfoldable pub new : ℕ → Produconsum
new size = record {
  size = size;
  produced = 0;
  consumed = 0;
  at_end = false;
  consumer_waiting = false;
}

unfoldable pub get_produced_amount : Produconsum → ℕ
get_produced_amount q =
    if ltb q.produced q.consumed
    then usize_sub (usize_add q.produced (usize_mul 2 q.size)) q.consumed
    else usize_sub q.produced q.consumed

-- What a call leaves: the state, and whether it notified the consumer; or the end of the process.
pub data Produce : Type 0 where
  done : Produconsum → (notified : Bool) → Produce
  fatal : Produce

-- The index that the producer moves to.
unfoldable pub advance : ℕ → ℕ → ℕ → ℕ
advance size produced amount =
    let next = usize_add produced amount in
    if leb (usize_mul 2 size) next then usize_sub next (usize_mul 2 size) else next

-- The test for an overflow, at the producer's new index.
unfoldable pub overflows : ℕ → ℕ → ℕ → Bool
overflows size produced consumed =
    ltb (usize_add consumed size) produced
    || (ltb produced consumed && ltb (usize_sub consumed size) produced)

unfoldable pub produce : Produconsum → ℕ → Produce
unfolding advance overflows
produce q amount =
    let produced = advance q.size q.produced amount in
    if ltb q.size amount
    then fatal
    else if overflows q.size produced q.consumed
    then fatal
    else done (record q { produced = produced }) q.consumer_waiting

unfoldable pub produce_end : Produconsum → Produce
produce_end q = done (record q { at_end = true }) q.consumer_waiting

-- `get_waiting`
pub get_waiting : Produconsum → ℕ
get_waiting q = get_produced_amount q

pub get_size : Produconsum → ℕ
get_size q = q.size

unfoldable pub get_consumer_position : Produconsum → ℕ
get_consumer_position q = q.consumed % q.size

pub get_producer_position : Produconsum → ℕ
get_producer_position q = q.produced % q.size

-- `consumed`, whose result is its argument.
unfoldable pub consume_amount : Produconsum → ℕ → Produconsum
consume_amount q amount =
    if leb (usize_sub (usize_mul 2 q.size) amount) q.consumed
    then record q { consumed = usize_sub (usize_add q.consumed amount) (usize_mul 2 q.size) }
    else record q { consumed = usize_add q.consumed amount }

-- One round of the wait: the clock before it, the state as the other threads left it when the
-- consumer wakes up holding the lock, and the clock then.
pub record Wakeup : Type 0 where
  pub before : ℕ
  pub queue : Produconsum
  pub after : ℕ

-- How a wait ends: with an amount and the state that is unlocked.
abbrev pub Consumed : Type 0
Consumed = record { amount : ℕ; queue : Produconsum }

-- The state is unlocked with the amount that is waiting in it.
unfoldable pub stop_waiting : Produconsum → Consumed
stop_waiting q = record {
  amount = get_produced_amount q;
  queue = record q { consumer_waiting = false };
}

-- `amount >= min_amount || at_end`
unfoldable pub enough : ℕ → Produconsum → Bool
enough min_amount q = leb min_amount (get_produced_amount q) || q.at_end

-- The loop over the wakeups; `none` means that the consumer still waits after the last of them.
unfoldable pub wait_loop : ℕ → Option ℕ → Produconsum → List Wakeup → Option Consumed
wait_loop min_amount deadline q [] = none
wait_loop min_amount none q (w ∷ ws) =
    let rest = wait_loop min_amount none w.queue ws in
    if enough min_amount w.queue then some (stop_waiting w.queue) else rest
wait_loop min_amount (some d) q (w ∷ ws) =
    let rest = wait_loop min_amount (some d) w.queue ws in
    if leb d w.before
    then some (stop_waiting q)
    else if leb d w.after
    then some (stop_waiting w.queue)
    else if enough min_amount w.queue
    then some (stop_waiting w.queue)
    else rest

-- `consume_any_inner`
unfoldable pub consume_any_inner : ℕ → Option ℕ → Produconsum → List Wakeup → Option Consumed
unfolding wait_loop enough stop_waiting
consume_any_inner min_amount deadline q wakeups =
    let waiting = record q { consumer_waiting = true } in
    if enough min_amount waiting
    then some (stop_waiting waiting)
    else wait_loop min_amount deadline waiting wakeups

pub consume_any : Produconsum → List Wakeup → Option Consumed
consume_any q = consume_any_inner 1 none q

pub consume_any_with_timeout : ℕ → ℕ → Produconsum → List Wakeup → Option Consumed
consume_any_with_timeout now timeout q = consume_any_inner 1 (some (now + timeout)) q

pub consume : ℕ → Produconsum → List Wakeup → Option Consumed
consume amount q = consume_any_inner amount none q

-- What is left to the end of the ring bounds the amount.
unfoldable pub clip : Consumed → Consumed
clip r =
    let l = usize_sub r.queue.size (r.queue.consumed % r.queue.size) in
    if ltb l r.amount then record r { amount = l } else r

unfoldable pub consume_contiguous_min_amount : ℕ → Produconsum → List Wakeup → Option Consumed
unfolding clip
consume_contiguous_min_amount amount q wakeups = elim (consume_any_inner amount none q wakeups) [
  | none ↦ none
  | some r ↦ some (clip r)
]
