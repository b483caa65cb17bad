-- ===== src/Produconsum/Tests.antt =====
-- Runs of the queue, and its theorems at one queue.
use udpcast_rs.Base.{
  ◌<◌, ◌+◌, ◌-◌, ◌≤◌, ◌≡◌, ◌⊎◌, ◌↔◌, refl, arith, true, false, none, some, List, [], ◌∷◌, min, inl,
  inr,
}
use udpcast_rs.Produconsum.{
  Produconsum, get_produced_amount, done, fatal, advance, overflows, produce, consume_amount,
  get_consumer_position, Wakeup, Consumed, stop_waiting, enough, wait_loop, clip, consume_any_inner,
  consume_contiguous_min_amount, new,
}
use udpcast_rs.Produconsum.Handshake.{
  Monitor, awake, asleep, test_amount, notify, Steps, here, later, waits, wakes, produces,
  no_lost_wakeup,
}
use udpcast_rs.Produconsum.Counters.{IsValid, produce_lem, consume_amount_lem}
use udpcast_rs.Produconsum.Overflow.{IsDetected, produce-overflow_iff}
use udpcast_rs.Produconsum.Waiting.{
  Reason, IsRead, consume_any_inner_lem, consume_any_inner-returns, consume_contiguous_bounds,
}

-- Three bytes wait, and the producer's index has passed the end of the ring.
abbrev queue : Produconsum
queue = record { size = 8; produced = 10; consumed = 7; at_end = false; consumer_waiting = true }

-- All eight bytes wait.
abbrev full : Produconsum
full = record queue { produced = 15 }

-- What another thread leaves when it has ended the queue.
abbrev ended : Produconsum
ended = record queue { at_end = true }

abbrev wakeups : List Wakeup
wakeups =
    record { before = 1; queue = queue; after = 2 }
    ∷ record { before = 3; queue = ended; after = 4 }
    ∷ []

queue-IsValid : IsValid queue
unfolding get_produced_amount
queue-IsValid = record {
  positive = omega arith;
  small = omega arith;
  produced_in = omega arith;
  consumed_in = omega arith;
  fits = omega arith;
}

full-IsValid : IsValid full
unfolding get_produced_amount
full-IsValid = record {
  positive = omega arith;
  small = omega arith;
  produced_in = omega arith;
  consumed_in = omega arith;
  fits = omega arith;
}

-- An overflow that the test lets through: the consumer stands in the first half.
produce_misses : produce full 5 ≡ done (record full { produced = 4 }) true
unfolding produce advance overflows
produce_misses = refl

-- And one that it sees.
produce_sees : produce (record full { produced = 3; consumed = 11 }) 2 ≡ fatal
unfolding produce advance overflows
produce_sees = refl

wait_until_end :
    consume_any_inner 4 none queue wakeups
    ≡ some (record { amount = 3; queue = record ended { consumer_waiting = false } })
unfolding consume_any_inner wait_loop enough stop_waiting get_produced_amount
wait_until_end = refl

-- The read stops at the end of the ring.
contiguous :
    consume_contiguous_min_amount 1 queue []
    ≡ some (record { amount = 1; queue = record queue { consumer_waiting = false } })
unfolding consume_contiguous_min_amount clip consume_any_inner enough stop_waiting
    get_produced_amount
contiguous = refl

produce_lem_example :
    (q : Produconsum) × (produce queue 5 ≡ done q true)
    × IsValid q
    × (get_produced_amount q ≡ get_produced_amount queue + 5)
    × (q.consumed ≡ 7)
unfolding get_produced_amount
produce_lem_example = produce_lem queue 5 queue-IsValid (omega arith)

consume_amount_lem_example :
    IsValid (consume_amount queue 3)
    × (get_produced_amount (consume_amount queue 3) + 3 ≡ get_produced_amount queue)
    × ((consume_amount queue 3).produced ≡ 10)
unfolding get_produced_amount
consume_amount_lem_example = consume_amount_lem queue 3 queue-IsValid (omega arith)

produce-overflow_iff_example : (produce full 5 ≡ fatal) ↔ IsDetected full 5
unfolding get_produced_amount
produce-overflow_iff_example = produce-overflow_iff full 5 full-IsValid (omega arith) (omega arith)

abbrev ended_read : Consumed
ended_read = record { amount = 3; queue = record ended { consumer_waiting = false } }

consume_any_inner_lem_example : Reason 4 none wakeups ended_read × IsRead ended_read
consume_any_inner_lem_example = consume_any_inner_lem 4 none queue wakeups ended_read wait_until_end

consume_any_inner-returns_example :
    (r : Consumed) × (consume_any_inner 4 none queue wakeups ≡ some r)
consume_any_inner-returns_example =
    consume_any_inner-returns 4 none queue wakeups (inl (inr (inr (inr (inl refl)))))

abbrev read : Consumed
read = record { amount = 1; queue = record queue { consumer_waiting = false } }

read-IsValid : IsValid (record queue { consumer_waiting = false })
unfolding get_produced_amount
read-IsValid = record {
  positive = omega arith;
  small = omega arith;
  produced_in = omega arith;
  consumed_in = omega arith;
  fits = omega arith;
}

consume_contiguous_bounds_example :
    (get_consumer_position read.queue + read.amount ≤ read.queue.size)
    × (read.amount
        ≡ min (get_produced_amount read.queue) (read.queue.size - get_consumer_position read.queue))
    × ((1 ≤ get_produced_amount read.queue) ⊎ (read.queue.at_end ≡ true))
consume_contiguous_bounds_example =
    consume_contiguous_bounds 1 queue [] read contiguous read-IsValid

-- A consumer that waits for two bytes of a new queue, while one is produced.
abbrev waiting : Monitor
waiting = record { queue = record (new 8) { consumer_waiting = true }; consumer = asleep 2 }

abbrev still_waiting : Monitor
still_waiting = record {
  queue = record (new 8) { produced = 1; consumer_waiting = true };
  consumer = asleep 2;
}

sleeps : Steps (record { queue = new 8; consumer = awake }) still_waiting
unfolding new test_amount enough get_produced_amount produce advance overflows notify
sleeps =
    later _ _ _
      (later _ _ _ (later _ _ waiting (here _) (waits (new 8) 2))
        (produces waiting.queue still_waiting.queue (asleep 2) 1 true refl))
      (wakes still_waiting.queue 2)

no_lost_wakeup_example : (get_produced_amount still_waiting.queue < 2) × (false ≡ false)
unfolding new
no_lost_wakeup_example = no_lost_wakeup 8 2 still_waiting sleeps refl
