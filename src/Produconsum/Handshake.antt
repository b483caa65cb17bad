-- ===== src/Produconsum/Handshake.antt =====
-- The consumer's wait without a deadline and the producer's notifications, src/produconsum.rs: one
-- step is one critical section of a method, and `wait` gives the lock away and sleeps. The condition
-- variable itself may wake the consumer without a notification.
use udpcast_rs.Base.{
  ℕ, ◌<◌, ◌≡◌, refl, sym, ◌∙◌, subst, arith, Bool, true, false, if◌then◌else◌, Bool-cases, inl, inr,
}
use udpcast_rs.Produconsum.{
  Produconsum, done, new, get_produced_amount, produce, produce_end, consume_amount, enough,
  stop_waiting,
}

-- What the one consumer does: it sleeps until `min_amount` has been produced, or was woken up and
-- has not got the lock yet.
pub data Consumer : Type 0 where
  awake : Consumer
  asleep woken : (min_amount : ℕ) → Consumer

pub record Monitor : Type 0 where
  pub queue : Produconsum
  pub consumer : Consumer

-- The test of the wait under the lock: the wait is over, or goes on asleep.
unfoldable pub test_amount : ℕ → Produconsum → Monitor
test_amount min_amount q =
    if enough min_amount q
    then record { queue = (stop_waiting q).queue; consumer = awake }
    else record { queue = q; consumer = asleep min_amount }

-- `notify_one`, if the producer calls it.
unfoldable pub notify : Bool → Consumer → Consumer
notify true (asleep min_amount) = woken min_amount
notify notified c = c

pub data Step : Monitor → Monitor → Type 0 where
  waits :
      (q : Produconsum) (min_amount : ℕ)
      → Step
          (record { queue = q; consumer = awake })
          (test_amount min_amount (record q { consumer_waiting = true }))
  wakes :
      (q : Produconsum) (min_amount : ℕ)
      → Step (record { queue = q; consumer = woken min_amount }) (test_amount min_amount q)
  wakes_unasked :
      (q : Produconsum) (min_amount : ℕ)
      → Step (record { queue = q; consumer = asleep min_amount }) (test_amount min_amount q)
  produces :
      (q q' : Produconsum) (c : Consumer) (amount : ℕ) (notified : Bool)
      → produce q amount ≡ done q' notified
      → Step
          (record { queue = q; consumer = c })
          (record { queue = q'; consumer = notify notified c })
  ends :
      (q q' : Produconsum) (c : Consumer) (notified : Bool)
      → produce_end q ≡ done q' notified
      → Step
          (record { queue = q; consumer = c })
          (record { queue = q'; consumer = notify notified c })
  consumes :
      (q : Produconsum) (amount : ℕ)
      → Step
          (record { queue = q; consumer = awake })
          (record { queue = consume_amount q amount; consumer = awake })

pub data Steps : Monitor → Monitor → Type 0 where
  here : (s : Monitor) → Steps s s
  later : (s t u : Monitor) → Steps s t → Step t u → Steps s u

-- While the consumer sleeps the producer knows, and there is too little for it.
abbrev IsFair : Produconsum → Consumer → Type 0
IsFair q awake = Unit
IsFair q (asleep m) = (q.consumer_waiting ≡ true) × (enough m q ≡ false)
IsFair q (woken m) = q.consumer_waiting ≡ true

test_amount-IsFair :
    (m : ℕ) (q : Produconsum)
    → q.consumer_waiting ≡ true
    → IsFair (test_amount m q).queue (test_amount m q).consumer
unfolding test_amount
test_amount-IsFair m q w = elim (Bool-cases (enough m q)) [ inl e ↦ rw e tt | inr e ↦ rw e (w, e) ]

-- A change that notifies a consumer that waits.
notify-IsFair :
    (q q' : Produconsum) (c : Consumer) (notified : Bool)
    → notified ≡ q.consumer_waiting
    → q'.consumer_waiting ≡ q.consumer_waiting
    → IsFair q c
    → IsFair q' (notify notified c)
unfolding notify
notify-IsFair q q' awake true e w k = tt
notify-IsFair q q' awake false e w k = tt
notify-IsFair q q' (asleep m) true e w k = w ∙ sym e
notify-IsFair q q' (asleep m) false e w k = absurd (cc (e, k.0))
notify-IsFair q q' (woken m) true e w k = w ∙ k
notify-IsFair q q' (woken m) false e w k = w ∙ k

produce-waiting :
    (q q' : Produconsum) (amount : ℕ) (notified : Bool)
    → produce q amount ≡ done q' notified
    → (notified ≡ q.consumer_waiting) × (q'.consumer_waiting ≡ q.consumer_waiting)
unfolding produce
produce-waiting q q' amount notified e = (ground (arith, e), ground (arith, e))

produce_end-waiting :
    (q q' : Produconsum) (notified : Bool)
    → produce_end q ≡ done q' notified
    → (notified ≡ q.consumer_waiting) × (q'.consumer_waiting ≡ q.consumer_waiting)
unfolding produce_end
produce_end-waiting q q' notified e = (ground (arith, e), ground (arith, e))

Step-IsFair : {s t : Monitor} → Step s t → IsFair s.queue s.consumer → IsFair t.queue t.consumer
Step-IsFair (waits q m) k = test_amount-IsFair m (record q { consumer_waiting = true }) refl
Step-IsFair (wakes q m) k = test_amount-IsFair m q k
Step-IsFair (wakes_unasked q m) k = test_amount-IsFair m q k.0
Step-IsFair (produces q q' c amount notified e) k =
    let (n, w) = produce-waiting q q' amount notified e in notify-IsFair q q' c notified n w k
Step-IsFair (ends q q' c notified e) k =
    let (n, w) = produce_end-waiting q q' notified e in notify-IsFair q q' c notified n w k
Step-IsFair (consumes q amount) k = tt

Steps-IsFair : {s t : Monitor} → Steps s t → IsFair s.queue s.consumer → IsFair t.queue t.consumer
Steps-IsFair (here s) k = k
Steps-IsFair (later s t u run step) k = Step-IsFair step (Steps-IsFair run k)

asleep-lacks :
    (m : ℕ) (q : Produconsum) (c : Consumer) → c ≡ asleep m → IsFair q c → enough m q ≡ false
asleep-lacks m q c e k = (subst (IsFair q) e k).1

-- From a new queue, take any interleaving of `produce`, `produce_end` and `consumed` with the
-- critical sections of a consumer that waits without a deadline and sleeps on the condition
-- variable, which may also wake it up without a notification. Whenever the consumer sleeps and
-- nothing has woken it up, less than the amount it waits for has been produced and the queue is not
-- ended: no notification is lost.
pub no_lost_wakeup :
    (size min_amount : ℕ) (s : Monitor)
    → Steps (record { queue = new size; consumer = awake }) s
    → s.consumer ≡ asleep min_amount
    → (get_produced_amount s.queue < min_amount) × (s.queue.at_end ≡ false)
no_lost_wakeup size m s run e =
    let lacks = asleep-lacks m s.queue s.consumer e (Steps-IsFair run tt) in
    (unfold enough in ground (arith, lacks), unfold enough in ground (arith, lacks))
