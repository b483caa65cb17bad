-- ===== src/DiskIo/Position.antt =====
-- Where the consumer of a queue stands, after each operation.
use native.Mathlib.Nat.{mod-lt, mod-add-mod, add-mul-mod_self_right}
use udpcast_rs.Base.{
  ℕ, ◌+◌, ◌-◌, ◌*◌, ◌%◌, ◌<◌, ◌≤◌, ◌≡◌, refl, arith, some, none, Bool, true, false,
}
use udpcast_rs.Produconsum.{
  Produconsum, produce, done, get_produced_amount, get_consumer_position, consume_amount, Consumed,
  consume_contiguous_min_amount, consume_any_inner, clip, enough, stop_waiting, wait_loop,
}
use udpcast_rs.Produconsum.Counters.{IsValid}
use udpcast_rs.DiskIo.{await, block_size}

pub position-lt : (q : Produconsum) → IsValid q → get_consumer_position q < q.size
unfolding get_consumer_position
position-lt q v = omega (arith, v.positive)

pub position-consume_amount :
    (q : Produconsum) (n : ℕ)
    → IsValid q
    → n ≤ get_produced_amount q
    → get_consumer_position (consume_amount q n) ≡ (get_consumer_position q + n) % q.size
unfolding get_consumer_position consume_amount
position-consume_amount q n v l = ground (
  arith,
  v.small,
  v.positive,
  v.consumed_in,
  v.fits,
  mod-add-mod q.consumed q.size n,
  add-mul-mod_self_right (q.consumed + n - 2 * q.size) 2 q.size,
)

-- Queues that differ in their flags only.
pub record Alike (q q' : Produconsum) : Type 0 where
  pub size : q'.size ≡ q.size
  pub produced : q'.produced ≡ q.produced
  pub consumed : q'.consumed ≡ q.consumed

pub Alike-self : (q : Produconsum) → Alike q q
Alike-self q = record { size = refl; produced = refl; consumed = refl }

module _ (q q' : Produconsum) (a : Alike q q') where
  pub Alike-amount : get_produced_amount q' ≡ get_produced_amount q
  unfolding get_produced_amount
  Alike-amount = ground (arith, a.size, a.produced, a.consumed)

  pub Alike-position : get_consumer_position q' ≡ get_consumer_position q
  unfolding get_consumer_position
  Alike-position = rw (a.size, a.consumed) refl

  pub Alike-IsValid : IsValid q → IsValid q'
  Alike-IsValid v = record {
    positive = omega (arith, v.positive, a.size);
    small = omega (arith, v.small, a.size);
    produced_in = omega (arith, v.produced_in, a.size, a.produced);
    consumed_in = omega (arith, v.consumed_in, a.size, a.consumed);
    fits = omega (arith, v.fits, a.size, Alike-amount);
  }

flag-amount :
    (q : Produconsum) (waiting : Bool)
    → get_produced_amount (record q { consumer_waiting = waiting }) ≡ get_produced_amount q
unfolding get_produced_amount
flag-amount q waiting = refl

-- A wait that ends at once only sets the flag.
pub await_lem :
    (q : Produconsum) (r : Consumed)
    → await q ≡ some r
    → Alike q r.queue × (r.amount ≤ get_produced_amount q)
unfolding await consume_contiguous_min_amount consume_any_inner clip enough stop_waiting wait_loop
await_lem q r e = ground (arith, e, flag-amount q true, flag-amount q false)

-- What `produce` leaves of the consumer's side.
pub produce-position :
    (q q' : Produconsum) (n : ℕ) (notified : Bool)
    → produce q n ≡ done q' notified
    → (q'.size ≡ q.size) × (get_consumer_position q' ≡ get_consumer_position q)
unfolding produce get_consumer_position
produce-position q q' n notified e = ground (arith, e)

-- A wait that ends at once with nothing is at the end of the queue.
pub await-end :
    (q : Produconsum) (r : Consumed)
    → IsValid q
    → await q ≡ some r
    → (r.queue.at_end ≡ q.at_end) × (r.amount ≡ 0 → (q.at_end ≡ true) × (get_produced_amount q ≡ 0))
unfolding await consume_contiguous_min_amount consume_any_inner clip enough stop_waiting wait_loop
await-end q r v e = (
  ground (arith, e),
  λ h. ground (
    arith,
    e,
    h,
    v.positive,
    v.small,
    mod-lt q.consumed v.positive,
    flag-amount q true,
    flag-amount q false,
  ),
)

-- A wait that goes on has less than a block, and it is not the end.
pub await-none :
    (q : Produconsum) → await q ≡ none → (get_produced_amount q < block_size) × (q.at_end ≡ false)
unfolding await consume_contiguous_min_amount consume_any_inner clip enough stop_waiting wait_loop
await-none q e = ground (arith, e, flag-amount q true)

pub produce-end :
    (q q' : Produconsum) (n : ℕ) (notified : Bool)
    → produce q n ≡ done q' notified
    → q'.at_end ≡ q.at_end
unfolding produce
produce-end q q' n notified e = ground (arith, e)

pub consume_amount-end : (q : Produconsum) (n : ℕ) → (consume_amount q n).at_end ≡ q.at_end
unfolding consume_amount
consume_amount-end q n = ground arith
