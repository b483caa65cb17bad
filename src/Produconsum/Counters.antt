-- ===== src/Produconsum/Counters.antt =====
-- The two indices count what waits between the threads: the invariant, and what `produce` and
-- `consumed` do to the amount.
use native.Mathlib.Nat.{mod-add-mod, add-mul-mod_self_right}
use udpcast_rs.Base.{ℕ, ◌+◌, ◌*◌, ◌%◌, ◌^◌, ◌<◌, ◌≤◌, ◌≡◌, refl, arith}
use udpcast_rs.Produconsum.{
  Produconsum, new, get_produced_amount, done, advance, produce, consume_amount,
  get_consumer_position, get_producer_position,
}

-- The amount that waits, without the wrap-around of `usize`.
abbrev pub max_size : ℕ
max_size = 2 ^ 61

pub record IsValid (q : Produconsum) : Type 0 where
  pub positive : 0 < q.size
  pub small : q.size ≤ max_size
  pub produced_in : q.produced < 2 * q.size
  pub consumed_in : q.consumed < 2 * q.size
  pub fits : get_produced_amount q ≤ q.size

-- A new queue of a positive size up to 2 ^ 61 is valid and nothing waits in it.
pub new-IsValid :
    (size : ℕ)
    → 0 < size
    → size ≤ max_size
    → IsValid (new size) × (get_produced_amount (new size) ≡ 0)
unfolding new get_produced_amount
new-IsValid size h k = (
  record {
    positive = h;
    small = k;
    produced_in = omega arith;
    consumed_in = omega arith;
    fits = ground arith;
  },
  refl,
)

after_produce : Produconsum → ℕ → Produconsum
unfolding advance
after_produce q amount = record q { produced = advance q.size q.produced amount }

-- In a valid queue with room for the amount, produce does not end the process, notifies the
-- consumer exactly if it waits, and leaves a valid queue in which the amount more is waiting and
-- the consumer's index is the same.
pub produce_lem :
    (q : Produconsum) (amount : ℕ)
    → IsValid q
    → get_produced_amount q + amount ≤ q.size
    → (q' : Produconsum) × (produce q amount ≡ done q' q.consumer_waiting)
      × IsValid q'
      × (get_produced_amount q' ≡ get_produced_amount q + amount)
      × (q'.consumed ≡ q.consumed)
unfolding produce get_produced_amount after_produce
produce_lem q amount v h = (after_produce q amount, ground arith, ground arith, ground arith, refl)

-- In a valid queue where at least the amount is waiting, taking it leaves a valid queue in which
-- that much less is waiting and the producer's index is the same.
pub consume_amount_lem :
    (q : Produconsum) (amount : ℕ)
    → IsValid q
    → amount ≤ get_produced_amount q
    → IsValid (consume_amount q amount)
      × (get_produced_amount (consume_amount q amount) + amount ≡ get_produced_amount q)
      × ((consume_amount q amount).produced ≡ q.produced)
unfolding consume_amount get_produced_amount
consume_amount_lem q amount v h = ground arith

-- In a valid queue the producer's position is the consumer's position plus the amount that is
-- waiting, modulo the size.
pub position-add-amount :
    (q : Produconsum)
    → IsValid q
    → get_producer_position q ≡ (get_consumer_position q + get_produced_amount q) % q.size
unfolding get_producer_position get_consumer_position get_produced_amount
position-add-amount q v = ground (
  arith,
  mod-add-mod q.consumed q.size (get_produced_amount q),
  add-mul-mod_self_right q.produced 2 q.size,
)
