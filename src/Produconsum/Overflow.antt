-- ===== src/Produconsum/Overflow.antt =====
-- What the test of `produce` for an overflow catches, and what it lets through.
use udpcast_rs.Base.{ℕ, ◌+◌, ◌*◌, ◌<◌, ◌≤◌, ◌≡◌, ◌≢◌, ◌⊎◌, inl, inr, ◌↔◌, arith, dec_lt}
use udpcast_rs.Produconsum.{Produconsum, get_produced_amount, fatal, produce}
use udpcast_rs.Produconsum.Counters.{IsValid}

-- The overflows that the test sees: the producer must not come round to the consumer exactly, and
-- where its index wraps the consumer must be in the second half of the double range.
abbrev pub IsDetected : Produconsum → ℕ → Type 0
IsDetected q amount =
    (get_produced_amount q + amount ≢ 2 * q.size)
    × ((q.produced + amount < 2 * q.size) ⊎ (q.size ≤ q.consumed))

detected-fatal :
    (q : Produconsum) (amount : ℕ)
    → IsValid q
    → q.size < get_produced_amount q + amount
    → IsDetected q amount
    → produce q amount ≡ fatal
unfolding produce get_produced_amount
detected-fatal q amount v h d = ground arith

fatal-IsDetected :
    (q : Produconsum) (amount : ℕ)
    → IsValid q
    → amount ≤ q.size
    → q.size < get_produced_amount q + amount
    → produce q amount ≡ fatal
    → IsDetected q amount
unfolding produce get_produced_amount
fatal-IsDetected q amount v a h e = elim (dec_lt (q.produced + amount) (2 * q.size)) [
  | yes p ↦ (ground arith, inl p)
  | no p ↦ (ground arith, inr (ground arith))
]

-- In a valid queue, an amount of at most the size that does not fit makes produce end the process
-- if and only if it does not fill the double range exactly, and the producer's index does not wrap
-- or the consumer's is in the second half.
pub produce-overflow_iff :
    (q : Produconsum) (amount : ℕ)
    → IsValid q
    → amount ≤ q.size
    → q.size < get_produced_amount q + amount
    → (produce q amount ≡ fatal) ↔ IsDetected q amount
produce-overflow_iff q amount v a h = (fatal-IsDetected q amount v a h, detected-fatal q amount v h)
