-- ===== src/DiskIo/Start.antt =====
-- A new ring is sound, with both threads at the start of their loops.
use native.Mathlib.Nat.{mod-eq_of_lt}
use mathlib.Core.List.{append-nil}
use udpcast_rs.Base.{
  ℕ, ◌+◌, ◌%◌, ◌<◌, ◌≤◌, ◌≡◌, refl, sym, ap, ◌∙◌, arith, Bool, true, false, some, [], ◌∷◌, Bytes,
  length,
}
use udpcast_rs.Produconsum.{Produconsum, done, get_produced_amount, produce}
use udpcast_rs.Produconsum.Counters.{IsValid, produce_lem, new-IsValid, max_size}
use udpcast_rs.Fifo
use udpcast_rs.Fifo.{Fifo, read_at, write_at}
use udpcast_rs.Fifo.Ring
use udpcast_rs.Fifo.Ring
use udpcast_rs.Fifo.Window.{length-window}
use udpcast_rs.Base.{length-replicate, replicate, ◌*◌, usize_mul}
use udpcast_rs.Produconsum.{new}
use udpcast_rs.DiskIo.{writer_guard, await_room, await_bytes, System}
use udpcast_rs.DiskIo.Position.{position-lt, produce-position, produce-end}
use udpcast_rs.DiskIo.Invariant.{amount, place, contents, Inv, IsSound}
use udpcast_rs.DiskIo.Ending.{Ends}

-- The threads at their start.
abbrev pub start : Fifo → System
start f = record { fifo = f; reader = await_room; writer = await_bytes; input = []; output = [] }

pub no_bytes : (l : Bytes) → length l ≡ 0 → l ≡ []
no_bytes [] e = refl
no_bytes (x ∷ xs) e = absurd (omega arith)

new_ring : ℕ → Produconsum → Fifo
new_ring size q = record {
  buffer = replicate size 0;
  data_buf_size = size;
  free_mem_queue = q;
  filled = new size;
}

module _ (size : ℕ) (h : 0 < size) (l : size ≤ max_size) where
  module _ (q : Produconsum) (e : produce (new size) size ≡ done q false) (valid : IsValid q)
      (full : get_produced_amount q ≡ size) where
    new_ring-Inv : Inv (new_ring size q) await_room await_bytes [] []
    unfolding new_ring new
    new_ring-Inv = record {
      ledger = record {
        ring = ring;
        free = valid;
        filled = (new-IsValid size h l).0;
        free_size = (produce-position (new size) q size false e).0;
        filled_size = refl;
        accounted = omega (arith, full, (new-IsValid size h l).1);
        adjacent = (produce-position (new size) q size false e).1 ∙ level;
      };
      reader_ok = tt;
      writer_ok = tt;
      stream = sym (rw (append-nil (contents (new_ring size q))) empty);
    }
      where
        ring : Ring.IsValid (new_ring size q)
        ring = record { whole = length-replicate size 0; small = omega arith }

        place-lt : place (new_ring size q) < size
        place-lt = position-lt (new size) (new-IsValid size h l).0

        level :
            place (new_ring size q)
            ≡ (place (new_ring size q) + (amount (new_ring size q) + 0)) % size
        level = sym (
            ap (λ (k : ℕ). k % size) (omega (arith, (new-IsValid size h l).1))
            ∙ mod-eq_of_lt place-lt)

        empty : contents (new_ring size q) ≡ []
        empty = no_bytes (contents (new_ring size q)) (
            length-window (new_ring size q) ring (place (new_ring size q))
              (amount (new_ring size q)) place-lt (omega (arith, (new-IsValid size h l).1))
            ∙ (new-IsValid size h l).1)

    new_ring-Ends : q.at_end ≡ false → Ends (new_ring size q) await_room await_bytes
    unfolding new_ring new
    new_ring-Ends o = record { reader_end = refl; writer_end = tt; free_open = o }

-- What both threads start from.
pub record Started (f : Fifo) (size : ℕ) : Type 0 where
  pub sound : IsSound (start f)
  pub ends : Ends f await_room await_bytes
  pub whole : f.data_buf_size ≡ size
  pub guarded : writer_guard f ≡ true

new-new_ring :
    (blocks size : ℕ) (q : Produconsum) (notified : Bool)
    → usize_mul blocks 4096 ≡ size
    → produce (new size) size ≡ done q notified
    → Fifo.new blocks ≡ some (new_ring size q)
unfolding Fifo.new new_ring
new-new_ring blocks size q notified w e =
    rw (made, Fifo.new) (ap (λ (k : ℕ). some (new_ring k q)) w)
  where
    made : produce (new (usize_mul blocks 4096)) (usize_mul blocks 4096) ≡ done q notified
    made = rw w e

-- The ring that is made of whole pages.
pub new-Started :
    (blocks : ℕ)
    → 0 < blocks
    → blocks * 4096 ≤ max_size
    → (f : Fifo) × (Fifo.new blocks ≡ some f) × Started f (blocks * 4096)
unfolding new_ring new writer_guard
new-Started blocks h l =
    let (q, e, valid, more, c) = produce_lem (new size) size fresh.0 (omega (arith, fresh.1)) in
    let full : get_produced_amount q ≡ size = omega (arith, more, fresh.1) in
    (
      new_ring size q,
      new-new_ring blocks size q false (omega (arith, l)) e,
      record {
        sound = new_ring-Inv size positive l q e valid full;
        ends = new_ring-Ends size positive l q e valid full (produce-end (new size) q size false e);
        whole = refl;
        guarded = ground arith;
      },
    )
  where
    size : ℕ
    size = blocks * 4096

    positive : 0 < size
    positive = omega (arith, h)

    fresh : IsValid (new size) × (get_produced_amount (new size) ≡ 0)
    fresh = new-IsValid size positive l
