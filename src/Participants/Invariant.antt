-- ===== src/Participants/Invariant.antt =====
-- The table's invariant, and that every operation keeps it.
use udpcast_rs.Base.{
  ℕ, zero, suc, ◌+◌, ◌<◌, ◌≡◌, ◌≢◌, refl, sym, ap, ◌∙◌, arith, Bool, true, false, ◌==◌, Option,
  none, some, List, [], ◌∷◌, count-le, length, if◌then◌else◌, set, length-set, get_or-set,
  length-replicate, get_or-replicate, count, count_add, count_remove, count_ext, count-zero,
  Bool-cases, inl, inr,
}
use udpcast_rs.Participants.{
  SocketAddrV4, ClientDesc, ParticipantsDb, max_clients, blank, claimed, new, add_participant,
  remove_participant, mark_answered, stamp,
}
use udpcast_rs.Participants.Outcome.{
  removed, added, existing, refused, claims, add_participant-cases, fresh_addr,
}
use udpcast_rs.Participants.Table.{slot, used_at}

-- The table has `max_clients` slots, the counter counts those in use, and no two of those have one
-- address.
pub record IsValid (db : ParticipantsDb) : Type 0 where
  pub whole : length db.client_table ≡ max_clients
  pub counted : db.nr_participants ≡ count (used_at db.client_table) max_clients
  pub distinct :
      (i j : ℕ)
      → used_at db.client_table i ≡ true
      → used_at db.client_table j ≡ true
      → (slot db.client_table i).addr ≡ (slot db.client_table j).addr
      → i ≡ j

pub new-IsValid : IsValid new
unfolding new
new-IsValid = record {
  whole = length-replicate max_clients blank;
  counted = sym (
      count-zero (used_at new.client_table) max_clients
        (λ j lt. ap (λ (c : ClientDesc). c.used) (get_or-replicate max_clients j blank)));
  distinct = λ i j u. absurd (ground (arith, get_or-replicate max_clients i blank));
}

-- A used slot's index is in range.
pub used_at-lt : (t : List ClientDesc) (i : ℕ) → used_at t i ≡ true → i < length t
used_at-lt [] i u = ground arith
used_at-lt (c ∷ cs) zero u = omega arith
used_at-lt (c ∷ cs) (suc i) u = omega (arith, used_at-lt cs i u)

-- The table with one slot written, seen slot by slot.
pub slot-set :
    (t : List ClientDesc) (i j : ℕ) (c : ClientDesc)
    → i < length t
    → slot (set t i c) j ≡ (if i == j then c else slot t j)
slot-set t i j c lt = ground (arith, get_or-set t i j c blank)

module _ (db : ParticipantsDb) (v : IsValid db) (i : ℕ) (lt : i < length db.client_table) where
  pub removed-IsValid : used_at db.client_table i ≡ true → IsValid (removed db i)
  unfolding removed
  removed-IsValid u = record {
    whole = length-set db.client_table i _ ∙ v.whole;
    counted = omega (arith, v.counted, fewer, count-le (used_at db.client_table) max_clients);
    distinct = λ a b ua ub e.
        v.distinct a b (ground (arith, here a)) (ground (arith, here b))
          (ground (arith, here a, here b));
  }
    where
      here :
          (j : ℕ)
          → slot (removed db i).client_table j ≡ (
              if i == j
              then record (slot db.client_table i) { used = false }
              else slot db.client_table j)
      here j = slot-set db.client_table i j _ lt

      fewer :
          count (used_at (removed db i).client_table) max_clients + 1
          ≡ count (used_at db.client_table) max_clients
      fewer =
          count_remove (used_at db.client_table) (used_at (removed db i).client_table) i max_clients
            (λ j. ground (arith, here j)) u (omega (arith, v.whole))

  pub added-IsValid :
      (addr : SocketAddrV4) (capabilities rcvbuf : ℕ)
      → used_at db.client_table i ≡ false
      → ((j : ℕ) → used_at db.client_table j ≡ true → (slot db.client_table j).addr ≢ addr)
      → IsValid (added db i addr capabilities rcvbuf)
  unfolding added
  added-IsValid addr capabilities rcvbuf free fresh = record {
    whole = length-set db.client_table i _ ∙ v.whole;
    counted = omega (arith, v.counted, more, count-le (used_at db.client_table) max_clients);
    distinct = λ a b ua ub e. ground (arith, here a, here b, fresh a, fresh b, v.distinct a b);
  }
    where
      here :
          (j : ℕ)
          → slot (added db i addr capabilities rcvbuf).client_table j ≡ (
              if i == j
              then claimed addr capabilities rcvbuf (slot db.client_table i)
              else slot db.client_table j)
      here j = slot-set db.client_table i j _ lt

      more :
          count (used_at (added db i addr capabilities rcvbuf).client_table) max_clients
          ≡ count (used_at db.client_table) max_clients + 1
      more =
          count_add (used_at db.client_table)
            (used_at (added db i addr capabilities rcvbuf).client_table) i max_clients
            (λ j. ground (arith, here j)) free (omega (arith, v.whole))

-- Removing an index, whether or not it is a participant, keeps the table valid.
pub remove_participant-IsValid :
    (db : ParticipantsDb) (i : ℕ) → IsValid db → IsValid (remove_participant db i)
unfolding remove_participant removed
remove_participant-IsValid db i v = elim (Bool-cases (used_at db.client_table i)) [
  | inr e ↦ rw e v
  | inl e ↦ rw e (removed-IsValid db v i (used_at-lt db.client_table i e) e)
]

-- Adding an address, in either mode and whatever comes out, keeps the table valid: 1024 slots, a
-- counter that counts those in use, and no address in use twice.
pub add_participant-IsValid :
    (db : ParticipantsDb) (addr : SocketAddrV4) (capabilities rcvbuf : ℕ) (pointopoint : Bool)
    → IsValid db
    → IsValid (add_participant db addr capabilities rcvbuf pointopoint).1
add_participant-IsValid db addr c r p v = elim (add_participant-cases db addr c r p) [
  | existing i e q ↦ rw q v
  | refused e f q ↦ rw q v
  | claims i e free q ↦
      rw q (added-IsValid db v i free.below addr c r free.free (λ j u. fresh_addr db addr j e u))
]

pub stamp-same :
    (c : ClientDesc) (slice_no : Option ℕ) (round : ℕ)
    → ((stamp c slice_no round).used ≡ c.used) × ((stamp c slice_no round).addr ≡ c.addr)
unfolding stamp
stamp-same c none round = (refl, refl)
stamp-same c (some sn) round = ground arith

-- Recording an answer changes no slot's use or address.
pub mark_answered-IsValid :
    (db : ParticipantsDb) (i : ℕ) (slice_no : Option ℕ) (round : ℕ)
    → IsValid db
    → IsValid (mark_answered db i slice_no round)
unfolding mark_answered
mark_answered-IsValid db i slice_no round v = record {
  whole = length-set db.client_table i _ ∙ v.whole;
  counted =
      v.counted
      ∙ count_ext (used_at db.client_table) (used_at marked) max_clients (λ j lt. sym (same j).0);
  distinct = λ a b ua ub e.
      v.distinct a b (sym (same a).0 ∙ ua) (sym (same b).0 ∙ ub) (sym (same a).1 ∙ e ∙ (same b).1);
}
  where
    stamped : ClientDesc
    stamped = stamp (slot db.client_table i) slice_no round

    marked : List ClientDesc
    marked = set db.client_table i stamped

    same :
        (j : ℕ)
        → (used_at marked j ≡ used_at db.client_table j)
          × ((slot marked j).addr ≡ (slot db.client_table j).addr)
    same j = ground (
      arith,
      get_or-set db.client_table i j stamped blank,
      stamp-same (slot db.client_table i) slice_no round,
    )
