-- ===== src/Participants/Outcome.antt =====
-- The ways in which `add_participant` and `remove_participant` come out.
use udpcast_rs.Base.{
  ℕ, usize_add, usize_sub, ◌≡◌, ◌≢◌, ap, ◌∙◌, arith, Bool, true, false, none, some, set,
  Option-cases, inl, inr,
}
use udpcast_rs.Participants.{
  SocketAddrV4, ParticipantsDb, claimed, lookup_participant, free_from, add_participant,
}
use udpcast_rs.Participants.Table.{slot, used_at, IsFree, lookup_from-none, free_from-some}

-- The slot in use is given up.
unfoldable pub removed : ParticipantsDb → ℕ → ParticipantsDb
removed db i = record {
  nr_participants = usize_sub db.nr_participants 1;
  client_table = set db.client_table i (record (slot db.client_table i) { used = false });
}

-- The free slot goes to a new address.
unfoldable pub added : ParticipantsDb → ℕ → SocketAddrV4 → ℕ → ℕ → ParticipantsDb
added db i addr capabilities rcvbuf = record {
  nr_participants = usize_add db.nr_participants 1;
  client_table = set db.client_table i (claimed addr capabilities rcvbuf (slot db.client_table i));
}

pub add_participant-existing :
    (db : ParticipantsDb) (addr : SocketAddrV4) (c r : ℕ) (p : Bool) (i : ℕ)
    → lookup_participant db addr ≡ some i
    → add_participant db addr c r p ≡ (some i, db)
unfolding add_participant
add_participant-existing db addr c r p i e = rw (e, add_participant)

add_participant-refused :
    (db : ParticipantsDb) (addr : SocketAddrV4) (c r : ℕ) (p : Bool)
    → lookup_participant db addr ≡ none
    → free_from p 0 db.client_table ≡ none
    → add_participant db addr c r p ≡ (none, db)
unfolding add_participant
add_participant-refused db addr c r p e f = rw (e, f, add_participant)

add_participant-added :
    (db : ParticipantsDb) (addr : SocketAddrV4) (c r : ℕ) (p : Bool) (i : ℕ)
    → lookup_participant db addr ≡ none
    → free_from p 0 db.client_table ≡ some i
    → add_participant db addr c r p ≡ (some i, added db i addr c r)
unfolding add_participant added
add_participant-added db addr c r p i e f = rw (e, f, add_participant)

-- How a call of `add_participant` comes out.
pub data Added (db : ParticipantsDb) (addr : SocketAddrV4) (c r : ℕ) (p : Bool) : Type 0 where
  existing :
      (i : ℕ)
      → lookup_participant db addr ≡ some i
      → add_participant db addr c r p ≡ (some i, db)
      → Added db addr c r p
  refused :
      lookup_participant db addr ≡ none
      → free_from p 0 db.client_table ≡ none
      → add_participant db addr c r p ≡ (none, db)
      → Added db addr c r p
  claims :
      (i : ℕ)
      → lookup_participant db addr ≡ none
      → IsFree db.client_table i
      → add_participant db addr c r p ≡ (some i, added db i addr c r)
      → Added db addr c r p

pub add_participant-cases :
    (db : ParticipantsDb) (addr : SocketAddrV4) (c r : ℕ) (p : Bool) → Added db addr c r p
add_participant-cases db addr c r p = elim (Option-cases (lookup_participant db addr)) [
  | inr (i, e) ↦ existing i e (add_participant-existing db addr c r p i e)
  | inl e ↦ elim (Option-cases (free_from p 0 db.client_table)) [
    | inl f ↦ refused e f (add_participant-refused db addr c r p e f)
    | inr (k, f) ↦
        let (i, q, free) = free_from-some p 0 db.client_table k f in
        claims i e free (add_participant-added db addr c r p i e (f ∙ ap some (omega arith)))
  ]
]

-- A participant that is added has an address that no other participant has.
pub fresh_addr :
    (db : ParticipantsDb) (addr : SocketAddrV4) (j : ℕ)
    → lookup_participant db addr ≡ none
    → used_at db.client_table j ≡ true
    → (slot db.client_table j).addr ≢ addr
unfolding lookup_participant
fresh_addr db addr j e u = lookup_from-none addr 0 db.client_table j e u
