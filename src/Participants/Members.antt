-- ===== src/Participants/Members.antt =====
-- Who is in the table after an operation, and at which index.
use udpcast_rs.Base.{
  not, ◌&&◌, count-full, all_of_count, get_or-set, subst, length-set, ℕ, ◌<◌, ◌≡◌, ◌≢◌, ◌↔◌, sym,
  ap, ◌∙◌, arith, Bool, true, false, none, some, length, Option-cases, inl, inr, if◌then◌else◌,
  ◌==◌,
}
use udpcast_rs.Participants.{
  blank, remove_participant, SocketAddrV4, ParticipantsDb, ClientDesc, max_clients, claimed,
  lookup_participant, add_participant, remove_participant,
}
use udpcast_rs.Participants.Table.{slot, used_at, IsAt, IsFree, lookup_from-some, free_from-none}
use udpcast_rs.Participants.Outcome.{
  added, existing, refused, claims, add_participant-cases, fresh_addr,
}
use udpcast_rs.Participants.Invariant.{
  added-IsValid, IsValid, slot-set, used_at-lt, remove_participant-IsValid,
}

module _ (db : ParticipantsDb) (addr : SocketAddrV4) where
  -- What a lookup finds is a participant with the address.
  pub lookup-IsAt : (i : ℕ) → lookup_participant db addr ≡ some i → IsAt addr db.client_table i
  unfolding lookup_participant
  lookup-IsAt i h =
      let (j, e, found) = lookup_from-some addr 0 db.client_table i h in
      subst (IsAt addr db.client_table) (omega arith) found

  -- A participant with the address is found at its index.
  pub lookup-eq_of_IsAt :
      (i : ℕ) → IsValid db → IsAt addr db.client_table i → lookup_participant db addr ≡ some i
  lookup-eq_of_IsAt i v found = elim (Option-cases (lookup_participant db addr)) [
    | inl e ↦ absurd (fresh_addr db addr i e found.used found.same)
    | inr (j, e) ↦
        let other = lookup-IsAt j e in
        e ∙ ap some (v.distinct j i other.used found.used (other.same ∙ sym found.same))
  ]

added-IsAt :
    (db : ParticipantsDb) (i : ℕ) (addr : SocketAddrV4) (c r : ℕ)
    → i < length db.client_table
    → IsAt addr (added db i addr c r).client_table i
unfolding added
added-IsAt db i addr c r lt = record {
  below = omega (arith, length-set db.client_table i (claimed addr c r (slot db.client_table i)));
  used =
      ground (arith, slot-set db.client_table i i (claimed addr c r (slot db.client_table i)) lt);
  same =
      ground (arith, slot-set db.client_table i i (claimed addr c r (slot db.client_table i)) lt);
}

added-keeps :
    (db : ParticipantsDb) (i : ℕ) (addr other : SocketAddrV4) (c r j : ℕ)
    → IsFree db.client_table i
    → IsAt other db.client_table j
    → IsAt other (added db i addr c r).client_table j
unfolding added
added-keeps db i addr other c r j free found = record {
  below = omega (
    arith,
    found.below,
    length-set db.client_table i (claimed addr c r (slot db.client_table i)),
  );
  used = ground (arith, here, free.free, found.used);
  same = ground (arith, here, free.free, found.used, found.same);
}
  where
    here :
        slot (added db i addr c r).client_table j
        ≡ (if i == j then claimed addr c r (slot db.client_table i) else slot db.client_table j)
    here = slot-set db.client_table i j (claimed addr c r (slot db.client_table i)) free.below

-- If a valid table adds an address at an index, the address is found there afterwards, and every
-- address that was found before is still found at its index.
pub lookup-add_participant :
    (db : ParticipantsDb) (addr : SocketAddrV4) (c r : ℕ) (p : Bool) (i : ℕ)
    → IsValid db
    → (add_participant db addr c r p).0 ≡ some i
    → (lookup_participant (add_participant db addr c r p).1 addr ≡ some i)
      × ((other : SocketAddrV4) (j : ℕ)
          → lookup_participant db other ≡ some j
          → lookup_participant (add_participant db addr c r p).1 other ≡ some j)
lookup-add_participant db addr c r p i v h = elim (add_participant-cases db addr c r p) [
  | existing k e q ↦ rw q (e ∙ sym (ap (λ o. o.0) q) ∙ h, λ other j f. f)
  | refused e f q ↦ absurd (ground (arith, q, h))
  | claims k e free q ↦
      let new_db = added db k addr c r in
      let v' =
        added-IsValid db v k free.below addr c r free.free (λ j u. fresh_addr db addr j e u) in
      rw q (
        lookup-eq_of_IsAt new_db addr k v' (added-IsAt db k addr c r free.below)
            ∙ sym (ap (λ o. o.0) q)
            ∙ h,
        λ other j f.
            lookup-eq_of_IsAt new_db other j v'
              (added-keeps db k addr other c r j free (lookup-IsAt db other j f)),
      )
]

-- Outside point-to-point mode a valid table refuses an address if and only if it is not in the
-- table and all 1024 slots are taken.
pub add_participant-refused_iff :
    (db : ParticipantsDb) (addr : SocketAddrV4) (c r : ℕ)
    → IsValid db
    → ((add_participant db addr c r false).0 ≡ none)
      ↔ ((lookup_participant db addr ≡ none) × (db.nr_participants ≡ max_clients))
add_participant-refused_iff db addr c r v = (to, from)
  where
    to :
        (add_participant db addr c r false).0 ≡ none
        → (lookup_participant db addr ≡ none) × (db.nr_participants ≡ max_clients)
    to h = elim (add_participant-cases db addr c r false) [
      | existing i e q ↦ absurd (ground (arith, q, h))
      | claims i e free q ↦ absurd (ground (arith, q, h))
      | refused e f q ↦ (
        e,
        v.counted
            ∙ count-full (used_at db.client_table) max_clients
                (λ j lt. free_from-none 0 db.client_table j f (omega (arith, v.whole))),
      )
    ]

    from :
        (lookup_participant db addr ≡ none) × (db.nr_participants ≡ max_clients)
        → (add_participant db addr c r false).0 ≡ none
    from h = elim (add_participant-cases db addr c r false) [
      | existing i e q ↦ absurd (ground (arith, e, h.0))
      | refused e f q ↦ ap (λ o. o.0) q
      | claims i e free q ↦ absurd (
          ground (
            arith,
            free.free,
            all_of_count (used_at db.client_table) max_clients i (sym v.counted ∙ h.1)
                (omega (arith, free.below, v.whole)),
          ))
    ]

-- After a disconnection the others are where they were.
remove_participant-IsAt :
    (db : ParticipantsDb) (i j : ℕ) (addr : SocketAddrV4)
    → IsAt addr (remove_participant db i).client_table j ↔ (IsAt addr db.client_table j × (i ≢ j))
unfolding remove_participant
remove_participant-IsAt db i j addr = (to, from)
  where
    gone : ClientDesc
    gone = record (slot db.client_table i) { used = false }

    here :
        (used_at (remove_participant db i).client_table j
          ≡ (not (i == j) && used_at db.client_table j))
        × ((slot (remove_participant db i).client_table j).addr ≡ (slot db.client_table j).addr)
    here = ground (arith, get_or-set db.client_table i j gone blank, used_at-lt db.client_table i)

    to : IsAt addr (remove_participant db i).client_table j → IsAt addr db.client_table j × (i ≢ j)
    to found = (
      record {
        below = used_at-lt db.client_table j (ground (arith, here, found.used));
        used = ground (arith, here, found.used);
        same = sym here.1 ∙ found.same;
      },
      ground (arith, here, found.used),
    )

    from :
        (IsAt addr db.client_table j × (i ≢ j)) → IsAt addr (remove_participant db i).client_table j
    from found = record {
      below = used_at-lt _ j (kept found.0.used found.1);
      used = kept found.0.used found.1;
      same = here.1 ∙ found.0.same;
    }
      where
        kept :
            used_at db.client_table j ≡ true
            → i ≢ j
            → used_at (remove_participant db i).client_table j ≡ true
        kept u ne = ground (arith, here)

-- In a valid table, removing an index makes the address that was found there unknown, and every
-- other lookup gives what it gave before.
pub lookup-remove_participant :
    (db : ParticipantsDb) (i : ℕ) (addr : SocketAddrV4)
    → IsValid db
    → (lookup_participant db addr ≡ some i
        → lookup_participant (remove_participant db i) addr ≡ none)
      × (lookup_participant db addr ≢ some i
          → lookup_participant (remove_participant db i) addr ≡ lookup_participant db addr)
lookup-remove_participant db i addr v = (gone, kept)
  where
    v' : IsValid (remove_participant db i)
    v' = remove_participant-IsValid db i v

    gone :
        lookup_participant db addr ≡ some i
        → lookup_participant (remove_participant db i) addr ≡ none
    gone h = elim (Option-cases (lookup_participant (remove_participant db i) addr)) [
      | inl e ↦ e
      | inr (j, e) ↦
          let found =
            (remove_participant-IsAt db i j addr).0
              (lookup-IsAt (remove_participant db i) addr j e) in
          let old = lookup-IsAt db addr i h in
          absurd (found.1 (v.distinct i j old.used found.0.used (old.same ∙ sym found.0.same)))
    ]

    kept :
        lookup_participant db addr ≢ some i
        → lookup_participant (remove_participant db i) addr ≡ lookup_participant db addr
    kept ne = elim (Option-cases (lookup_participant db addr)) [
      | inr (j, e) ↦
          lookup-eq_of_IsAt (remove_participant db i) addr j v' (
            (remove_participant-IsAt db i j addr).1
              (lookup-IsAt db addr j e, λ same. ne (e ∙ ap some (sym same))))
          ∙ sym e
      | inl e ↦ elim (Option-cases (lookup_participant (remove_participant db i) addr)) [
        | inl f ↦ f ∙ sym e
        | inr (j, f) ↦
            let found =
              (remove_participant-IsAt db i j addr).0
                (lookup-IsAt (remove_participant db i) addr j f) in
            absurd (fresh_addr db addr j e found.0.used found.0.same)
      ]
    ]
