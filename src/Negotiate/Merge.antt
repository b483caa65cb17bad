-- ===== src/Negotiate/Merge.antt =====
-- What the transfer takes over from the participants, and what its end leaves.
use udpcast_rs.Base.{
  ℕ, zero, suc, ◌+◌, ◌/◌, ◌%◌, ◌<◌, ◌≤◌, ◌≡◌, ◌≢◌, sym, ap, ◌∙◌, subst, arith, Bool, true, false,
  not, ◌&&◌, ◌||◌, some, get_or, bit_and, bit_and_eight, eighth-bit_and, inl, inr, Bool-cases,
  if◌then◌else◌, ltb, ℕ_discrete, count-zero,
}
use udpcast_rs.Protocol.{cap_big_endian}
use udpcast_rs.Participants.{
  ParticipantsDb, is_participant_valid, remove_participant, get_participant_capabilities, blank,
  max_clients,
}
use udpcast_rs.Participants.Invariant.{IsValid, remove_participant-IsValid}
use udpcast_rs.Participants.Table.{used_at}
use udpcast_rs.Participants.Valid.{remove_participant-valid}
use udpcast_rs.Negotiate.{
  StartConfig, merge_participant, merge_all, take_over, forget_all, is_point_to_point,
}

-- The bit of the big-endian protocol.
abbrev pub is_big_endian : ℕ → ℕ
is_big_endian capabilities = capabilities / 8 % 2

abbrev pub rcvbuf_of : ParticipantsDb → ℕ → ℕ
rcvbuf_of db i = (get_or db.client_table i blank).rcvbuf

-- What holds of what was taken over against one participant: its bit is set if theirs is, and the
-- buffer is no larger than theirs.
abbrev pub IsWithin : ParticipantsDb → ℕ → StartConfig → Type 0
IsWithin db i merged =
    (is_big_endian merged.capabilities ≤ is_big_endian (get_participant_capabilities db i))
    × (rcvbuf_of db i ≢ 0 → (merged.rcvbuf ≢ 0) × (merged.rcvbuf ≤ rcvbuf_of db i))

merge_participant-IsWithin :
    (p : Bool) (db : ParticipantsDb) (i : ℕ) (config : StartConfig)
    → IsWithin db i (merge_participant p db i config)
unfolding merge_participant
merge_participant-IsWithin p db i config = (
  omega (arith, eighth-bit_and config.capabilities (get_participant_capabilities db i)),
  λ n. ground (arith, n),
)

-- Taking over from one more participant keeps it.
keeps-IsWithin :
    (p : Bool) (db : ParticipantsDb) (i j : ℕ) (config : StartConfig)
    → IsWithin db j config
    → IsWithin db j (merge_participant p db i config)
unfolding merge_participant
keeps-IsWithin p db i j config (e, k) = (
  omega (arith, e, eighth-bit_and config.capabilities (get_participant_capabilities db i)),
  λ n. ground (arith, n, (k n).0, (k n).1),
)

merge_all_keeps :
    (p : Bool) (db : ParticipantsDb) (rounds i j : ℕ) (config : StartConfig)
    → IsWithin db j config
    → IsWithin db j (merge_all p db rounds i config)
unfolding merge_all
merge_all_keeps p db zero i j config k = k
merge_all_keeps p db (suc n) i j config k = elim (Bool-cases (is_participant_valid db i)) [
  | inl e ↦
      rw (e, merge_all)
        (merge_all_keeps p db n (suc i) j (merge_participant p db i config)
          (keeps-IsWithin p db i j config k))
  | inr e ↦ rw (e, merge_all) (merge_all_keeps p db n (suc i) j config k)
]

merge_all-IsWithin :
    (p : Bool) (db : ParticipantsDb) (rounds i j : ℕ) (config : StartConfig)
    → i ≤ j
    → j < i + rounds
    → is_participant_valid db j ≡ true
    → IsWithin db j (merge_all p db rounds i config)
unfolding merge_all
merge_all-IsWithin p db zero i j config l m v = absurd (omega arith)
merge_all-IsWithin p db (suc n) i j config l m v = elim (ℕ_discrete i j) [
  | yes e ↦
      rw (ap (is_participant_valid db) e ∙ v, merge_all)
        (merge_all_keeps p db n (suc i) j (merge_participant p db i config) (
          subst (λ t. IsWithin db t (merge_participant p db i config)) e
            (merge_participant-IsWithin p db i config)))
  | no e ↦ elim (Bool-cases (is_participant_valid db i)) [
    | inl f ↦
        rw (f, merge_all)
          (merge_all-IsWithin p db n (suc i) j (merge_participant p db i config) (omega (arith, e))
            (omega arith) v)
    | inr f ↦
        rw (f, merge_all)
          (merge_all-IsWithin p db n (suc i) j config (omega (arith, e)) (omega arith) v)
  ]
]

-- If the transfer is not refused, each participant has the big-endian bit, what was taken over has
-- it only if they have it, and the receive buffer is not 0 and no larger than the one of a
-- participant that gave one.
pub take_over-IsWithin :
    (db : ParticipantsDb) (config merged : StartConfig) (i : ℕ)
    → take_over db config ≡ some merged
    → i < 1024
    → is_participant_valid db i ≡ true
    → IsWithin db i merged × (is_big_endian (get_participant_capabilities db i) ≡ 1)
unfolding take_over
take_over-IsWithin db config merged i e l v =
    let within = subst (IsWithin db i) (sym accepted.0) (
      merge_all-IsWithin p2p db max_clients 0 i (record config { rcvbuf = 0 }) (omega arith)
        (omega (arith, l)) v) in
    (
      within,
      omega (
        arith,
        within.0,
        accepted.1,
        bit_and_eight m.capabilities,
        ap (λ (c : StartConfig). c.capabilities) accepted.0,
      ),
    )
  where
    p2p : Bool
    p2p = is_point_to_point db config.flags

    m : StartConfig
    m = merge_all p2p db max_clients 0 (record config { rcvbuf = 0 })

    accepted : (merged ≡ m) × (bit_and m.capabilities cap_big_endian ≢ 0)
    accepted = ground (arith, e)

removed_one :
    (db : ParticipantsDb) (i : ℕ)
    → IsValid db
    → IsValid (if is_participant_valid db i then remove_participant db i else db)
removed_one db i v = elim (Bool-cases (is_participant_valid db i)) [
  | inl e ↦ rw e (remove_participant-IsValid db i v)
  | inr e ↦ rw e v
]

forget_all-valid :
    (rounds i j : ℕ) (db : ParticipantsDb)
    → is_participant_valid (forget_all rounds i db) j
      ≡ (is_participant_valid db j && (ltb j i || not (ltb j (i + rounds))))
unfolding forget_all
forget_all-valid zero i j db = ground arith
forget_all-valid (suc n) i j db = elim (Bool-cases (is_participant_valid db i)) [
  | inl e ↦
      rw (e, forget_all)
        (ground (
          arith,
          e,
          forget_all-valid n (suc i) j (remove_participant db i),
          remove_participant-valid db i j,
        ))
  | inr e ↦
      rw (e, forget_all)
        (forget_all-valid n (suc i) j db
          ∙ ground (arith, e, λ (q : i ≡ j). ap (is_participant_valid db) q))
]

forget_all-IsValid :
    (rounds i : ℕ) (db : ParticipantsDb) → IsValid db → IsValid (forget_all rounds i db)
unfolding forget_all
forget_all-IsValid zero i db v = v
forget_all-IsValid (suc n) i db v = forget_all-IsValid n (suc i) _ (removed_one db i v)

-- The end of a transfer leaves a valid table without participants: its counter is 0 and no index
-- below 1024 is valid.
pub forget_all-participants :
    (db : ParticipantsDb)
    → IsValid db
    → ((forget_all max_clients 0 db).nr_participants ≡ 0)
      × ((j : ℕ) → j < 1024 → is_participant_valid (forget_all max_clients 0 db) j ≡ false)
unfolding is_participant_valid
forget_all-participants db v = (
  (forget_all-IsValid max_clients 0 db v).counted
      ∙ count-zero (used_at (forget_all max_clients 0 db).client_table) max_clients gone,
  gone,
)
  where
    gone : (j : ℕ) → j < 1024 → is_participant_valid (forget_all max_clients 0 db) j ≡ false
    gone j l = ground (arith, l, forget_all-valid max_clients 0 j db)
