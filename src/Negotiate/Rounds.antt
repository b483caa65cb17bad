-- ===== src/Negotiate/Rounds.antt =====
-- The rounds of a negotiation keep the table valid, whatever they see.
use udpcast_rs.Base.{
  ℕ, ◌≡◌, refl, arith, true, ◌||◌, ◌==◌, Option, none, some, List, [], ◌∷◌, ◌++◌, inl, inr,
  Bool-cases,
}
use udpcast_rs.Participants.{ParticipantsDb}
use udpcast_rs.Participants.Invariant.{IsValid}
use udpcast_rs.Negotiate.{
  StartConfig, Sent, Handled, drain, Datagram, Negotiation, Dispatched, exited, decided,
  after_drain, quiet_round, busy_round, dispatch_round, Clock, Seen, failed, nothing, something,
  check_client_wait, key_q,
}
use udpcast_rs.Negotiate.Register.{handle_receiver_msg-Answers}

-- The table stays valid while the datagrams of a round are handled, and none of them ends the
-- process.
drain-Answers :
    (config : StartConfig) (ds : List Datagram) (db : ParticipantsDb) (sent : List Sent)
    → (h : Handled) × (drain config ds db sent ≡ some h) × (IsValid db → IsValid h.db)
unfolding drain
drain-Answers config [] db sent = (_, refl, λ v. v)
drain-Answers config (d ∷ ds) db sent =
    let (h, e, k) = handle_receiver_msg-Answers d.from db config d.buf in
    let (g, f, m) = drain-Answers config ds h.db (sent ++ h.sent) in
    elim (Bool-cases h.starts) [
      | inl s ↦ (record { starts = true; db = h.db; sent = sent ++ h.sent }, rw (e, s) refl, k)
      | inr s ↦ (g, rw (e, s) f, λ v. m (k v))
    ]

-- A round that goes on leaves a valid table.
abbrev pub StaysValid : Dispatched → Type 0
StaysValid exited = Unit
StaysValid (decided decision s sent) = IsValid s.db

quiet_round-StaysValid :
    (config : StartConfig) (interval : Option ℕ) (started : ℕ) (clock : Clock) (s : Negotiation)
    → IsValid s.db
    → StaysValid (quiet_round config interval started clock s)
unfolding quiet_round
quiet_round-StaysValid config none started clock s v = ground (arith, v)
quiet_round-StaysValid config (some interval) started clock s v = ground (arith, v)

after_drain-StaysValid :
    (config : StartConfig) (clock : Clock) (ds : List Datagram) (s : Negotiation)
    → IsValid s.db
    → StaysValid (after_drain config clock ds s)
unfolding after_drain
after_drain-StaysValid config clock ds s v =
    let (h, e, k) = drain-Answers config ds s.db [] in
    rw (e, after_drain)
      (elim (Bool-cases
        (h.starts || check_client_wait h.db config s.first_connected clock.checked)) [
          | inl f ↦ rw f (k v)
          | inr f ↦ rw f (k v)
        ])

busy_round-StaysValid :
    (config : StartConfig) (clock : Clock) (key : Option ℕ) (ds : List Datagram) (s : Negotiation)
    → IsValid s.db
    → StaysValid (busy_round config clock key ds s)
unfolding busy_round
busy_round-StaysValid config clock none ds s v = after_drain-StaysValid config clock ds s v
busy_round-StaysValid config clock (some key) ds s v = elim (Bool-cases (key == key_q)) [
  | inl f ↦ rw f tt
  | inr f ↦ rw f v
]

pub dispatch_round-StaysValid :
    (config : StartConfig) (interval : Option ℕ) (started : ℕ) (clock : Clock) (seen : Seen)
    (s : Negotiation)
    → IsValid s.db
    → StaysValid (dispatch_round config interval started clock seen s)
unfolding dispatch_round
dispatch_round-StaysValid config interval started clock failed s v = v
dispatch_round-StaysValid config interval started clock nothing s v =
    quiet_round-StaysValid config interval started clock _ v
dispatch_round-StaysValid config interval started clock (something key ds) s v =
    busy_round-StaysValid config clock key ds _ v
