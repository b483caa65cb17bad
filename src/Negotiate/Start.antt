-- ===== src/Negotiate/Start.antt =====
-- `start_sender_with_socks` of src/negotiate.rs: the rounds up to a decision, and what the transfer
-- starts with.
use udpcast_rs.Base.{
  ℕ, ◌<◌, ◌≡◌, ◌≢◌, arith, true, false, not, ◌&&◌, ◌==◌, none, some, List, [], ◌∷◌, ◌++◌,
  if◌then◌else◌, inl, inr, Bool-cases, Option-cases,
}
use udpcast_rs.Participants
use udpcast_rs.Participants.{ParticipantsDb, is_participant_valid}
use udpcast_rs.Participants.Invariant.{IsValid, new-IsValid}
use udpcast_rs.SendData.{flag_async, has, sender_capabilities}
use udpcast_rs.Negotiate.{
  StartConfig, Sent, hello, Clock, Seen, Negotiation, Decision, dispatch_wait, dispatch_start,
  dispatch_give_up, Dispatched, exited, decided, dispatch_round, hello_interval, take_over,
}
use udpcast_rs.Negotiate.Rounds.{StaysValid, dispatch_round-StaysValid}
use udpcast_rs.Negotiate.Merge.{IsWithin, take_over-IsWithin}

-- What the environment gives one round.
pub record Turn : Type 0 where
  pub clock : Clock
  pub seen : Seen

-- How the rounds end: `still_waiting` after the last one of the list.
pub data Negotiated : Type 0 where
  process_ended : Negotiated
  still_waiting : Negotiation → List Sent → Negotiated
  settled : Decision → Negotiation → List Sent → Negotiated

-- A round's result before what is left of the loop, which `rest` stands for.
abbrev pub after_round :
    (Negotiation → List Sent → Negotiated) → List Sent → Dispatched → Negotiated
after_round rest sent exited = process_ended
after_round rest sent (decided dispatch_wait s out) = rest s (sent ++ out)
after_round rest sent (decided dispatch_start s out) = settled dispatch_start s (sent ++ out)
after_round rest sent (decided dispatch_give_up s out) = settled dispatch_give_up s (sent ++ out)

unfoldable pub negotiate : StartConfig → ℕ → List Turn → Negotiation → List Sent → Negotiated
negotiate config started [] s sent = still_waiting s sent
negotiate config started (t ∷ ts) s sent =
    after_round (negotiate config started ts) sent
      (dispatch_round config (hello_interval config) started t.clock t.seen s)

-- What a sender comes to.
pub data Start : Type 0 where
  waits exits no_transfer : Start
  transfers : ParticipantsDb → StartConfig → List Sent → Start

-- What follows a decision.
unfoldable pub settle : StartConfig → Negotiated → Start
settle config process_ended = exits
settle config (still_waiting s sent) = waits
settle config (settled dispatch_give_up s sent) = no_transfer
settle config (settled d s sent) =
    if s.db.nr_participants == 0 && not (has config.flags flag_async)
    then no_transfer
    else elim (take_over s.db config) [ none ↦ exits | some merged ↦ transfers s.db merged sent ]

unfoldable pub start_sender : StartConfig → ℕ → List Turn → Start
start_sender config started turns =
    let config' = record config { capabilities = sender_capabilities config.flags } in
    settle config' (
      negotiate config' started turns
        (record { db = Participants.new; hello_tries = 0; first_connected = none }) (hello ∷ []))

-- What holds of the table where the rounds end.
abbrev pub EndsValid : Negotiated → Type 0
EndsValid process_ended = Unit
EndsValid (still_waiting s sent) = IsValid s.db
EndsValid (settled d s sent) = IsValid s.db

after_round-EndsValid :
    (rest : Negotiation → List Sent → Negotiated) (sent : List Sent) (d : Dispatched)
    → ((s : Negotiation) (out : List Sent) → IsValid s.db → EndsValid (rest s out))
    → StaysValid d
    → EndsValid (after_round rest sent d)
after_round-EndsValid rest sent exited h v = tt
after_round-EndsValid rest sent (decided dispatch_wait s out) h v = h s (sent ++ out) v
after_round-EndsValid rest sent (decided dispatch_start s out) h v = v
after_round-EndsValid rest sent (decided dispatch_give_up s out) h v = v

negotiate-EndsValid :
    (config : StartConfig) (started : ℕ) (ts : List Turn) (s : Negotiation) (sent : List Sent)
    → IsValid s.db
    → EndsValid (negotiate config started ts s sent)
unfolding negotiate
negotiate-EndsValid config started [] s sent v = v
negotiate-EndsValid config started (t ∷ ts) s sent v =
    after_round-EndsValid (negotiate config started ts) sent
      (dispatch_round config (hello_interval config) started t.clock t.seen s)
      (λ s' out v'. negotiate-EndsValid config started ts s' out v')
      (dispatch_round-StaysValid config (hello_interval config) started t.clock t.seen s v)

-- What a transfer may rely on.
pub record Ready (config : StartConfig) (db : ParticipantsDb) (merged : StartConfig) : Type 0 where
  pub valid : IsValid db
  pub someone : has config.flags flag_async ≡ false → db.nr_participants ≢ 0
  pub within : (i : ℕ) → i < 1024 → is_participant_valid db i ≡ true → IsWithin db i merged

-- A start that transfers is ready.
abbrev pub StartsReady : StartConfig → Start → Type 0
StartsReady config (transfers db merged sent) = Ready config db merged
StartsReady config _ = Unit

settle-StartsReady :
    (config : StartConfig) (s : Negotiation) (sent : List Sent)
    → IsValid s.db
    → StartsReady config (settle config (settled dispatch_start s sent))
unfolding settle
settle-StartsReady config s sent v =
    elim (Bool-cases (s.db.nr_participants == 0 && not (has config.flags flag_async))) [
      | inl e ↦ rw (e, settle) tt
      | inr e ↦ elim (Option-cases (take_over s.db config)) [
        | inl f ↦ rw (e, f, settle) tt
        | inr (merged, f) ↦
            rw (e, f, settle)
              record {
                valid = v;
                someone = λ a. ground (arith, e, a);
                within = λ i l p. (take_over-IsWithin s.db config merged i f l p).0;
              }
      ]
    ]

negotiated-StartsReady :
    (config : StartConfig) (n : Negotiated) → EndsValid n → StartsReady config (settle config n)
unfolding settle
negotiated-StartsReady config process_ended v = tt
negotiated-StartsReady config (still_waiting s sent) v = tt
negotiated-StartsReady config (settled dispatch_give_up s sent) v = tt
negotiated-StartsReady config (settled dispatch_start s sent) v = settle-StartsReady config s sent v
negotiated-StartsReady config (settled dispatch_wait s sent) v = settle-StartsReady config s sent v

-- Whatever the rounds of a negotiation see, when a transfer starts its table of participants is
-- valid and, without the asynchronous flag, not empty. The capabilities it takes over have the
-- big-endian bit only if each participant has it, and its receive buffer is no larger than that of
-- any participant that gave one.
pub start_sender-StartsReady :
    (config : StartConfig) (started : ℕ) (turns : List Turn)
    → StartsReady
        (record config { capabilities = sender_capabilities config.flags })
        (start_sender config started turns)
unfolding start_sender
start_sender-StartsReady config started turns =
    negotiated-StartsReady _ _ (negotiate-EndsValid _ started turns _ (hello ∷ []) new-IsValid)
