-- ===== src/Participants.antt =====
-- The sender's table of receivers, src/participants.rs. The log lines are left out; an index
-- result of -1 is `none`.
pub mod Table
pub mod Outcome
pub mod Members
pub mod Invariant
pub mod Stamps
pub mod Valid
mod Tests
use udpcast_rs.Base.{
  ℕ, suc, usize_add, usize_sub, Bool, true, false, not, ◌&&◌, ◌==◌, Option, none, some, List, [],
  ◌∷◌, if◌then◌else◌, get_or, set, replicate, ltb, length,
}

pub record SocketAddrV4 : Type 0 where
  pub ip : ℕ
  pub port : ℕ

pub record ClientDesc : Type 0 where
  pub addr : SocketAddrV4
  pub used : Bool
  pub capabilities : ℕ
  pub rcvbuf : ℕ
  pub ever_answered : Bool
  pub first_answered_round : Option (ℕ × ℕ)

pub record ParticipantsDb : Type 0 where
  pub nr_participants : ℕ
  pub client_table : List ClientDesc

abbrev pub max_clients : ℕ
max_clients = 1024

abbrev pub unspecified : SocketAddrV4
unspecified = record { ip = 0; port = 0 }

-- A slot of the table that `new` builds, and what a read out of range stands on.
abbrev pub blank : ClientDesc
blank = record {
  addr = unspecified;
  used = false;
  capabilities = 0;
  rcvbuf = 0;
  ever_answered = false;
  first_answered_round = none;
}

unfoldable pub new : ParticipantsDb
new = record { nr_participants = 0; client_table = replicate max_clients blank }

unfoldable pub is_participant_valid : ParticipantsDb → ℕ → Bool
is_participant_valid db i = (get_or db.client_table i blank).used

unfoldable pub remove_participant : ParticipantsDb → ℕ → ParticipantsDb
remove_participant db i =
    let client = get_or db.client_table i blank in
    if client.used
    then record {
      nr_participants = usize_sub db.nr_participants 1;
      client_table = set db.client_table i (record client { used = false });
    }
    else db

-- `client.addr == *addr`
abbrev pub addr_eq : SocketAddrV4 → SocketAddrV4 → Bool
addr_eq a b = a.ip == b.ip && a.port == b.port

-- The scan of the table from index `i` on.
unfoldable pub lookup_from : SocketAddrV4 → ℕ → List ClientDesc → Option ℕ
lookup_from addr i [] = none
lookup_from addr i (c ∷ cs) =
    if c.used && addr_eq c.addr addr then some i else lookup_from addr (suc i) cs

unfoldable pub lookup_participant : ParticipantsDb → SocketAddrV4 → Option ℕ
unfolding lookup_from
lookup_participant db addr = lookup_from addr 0 db.client_table

-- What a slot becomes when it is claimed; `ever_answered` and `first_answered_round` stay.
abbrev pub claimed : SocketAddrV4 → ℕ → ℕ → ClientDesc → ClientDesc
claimed addr capabilities rcvbuf c = record c {
  addr = addr;
  used = true;
  capabilities = capabilities;
  rcvbuf = rcvbuf;
}

-- The index of the slot that the loop of `add_participant` claims: in point-to-point mode the scan
-- stops at the first slot that is taken.
unfoldable pub free_from : Bool → ℕ → List ClientDesc → Option ℕ
free_from pointopoint i [] = none
free_from pointopoint i (c ∷ cs) =
    let rest = free_from pointopoint (suc i) cs in
    if not c.used then some i else if pointopoint then none else rest

unfoldable pub add_participant :
    ParticipantsDb → SocketAddrV4 → ℕ → ℕ → Bool → Option ℕ × ParticipantsDb
unfolding free_from
add_participant db addr capabilities rcvbuf pointopoint = elim (lookup_participant db addr) [
  | some existing ↦ (some existing, db)
  | none ↦ elim (free_from pointopoint 0 db.client_table) [
    | none ↦ (none, db)
    | some i ↦ (
      some i,
      record {
        nr_participants = usize_add db.nr_participants 1;
        client_table =
            set db.client_table i
              (claimed addr capabilities rcvbuf (get_or db.client_table i blank));
      },
    )
  ]
]

unfoldable pub get_participant_capabilities : ParticipantsDb → ℕ → ℕ
get_participant_capabilities db i = (get_or db.client_table i blank).capabilities

-- `first_answered_round.map_or(true, |(s, _)| s != sn)`
unfoldable pub other_slice : Option (ℕ × ℕ) → ℕ → Bool
other_slice none sn = true
other_slice (some (s, _)) sn = not (s == sn)

unfoldable pub stamp : ClientDesc → Option ℕ → ℕ → ClientDesc
unfolding other_slice
stamp c none round = record c { ever_answered = true }
stamp c (some sn) round =
    if other_slice c.first_answered_round sn
    then record c { ever_answered = true; first_answered_round = some (sn, round) }
    else record c { ever_answered = true }

unfoldable pub mark_answered : ParticipantsDb → ℕ → Option ℕ → ℕ → ParticipantsDb
unfolding stamp
mark_answered db i slice_no round = record db {
  client_table = set db.client_table i (stamp (get_or db.client_table i blank) slice_no round);
}

unfoldable pub ever_answered : ParticipantsDb → ℕ → Bool
ever_answered db i = (get_or db.client_table i blank).ever_answered

unfoldable pub first_answered_round : ParticipantsDb → ℕ → Option (ℕ × ℕ)
first_answered_round db i = (get_or db.client_table i blank).first_answered_round

pub get_participant_rcvbuf : ParticipantsDb → ℕ → ℕ
get_participant_rcvbuf db i = (get_or db.client_table i blank).rcvbuf

pub get_participant_ip : ParticipantsDb → ℕ → Option SocketAddrV4
get_participant_ip db i =
    if ltb i (length db.client_table) then some (get_or db.client_table i blank).addr else none
