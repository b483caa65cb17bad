-- ===== src/Participants/Table.antt =====
-- The two scans of the table: what they find, and what it means that they find nothing.
use udpcast_rs.Base.{
  if◌then◌else◌, inl, inr, Bool-cases, ◌&&◌, ℕ, zero, suc, ◌+◌, ◌<◌, ◌≡◌, ◌≢◌, arith, Bool, true,
  false, none, some, List, [], ◌∷◌, length, get_or,
}
use udpcast_rs.Participants.{SocketAddrV4, ClientDesc, addr_eq, blank, lookup_from, free_from}

-- The slot at an index; past the end it is blank.
abbrev pub slot : List ClientDesc → ℕ → ClientDesc
slot t i = get_or t i blank

abbrev pub used_at : List ClientDesc → ℕ → Bool
used_at t i = (slot t i).used

-- A client at `addr` has index `i`.
pub record IsAt (addr : SocketAddrV4) (t : List ClientDesc) (i : ℕ) : Type 0 where
  pub below : i < length t
  pub used : used_at t i ≡ true
  pub same : (slot t i).addr ≡ addr

pub lookup_from-some :
    (addr : SocketAddrV4) (k : ℕ) (t : List ClientDesc) (r : ℕ)
    → lookup_from addr k t ≡ some r
    → (i : ℕ) × (r ≡ k + i) × IsAt addr t i
unfolding lookup_from
lookup_from-some addr k [] r h = absurd (ground arith)
lookup_from-some addr k (c ∷ cs) r h = elim (Bool-cases (c.used && addr_eq c.addr addr)) [
  | inl e ↦
      (0, ground arith, record { below = omega arith; used = ground arith; same = ground arith })
  | inr e ↦
      let (i, q, found) = lookup_from-some addr (suc k) cs r (ground arith) in
      (
        suc i,
        omega arith,
        record { below = omega (arith, found.below); used = found.used; same = found.same },
      )
]

pub lookup_from-none :
    (addr : SocketAddrV4) (k : ℕ) (t : List ClientDesc) (i : ℕ)
    → lookup_from addr k t ≡ none
    → used_at t i ≡ true
    → (slot t i).addr ≢ addr
unfolding lookup_from
lookup_from-none addr k [] i h u = ground arith
lookup_from-none addr k (c ∷ cs) zero h u = ground arith
lookup_from-none addr k (c ∷ cs) (suc i) h u = ground (arith, lookup_from-none addr (suc k) cs i)

-- A slot that is free, behind slots that are all taken.
pub record IsFree (t : List ClientDesc) (i : ℕ) : Type 0 where
  pub below : i < length t
  pub free : used_at t i ≡ false
  pub first : (j : ℕ) → j < i → used_at t j ≡ true

pub free_from-some :
    (pointopoint : Bool) (k : ℕ) (t : List ClientDesc) (r : ℕ)
    → free_from pointopoint k t ≡ some r
    → (i : ℕ) × (r ≡ k + i) × IsFree t i
unfolding free_from
free_from-some p k [] r h = absurd (ground arith)
free_from-some p k (c ∷ cs) r h = elim (Bool-cases c.used) [
  | inr e ↦ (
    0,
    ground arith,
    record { below = omega arith; free = e; first = λ j lt. absurd (omega arith) },
  )
  | inl e ↦
      let (i, q, found) = free_from-some p (suc k) cs r (ground arith) in
      (
        suc i,
        omega arith,
        record {
          below = omega (arith, found.below);
          free = found.free;
          first = before e found.first;
        },
      )
]
  where
    before :
        {i : ℕ}
        → c.used ≡ true
        → ((j : ℕ) → j < i → used_at cs j ≡ true)
        → (j : ℕ) → j < suc i
        → used_at (c ∷ cs) j ≡ true
    before u all zero lt = u
    before u all (suc j) lt = all j (omega arith)

pub free_from-none :
    (k : ℕ) (t : List ClientDesc) (i : ℕ)
    → free_from false k t ≡ none
    → i < length t
    → used_at t i ≡ true
unfolding free_from
free_from-none k [] i h lt = absurd (omega arith)
free_from-none k (c ∷ cs) zero h lt = ground arith
free_from-none k (c ∷ cs) (suc i) h lt = ground (arith, free_from-none (suc k) cs i)

-- In point-to-point mode only the first slot is looked at.
pub free_from-p2p :
    (k : ℕ) (c : ClientDesc) (cs : List ClientDesc)
    → free_from true k (c ∷ cs) ≡ (if c.used then none else some k)
unfolding free_from
free_from-p2p k c cs = ground arith
