-- ===== src/ReceiveData/Leaving.antt =====
-- Why the receiver's loop is left: a pass before left the end marker in the table of slices.
use udpcast_rs.Base.{
  ℕ, suc, ◌<◌, ◌≡◌, ◌⊎◌, refl, sym, ap, ◌∙◌, subst, arith, Bool, true, not, Option, some, none,
  List, [], ◌∷◌, take, length, ◌&&◌, ◌==◌, ltb, leb, ◌*◌, ◌^◌, ◌-◌, Bool-cases, inl, inr,
}
use udpcast_rs.ReceiveData.{Slice, is_finished}
use udpcast_rs.ReceiveData.Table.{Table, slot, next, panic, blocked}
use udpcast_rs.ReceiveData.Loop.{
  Handled, skipped, handled, has_end, Config, Session, Poll, quiet, packet, Pass, Fate, goes_on,
  leaves, times_out, crashes, hangs, is_due, rearm, check_end, after_packet, idle, receive, turn,
  after_writer, resumed, pass, followed_by, run, handle_packet,
}
use udpcast_rs.ReceiveData.Safety.{
  IsArmed, EndsWell, AllInOrder, after_writer-same, pass-EndsWell, run-EndsWell,
}

-- A slice of the table is done and has no bytes.
abbrev pub HasMarker : Table → Type 0
HasMarker t =
    (i : ℕ) × (i < length t.slices)
    × (is_finished (slot t.slices i).state ≡ true)
    × ((slot t.slices i).bytes ≡ 0)

has_end-marker :
    (slices : List Slice)
    → has_end slices ≡ true
    → (i : ℕ) × (i < length slices)
      × (is_finished (slot slices i).state ≡ true)
      × ((slot slices i).bytes ≡ 0)
unfolding has_end
has_end-marker [] e = ground (arith, e)
has_end-marker (s ∷ ss) e = elim (Bool-cases (is_finished s.state && s.bytes == 0)) [
  | inl h ↦ (0, omega arith, ground (arith, h), ground (arith, h))
  | inr h ↦
      let (i, lt, is_done, none_left) = has_end-marker ss (ground (arith, e, h)) in
      (suc i, omega (arith, lt), is_done, none_left)
]

-- After some of the passes the loop went on, with the end marker in the table.
abbrev pub SawMarker : Config → Session → List Pass → Type 0
SawMarker c s ps =
    (k : ℕ) × (t : Session) × (run c s (take k ps) ≡ goes_on t)
    × HasMarker t.table
    × (t.end_reached ≡ true)

-- A pass sets the flag of the end only with the end marker in the table, and the loop is left with
-- the flag that it had.
abbrev Marks : Bool → Fate → Type 0
Marks before (goes_on t) = t.end_reached ≡ true → (before ≡ true) ⊎ HasMarker t.table
Marks before (leaves now t) = t.end_reached ≡ before
Marks before (times_out sent) = Unit
Marks before crashes = Unit
Marks before hangs = Unit

check_end-Marks :
    (c : Config) (now : ℕ) (s : Session) → Marks s.end_reached (goes_on (check_end c now s))
unfolding check_end
check_end-Marks c now s = elim (Bool-cases (not s.end_reached && has_end s.table.slices)) [
  | inl e ↦ rw e (λ h. inr (has_end-marker s.table.slices (ground (arith, e))))
  | inr e ↦ rw e (λ h. inl h)
]

after_packet-Marks :
    (c : Config) (now : ℕ) (s : Session) (h : Handled)
    → Marks s.end_reached (after_packet c now s h)
unfolding after_packet
after_packet-Marks c now s skipped = λ h. inl h
after_packet-Marks c now s (handled panic) = tt
after_packet-Marks c now s (handled blocked) = tt
after_packet-Marks c now s (handled (next t)) = check_end-Marks c now (record s { table = t })

receive-Marks :
    (c : Config) (s : Session) (p : Pass) (poll : Poll) → Marks s.end_reached (receive c s p poll)
unfolding receive idle rearm
receive-Marks c s p (quiet now) =
    elim (Bool-cases (
      ltb 0 c.receive_timeout_secs
      && s.table.client.is_started
      && leb (c.receive_timeout_secs * 10 ^ 9) (now - s.last_activity))) [
        | inl e ↦ rw e tt
        | inr e ↦ rw e (λ h. inl h)
      ]
receive-Marks c s p (packet now n buf) =
    after_packet-Marks c p.bottom (rearm c now s)
      (handle_packet c.block_size s.table p.wakeups n buf)

turn-Marks : (c : Config) (s : Session) (p : Pass) → Marks s.end_reached (turn c s p)
unfolding turn
turn-Marks c s p = elim (Bool-cases (is_due p.top s.drain_deadline)) [
  | inl e ↦ rw e refl
  | inr e ↦ rw e (receive-Marks c s p p.poll)
]

resumed-Marks :
    (c : Config) (before : Bool) (p : Pass) (o : Option Session)
    → ((t : Session) → o ≡ some t → t.end_reached ≡ before)
    → Marks before (resumed c p o)
unfolding resumed
resumed-Marks c before p none h = tt
resumed-Marks c before p (some t) h =
    subst (λ (b : Bool). Marks b (turn c t p)) (h t refl) (turn-Marks c t p)

pass-Marks : (c : Config) (s : Session) (p : Pass) → Marks s.end_reached (pass c s p)
unfolding pass
pass-Marks c s p =
    resumed-Marks c s.end_reached p (after_writer s p)
      (λ t e. ap (λ (q : Session). q.end_reached) (sym (after_writer-same s t p e).1))

-- Why the flag of the end is set after these passes.
abbrev pub Marked : Config → Session → List Pass → Type 0
Marked c s ps = (s.end_reached ≡ true) ⊎ SawMarker c s ps

abbrev pub Reason : Config → Session → List Pass → Fate → Type 0
Reason c s ps (goes_on t) = t.end_reached ≡ true → Marked c s ps
Reason c s ps (leaves now t) = Marked c s ps
Reason c s ps (times_out sent) = Unit
Reason c s ps crashes = Unit
Reason c s ps hangs = Unit

module _ (c : Config) (s t : Session) (p : Pass) (ps : List Pass) (e : pass c s p ≡ goes_on t)
    (marks : Marks s.end_reached (goes_on t)) where
  earlier-Marked : Marked c t ps → Marked c s (p ∷ ps)
  unfolding run followed_by
  earlier-Marked (inl h) = elim (marks h) [
    | inl before ↦ inl before
    | inr marker ↦ inr (1, t, rw e refl, marker, h)
  ]
  earlier-Marked (inr (k, u, eq, marker, h)) = inr (suc k, u, rw e eq, marker, h)

  earlier-Reason : (f : Fate) → Reason c t ps f → Reason c s (p ∷ ps) f
  earlier-Reason (goes_on u) r = λ h. earlier-Marked (r h)
  earlier-Reason (leaves now u) r = earlier-Marked r
  earlier-Reason (times_out sent) r = tt
  earlier-Reason crashes r = tt
  earlier-Reason hangs r = tt

followed_by-Reason :
    (c : Config) (s : Session) (p : Pass) (ps : List Pass) (f : Fate)
    → pass c s p ≡ f
    → Marks s.end_reached f
    → EndsWell c f
    → ((t : Session) → IsArmed c t → Reason c t ps (run c t ps))
    → Reason c s (p ∷ ps) (followed_by f (λ t. run c t ps))
unfolding followed_by EndsWell
followed_by-Reason c s p ps (goes_on t) e m k more =
    earlier-Reason c s t p ps e m (run c t ps) (more t k)
followed_by-Reason c s p ps (leaves now t) e m k more = inl (sym m ∙ k.0)
followed_by-Reason c s p ps (times_out sent) e m k more = tt
followed_by-Reason c s p ps crashes e m k more = tt
followed_by-Reason c s p ps hangs e m k more = tt

run-Reason :
    (c : Config) (s : Session) (ps : List Pass)
    → IsArmed c s
    → AllInOrder ps
    → Reason c s ps (run c s ps)
unfolding run AllInOrder
run-Reason c s [] a o = λ h. inl h
run-Reason c s (p ∷ ps) a (o, os) =
    followed_by-Reason c s p ps (pass c s p) refl (pass-Marks c s p) (pass-EndsWell c s p a o)
      (λ t b. run-Reason c t ps b os)

-- Take a session of the receiver in which every slice's counter is right, no deadline is set while
-- the flag of the end is not, and with the flag one is set, at least the wait after the last
-- packet. After any passes of the main loop in which the clock does not go back, with anything that
-- the writer thread does to the queues in between, this is still so. If the flag is set then, or
-- the loop is left, the session began with the flag, or after some of the passes the loop went on
-- with a slice in the table that is done and has no bytes. If the loop is left, the wait since the
-- last packet is over; if the receive timeout ends the process, one was asked for, and five rounds
-- of notifications have been sent.
pub run_lem :
    (c : Config) (s : Session) (ps : List Pass)
    → IsArmed c s
    → AllInOrder ps
    → EndsWell c (run c s ps) × Reason c s ps (run c s ps)
run_lem c s ps a o = (run-EndsWell c s ps a o, run-Reason c s ps a o)
