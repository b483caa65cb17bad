-- ===== src/ReceiveData/Safety.antt =====
-- What every run of the receiver's loop keeps: right counters, and no exit before the end marker
-- and the wait for stragglers.
use mathlib.Core.Option.{some-injective}
use udpcast_rs.Base.{
  ℕ, ◌+◌, ◌*◌, ◌^◌, ◌<◌, ◌≤◌, ◌≡◌, refl, arith, true, false, not, some, none, List, [], ◌∷◌, ltb,
  leb, ◌&&◌, Option, Bool-cases, Option-cases, subst, inl, inr, ◌-◌,
}
use udpcast_rs.Fifo.{Fifo}
use udpcast_rs.ReceiveData.Table.{Table, next, panic, blocked}
use udpcast_rs.ReceiveData.Tallies.{AllTallied}
use udpcast_rs.ReceiveData.Packets.{HandledLeaves, handle_packet-Leaves}
use udpcast_rs.ReceiveData.Steps.{Leaves}
use udpcast_rs.ReceiveData.Loop.{
  Handled, skipped, handled, has_end, Config, Session, Poll, quiet, packet, Pass, Fate, goes_on,
  leaves, times_out, crashes, hangs, exit_wait, is_due, rearm, check_end, after_packet, idle,
  give_back, after_writer, turn, resumed, receive, pass, followed_by, run, send_disconnect,
}

-- Every slice's counter is right. While the end marker is not in there is no deadline, and afterwards
-- there is one, at least the wait after the last packet.
pub record IsArmed (c : Config) (s : Session) : Type 0 where
  pub tallied : AllTallied s.table
  pub unset : s.end_reached ≡ false → s.drain_deadline ≡ none
  pub armed :
      s.end_reached ≡ true
      → (d : ℕ) × (s.drain_deadline ≡ some d) × (s.last_activity + exit_wait c ≤ d)

-- What a run may come to: the loop is left only when the end marker is in and the wait since the
-- last packet is over, and the timeout ends the process only if one was asked for, after five rounds
-- of notifications.
unfoldable pub EndsWell : Config → Fate → Type 0
EndsWell c (goes_on s) = IsArmed c s
EndsWell c (leaves now s) =
    (s.end_reached ≡ true) × AllTallied s.table × (s.last_activity + exit_wait c ≤ now)
EndsWell c (times_out sent) =
    (0 < c.receive_timeout_secs) × (sent ≡ send_disconnect c.server_addr c.control_addr 5)
EndsWell c crashes = Unit
EndsWell c hangs = Unit

-- The clock does not go back within a pass.
unfoldable pub InOrder : Pass → Poll → Type 0
InOrder p (quiet now) = Unit
InOrder p (packet now n buf) = now ≤ p.bottom

unfoldable pub AllInOrder : List Pass → Type 0
AllInOrder [] = Unit
AllInOrder (p ∷ ps) = InOrder p p.poll × AllInOrder ps

rearm-IsArmed : (c : Config) (now : ℕ) (s : Session) → IsArmed c s → IsArmed c (rearm c now s)
unfolding rearm
rearm-IsArmed c now s a = record {
  tallied = a.tallied;
  unset = λ h. ground (arith, h, a.unset h);
  armed = λ h. (now + exit_wait c, ground (arith, h), omega arith);
}

check_end-IsArmed :
    (c : Config) (now : ℕ) (s : Session)
    → IsArmed c s
    → s.last_activity ≤ now
    → IsArmed c (check_end c now s)
unfolding check_end
check_end-IsArmed c now s a le = elim (Bool-cases (not s.end_reached && has_end s.table.slices)) [
  | inl e ↦ rw e (record {
    tallied = a.tallied;
    unset = λ h. ground (arith, h);
    armed = λ h. (now + exit_wait c, refl, omega (arith, le));
  })
  | inr e ↦ rw e a
]

with_table :
    (c : Config) (s : Session) (t : Table)
    → IsArmed c s
    → AllTallied t
    → IsArmed c (record s { table = t })
with_table c s t a h = record { tallied = h; unset = a.unset; armed = a.armed }

after_packet-EndsWell :
    (c : Config) (now : ℕ) (s : Session) (h : Handled)
    → IsArmed c s
    → s.last_activity ≤ now
    → HandledLeaves AllTallied h
    → EndsWell c (after_packet c now s h)
unfolding after_packet EndsWell HandledLeaves Leaves
after_packet-EndsWell c now s skipped a le k = a
after_packet-EndsWell c now s (handled panic) a le k = tt
after_packet-EndsWell c now s (handled blocked) a le k = tt
after_packet-EndsWell c now s (handled (next t)) a le k =
    check_end-IsArmed c now (record s { table = t }) (with_table c s t a k) le

idle-EndsWell : (c : Config) (now : ℕ) (s : Session) → IsArmed c s → EndsWell c (idle c now s)
unfolding idle EndsWell
idle-EndsWell c now s a =
    elim (Bool-cases (
      ltb 0 c.receive_timeout_secs
      && s.table.client.is_started
      && leb (c.receive_timeout_secs * 10 ^ 9) (now - s.last_activity))) [
        | inl e ↦ rw e (ground (arith, e), refl)
        | inr e ↦ rw e a
      ]

receive-EndsWell :
    (c : Config) (s : Session) (p : Pass) (poll : Poll)
    → IsArmed c s
    → InOrder p poll
    → EndsWell c (receive c s p poll)
unfolding receive InOrder rearm
receive-EndsWell c s p (quiet now) a o = idle-EndsWell c now s a
receive-EndsWell c s p (packet now n buf) a o =
    after_packet-EndsWell c p.bottom (rearm c now s) _ (rearm-IsArmed c now s a) o
      (handle_packet-Leaves c.block_size s.table p.wakeups n buf a.tallied)

turn-EndsWell :
    (c : Config) (s : Session) (p : Pass) → IsArmed c s → InOrder p p.poll → EndsWell c (turn c s p)
unfolding turn EndsWell
turn-EndsWell c s p a o = elim (Bool-cases (is_due p.top s.drain_deadline)) [
  | inr e ↦ rw e (receive-EndsWell c s p p.poll a o)
  | inl e ↦ rw e (elim (Bool-cases s.end_reached) [
    | inl h ↦ let (d, at, le) = a.armed h in (h, a.tallied, ground (arith, e, at, le))
    | inr h ↦ ground (arith, e, a.unset h)
  ])
]

-- The writer thread changes the queues only.
pub after_writer-same :
    (s s' : Session) (p : Pass)
    → after_writer s p ≡ some s'
    → (fifo : Fifo) × (record s { table = record s.table { fifo = fifo } } ≡ s')
unfolding after_writer
after_writer-same s s' p e = elim (Option-cases (give_back p.freed s.table.fifo.free_mem_queue)) [
  | inl n ↦ ground (arith, e, n)
  | inr (free, w) ↦ (_, some-injective _ _ (rw w at e))
]

pub after_writer-IsArmed :
    (c : Config) (s s' : Session) (p : Pass)
    → after_writer s p ≡ some s'
    → IsArmed c s
    → IsArmed c s'
after_writer-IsArmed c s s' p e a =
    let (fifo, same) = after_writer-same s s' p e in
    subst (IsArmed c) same (with_table c s (record s.table { fifo = fifo }) a a.tallied)

resumed-EndsWell :
    (c : Config) (p : Pass) (o : Option Session)
    → ((s : Session) → o ≡ some s → IsArmed c s)
    → InOrder p p.poll
    → EndsWell c (resumed c p o)
unfolding resumed EndsWell
resumed-EndsWell c p none a o = tt
resumed-EndsWell c p (some s) a o = turn-EndsWell c s p (a s refl) o

pub pass-EndsWell :
    (c : Config) (s : Session) (p : Pass) → IsArmed c s → InOrder p p.poll → EndsWell c (pass c s p)
unfolding pass
pass-EndsWell c s p a o =
    resumed-EndsWell c p (after_writer s p) (λ t e. after_writer-IsArmed c s t p e a) o

followed_by-EndsWell :
    (c : Config) (f : Fate) (more : Session → Fate)
    → EndsWell c f
    → ((s : Session) → IsArmed c s → EndsWell c (more s))
    → EndsWell c (followed_by f more)
unfolding followed_by EndsWell
followed_by-EndsWell c (goes_on s) more h k = k s h
followed_by-EndsWell c (leaves now s) more h k = h
followed_by-EndsWell c (times_out sent) more h k = h
followed_by-EndsWell c crashes more h k = h
followed_by-EndsWell c hangs more h k = h

-- The loop keeps a session's counters and deadline right, and ends as `EndsWell` says.
pub run-EndsWell :
    (c : Config) (s : Session) (ps : List Pass)
    → IsArmed c s
    → AllInOrder ps
    → EndsWell c (run c s ps)
unfolding run AllInOrder EndsWell
run-EndsWell c s [] a o = a
run-EndsWell c s (p ∷ ps) a (o, os) =
    followed_by-EndsWell c (pass c s p) (λ s'. run c s' ps) (pass-EndsWell c s p a o)
      (λ s' a'. run-EndsWell c s' ps a' os)
