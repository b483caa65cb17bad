-- ===== src/Connect/Safety.antt =====
-- How the loop before a transfer can end.
use udpcast_rs.Base.{
  ◌⊎◌, inl, inr, ◌≢◌, ℕ, ◌-◌, ◌^◌, ◌<◌, ◌≤◌, ◌≡◌, refl, arith, true, false, not, ◌||◌, ◌&&◌, ◌==◌,
  some, List, [], ◌∷◌, Bytes, subst, ◌*◌, length, ltb, leb, Bool-cases, u16_at_within, bit_and,
}
use udpcast_rs.Protocol.{
  Hello, cmd_connect_reply, cmd_connect_req, cmd_reqack, cmd_data, cmd_fec, is_hello, cap_new_gen,
}
use udpcast_rs.SendData.{has}
use udpcast_rs.Connect.{
  Late, Setup, Joining, Arrival, Wait, quiet, arrived, Round, Result, goes_on, connected, no_sender,
  too_many_clients, bad_reply, crashes, sender_port, flag_passive, ask, seen_slice, see, take_reply,
  re_aim, answer_hello, take_hello, hear_hello, invited, hello, by_opcode, take_arrival, give_up,
  after_wait, round, or_else, join,
}
use udpcast_rs.Connect.Noting.{NoTwice, note-NoTwice}
use udpcast_rs.Connect.Unpacking.{
  unpack_connect_reply_within, unpack_hello_within, unpack_reqack_within, unpack_data_block_within,
  unpack_fec_block_within,
}

-- The receiver is passive, or it has a number and the address of a sender.
abbrev pub HasSender : Setup → Joining → Type 0
HasSender c s =
    (has s.flags flag_passive ≡ true)
    ⊎ (s.client_number ≢ 2 ^ 32 - 1) × (s.server_addr.port ≡ sender_port c.port_base)

-- Whatever comes, the list of slices has each number once, and the loop does not panic. A receiver
-- is connected with a sender or passive, and it gives up only if a start timeout was asked for.
unfoldable pub IsSafe : Setup → Result → Type 0
IsSafe c (goes_on s) = NoTwice s.late_slices
IsSafe c (connected s) = NoTwice s.late_slices × HasSender c s
IsSafe c (no_sender sent) = 0 < c.start_timeout
IsSafe c too_many_clients = Unit
IsSafe c bad_reply = Unit
IsSafe c crashes = ⊥

-- A buffer has room for the largest message, as the 4096 bytes of the code have.
unfoldable pub IsRoomy : Wait → Type 0
IsRoomy (quiet now) = Unit
IsRoomy (arrived a) = 32 ≤ length a.buf

unfoldable pub AllRoomy : List Round → Type 0
AllRoomy [] = Unit
AllRoomy (r ∷ rs) = IsRoomy r.wait × AllRoomy rs

seen_slice_within :
    (opcode : ℕ) (buf : Bytes) → 32 ≤ length buf → (l : Late) × (seen_slice opcode buf ≡ some l)
unfolding seen_slice
seen_slice_within opcode buf h =
    let (a, ea) = unpack_reqack_within buf h in
    let (b, eb) = unpack_data_block_within buf h in
    let (d, ed) = unpack_fec_block_within buf h in
    elim (Bool-cases (opcode == cmd_reqack)) [
      | inl e ↦
          (record { slice_no = a.slice_no; bytes = a.bytes; rxmit = a.rxmit }, rw (e, ea) refl)
      | inr e ↦ elim (Bool-cases (opcode == cmd_data)) [
        | inl f ↦ (record { slice_no = b.slice_no; bytes = b.bytes; rxmit = 0 }, rw (e, f, eb) refl)
        | inr f ↦ (record { slice_no = d.slice_no; bytes = d.bytes; rxmit = 0 }, rw (e, f, ed) refl)
      ]
    ]

module _ (c : Setup) where
  see-IsSafe :
      (opcode : ℕ) (buf : Bytes) (s : Joining)
      → 32 ≤ length buf
      → NoTwice s.late_slices
      → IsSafe c (see opcode buf s)
  unfolding see IsSafe
  see-IsSafe opcode buf s h k =
      let (l, e) = seen_slice_within opcode buf h in
      elim (Bool-cases (ltb l.slice_no (2 ^ 31))) [
        | inl lt ↦ rw (e, lt, see) (note-NoTwice l s.late_slices (ground (arith, lt)) k)
        | inr ge ↦ rw (e, ge, see) k
      ]

  take_reply-IsSafe :
      (a : Arrival) (s : Joining)
      → 32 ≤ length a.buf
      → a.from.port ≡ sender_port c.port_base
      → NoTwice s.late_slices
      → IsSafe c (take_reply a s)
  unfolding take_reply IsSafe
  take_reply-IsSafe a s h p k =
      let (m, e) = unpack_connect_reply_within a.buf h in
      elim (Bool-cases (m.cl_nr == 2 ^ 32 - 1)) [
        | inl many ↦ rw (e, many, take_reply) tt
        | inr few ↦ rw (e, few, take_reply) (k, inr (ground (arith, few), p))
      ]

  answer_hello-IsSafe :
      (a : Arrival) (s : Joining) → NoTwice s.late_slices → IsSafe c (goes_on (answer_hello a s))
  unfolding answer_hello re_aim IsSafe
  answer_hello-IsSafe a s k = subst NoTwice (ground arith) k

  hear_hello-IsSafe :
      (a : Arrival) (h : Hello) (s : Joining) → NoTwice s.late_slices → IsSafe c (hear_hello a h s)
  unfolding hear_hello
  hear_hello-IsSafe a h s k = elim (Bool-cases (bit_and h.capabilities cap_new_gen == 0)) [
    | inl old ↦ rw old (answer_hello-IsSafe a s k)
    | inr new ↦ elim (Bool-cases (has (take_hello h s).flags flag_passive)) [
      | inl p ↦ rw (new, p) (unfold IsSafe take_hello in (k, inl (unfold take_hello in p)))
      | inr n ↦ rw (new, n) (answer_hello-IsSafe a (take_hello h s) (unfold take_hello in k))
    ]
  ]

  hello-IsSafe :
      (opcode : ℕ) (a : Arrival) (s : Joining)
      → 32 ≤ length a.buf
      → NoTwice s.late_slices
      → IsSafe c (hello opcode a s)
  unfolding hello invited
  hello-IsSafe opcode a s h k =
      let (m, e) = unpack_hello_within a.buf h in
      elim (Bool-cases (ltb a.msglen 28)) [
        | inl short ↦ rw short (answer_hello-IsSafe a (invited opcode s) k)
        | inr long ↦ rw (long, e) (hear_hello-IsSafe a m (invited opcode s) k)
      ]

  by_opcode-IsSafe :
      (opcode : ℕ) (a : Arrival) (s : Joining)
      → 32 ≤ length a.buf
      → a.from.port ≡ sender_port c.port_base
      → NoTwice s.late_slices
      → IsSafe c (by_opcode opcode a s)
  unfolding by_opcode IsSafe
  by_opcode-IsSafe opcode a s h p k = elim (Bool-cases (opcode == cmd_connect_reply)) [
    | inl e ↦ elim (Bool-cases (ltb a.msglen 32)) [
      | inl short ↦ rw (e, short) k
      | inr long ↦ rw (e, long) (take_reply-IsSafe a s h p k)
    ]
    | inr e ↦ elim (Bool-cases (is_hello opcode)) [
      | inl f ↦ rw (e, f) (hello-IsSafe opcode a s h k)
      | inr f ↦ elim (Bool-cases (opcode == cmd_connect_req)) [
        | inl g ↦ rw (e, f, g) k
        | inr g ↦
            elim (Bool-cases (opcode == cmd_reqack || opcode == cmd_data || opcode == cmd_fec)) [
              | inl d ↦ rw (e, f, g, d) (see-IsSafe opcode a.buf s h k)
              | inr d ↦ rw (e, f, g, d) tt
            ]
      ]
    ]
  ]

  take_arrival-IsSafe :
      (a : Arrival) (s : Joining)
      → 32 ≤ length a.buf
      → NoTwice s.late_slices
      → IsSafe c (take_arrival c a s)
  unfolding take_arrival IsSafe
  take_arrival-IsSafe a s h k =
      let (opcode, e) = u16_at_within a.buf 0 (omega (arith, h)) in
      elim (Bool-cases (not (a.from.port == sender_port c.port_base) || ltb a.msglen 4)) [
        | inl skip ↦ rw skip k
        | inr take ↦ rw (take, e) (by_opcode-IsSafe opcode a s h (ground (arith, take)) k)
      ]

  give_up-IsSafe : (now : ℕ) (s : Joining) → NoTwice s.late_slices → IsSafe c (give_up c now s)
  unfolding give_up IsSafe
  give_up-IsSafe now s k =
      elim (Bool-cases
        (ltb 0 c.start_timeout && leb (c.start_timeout * 10 ^ 9) (now - s.last_activity))) [
          | inl e ↦ rw e (ground (arith, e))
          | inr e ↦ rw e k
        ]

  after_wait-IsSafe :
      (w : Wait) (s : Joining) → IsRoomy w → NoTwice s.late_slices → IsSafe c (after_wait c w s)
  unfolding after_wait IsRoomy
  after_wait-IsSafe (quiet now) s h k = give_up-IsSafe now s k
  after_wait-IsSafe (arrived a) s h k =
      take_arrival-IsSafe a (record s { last_activity = a.now }) h k

  round-IsSafe :
      (s : Joining) (r : Round) → IsRoomy r.wait → NoTwice s.late_slices → IsSafe c (round c s r)
  unfolding round ask
  round-IsSafe s r h k =
      after_wait-IsSafe r.wait (record (ask c r s) { have_server_address = false }) h
        (subst NoTwice (ground arith) k)

  or_else-IsSafe :
      (r : Result) (more : Joining → Result)
      → IsSafe c r
      → ((s : Joining) → NoTwice s.late_slices → IsSafe c (more s))
      → IsSafe c (or_else r more)
  unfolding or_else IsSafe
  or_else-IsSafe (goes_on s) more h k = k s h
  or_else-IsSafe (connected s) more h k = h
  or_else-IsSafe (no_sender sent) more h k = h
  or_else-IsSafe too_many_clients more h k = h
  or_else-IsSafe bad_reply more h k = h
  or_else-IsSafe crashes more h k = h

  -- Before a transfer, let the list of slices that went by have no number twice and none negative,
  -- and let every datagram come in a buffer of at least 32 bytes. After any rounds of the loop the
  -- list is still so, and no datagram, whatever it holds, makes the loop panic. If the receiver is
  -- connected, it is passive, or it has a number other than -1 and the address of a sender's port;
  -- it gives up only if a start timeout was asked for.
  pub join-IsSafe :
      (s : Joining) (rs : List Round) → AllRoomy rs → NoTwice s.late_slices → IsSafe c (join c s rs)
  unfolding join AllRoomy
  join-IsSafe s [] o k = unfold IsSafe in k
  join-IsSafe s (r ∷ rs) (o, os) k =
      or_else-IsSafe (round c s r) (λ s'. join c s' rs) (round-IsSafe s r o k)
        (λ s' k'. join-IsSafe s' rs os k')
