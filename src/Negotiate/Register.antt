-- ===== src/Negotiate/Register.antt =====
-- What the datagrams of the receivers do to the table, whatever they hold.
use mathlib.Core.Option.{some-injective}
use udpcast_rs.Base.{
  ℕ, ◌≤◌, ◌≡◌, refl, sym, ap, ◌∙◌, subst, arith, Bool, false, ◌==◌, Option, some, [], ◌∷◌, Bytes,
  length, bit_and, bit_or, bit_and_eight, eight_bit_or, u16_at, u16_at_within, u32_at_within, inl,
  inr, Bool-cases, Option-cases, if◌then◌else◌, ltb, be32,
}
use udpcast_rs.Protocol.{cmd_connect_req, cmd_go, cmd_disconnect, ConnectReq, cap_big_endian}
use udpcast_rs.Protocol.Pack.{ip4_into_16, unpack_connect_req}
use udpcast_rs.Participants.{SocketAddrV4, ParticipantsDb, add_participant, lookup_participant}
use udpcast_rs.Participants.Outcome.{existing, refused, claims, add_participant-cases}
use udpcast_rs.Participants.Members.{lookup-add_participant}
use udpcast_rs.Participants.Invariant.{IsValid, add_participant-IsValid, remove_participant-IsValid}
use udpcast_rs.SendData.{has}
use udpcast_rs.Negotiate.{
  StartConfig, reply, cl_nr_of, Handled, send_connection_reply, handle_connect_req, leave,
  handle_opcode, handle_receiver_msg, flag_pointopoint, connect_req_size,
}

unpack_within :
    (buf : Bytes) → 12 ≤ length buf → (req : ConnectReq) × (unpack_connect_req buf ≡ some req)
unfolding unpack_connect_req
unpack_within buf h =
    let (c, e) = u32_at_within buf 4 (omega arith) in
    let (r, e') = u32_at_within buf 8 (omega arith) in
    (record { capabilities = c; rcvbuf = r }, rw (e, e') refl)

-- The sender adds its own endianness to what a receiver announces, so it never refuses one.
own_endianness : (c : ℕ) → bit_and (bit_or cap_big_endian c) cap_big_endian ≡ 8
own_endianness c = omega (arith, bit_and_eight (bit_or 8 c), eight_bit_or c)

module _ (from : SocketAddrV4) (db : ParticipantsDb) (config : StartConfig) where
  -- A result that is there, with a valid table if the one before was valid.
  abbrev pub Answers : Option Handled → Type 0
  Answers r = (h : Handled) × (r ≡ some h) × (IsValid db → IsValid h.db)

  -- What a CONNECT_REQ leaves.
  welcome : ConnectReq → Handled
  welcome req =
      let added =
        add_participant db from (bit_or cap_big_endian req.capabilities)
          (if req.rcvbuf == 0 then 65536 else req.rcvbuf) (has config.flags flag_pointopoint) in
      record {
        starts = false;
        db = added.1;
        sent =
            reply from record {
              cl_nr = cl_nr_of added.0;
              block_size = config.block_size;
              capabilities = config.capabilities;
              mcast = ip4_into_16 (be32 config.data_mcast_addr.ip);
            }
            ∷ [];
      }

  connect_req-Answers :
      (buf : Bytes) → 12 ≤ length buf → Answers (handle_connect_req buf from db config)
  unfolding handle_connect_req send_connection_reply welcome
  connect_req-Answers buf l =
      let (req, e) = unpack_within buf l in
      (
        welcome req,
        rw (e, own_endianness req.capabilities) refl,
        λ v.
            add_participant-IsValid db from (bit_or cap_big_endian req.capabilities)
              (if req.rcvbuf == 0 then 65536 else req.rcvbuf) (has config.flags flag_pointopoint) v,
      )

  -- The index that the addition gives is the one under which the address is found.
  added_found :
      (c r : ℕ) (p : Bool)
      → IsValid db
      → lookup_participant (add_participant db from c r p).1 from
        ≡ (add_participant db from c r p).0
  added_found c r p v = elim (add_participant-cases db from c r p) [
    | existing i e q ↦ rw q e
    | refused e f q ↦ rw q e
    | claims i e free q ↦
        (lookup-add_participant db from c r p i v (ap (λ o. o.0) q)).0 ∙ sym (ap (λ o. o.0) q)
  ]

  -- With a valid table, a CONNECT_REQ of at least 12 bytes starts no transfer and is answered with
  -- one CONNECT_REPLY to its sender, which holds the index under which the table then finds that
  -- address, or -1 if it does not find it, and the sender's block size, capabilities and multicast
  -- address.
  pub connect_req-reply :
      (buf : Bytes) (h : Handled)
      → IsValid db
      → 12 ≤ length buf
      → u16_at buf 0 ≡ some cmd_connect_req
      → handle_receiver_msg buf from db config ≡ some h
      → (h.starts ≡ false)
        × (h.sent
            ≡ reply from record {
              cl_nr = cl_nr_of (lookup_participant h.db from);
              block_size = config.block_size;
              capabilities = config.capabilities;
              mcast = ip4_into_16 (be32 config.data_mcast_addr.ip);
            }
              ∷ [])
  unfolding handle_receiver_msg handle_opcode handle_connect_req send_connection_reply welcome
  connect_req-reply buf h v l op e =
      let (req, u) = unpack_within buf l in
      let long : ltb (length buf) 4 ≡ false = ground (arith, l) in
      let whole : ltb (length buf) connect_req_size ≡ false = ground (arith, l) in
      let same : h ≡ welcome req =
        some-injective _ _
          (sym e ∙ rw (long, op, whole, u, own_endianness req.capabilities) refl) in
      (
        ap (λ (g : Handled). g.starts) same,
        subst
            (λ (g : Handled).
              g.sent
              ≡ reply from record {
                cl_nr = cl_nr_of (lookup_participant g.db from);
                block_size = config.block_size;
                capabilities = config.capabilities;
                mcast = ip4_into_16 (be32 config.data_mcast_addr.ip);
              }
                ∷ [])
            (sym same)
            (rw
              (added_found (bit_or cap_big_endian req.capabilities)
                (if req.rcvbuf == 0 then 65536 else req.rcvbuf) (has config.flags flag_pointopoint)
                v)
              refl),
      )

  leave-IsValid : IsValid db → IsValid (leave from db)
  unfolding leave
  leave-IsValid v = elim (Option-cases (lookup_participant db from)) [
    | inl e ↦ rw (e, leave) v
    | inr (i, e) ↦ rw (e, leave) (remove_participant-IsValid db i v)
  ]

  handle_opcode-Answers :
      (opcode : ℕ) (buf : Bytes) → Answers (handle_opcode opcode buf from db config)
  unfolding handle_opcode
  handle_opcode-Answers opcode buf = elim (Bool-cases (opcode == cmd_connect_req)) [
    | inl e ↦ rw e (elim (Bool-cases (ltb (length buf) connect_req_size)) [
      | inl f ↦ rw f (_, refl, λ v. v)
      | inr f ↦ rw f (connect_req-Answers buf (ground (arith, f)))
    ])
    | inr e ↦ rw e (elim (Bool-cases (opcode == cmd_go)) [
      | inl f ↦ rw f (_, refl, λ v. v)
      | inr f ↦ rw f (elim (Bool-cases (opcode == cmd_disconnect)) [
        | inl g ↦ rw g (_, refl, leave-IsValid)
        | inr g ↦ rw g (_, refl, λ v. v)
      ])
    ])
  ]

  pub handle_receiver_msg-Answers : (buf : Bytes) → Answers (handle_receiver_msg buf from db config)
  unfolding handle_receiver_msg
  handle_receiver_msg-Answers buf = elim (Bool-cases (ltb (length buf) 4)) [
    | inl e ↦ rw e (_, refl, λ v. v)
    | inr e ↦
        let (opcode, f) = u16_at_within buf 0 (ground (arith, e)) in
        rw (e, f) (handle_opcode-Answers opcode buf)
  ]

-- With a valid table, no datagram of a receiver, whatever its bytes and length, ends the process,
-- and the table that it leaves is valid.
pub handle_receiver_msg-IsValid :
    (from : SocketAddrV4) (db : ParticipantsDb) (config : StartConfig) (buf : Bytes)
    → IsValid db
    → (h : Handled) × (handle_receiver_msg buf from db config ≡ some h) × IsValid h.db
handle_receiver_msg-IsValid from db config buf v =
    let (h, e, k) = handle_receiver_msg-Answers from db config buf in (h, e, k v)
