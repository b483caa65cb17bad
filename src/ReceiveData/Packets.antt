-- ===== src/ReceiveData/Packets.antt =====
-- What a datagram does to the counters of the receiver's slices.
use udpcast_rs.Base.{
  ℕ, Option, some, none, List, Bytes, ltb, ◌==◌, ◌||◌, Bool-cases, Option-cases, inl, inr, u16_at,
  take, drop, ◌-◌,
}
use udpcast_rs.Produconsum.{Wakeup}
use udpcast_rs.Protocol.{cmd_data, cmd_fec, cmd_reqack, cmd_connect_reply, is_hello}
use udpcast_rs.Protocol.Pack.{unpack_data_block, unpack_fec_block, unpack_reqack}
use udpcast_rs.ReceiveData.Table.{Table, Step}
use udpcast_rs.ReceiveData.Tallies.{AllTallied}
use udpcast_rs.ReceiveData.Steps.{
  Leaves, process_data_block-Leaves, process_fec_block-Leaves, process_reqack-Leaves,
}
use udpcast_rs.ReceiveData.Loop.{
  Handled, skipped, handled, started, with_message, dispatch, handle_packet,
}

-- What holds of the table after a datagram.
unfoldable pub HandledLeaves : (Table → Type 0) → Handled → Type 0
HandledLeaves P skipped = Unit
HandledLeaves P (handled s) = Leaves P s

with_message-Leaves :
    {M : Type 0} (n : ℕ) (unpacked : Option M) (process : M → Step)
    → ((msg : M) → Leaves AllTallied (process msg))
    → HandledLeaves AllTallied (with_message n unpacked process)
unfolding with_message HandledLeaves Leaves
with_message-Leaves n none process h = elim (Bool-cases (ltb n 16)) [
  | inl e ↦ rw e tt
  | inr e ↦ rw e tt
]
with_message-Leaves n (some msg) process h = elim (Bool-cases (ltb n 16)) [
  | inl e ↦ rw e tt
  | inr e ↦ rw e (h msg)
]

dispatch-Leaves :
    (block_size : ℕ) (t : Table) (wakeups : List Wakeup) (n : ℕ) (buf : Bytes) (opcode : ℕ)
    → AllTallied t
    → HandledLeaves AllTallied (dispatch block_size t wakeups n buf opcode)
unfolding dispatch HandledLeaves Leaves
dispatch-Leaves block_size t wakeups n buf opcode a = elim (Bool-cases (opcode == cmd_data)) [
  | inl e ↦ rw e (
      with_message-Leaves n (unpack_data_block buf) _ (λ msg.
        process_data_block-Leaves block_size (started t) wakeups msg (take (n - 16) (drop 16 buf))
          a))
  | inr e ↦ elim (Bool-cases (opcode == cmd_fec)) [
    | inl f ↦
        rw (e, f)
          (with_message-Leaves n (unpack_fec_block buf) _ (λ msg.
            process_fec_block-Leaves block_size (started t) wakeups msg
              (take (n - 16) (drop 16 buf)) a))
    | inr f ↦ elim (Bool-cases (opcode == cmd_reqack)) [
      | inl g ↦
          rw (e, f, g)
            (with_message-Leaves n (unpack_reqack buf) _
              (λ msg. process_reqack-Leaves block_size (started t) wakeups msg a))
      | inr g ↦ elim (Bool-cases (is_hello opcode || opcode == cmd_connect_reply)) [
        | inl h ↦ rw (e, f, g, h) tt
        | inr h ↦ rw (e, f, g, h) a
      ]
    ]
  ]
]

pub handle_packet-Leaves :
    (block_size : ℕ) (t : Table) (wakeups : List Wakeup) (n : ℕ) (buf : Bytes)
    → AllTallied t
    → HandledLeaves AllTallied (handle_packet block_size t wakeups n buf)
unfolding handle_packet HandledLeaves Leaves
handle_packet-Leaves block_size t wakeups n buf a = elim (Bool-cases (ltb n 4)) [
  | inl e ↦ rw e tt
  | inr e ↦ elim (Option-cases (u16_at buf 0)) [
    | inl h ↦ rw (e, h) tt
    | inr (opcode, h) ↦ rw (e, h) (dispatch-Leaves block_size t wakeups n buf opcode a)
  ]
]
