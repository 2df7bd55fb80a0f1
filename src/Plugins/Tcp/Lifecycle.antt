-- ===== src/Plugins/Tcp/Lifecycle.antt =====
-- The TCP lifecycle only moves forward (advance of crates/pktflow-plugins/src/tcp.rs).
use pktflow.Prelude.{
  ℕ, ◌≤◌, ◌≡◌, ◌≢◌, refl, Bool, true, false, Option, none, some, ◌≟◌, string_eq, String-discrete,
  ◌&&◌, leb, leb→le, arith, if◌then◌else◌, Bool-cases, inl, inr,
}
use pktflow.Core.Value
use pktflow.Core.Value.{Value, FieldMap, bytes, u64, i64, bool, str, list}
use pktflow.Core.Stream.{PacketDirection, StateName}
use pktflow.Plugins.Tcp.{tcp_advance, tcp_transition, tcp_step, bit}

-- The stages of a session, in their order.
unfoldable pub stage : StateName → ℕ
stage s =
    if s ≟ "reset"
    then 6
    else if s ≟ "closed"
    then 5
    else if s ≟ "closing"
    then 4
    else if (s ≟ "established")
    then 3
    else if s ≟ "established_midstream"
    then 3
    else if s ≟ "syn_received"
    then 2
    else if s ≟ "syn_sent"
    then 1
    else 0

-- A test of all eight settings of the three flags.
abbrev every : (Bool → Bool → Bool → Bool) → Bool
every f =
    f true true true
    && f true true false
    && f true false true
    && f true false false
    && f false true true
    && f false true false
    && f false false true
    && f false false false

every_lem : (f : Bool → Bool → Bool → Bool) (a b c : Bool) → every f ≡ true → f a b c ≡ true
every_lem f true true true h = ground arith
every_lem f true true false h = ground arith
every_lem f true false true h = ground arith
every_lem f true false false h = ground arith
every_lem f false true true h = ground arith
every_lem f false true false h = ground arith
every_lem f false false true h = ground arith
every_lem f false false false h = ground arith

abbrev forward : StateName → Bool → Bool → Bool → Bool
forward s syn ack fin = leb (stage s) (stage (tcp_transition s syn ack fin))

every-forward :
    (s : StateName)
    → every (forward s) ≡ true
    → (syn ack fin : Bool) → stage s ≤ stage (tcp_transition s syn ack fin)
every-forward s h syn ack fin =
    leb→le (stage s) (stage (tcp_transition s syn ack fin)) (every_lem (forward s) syn ack fin h)

stage_le : (s : StateName) → stage s ≤ 6
unfolding stage
stage_le s = ground arith

-- A state without transitions of its own.
other_state :
    (s : StateName) (syn ack fin : Bool)
    → s ≢ "new"
    → s ≢ "syn_sent"
    → s ≢ "syn_received"
    → s ≢ "established"
    → s ≢ "established_midstream"
    → s ≢ "closing"
    → stage s ≤ stage (tcp_transition s syn ack fin)
unfolding tcp_transition
other_state s syn ack fin a b c d e f = ground arith

tcp_transition-stage :
    (s : StateName) (syn ack fin : Bool) → stage s ≤ stage (tcp_transition s syn ack fin)
unfolding stage tcp_transition String-discrete Bool-cases
tcp_transition-stage s syn ack fin = elim (String-discrete s "new") [
  | yes p ↦ rw p (every-forward "new" refl syn ack fin)
  | no not_new ↦ elim (String-discrete s "syn_sent") [
    | yes p ↦ rw p (every-forward "syn_sent" refl syn ack fin)
    | no not_syn_sent ↦ elim (String-discrete s "syn_received") [
      | yes p ↦ rw p (every-forward "syn_received" refl syn ack fin)
      | no not_syn_received ↦ elim (String-discrete s "established") [
        | yes p ↦ rw p (every-forward "established" refl syn ack fin)
        | no not_established ↦ elim (String-discrete s "established_midstream") [
          | yes p ↦ rw p (every-forward "established_midstream" refl syn ack fin)
          | no not_established_midstream ↦ elim (String-discrete s "closing") [
            | yes p ↦ rw p (every-forward "closing" refl syn ack fin)
            | no not_closing ↦
                other_state s syn ack fin not_new not_syn_sent not_syn_received not_established
                  not_established_midstream not_closing
          ]
        ]
      ]
    ]
  ]
]

le_self : (n : ℕ) → n ≤ n
le_self n = omega arith

tcp_step-stage : (v : Option Value) (s : StateName) → stage s ≤ stage (tcp_step v s)
unfolding stage String-discrete Bool-cases
tcp_step-stage none s = le_self (stage s)
tcp_step-stage (some (bytes b)) s = le_self (stage s)
tcp_step-stage (some (i64 n)) s = le_self (stage s)
tcp_step-stage (some (bool b)) s = le_self (stage s)
tcp_step-stage (some (str b)) s = le_self (stage s)
tcp_step-stage (some (list vs)) s = le_self (stage s)
tcp_step-stage (some (u64 flags)) s = elim (Bool-cases (bit flags 2)) [
  | inl e ↦ rw e (stage_le s)
  | inr e ↦ rw e (tcp_transition-stage s (bit flags 1) (bit flags 4) (bit flags 0))
]

-- A session only moves forward: no packet takes it to an earlier stage, whatever its state is and
-- whatever the packet's fields are. The stages are new, syn_sent, syn_received, established (also
-- midstream), closing, closed and reset.
pub tcp_advance-stage :
    (fields : FieldMap) (s : StateName) (dir : PacketDirection)
    → stage s ≤ stage (tcp_advance fields s dir)
unfolding tcp_advance
tcp_advance-stage fields s dir = tcp_step-stage (Value.get fields "flags") s
