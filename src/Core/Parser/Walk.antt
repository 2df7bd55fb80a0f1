-- ===== src/Core/Parser/Walk.antt =====
-- The walk of crates/pktflow-core/src/parser.rs ends, its layers tile the packet from its first
-- byte, and their number is bounded.
use pktflow.Prelude.{
  ℕ, zero, suc, ◌+◌, ◌-◌, ◌≤◌, ◌<◌, ◌≡◌, refl, ap, ◌∙◌, ◌⊎◌, List, Option, none, some, length, leb,
  arith, Option-cases, Bool-cases, inl, inr, string_eq,
}
use mathlib.Core.Path.{subst}
use pktflow.Core.Route.{route_id_eq}
use pktflow.Core.Error.{StopReason}
use pktflow.Core.Packet.{ProtocolName, PacketMeta, DissectedPacket}
use pktflow.Core.Plugin.{Plugin, ParseOpts}
use pktflow.Core.Engine.{Engine, plugin_by_name}
use pktflow.Core.Parser.{LayerIter, LayerStep, start, layers, next, drain, into_packet, dissect}
use pktflow.Core.Parser.Steps.{
  Tiles, IsWalking, start-IsWalking, resolve-IsWalking, Steps, next-Steps,
}

-- A call of `next` keeps the layers tiling the packet up to the cursor, the cursor inside the
-- packet, and the number of layers within the cap.
pub next-IsWalking : (it : LayerIter) → IsWalking it → IsWalking (next it).1
unfolding next
next-IsWalking it w = elim (Option-cases it.stop_reason) [
  | inr (reason, done) ↦ rw (done, next) w
  | inl open_ended ↦ elim (Bool-cases (leb it.opts.max_layers (length it.records))) [
    | inl full ↦
        rw (open_ended, full, next)
          (record { tiled = w.tiled; inside = w.inside; capped = w.capped })
    | inr room ↦ rw (open_ended, room, next) (resolve-IsWalking it w (ground arith))
  ]
]

drain-IsWalking : (fuel : ℕ) (it : LayerIter) → IsWalking it → IsWalking (drain fuel it)
unfolding drain
drain-IsWalking zero it w = w
drain-IsWalking (suc fuel) it w = elim (Option-cases (next it).0) [
  | inl ended ↦ rw (ended, drain) (next-IsWalking it w)
  | inr (s, more) ↦ rw (more, drain) (drain-IsWalking fuel (next it).1 (next-IsWalking it w))
]

Steps-ended :
    (it : LayerIter) (r : Option LayerStep × LayerIter)
    → Steps it r
    → r.0 ≡ none
    → Steps it (none, r.1)
Steps-ended it (none, it') s h = s
Steps-ended it (some x, it') s h = cc

Steps-more :
    (it : LayerIter) (r : Option LayerStep × LayerIter) (x : LayerStep)
    → Steps it r
    → r.0 ≡ some x
    → Steps it (some x, r.1)
Steps-more it (none, it') x s h = cc
Steps-more it (some y, it') x s h = s

-- Fuel for the layers that still fit, and one more call, ends the walk.
drain_stops :
    (fuel : ℕ) (it : LayerIter)
    → IsWalking it
    → it.opts.max_layers < fuel + length it.records
    → ((reason : StopReason) × ((drain fuel it).stop_reason ≡ some reason))
      × ((drain fuel it).bytes ≡ it.bytes)
      × ((drain fuel it).opts ≡ it.opts)
unfolding drain
drain_stops zero it w enough = absurd (omega (arith, w.capped))
drain_stops (suc fuel) it w enough = elim (Option-cases (next it).0) [
  | inl ended ↦
      let (b, o, r) = Steps-ended it (next it) (next-Steps it) ended in rw (ended, drain) (r, b, o)
  | inr (s, more) ↦
      let (b, o, l) = Steps-more it (next it) s (next-Steps it) more in
      let grown : (next it).1.opts.max_layers < fuel + length (next it).1.records =
        rw o (omega arith) in
      let (r, b', o') = drain_stops fuel (next it).1 (next-IsWalking it w) grown in
      rw (more, drain) (r, b' ∙ b, o' ∙ o)
]

-- What a caller can rely on in a dissected packet.
pub record IsDissection (it : LayerIter) (p : DissectedPacket) : Type 0 where
  pub ended : (drain (suc it.opts.max_layers) it).stop_reason ≡ some p.stop
  pub tiled : Tiles 0 p.layers (length it.bytes - p.opaque_len)
  pub within : p.opaque_len ≤ length it.bytes
  pub capped : length p.layers ≤ it.opts.max_layers

into_packet-IsDissection :
    (it : LayerIter) (meta : PacketMeta) → IsWalking it → IsDissection it (into_packet it meta)
unfolding into_packet
into_packet-IsDissection it meta w =
    let done = drain (suc it.opts.max_layers) it in
    let ((reason, r), b, o) = drain_stops (suc it.opts.max_layers) it w (omega arith) in
    let d = drain-IsWalking (suc it.opts.max_layers) it w in
    let end : done.cursor ≡ length it.bytes - (length done.bytes - done.cursor) =
      omega (arith, ap length b, d.inside) in
    record {
      ended = ground (arith, r);
      tiled = subst (Tiles 0 done.records) end d.tiled;
      within = omega (arith, ap length b, d.inside);
      capped = omega (arith, ap (λ (p : ParseOpts). p.max_layers) o, d.capped);
    }

-- The caller forces no entry, or one that a plugin is registered under.
pub EntryExists : Engine → ParseOpts → Type 0
EntryExists e opts =
    (opts.entry ≡ none)
    ⊎ ((name : ProtocolName) × (plugin : Plugin) × (opts.entry ≡ some name)
        × (plugin_by_name e name ≡ some plugin))

-- The caller forces an entry that no plugin is registered under.
pub EntryMissing : Engine → ParseOpts → Type 0
EntryMissing e opts =
    (name : ProtocolName) × (opts.entry ≡ some name) × (plugin_by_name e name ≡ none)

-- What `dissect` answers, `none` for a panic.
pub DissectAnswer : Engine → List ℕ → PacketMeta → ParseOpts → Option DissectedPacket → Type 0
DissectAnswer e bytes meta opts none = EntryMissing e opts
DissectAnswer e bytes meta opts (some p) =
    EntryExists e opts
    × (p.meta ≡ meta)
    × ((start e bytes meta opts).bytes ≡ bytes)
    × ((start e bytes meta opts).opts ≡ opts)
    × IsDissection (start e bytes meta opts) p

start-DissectAnswer :
    (e : Engine) (bytes : List ℕ) (meta : PacketMeta) (opts : ParseOpts)
    → EntryExists e opts
    → DissectAnswer e bytes meta opts (some (into_packet (start e bytes meta opts) meta))
unfolding DissectAnswer
start-DissectAnswer e bytes meta opts exists = (
  exists,
  unfold into_packet in refl,
  unfold start in refl,
  unfold start in refl,
  into_packet-IsDissection (start e bytes meta opts) meta (start-IsWalking e bytes meta opts),
)

dissect_unforced :
    (e : Engine) (bytes : List ℕ) (meta : PacketMeta) (opts : ParseOpts)
    → opts.entry ≡ none
    → dissect e bytes meta opts ≡ some (into_packet (start e bytes meta opts) meta)
unfolding dissect layers
dissect_unforced e bytes meta opts free = ground arith

dissect_forced :
    (e : Engine) (bytes : List ℕ) (meta : PacketMeta) (opts : ParseOpts) (name : ProtocolName)
    (plugin : Plugin)
    → opts.entry ≡ some name
    → plugin_by_name e name ≡ some plugin
    → dissect e bytes meta opts ≡ some (into_packet (start e bytes meta opts) meta)
unfolding dissect layers
dissect_forced e bytes meta opts name plugin forced found = ground arith

dissect_missing :
    (e : Engine) (bytes : List ℕ) (meta : PacketMeta) (opts : ParseOpts) (name : ProtocolName)
    → opts.entry ≡ some name
    → plugin_by_name e name ≡ none
    → dissect e bytes meta opts ≡ none
unfolding dissect layers
dissect_missing e bytes meta opts name forced missing = ground arith

-- A dissection panics only where the caller forces an entry that no plugin is registered under, and
-- returns a packet only where the forced entry, if any, is registered; as these exclude each other,
-- both hold the other way round too. The packet has the metadata of the call. Its walk has come to a
-- stop, for the reason it reports; its layers lie one behind the other from the first byte on, and
-- all bytes behind them are counted as opaque; no more layers than the cap are parsed.
pub dissect-IsDissection :
    (e : Engine) (bytes : List ℕ) (meta : PacketMeta) (opts : ParseOpts)
    → DissectAnswer e bytes meta opts (dissect e bytes meta opts)
unfolding DissectAnswer EntryExists EntryMissing
dissect-IsDissection e bytes meta opts = elim (Option-cases opts.entry) [
  | inl free ↦
      rw (dissect_unforced e bytes meta opts free)
        (start-DissectAnswer e bytes meta opts (inl free))
  | inr (name, forced) ↦ elim (Option-cases (plugin_by_name e name)) [
    | inl missing ↦
        rw (dissect_missing e bytes meta opts name forced missing) (name, forced, missing)
    | inr (plugin, found) ↦
        rw (dissect_forced e bytes meta opts name plugin forced found)
          (start-DissectAnswer e bytes meta opts (inr (name, plugin, forced, found)))
  ]
]
