-- ===== src/Tests/Walks.antt =====
-- Examples for the reader, the engine, the router and the walk.
use pktflow.Prelude.{
  ℕ, ◌+◌, [], ◌∷◌, ◌++◌, ◌≡◌, refl, none, some, true, false, ◌||◌, contains, length, take, drop,
  leb, if◌then◌else◌, arith,
}
use pktflow.Prelude.Map
use pktflow.Prelude.Result.{ok, err}
use pktflow.Core.Bytes
use pktflow.Core.Bytes.{ByteReader, u16_be, u32_be, u64_be}
use pktflow.Core.Bytes.Endian.{to_be}
use pktflow.Core.Bytes.Reads.{IsValid, take_lem, take-IsValid, read-to_be}
use pktflow.Core.Value.{u64}
use pktflow.Core.Route.{RouteId-discrete, route_id_eq, ether_type}
use pktflow.Core.Plugin.{ParsedLayer, ParseOpts, route, terminal}
use pktflow.Core.Engine.{plugin_for_route, plugin_by_name}
use pktflow.Core.Engine.Routes.{
  routes-build, plugin_by_name-build, overridden, first_claim, find_plugin,
}
use pktflow.Core.Engine.Errors.{build-settled, is_routed}
use pktflow.Core.Router.{
  dispatch_explicit, resolve_next, heuristic_fallback, above_floor, score_fallback_pool,
}
use pktflow.Core.Router.Gate.{resolve_next-IsParsed, IsParsed}
use pktflow.Core.Router.Pool.{resolve_next-pool, with_pool}
use pktflow.Core.Router.Fallback.{heuristic_fallback-best, best, unscored}
use pktflow.Core.Parser.{start, next, dissect}
use pktflow.Core.Parser.Walk.{dissect-IsDissection, next-IsWalking, DissectAnswer}
use pktflow.Core.Parser.Steps.{IsWalking}
use pktflow.Tests.{
  builder, network, network-build, packet_meta, options, packet, context_at_start, settled_builder,
  settled_network, settled_network-build,
}

-- An entry that the caller forces, and that is registered.
abbrev forced_options : ParseOpts
forced_options = record options { entry = some "inner" }

dissect-IsDissection_example :
    DissectAnswer network packet packet_meta forced_options
      (dissect network packet packet_meta forced_options)
dissect-IsDissection_example = dissect-IsDissection network packet packet_meta forced_options

start-IsWalking : IsWalking (start network packet packet_meta options)
unfolding start
start-IsWalking = record { tiled = refl; inside = omega arith; capped = omega arith }

next-IsWalking_example : IsWalking (next (start network packet packet_meta options)).1
next-IsWalking_example = next-IsWalking (start network packet packet_meta options) start-IsWalking

routes-build_example :
    Map.get (ether_type 7) network.routes
    ≡ overridden network.by_name builder.overrides (ether_type 7) (
        if contains builder.unroutes (ether_type 7)
        then none
        else first_claim 0 builder.plugins (ether_type 7))
routes-build_example = routes-build builder network (ether_type 7) network-build

plugin_by_name-build_example : plugin_by_name network "inner" ≡ find_plugin builder.plugins "inner"
plugin_by_name-build_example = plugin_by_name-build builder network "inner" network-build

build-settled_example :
    (contains settled_builder.unroutes (ether_type 7)
      || is_routed (ether_type 7) settled_builder.overrides)
    ≡ true
build-settled_example =
    build-settled settled_builder settled_network (ether_type 7) settled_network-build
      (ground arith)

resolve_next-pool_example :
    resolve_next (with_pool network []) (route (ether_type 7)) packet context_at_start
    ≡ resolve_next network (route (ether_type 7)) packet context_at_start
resolve_next-pool_example =
    resolve_next-pool network [] (route (ether_type 7)) packet context_at_start (λ e. cc)

abbrev inner_layer : ParsedLayer
inner_layer = record {
  header_len = 2;
  fields = record { entries = ("src", u64 1) ∷ ("dst", u64 2) ∷ [] };
  hint = terminal;
}

resolve_next-IsParsed_example : IsParsed network "inner" packet context_at_start inner_layer
unfolding resolve_next plugin_for_route Map.get RouteId-discrete dispatch_explicit
resolve_next-IsParsed_example =
    resolve_next-IsParsed network (route (ether_type 7)) packet context_at_start "inner" inner_layer
      false refl

heuristic_fallback-best_example :
    heuristic_fallback network packet context_at_start
    ≡ unscored (
        best packet context_at_start
          (above_floor (score_fallback_pool network packet context_at_start)))
heuristic_fallback-best_example = heuristic_fallback-best network packet context_at_start

abbrev reader : ByteReader
reader = record { buf = 1 ∷ 2 ∷ 3 ∷ []; pos = 1 }

reader-IsValid : IsValid reader
reader-IsValid = record { inside = omega arith; sized = omega arith }

take_lem_example : Bytes.take reader 2 ≡ (
    if leb 2 (Bytes.remaining reader)
    then ok (take 2 (drop reader.pos reader.buf), record reader { pos = reader.pos + 2 })
    else err (record { needed = 2; have = Bytes.remaining reader }))
take_lem_example = take_lem reader 2 reader-IsValid

take-IsValid_example :
    IsValid (record reader { pos = 3 })
    × (reader.buf ≡ reader.buf)
    × (3 ≡ reader.pos + 2)
    × (length {A = ℕ} (2 ∷ 3 ∷ []) ≡ 2)
unfolding Bytes.take
take-IsValid_example =
    take-IsValid reader 2 (2 ∷ 3 ∷ []) (record reader { pos = 3 }) reader-IsValid refl

read-to_be_example :
    (u16_be (record { buf = (9 ∷ []) ++ (to_be 2 258 ++ []); pos = 1 })
      ≡ ok (258, record { buf = (9 ∷ []) ++ (to_be 2 258 ++ []); pos = 1 + 2 }))
    × (u32_be (record { buf = (9 ∷ []) ++ (to_be 4 7 ++ []); pos = 1 })
        ≡ ok (7, record { buf = (9 ∷ []) ++ (to_be 4 7 ++ []); pos = 1 + 4 }))
    × (u64_be (record { buf = (9 ∷ []) ++ (to_be 8 5 ++ []); pos = 1 })
        ≡ ok (5, record { buf = (9 ∷ []) ++ (to_be 8 5 ++ []); pos = 1 + 8 }))
read-to_be_example =
    read-to_be (9 ∷ []) [] 258 7 5 (omega arith) (omega arith) (omega arith) (omega arith)
