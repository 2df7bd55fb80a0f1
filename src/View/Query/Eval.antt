-- ===== src/View/Query/Eval.antt =====
-- Evaluation of a query on a stream (StreamQuery::matches, eval, field_candidates and compare of
-- crates/pktflow-view/src/query.rs).
use pktflow.Prelude.{
  ◌-◌, List, [], ◌∷◌, ◌++◌, Bool, true, false, ◌&&◌, ◌||◌, not, Option, none, some, length, map,
  ◌≟◌, string_eq, bytes_eq, if◌then◌else◌,
}
use pktflow.Prelude.Map
use pktflow.Prelude.Map.{Map}
use pktflow.Prelude.Text.{Text, codes, ends_with, decimal, to_ascii_lowercase, contains_text}
use pktflow.Core.Value.{Value, u64, i64, FieldName}
use pktflow.Core.Packet.{ProtocolName}
use pktflow.Core.Stream.{StateName}
use pktflow.Flows.Rollup.{Rollup, accumulated, sampled, series_of, RollupSet}
use pktflow.Flows.Store.{StreamId, stream_id_eq, Stream, CloseReason}
use pktflow.View.Fmt.{field_value_str}
use pktflow.View.StreamView.{
  total_packets, total_bytes, endpoint_sides, endpoints_str, close_reason_str, chain,
}
use pktflow.View.Query.{
  CmpOp, eq, ne, re, not_re, gt, ge, lt, le, contains, Flag, closed, live, root, leaf, condensed,
  Field, Runtime, Literal, Expr, free_text, free_regex, flag, cmp,
}

abbrev pub is_some {ℓ} : {A : Type ℓ} → Option A → Bool
is_some none = false
is_some (some a) = true

abbrev pub is_empty {ℓ} : {A : Type ℓ} → List A → Bool
is_empty [] = true
is_empty (a ∷ as') = false

-- `searchable_text`
unfoldable pub searchable_text : Stream → Text
unfolding endpoints_str decimal
searchable_text s =
    let row = codes s.protocol ++ codes " #" ++ decimal s.created_seq ++ b' ' ∷ endpoints_str s in
    elim s.state [ none ↦ row | some state ↦ row ++ b' ' ∷ codes state ]

-- `ancestors`, which end at the root, on fuel for each stream of the map.
abbrev pub ancestors : Stream → Map StreamId Stream → List Stream
ancestors s ids = chain (length ids) ids s.parent

abbrev pub optional_text : Option StateName → Text
optional_text none = []
optional_text (some t) = codes t

abbrev pub reason_text : Option CloseReason → Text
reason_text none = []
reason_text (some r) = close_reason_str r

abbrev pub optional_values : Option Value → List Value → List Value
optional_values none rest = rest
optional_values (some v) rest = v ∷ rest

-- The values that a rollup has observed.
abbrev pub observed : Option Rollup → List Value
observed none = []
observed (some (accumulated values count overflow)) = values
observed (some (sampled first last)) = optional_values first (optional_values last [])
observed (some (series_of ring cap truncated)) = map (λ p. p.value) ring

module _ (rt : Runtime) where
  pub record Candidate : Type 0 where
    pub text : Text
    pub number : Option rt.F64

  abbrev pub text_candidate : Text → Candidate
  text_candidate t = record { text = t; number = none }

  abbrev pub num_candidate : rt.F64 → Candidate
  num_candidate n = record { text = rt.show_f64 n; number = some n }

  -- `value_as_number`
  abbrev pub value_as_number : Value → Option rt.F64
  value_as_number (u64 v) = some (rt.of_u64 v)
  value_as_number (i64 v) = some (rt.of_i64 v)
  value_as_number v = none

  -- `candidate_of`
  abbrev pub candidate_of : ProtocolName → FieldName → Value → Candidate
  candidate_of protocol name value = record {
    text = field_value_str rt.resolver rt.to_uppercase protocol name value;
    number = value_as_number value;
  }

  -- The first part of `custom_candidates`.
  unfoldable pub key_candidates : ProtocolName → Text → List (FieldName × Value) → List Candidate
  unfolding field_value_str
  key_candidates protocol name [] = []
  key_candidates protocol name ((n, v) ∷ rest) =
      if codes n ≟ name then candidate_of protocol n v ∷ [] else key_candidates protocol name rest

  -- The second part.
  unfoldable pub rollup_candidates : ProtocolName → Text → RollupSet → List Candidate
  unfolding field_value_str
  rollup_candidates protocol name [] = []
  rollup_candidates protocol name ((n, r) ∷ rest) =
      if codes n ≟ name
      then map (candidate_of protocol n) (observed (some r))
      else rollup_candidates protocol name rest

  unfoldable pub custom_candidates : Text → Stream → List Candidate
  unfolding key_candidates rollup_candidates
  custom_candidates name s =
      key_candidates s.protocol name s.key_fields.entries
      ++ rollup_candidates s.protocol name s.rollups

  -- The ports of one stream.
  unfoldable pub port_numbers : List (FieldName × Value) → List Candidate
  unfolding ends_with
  port_numbers [] = []
  port_numbers ((n, v) ∷ rest) =
      if ends_with (codes n) (codes "port")
      then (elim (value_as_number v) [
        | none ↦ port_numbers rest
        | some x ↦ num_candidate x ∷ port_numbers rest
      ])
      else port_numbers rest

  unfoldable pub ports_of : List Stream → List Candidate
  unfolding port_numbers
  ports_of [] = []
  ports_of (s ∷ ss) = port_numbers s.key_fields.entries ++ ports_of ss

  abbrev pub parent_text : Option StreamId → Map StreamId Stream → Text
  parent_text none ids = []
  parent_text (some p) ids = elim (Map.get p ids) [ none ↦ [] | some s ↦ codes s.protocol ]

  -- `field_candidates`
  unfoldable pub field_candidates : Field → Stream → Map StreamId Stream → List Candidate
  unfolding custom_candidates ports_of endpoint_sides chain close_reason_str Map.get
  field_candidates Field.proto s ids = text_candidate (codes s.protocol) ∷ []
  field_candidates Field.id s ids = num_candidate (rt.of_u64 s.created_seq) ∷ []
  field_candidates Field.packets s ids = num_candidate (rt.of_u64 (total_packets s)) ∷ []
  field_candidates Field.bytes s ids = num_candidate (rt.of_u64 (total_bytes s)) ∷ []
  field_candidates Field.opaque s ids = num_candidate (rt.of_u64 s.opaque_bytes) ∷ []
  field_candidates Field.duration s ids =
      num_candidate (rt.secs_of_nanos (s.last_seen - s.first_seen)) ∷ []
  field_candidates Field.depth s ids = num_candidate (rt.of_u64 (length (ancestors s ids))) ∷ []
  field_candidates Field.children s ids = num_candidate (rt.of_u64 (length s.children)) ∷ []
  field_candidates Field.state s ids = text_candidate (optional_text s.state) ∷ []
  field_candidates Field.reason s ids = text_candidate (reason_text s.closed) ∷ []
  field_candidates Field.endpoint s ids =
      let (a, b, extras) = endpoint_sides s in
      text_candidate a ∷ text_candidate b ∷ map text_candidate extras
  field_candidates Field.port s ids = ports_of (s ∷ ancestors s ids)
  field_candidates Field.parent s ids = text_candidate (parent_text s.parent ids) ∷ []
  field_candidates Field.under s ids =
      map (λ a. text_candidate (codes a.protocol)) (ancestors s ids)
  field_candidates (Field.custom name) s ids = custom_candidates name s

  unfoldable pub duration_scale : Text → Option rt.F64
  duration_scale s =
      if s ≟ codes "ms"
      then some (rt.literal "0.001")
      else if s ≟ codes "s"
      then some (rt.literal "1.0")
      else if s ≟ codes "m"
      then some (rt.literal "60.0")
      else if s ≟ codes "h"
      then some (rt.literal "3600.0")
      else none

  unfoldable pub magnitude_scale : Text → Option rt.F64
  magnitude_scale s =
      if (s ≟ codes "k") || (s ≟ codes "kb")
      then some (rt.literal "1e3")
      else if (s ≟ codes "m") || (s ≟ codes "mb")
      then some (rt.literal "1e6")
      else if (s ≟ codes "g") || (s ≟ codes "gb")
      then some (rt.literal "1e9")
      else if (s ≟ codes "t") || (s ≟ codes "tb")
      then some (rt.literal "1e12")
      else none

  abbrev pub scale_of : Field → Text → Option rt.F64
  scale_of Field.duration s = duration_scale s
  scale_of field s = magnitude_scale s

  -- `Field::suffix_scale`
  unfoldable pub suffix_scale : Field → Text → Option rt.F64
  unfolding to_ascii_lowercase duration_scale magnitude_scale
  suffix_scale field suffix = elim (to_ascii_lowercase suffix) [
    | [] ↦ some (rt.literal "1.0")
    | c ∷ cs ↦ scale_of field (c ∷ cs)
  ]

  abbrev pub scaled : Field → Option (rt.F64 × Text) → Option rt.F64
  scaled field none = none
  scaled field (some (mag, suffix)) = elim (suffix_scale field suffix) [
    | none ↦ none
    | some scale ↦ some (rt.mul mag scale)
  ]

  abbrev pub order_test : (rt.F64 → rt.F64 → Bool) → Option rt.F64 → Option rt.F64 → Bool
  order_test test (some l) (some r) = test l r
  order_test test l r = false

  abbrev pub equal_test : Text → Text → Option rt.F64 → Option rt.F64 → Bool
  equal_test text raw (some l) (some r) = rt.equal l r
  equal_test text raw l r = to_ascii_lowercase text ≟ to_ascii_lowercase raw

  abbrev pub match_test : Option rt.Regex → Text → Bool
  match_test none text = false
  match_test (some r) text = rt.is_match r text

  -- `compare`
  unfoldable pub compare_candidate : Candidate → CmpOp → Literal rt → Field → Bool
  unfolding suffix_scale to_ascii_lowercase contains_text
  compare_candidate c gt value field =
      order_test (λ l r. rt.less r l) c.number (scaled field value.number)
  compare_candidate c ge value field =
      order_test (λ l r. rt.less r l || rt.equal l r) c.number (scaled field value.number)
  compare_candidate c lt value field =
      order_test (λ l r. rt.less l r) c.number (scaled field value.number)
  compare_candidate c le value field =
      order_test (λ l r. rt.less l r || rt.equal l r) c.number (scaled field value.number)
  compare_candidate c eq value field =
      equal_test c.text value.raw c.number (scaled field value.number)
  compare_candidate c ne value field =
      not (equal_test c.text value.raw c.number (scaled field value.number))
  compare_candidate c contains value field =
      contains_text (rt.to_lowercase c.text) (rt.to_lowercase value.raw)
  compare_candidate c re value field = match_test value.regex c.text
  compare_candidate c not_re value field = not (match_test value.regex c.text)

  abbrev pub any_candidate : (Candidate → Bool) → List Candidate → Bool
  any_candidate test [] = false
  any_candidate test (c ∷ cs) = test c || any_candidate test cs

  abbrev pub flag_holds : Flag → Stream → Bool
  flag_holds closed s = is_some s.closed
  flag_holds live s = not (is_some s.closed)
  flag_holds root s = not (is_some s.parent)
  flag_holds leaf s = is_empty s.children
  flag_holds condensed s = is_some s.condensed

  -- `eval`
  unfoldable pub eval : Expr rt → Stream → Map StreamId Stream → Bool
  unfolding field_candidates compare_candidate searchable_text contains_text
  eval (Expr.or l r) s ids = eval l s ids || eval r s ids
  eval (Expr.and l r) s ids = eval l s ids && eval r s ids
  eval (Expr.not inner) s ids = not (eval inner s ids)
  eval (free_text needle) s ids = contains_text (rt.to_lowercase (searchable_text s)) needle
  eval (free_regex r) s ids = rt.is_match r (searchable_text s)
  eval (flag f) s ids = flag_holds f s
  eval (cmp field o value) s ids =
      any_candidate (λ c. compare_candidate c o value field) (field_candidates field s ids)
