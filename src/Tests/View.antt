-- ===== src/Tests/View.antt =====
-- Examples for the query language and the index: a runtime whose numbers are natural numbers and whose
-- regular expressions are their own text, and three all_streams.
use pktflow.Prelude.{
  ℕ, zero, suc, ◌+◌, ◌*◌, ◌-◌, List, [], ◌∷◌, ◌++◌, ◌≡◌, ◌↔◌, refl, sym, ap, subst, ◌∙◌,
  if◌then◌else◌, none, some, true, false, Bool, Option, contains, length, ltb, ◌==◌, ◌≟◌, string_eq,
  bytes_eq, nat_eq, Bytes-discrete, arith, inr, String,
}
use pktflow.Prelude.Map
use pktflow.Prelude.Map.{Map}
use pktflow.Prelude.Result.{ok, err}
use pktflow.Prelude.Text.{Text, codes, contains_text, starts_with, find_text, to_ascii_lowercase}
use pktflow.Core.Value.{empty}
use pktflow.Core.Stream.{a_to_b}
use pktflow.Flows.Store.{StreamId, stream_id_eq, Stream, no_stats}
use pktflow.View.StreamView.{by_id}
use pktflow.View.Query.{panic, Runtime, Expr, Tokens, word, regex, eq, free_text, cmp, Field}
use pktflow.View.Query.Lex.{
  lex, lex_from, lex_round, lex_word, lex_regex, scan_regex, scan_word, best_split, word_tokens,
  push_word,
}
use pktflow.View.Query.Lex.Outcome.{LexOutcome, lex-LexOutcome}
use pktflow.View.Query.Lex.Panic.{lex-panic}
use pktflow.View.Query.Parse.{parse, parse_tokens}
use pktflow.View.Query.Parse.Grammar.{Derives, or_query}
use pktflow.View.Query.Parse.Sound.{InputAnswer, parse-InputAnswer}
use pktflow.View.Query.Parse.Complete.{parse_tokens_iff}
use pktflow.View.Query.Eval.{eval}
use pktflow.View.Query.Visible.{matching_with_ancestors}
use pktflow.View.Query.Visible.Closure.{Shown, SameParent}
use pktflow.View.Query.Visible.Exact.{matching_with_ancestors_iff}
use pktflow.View.Index.{
  SnapshotIndex, WindowSpec, flat, by_bytes, by_duration, order, evaluate, query_sets, window,
}
use pktflow.View.Index.Timeline.{TimelineSpec, timeline}
use pktflow.View.Index.Order.{Ordered, order-Ordered}
use mathlib.Core.List.{Perm}
use pktflow.View.Index.Memo.{Answers, query_sets-Answers}
use pktflow.View.Index.Page.{PageAnswer, window-PageAnswer}
use pktflow.View.Index.Lanes.{TimelineAnswer, timeline-TimelineAnswer}

unfoldable read_decimal : ℕ → Text → ℕ
read_decimal n [] = n
read_decimal n (c ∷ cs) = read_decimal (n * 10 + (c - 48)) cs

abbrev natural : Runtime
natural = record {
  F64 = ℕ;
  parse_f64 = λ t. some (read_decimal 0 t);
  literal = λ name. 1;
  of_u64 = λ n. n;
  of_i64 = λ n. 0;
  secs_of_nanos = λ n. n;
  mul = λ a b. a * b;
  less = ltb;
  equal = λ a b. a == b;
  show_f64 = λ n. n ∷ [];
  Regex = Text;
  build_regex = ok;
  is_match = λ r t. contains_text t r;
  to_lowercase = to_ascii_lowercase;
  to_uppercase = λ t. t;
  is_blank = λ t. t ≟ [];
  resolver = λ route. none;
}

abbrev id_of : ℕ → StreamId
id_of n = record { index = n; generation = 0 }

abbrev stream_of : ℕ → String → Option StreamId → Stream
stream_of n protocol parent = record {
  id = id_of n;
  protocol = protocol;
  key = record { bytes = [] };
  key_fields = empty;
  parent = parent;
  children = [];
  initiator = a_to_b;
  first_seen = 100 + n;
  last_seen = 200 + n;
  stats = (no_stats, no_stats);
  opaque_bytes = 0;
  state = none;
  rollups = [];
  closed = none;
  close_eligible = false;
  close_eligible_since = none;
  created_seq = n;
  condensed = none;
}

abbrev network_stream : Stream
network_stream = stream_of 0 "ipv4" none

abbrev transport_stream : Stream
transport_stream = stream_of 1 "tcp" (some (id_of 0))

abbrev other_stream : Stream
other_stream = stream_of 2 "arp" none

abbrev all_streams : List Stream
all_streams = network_stream ∷ transport_stream ∷ other_stream ∷ []

abbrev ids : Map StreamId Stream
ids = (id_of 0, network_stream) ∷ (id_of 1, transport_stream) ∷ (id_of 2, other_stream) ∷ []

-- `(ip or tcp`
abbrev open_query : Text
open_query = codes "(ip or tcp"

lex-LexOutcome_example : LexOutcome 0 (length open_query) (lex open_query)
lex-LexOutcome_example = lex-LexOutcome open_query (ground arith)

parse-InputAnswer_example : InputAnswer natural open_query (parse natural open_query)
parse-InputAnswer_example = parse-InputAnswer natural open_query (ground arith)

-- `voilà`, whose last character is two bytes.
lex-panic_example : lex (b'v' ∷ (b'o' ∷ b'i' ∷ b'l' ∷ 0xC3 ∷ []) ++ 0xA0 ∷ []) ≡ err panic
lex-panic_example =
    lex-panic b'v' (b'o' ∷ b'i' ∷ b'l' ∷ 0xC3 ∷ []) 0xA0 []
      (refl, (refl, (refl, (refl, (refl, tt))))) refl (inr refl)

abbrev two_words : Tokens
two_words = (word (codes "ip"), 0) ∷ (word (codes "tcp"), 3) ∷ []

abbrev two_terms : Expr natural
two_terms = Expr.and (free_text (codes "ip")) (free_text (codes "tcp"))

parse_tokens_iff_example :
    (parse_tokens natural 6 two_words ≡ ok two_terms)
    ↔ Derives natural or_query two_words two_terms []
parse_tokens_iff_example =
    parse_tokens_iff natural 6 two_words two_terms (omega arith, (omega arith, tt))

-- The slash of a pattern is not reached: its bytes are pushed one by one.
abbrev spaced : Text
spaced = b'a' ∷ 0xC3 ∷ 0xA9 ∷ b' ' ∷ b'b' ∷ []

-- A word with a character of two bytes that no byte of is white space is one token.
words : lex spaced ≡ ok ((word (b'a' ∷ 0xC3 ∷ 0xA9 ∷ []), 0) ∷ (word (b'b' ∷ []), 4) ∷ [])
unfolding lex lex_from lex_round lex_word scan_word best_split find_text starts_with word_tokens
    push_word to_ascii_lowercase Bytes-discrete
words = refl

abbrev is_tcp : Expr natural
is_tcp = cmp Field.proto eq (record { raw = codes "tcp"; number = none; regex = none })

abbrev parent_at : ℕ → Option StreamId
parent_at zero = none
parent_at (suc zero) = some (id_of 0)
parent_at (suc (suc n)) = none

abbrev AtSeq : Stream → Type 0
AtSeq s = s.parent ≡ parent_at s.created_seq

AtSeq-here :
    (b : Bool) (v s : Stream) (later : Option Stream)
    → AtSeq v
    → (later ≡ some s → AtSeq s)
    → (if b then some v else later) ≡ some s
    → AtSeq s
AtSeq-here true v s later here behind h = let same : v ≡ s = cc in subst AtSeq same here
AtSeq-here false v s later here behind h = behind h

ids-AtSeq : (p : StreamId) (s : Stream) → Map.get p ids ≡ some s → AtSeq s
unfolding Map.get
ids-AtSeq p s = AtSeq-here (id_of 0 ≟ p) network_stream s _ refl (
    AtSeq-here (id_of 1 ≟ p) transport_stream s _ refl
      (AtSeq-here (id_of 2 ≟ p) other_stream s _ refl (λ h. absurd (cc))))

same_seq : (s : Stream) → AtSeq s → SameParent ids s
same_seq s at p t h e = ids-AtSeq p t h ∙ ap parent_at e ∙ sym at

matching_with_ancestors_iff_example :
    (contains (matching_with_ancestors natural all_streams ids is_tcp) 0 ≡ true)
    ↔ Shown (λ s. eval natural is_tcp s ids) ids all_streams 0
matching_with_ancestors_iff_example =
    matching_with_ancestors_iff natural all_streams ids is_tcp
      (λ p s h. same_seq s (ids-AtSeq p s h))
      (
        same_seq network_stream refl,
        (same_seq transport_stream refl, (same_seq other_stream refl, tt)),
      )
      0

abbrev arp_text : Text
arp_text = codes "arp"

-- An index whose memo holds the sets of another query.
abbrev asked : SnapshotIndex
asked = record {
  streams = all_streams;
  query = some (record { raw = arp_text; sets = some (2 ∷ [], 2 ∷ []) });
}

asked-evaluate : evaluate natural all_streams arp_text ≡ ok (some (2 ∷ [], 2 ∷ []))
unfolding evaluate parse by_id matching_with_ancestors Bytes-discrete
asked-evaluate = refl

abbrev tcp_text : Text
tcp_text = codes "tcp"

query_sets-Answers_example :
    Answers natural all_streams
      (evaluate natural all_streams tcp_text)
      (query_sets natural asked tcp_text)
query_sets-Answers_example = query_sets-Answers natural asked tcp_text asked-evaluate

abbrev page_spec : WindowSpec
page_spec = record {
  scope = flat;
  query = some tcp_text;
  sort = by_bytes;
  descending = true;
  offset = 0;
  limit = 10;
}

window-PageAnswer_example :
    PageAnswer natural all_streams page_spec (window natural asked page_spec)
window-PageAnswer_example = window-PageAnswer natural asked page_spec asked-evaluate

abbrev lanes_spec : TimelineSpec
lanes_spec = record { bins = 8; lanes = 2; query = none }

timeline-TimelineAnswer_example :
    TimelineAnswer natural all_streams lanes_spec (timeline natural asked lanes_spec)
timeline-TimelineAnswer_example = timeline-TimelineAnswer natural asked lanes_spec asked-evaluate

order-Ordered_example :
    Ordered by_duration (order by_duration all_streams)
    × Perm (order by_duration all_streams) all_streams
order-Ordered_example = order-Ordered by_duration all_streams

-- A pattern of one character of two bytes, each of which is pushed as a character of its own.
mangled :
    lex (b'/' ∷ 0xC3 ∷ 0xA9 ∷ b'/' ∷ []) ≡ ok ((regex (0xC3 ∷ 0x83 ∷ 0xC2 ∷ 0xA9 ∷ []), 0) ∷ [])
unfolding lex lex_from lex_round lex_regex scan_regex
mangled = refl
