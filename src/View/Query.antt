-- ===== src/View/Query.antt =====
-- The stream query language (crates/pktflow-view/src/query.rs): its types. Floating-point numbers,
-- regular expressions (the regex crate), the case tables of Unicode and the route resolver that a
-- program registers are the fields of a `Runtime`.
pub mod Lex
pub mod Parse
pub mod Eval
pub mod Visible
use pktflow.Prelude.{ℕ, Bool, Option, List, String}
use pktflow.Prelude.Int.{ℤ}
use pktflow.Core.Route.{RouteId}
use pktflow.Prelude.Text.{Text}
use pktflow.Prelude.Result.{Result}

pub record QueryError : Type 0 where
  pub message : Text
  pub position : ℕ

-- An error value, the panic of a slice off a character boundary, or a loop without fuel.
pub data Failure : Type 0 where
  query_error : QueryError → Failure
  panic out_of_fuel : Failure

pub data CmpOp : Type 0 where
  eq ne re not_re gt ge lt le contains : CmpOp

pub data Tok : Type 0 where
  l_paren r_paren and or not : Tok
  op : CmpOp → Tok
  word str regex : Text → Tok

abbrev pub Tokens : Type 0
Tokens = List (Tok × ℕ)

pub data Flag : Type 0 where
  closed live root leaf condensed : Flag

pub data Field : Type 0 where
  proto id packets bytes opaque duration depth children state reason : Field
  endpoint port parent under : Field
  custom : Text → Field

-- `f64`, with `<` and `==`; `regex::Regex`; the case tables; whether a
-- text is white space, by the tables of Unicode; the registered route resolver.
pub record Runtime : Type 1 where
  pub F64 : Type 0
  pub parse_f64 : Text → Option F64
  pub literal : String → F64
  pub of_u64 : ℕ → F64
  pub of_i64 : ℤ → F64
  pub secs_of_nanos : ℕ → F64
  pub mul : F64 → F64 → F64
  pub less : F64 → F64 → Bool
  pub equal : F64 → F64 → Bool
  pub show_f64 : F64 → Text
  pub Regex : Type 0
  pub build_regex : Text → Result Text Regex
  pub is_match : Regex → Text → Bool
  pub to_lowercase : Text → Text
  pub to_uppercase : Text → Text
  pub is_blank : Text → Bool
  pub resolver : RouteId → Option Text

pub record Literal (rt : Runtime) : Type 0 where
  pub raw : Text
  pub number : Option (rt.F64 × Text)
  pub regex : Option rt.Regex

pub data Expr (rt : Runtime) : Type 0 where
  or and : Expr rt → Expr rt → Expr rt
  not : Expr rt → Expr rt
  free_text : Text → Expr rt
  free_regex : rt.Regex → Expr rt
  flag : Flag → Expr rt
  cmp : Field → CmpOp → Literal rt → Expr rt
