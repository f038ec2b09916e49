-- ===== src/Dsl/Eval.antt =====
-- src/dsl/eval.rs: references and expressions against a context of JSON values.
pub mod Picks
pub mod Selection
pub mod Logic
use gwead.Prelude.{
  ℕ, zero, suc, Bool, true, false, ◌&&◌, Option, none, some, List, [], ◌∷◌, ◌++◌, get_elem?,
  if◌then◌else◌,
}
use mathlib.Core.Bool.{not}
use gwead.Text.{Str, str_eq}
use gwead.Json.{
  Value, Items, Fields, null, bool, number, string, array, object, nil, cons, end, elements, items,
  member, get, is_null,
}
use gwead.Json.{Value}
use gwead.Dsl.Float.{F64}
use gwead.Dsl.Ast.{
  Root, PathSegment, Reference, Literal, Expression, UnaryOp, BinaryOp, literal, ref, unary, binary,
  field, index, wildcard, filter_eq,
}

pub record EvalContext (N : Type 0) : Type 0 where
  pub input : Option (Value N)
  pub steps : Option (Value N)
  pub config : Option (Value N)
  pub secrets : Option (Value N)
  pub trigger : Option (Value N)
  pub vars : Option (Value N)
  pub item : Option (Value N)
  pub implicit_source : Option (Value N)

module _ {N : Type 0} where
  abbrev pub lookup_step : Str → Option (Value N) → Option (Value N)
  lookup_step id none = none
  lookup_step id (some s) = get id s

  -- resolve_root
  unfoldable pub resolve_root : Root → EvalContext N → Option (Value N)
  resolve_root Root.implicit ctx = ctx.implicit_source
  resolve_root Root.input ctx = ctx.input
  resolve_root Root.config ctx = ctx.config
  resolve_root Root.secrets ctx = ctx.secrets
  resolve_root Root.trigger ctx = ctx.trigger
  resolve_root Root.vars ctx = ctx.vars
  resolve_root Root.item ctx = ctx.item
  resolve_root (Root.steps id) ctx = lookup_step id ctx.steps

  abbrev pub is_string : Str → Option (Value N) → Bool
  is_string expected (some (string s)) = str_eq s expected
  is_string expected _ = false

  -- field_equals_string
  abbrev pub field_equals_string : Value N → Str → Str → Bool
  field_equals_string (object map) name expected = is_string expected (member name map)
  field_equals_string _ name expected = false

  abbrev pub keep_equal : Str → Str → List (Value N) → List (Value N)
  keep_equal name value [] = []
  keep_equal name value (elem ∷ rest) =
      let kept = keep_equal name value rest in
      if field_equals_string elem name value then elem ∷ kept else kept

  abbrev pub optional : Option (Value N) → List (Value N)
  optional none = []
  optional (some v) = v ∷ []

  -- the body of the loop of apply_segment: what one value adds to the selection
  unfoldable pub segment_of : PathSegment → Value N → List (Value N)
  segment_of (field name) (object map) = optional (member name map)
  segment_of (index i) (array arr) = optional (get_elem? (elements arr) i)
  segment_of wildcard (array arr) = elements arr
  segment_of (filter_eq name value) (array arr) = keep_equal name value (elements arr)
  segment_of _ _ = []

  -- apply_segment, whose `out` is the second argument
  unfoldable pub apply_segment_onto : PathSegment → List (Value N) → List (Value N) → List (Value N)
  apply_segment_onto seg out [] = out
  apply_segment_onto seg out (v ∷ sel) = apply_segment_onto seg (out ++ segment_of seg v) sel

  unfoldable pub apply_segment : PathSegment → List (Value N) → List (Value N)
  unfolding apply_segment_onto
  apply_segment seg sel = apply_segment_onto seg [] sel

  abbrev pub is_empty : List (Value N) → Bool
  is_empty [] = true
  is_empty (v ∷ vs) = false

  -- the loop of eval_reference, which breaks at an empty selection
  unfoldable pub select : List PathSegment → List (Value N) → List (Value N)
  select [] selection = selection
  select (seg ∷ path) selection =
      let next = apply_segment seg selection in
      let later = select path next in if is_empty next then next else later

  -- the match on the length of the selection
  abbrev pub unwrap : List (Value N) → Value N
  unwrap [] = null
  unwrap (v ∷ []) = v
  unwrap (v ∷ w ∷ vs) = array (items (v ∷ w ∷ vs))

  abbrev pub select_from : List PathSegment → Option (Value N) → Value N
  select_from path none = null
  select_from path (some root) = unwrap (select path (root ∷ []))

  -- eval_reference
  unfoldable pub eval_reference : Reference → EvalContext N → Value N
  eval_reference r ctx = select_from r.path (resolve_root r.root ctx)

module _ (f64 : F64) where
  open f64 use {
    Float, Number, is_nonzero, has_fract, float_eq, float_lt, float_le, is_finite, from_i64_min,
    to_i64_max, int_number, from_f64, as_f64, number_eq,
  }

  abbrev pub nonzero : Option Float → Bool
  nonzero none = false
  nonzero (some f) = is_nonzero f

  -- is_truthy
  unfoldable pub is_truthy : Value Number → Bool
  is_truthy null = false
  is_truthy (bool b) = b
  is_truthy (number n) = nonzero (as_f64 n)
  is_truthy (string []) = false
  is_truthy (string (c ∷ cs)) = true
  is_truthy (array nil) = false
  is_truthy (array (cons v vs)) = true
  is_truthy (object end) = false
  is_truthy (object _) = true

  abbrev pub number_or_null : Option Number → Value Number
  number_or_null none = null
  number_or_null (some n) = number n

  -- literal_to_value
  unfoldable pub literal_to_value : Literal Float → Value Number
  literal_to_value (Literal.string s) = string s
  literal_to_value (Literal.number n) =
      if is_finite n && not (has_fract n) && from_i64_min n && to_i64_max n
      then number (int_number n)
      else number_or_null (from_f64 n)
  literal_to_value (Literal.bool b) = bool b
  literal_to_value Literal.null = null

  -- Value::as_f64
  abbrev pub value_f64 : Value Number → Option Float
  value_f64 (number n) = as_f64 n
  value_f64 _ = none

  -- `==` of serde_json on values
  unfoldable mutual
    pub same_value : Value Number → Value Number → Bool
    same_value null null = true
    same_value (bool a) (bool b) = if a then b else not b
    same_value (number a) (number b) = number_eq a b
    same_value (string a) (string b) = str_eq a b
    same_value (array a) (array b) = same_items a b
    same_value (object a) (object b) = same_fields a b
    same_value _ _ = false

    pub same_items : Items Number → Items Number → Bool
    same_items nil nil = true
    same_items (cons v vs) (cons w ws) = same_value v w && same_items vs ws
    same_items _ _ = false

    pub same_fields : Fields Number → Fields Number → Bool
    same_fields end end = true
    same_fields (Fields.field k v vs) (Fields.field j w ws) =
        str_eq k j && same_value v w && same_fields vs ws
    same_fields _ _ = false

  abbrev pub equal_as : Value Number → Value Number → Option Float → Option Float → Bool
  equal_as a b (some la) (some lb) = float_eq la lb
  equal_as a b _ _ = same_value a b

  -- values_equal
  unfoldable pub values_equal : Value Number → Value Number → Bool
  values_equal a b = equal_as a b (value_f64 a) (value_f64 b)

  abbrev pub ordered_as : BinaryOp → Option Float → Option Float → Bool
  ordered_as BinaryOp.lt (some la) (some lb) = float_lt la lb
  ordered_as BinaryOp.le (some la) (some lb) = float_le la lb
  ordered_as BinaryOp.gt (some la) (some lb) = float_lt lb la
  ordered_as BinaryOp.ge (some la) (some lb) = float_le lb la
  ordered_as _ _ _ = false

  -- values_ordered
  unfoldable pub values_ordered : BinaryOp → Value Number → Value Number → Bool
  values_ordered op a b = ordered_as op (value_f64 a) (value_f64 b)

  -- the arms of the match on a binary operator; `right` is the value of the right operand, which the
  -- code computes in the arms that read it
  unfoldable pub eval_binary : BinaryOp → Value Number → Value Number → Value Number
  eval_binary BinaryOp.eq left right = bool (values_equal left right)
  eval_binary BinaryOp.not_eq left right = bool (not (values_equal left right))
  eval_binary BinaryOp.lt left right = bool (values_ordered BinaryOp.lt left right)
  eval_binary BinaryOp.le left right = bool (values_ordered BinaryOp.le left right)
  eval_binary BinaryOp.gt left right = bool (values_ordered BinaryOp.gt left right)
  eval_binary BinaryOp.ge left right = bool (values_ordered BinaryOp.ge left right)
  eval_binary BinaryOp.and left right =
      if is_truthy left then bool (is_truthy right) else bool false
  eval_binary BinaryOp.or left right = if is_truthy left then bool true else bool (is_truthy right)
  eval_binary BinaryOp.coalesce left right = if is_null left then right else left

  -- eval_expression
  unfoldable pub eval_expression : Expression Float → EvalContext Number → Value Number
  eval_expression (literal l) ctx = literal_to_value l
  eval_expression (ref r) ctx = eval_reference r ctx
  eval_expression (unary UnaryOp.not inner) ctx = bool (not (is_truthy (eval_expression inner ctx)))
  eval_expression (binary op l r) ctx =
      eval_binary op (eval_expression l ctx) (eval_expression r ctx)
