-- ===== src/Dsl/Tests.antt =====
-- The lexer and the parser at concrete inputs, with the natural numbers for `f64`.
use gwead.Prelude.{
  ℕ, ◌+◌, ◌-◌, ◌*◌, ◌≡◌, refl, true, false, Option, none, some, [], ◌∷◌, ltb, leb, ◌==◌, List,
  if◌then◌else◌,
}
use gwead.Prelude.Outcome.{ok}
use gwead.Text.{chars, str_eq, is_ascii_digit, is_ascii_alphanumeric, len, contains}
use gwead.Text.Utf8.{from_utf8}
use gwead.Dsl.Float.{F64}
use gwead.Fault.{Ensures}
use gwead.Identity.{step_id, validate_name, check_chars, is_name_char}
use gwead.Dsl.Steps.{is_keyword, parse_reference-validate_name}
use gwead.Json.{Value, array, object, number, items, end, Fields, member}
use gwead.Dsl.Eval.{
  EvalContext, resolve_root, segment_of, apply_segment_onto, apply_segment, select, eval_reference,
}
use gwead.Dsl.Eval.Picks.{Walks, Gives}
use gwead.Dsl.Eval.Selection.{eval_reference-selected}
use gwead.Dsl.Lexer.Total.{IsTokens, tokenize_total}
use gwead.Dsl.Parser.Total.{IsBounded, parse_expression_total}
use gwead.Dsl.Ast.{
  Str, Root, Reference, Literal, Expression, BinaryOp, UnaryOp, binary, unary, ref, literal, field,
  index, wildcard,
}
use gwead.Dsl.Lexer.{
  tokenize, tokenize_from, next_token, skip_whitespace, span, is_space, is_ident_byte, is_quoted,
  lex_word, lex_ident, lex_string, lex_number, number_text, word, single, double, prefix,
}
use gwead.Dsl.Parser.{
  parse_reference, parse_expression, parse_expression_at, parse_coalesce, parse_or, parse_and,
  parse_equality, parse_comparison, level, operators, parse_unary, parse_reference_at, parse_root,
  named_root, parse_path_segments, segments, parse_bracket_segment, parse_filter, take_ident,
  take_string, expect, expect_eof, peek, bump, descend, ascend, count_op,
}

digits : ℕ → Str → Option ℕ
digits acc [] = some acc
digits acc (c ∷ cs) =
    let later = digits (acc * 10 + (c - 48)) cs in if is_ascii_digit c then later else none

-- numbers with no sign and no fraction
abbrev naturals : F64
naturals = record {
  Float = ℕ;
  parse = digits 0;
  is_negative = λ n. false;
  has_fract = λ n. false;
  to_usize = λ n. n;
  Number = ℕ;
  is_nonzero = λ n. ltb 0 n;
  float_eq = λ a b. a == b;
  float_lt = ltb;
  float_le = leb;
  is_finite = λ n. true;
  from_i64_min = λ n. true;
  to_i64_max = λ n. true;
  int_number = λ n. n;
  from_f64 = some;
  as_f64 = some;
  number_eq = λ a b. a == b;
}

abbrev guarded : Expression ℕ
guarded =
    binary BinaryOp.and
      (binary BinaryOp.eq
        (ref (record { root = Root.steps (chars "a-1"); path = field (chars "xs") ∷ index 2 ∷ [] }))
        (literal (Literal.number 5)))
      (unary UnaryOp.not
        (ref (record { root = Root.implicit; path = field (chars "x") ∷ wildcard ∷ [] })))

parse_guarded : parse_expression naturals (chars "$steps.a-1.xs[2] == 5 && !($.x[*])") ≡ ok guarded
unfolding parse_expression parse_expression_at parse_coalesce parse_or parse_and parse_equality
    parse_comparison level operators parse_unary parse_reference_at parse_root named_root
    parse_path_segments segments parse_bracket_segment parse_filter take_ident take_string expect
    expect_eof peek bump descend ascend count_op tokenize tokenize_from next_token skip_whitespace
    span is_space is_ident_byte is_quoted lex_word lex_ident lex_string lex_number number_text word
    single double prefix from_utf8 digits is_ascii_digit is_ascii_alphanumeric str_eq
parse_guarded = refl

tokenize_total_example : Ensures (IsTokens 0 7) (tokenize naturals (chars "$.a !=5"))
tokenize_total_example = tokenize_total naturals (chars "$.a !=5")

parse_expression_total_example :
    Ensures (IsBounded naturals) (parse_expression naturals (chars "!!(1 < 2) || $.a ?? false"))
parse_expression_total_example = parse_expression_total naturals (chars "!!(1 < 2) || $.a ?? false")

-- two rows with a field `n`, and one without
abbrev rows : Value ℕ
rows = array (
    items (
      object (Fields.field (chars "n") (number 1) end)
      ∷ object end
      ∷ object (Fields.field (chars "n") (number 2) end)
      ∷ []))

abbrev row_context : EvalContext ℕ
row_context = record {
  input = some rows;
  steps = none;
  config = none;
  secrets = none;
  trigger = none;
  vars = none;
  item = none;
  implicit_source = none;
}

abbrev every_n : Reference
every_n = record { root = Root.input; path = wildcard ∷ field (chars "n") ∷ [] }

rows_resolve : resolve_root every_n.root row_context ≡ some rows
unfolding resolve_root
rows_resolve = refl

rows_evaluate : eval_reference every_n row_context ≡ array (items (number 1 ∷ number 2 ∷ []))
unfolding eval_reference select apply_segment apply_segment_onto segment_of resolve_root str_eq
    member
rows_evaluate = refl

eval_reference-selected_example :
    (ws : List (Value ℕ)) × Walks (wildcard ∷ field (chars "n") ∷ []) rows ws
    × Gives ws (eval_reference every_n row_context)
eval_reference-selected_example = eval_reference-selected every_n row_context rows rows_resolve

abbrev one : Expression ℕ
one = ref every_n

abbrev two : Expression ℕ
two = literal (Literal.number 2)

fetch_validates : validate_name step_id (chars "fetch-1") ≡ ok tt
unfolding validate_name len check_chars contains is_name_char is_ascii_alphanumeric
fetch_validates = refl

-- also where the id is a keyword
null_validates : validate_name step_id (chars "null") ≡ ok tt
unfolding validate_name len check_chars contains is_name_char is_ascii_alphanumeric
null_validates = refl

parse_reference-validate_name_example :
    parse_reference naturals (chars "$steps.fetch-1")
    ≡ ok (record { root = Root.steps (chars "fetch-1"); path = [] })
unfolding is_keyword str_eq
parse_reference-validate_name_example =
    parse_reference-validate_name naturals (chars "fetch-1") fetch_validates
