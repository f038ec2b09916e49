-- ===== src/Dsl/Parser.antt =====
-- src/dsl/parser.rs: recursive descent over the tokens that are left. A `Parse A` takes the parser's
-- state and returns an `A` with the new state; `self.tokens[self.pos]` past the end is a panic.
pub mod State
pub mod Paths
pub mod Levels
pub mod Total
use gwead.Prelude.{
  ℕ, zero, suc, ◌+◌, ◌-◌, Bool, true, false, ◌&&◌, ◌||◌, Option, none, some, List, [], ◌∷◌, ltb,
  if◌then◌else◌, length,
}
use gwead.Prelude.Outcome
use gwead.Prelude.Outcome.{Result, ok, err}
use gwead.Text.{str_eq, chars}
use gwead.Fault.{Fault, error, panic, out_of_fuel}
use gwead.Dsl.Float.{F64}
use gwead.Dsl.Ast.{
  Str, Root, PathSegment, Reference, Literal, Expression, UnaryOp, BinaryOp, literal, ref, unary,
  binary, field, index, wildcard, filter_eq,
}
use gwead.Dsl.Lexer.{
  TokenKind, Token, LexError, tokenize, is_eof, dollar, dot, l_bracket, r_bracket, l_paren, r_paren,
  question, at, star, eq, ident, string, number, true_word, false_word, null_word, not,
}

abbrev pub max_expr_depth : ℕ
max_expr_depth = 128

abbrev pub max_expr_ops : ℕ
max_expr_ops = 256

-- The messages of the parser, with the values that they print.
pub data Message (F : Type 0) : Type 0 where
  too_deep too_many_ops expected_step_id expected_field expected_filter_field : Message F
  filter_not_string : Message F
  expected_end unexpected_in_brackets expected_expression : TokenKind F → Message F
  expected : TokenKind F → TokenKind F → Message F
  unknown_root : Str → Message F
  bad_index : F → Message F

pub data ParseError (F : Type 0) : Type 0 where
  lex : LexError → ParseError F
  unexpected : Message F → ℕ → ParseError F

-- `tokens` are those from the current position on.
pub record Parser (F : Type 0) : Type 0 where
  pub tokens : List (Token F)
  pub depth : ℕ
  pub ops : ℕ

abbrev pub Run : Type 0 → Type 0 → Type 0
Run F A = Result (Fault (ParseError F)) A

abbrev pub Parse : Type 0 → Type 0 → Type 0
Parse F A = Parser F → Run F (A × Parser F)

module _ {F A : Type 0} where
  abbrev pub pure : A → Parse F A
  pure a p = ok (a, p)

  abbrev pub fail : Message F → ℕ → Parse F A
  fail message position p = err (error (unexpected message position))

module _ {F A B : Type 0} where
  infixl 5 ◌>>=◌ ◌>>◌
  abbrev pub ◌>>=◌ : Parse F A → (A → Parse F B) → Parse F B
  ◌>>=◌ m f p = Outcome.◌>>=◌ (m p) (λ (a, p'). f a p')

  abbrev pub ◌>>◌ : Parse F A → Parse F B → Parse F B
  m >> n = m >>= λ _. n

-- the test of `expect`, by `discriminant`, for the kinds that the parser asks for
abbrev pub same_kind : {F : Type 0} → TokenKind F → TokenKind F → Bool
same_kind dollar dollar = true
same_kind dot dot = true
same_kind r_bracket r_bracket = true
same_kind l_paren l_paren = true
same_kind r_paren r_paren = true
same_kind at at = true
same_kind eq eq = true
same_kind _ _ = false

module _ {F : Type 0} where
  -- Parser::descend, ascend and count_op
  unfoldable pub descend : ℕ → Parse F (Unit {0})
  descend position p =
      if ltb max_expr_depth (p.depth + 1)
      then fail too_deep position p
      else ok (tt, record p { depth = p.depth + 1 })

  unfoldable pub ascend : Parse F (Unit {0})
  ascend p = ok (tt, record p { depth = p.depth - 1 })

  unfoldable pub count_op : ℕ → Parse F (Unit {0})
  count_op position p =
      if ltb max_expr_ops (p.ops + 1)
      then fail too_many_ops position p
      else ok (tt, record p { ops = p.ops + 1 })

  abbrev pub first_token : List (Token F) → Run F (Token F)
  first_token [] = err panic
  first_token (t ∷ ts) = ok t

  abbrev pub advance : List (Token F) → List (Token F)
  advance [] = []
  advance (t ∷ ts) = if is_eof t.kind then t ∷ ts else ts

  -- Parser::peek
  unfoldable pub peek : Parse F (Token F)
  peek p = Outcome.◌>>=◌ (first_token p.tokens) λ t. ok (t, p)

  -- Parser::bump
  unfoldable pub bump : Parse F (Token F)
  bump p = Outcome.◌>>=◌ (first_token p.tokens) λ t. ok (t, record p { tokens = advance p.tokens })

  -- Parser::expect
  unfoldable pub expect : TokenKind F → Parse F (Token F)
  expect want = do
    t ← peek
    if same_kind t.kind want then bump else fail (expected want t.kind) t.start

  -- Parser::expect_eof
  unfoldable pub expect_eof : Parse F (Unit {0})
  expect_eof = do t ← peek; if is_eof t.kind then pure tt else fail (expected_end t.kind) t.start

  -- `let TokenKind::Ident(name) = self.bump().kind else { return Err(message) }`
  abbrev pub ident_of : Message F → ℕ → TokenKind F → Parse F Str
  ident_of message start (ident name) = pure name
  ident_of message start _ = fail message start

  abbrev pub string_of : Message F → ℕ → TokenKind F → Parse F Str
  string_of message start (string s) = pure s
  string_of message start _ = fail message start

  unfoldable pub take_ident : Message F → Parse F Str
  take_ident message = do t ← bump; ident_of message t.start t.kind

  unfoldable pub take_string : Message F → Parse F Str
  take_string message = do t ← bump; string_of message t.start t.kind

  -- the `Ident` arm of the match on the root's name
  unfoldable pub named_root : Str → ℕ → Parse F Root
  named_root name position =
      if str_eq name (chars "input")
      then (bump >> pure Root.input)
      else if str_eq name (chars "config")
      then (bump >> pure Root.config)
      else if str_eq name (chars "secrets")
      then (bump >> pure Root.secrets)
      else if str_eq name (chars "trigger")
      then (bump >> pure Root.trigger)
      else if str_eq name (chars "vars")
      then (bump >> pure Root.vars)
      else if str_eq name (chars "item")
      then (bump >> pure Root.item)
      else if str_eq name (chars "steps")
      then (do bump; expect dot; id ← take_ident expected_step_id; pure (Root.steps id))
      else fail (unknown_root name) position

  abbrev pub root_of : ℕ → TokenKind F → Parse F Root
  root_of start (ident name) = named_root name start
  root_of start _ = pure Root.implicit

  unfoldable pub parse_root : Parse F Root
  parse_root = do t ← peek; root_of t.start t.kind

  -- the `Question` arm of Parser::parse_bracket_segment
  unfoldable pub parse_filter : Parse F PathSegment
  parse_filter = do
    expect l_paren
    expect at
    expect dot
    name ← take_ident expected_filter_field
    expect eq
    value ← take_string filter_not_string
    expect r_paren
    pure (filter_eq name value)

  -- the operators of each level
  abbrev pub coalesce_op : TokenKind F → Option BinaryOp
  coalesce_op TokenKind.coalesce = some BinaryOp.coalesce
  coalesce_op _ = none

  abbrev pub or_op : TokenKind F → Option BinaryOp
  or_op TokenKind.or = some BinaryOp.or
  or_op _ = none

  abbrev pub and_op : TokenKind F → Option BinaryOp
  and_op TokenKind.and = some BinaryOp.and
  and_op _ = none

  abbrev pub equality_op : TokenKind F → Option BinaryOp
  equality_op TokenKind.eq = some BinaryOp.eq
  equality_op TokenKind.not_eq = some BinaryOp.not_eq
  equality_op _ = none

  abbrev pub comparison_op : TokenKind F → Option BinaryOp
  comparison_op TokenKind.lt = some BinaryOp.lt
  comparison_op TokenKind.le = some BinaryOp.le
  comparison_op TokenKind.gt = some BinaryOp.gt
  comparison_op TokenKind.ge = some BinaryOp.ge
  comparison_op _ = none

  -- one round of such a loop, whose next rounds are `next`
  abbrev pub operator_then :
      (Expression F → Parse F (Expression F))
      → Parse F (Expression F)
      → Expression F
      → ℕ
      → Option BinaryOp
      → Parse F (Expression F)
  operator_then next operand left start none = pure left
  operator_then next operand left start (some op) = do
    count_op start
    bump
    right ← operand
    next (binary op left right)

  -- The `while` or `loop` of a level, for `fuel` operators at most.
  unfoldable pub operators :
      ℕ
      → (TokenKind F → Option BinaryOp)
      → Parse F (Expression F)
      → Expression F
      → Parse F (Expression F)
  operators zero op operand left = λ p. err out_of_fuel
  operators (suc fuel) op operand left = do
    t ← peek
    operator_then (operators fuel op operand) operand left t.start (op t.kind)

  -- One level of precedence over the next: `count_op` stops the loop after `max_expr_ops` rounds.
  unfoldable pub level :
      (TokenKind F → Option BinaryOp) → Parse F (Expression F) → Parse F (Expression F)
  level op operand = do left ← operand; operators (suc max_expr_ops) op operand left

  -- Parser::parse_comparison, parse_equality, parse_and, parse_or and parse_coalesce, over
  -- Parser::parse_unary
  unfoldable pub parse_comparison : Parse F (Expression F) → Parse F (Expression F)
  parse_comparison parse_unary = level comparison_op parse_unary

  unfoldable pub parse_equality : Parse F (Expression F) → Parse F (Expression F)
  parse_equality parse_unary = level equality_op (parse_comparison parse_unary)

  unfoldable pub parse_and : Parse F (Expression F) → Parse F (Expression F)
  parse_and parse_unary = level and_op (parse_equality parse_unary)

  unfoldable pub parse_or : Parse F (Expression F) → Parse F (Expression F)
  parse_or parse_unary = level or_op (parse_and parse_unary)

  unfoldable pub parse_coalesce : Parse F (Expression F) → Parse F (Expression F)
  parse_coalesce parse_unary = level coalesce_op (parse_or parse_unary)

module _ (f64 : F64) where
  open f64 use {Float, is_negative, has_fract, to_usize}

  -- the first token of Parser::parse_bracket_segment
  abbrev pub bracket_of : ℕ → TokenKind Float → Parse Float PathSegment
  bracket_of start star = pure wildcard
  bracket_of start (number n) =
      if is_negative n || has_fract n then fail (bad_index n) start else pure (index (to_usize n))
  bracket_of start question = parse_filter
  bracket_of start other = fail (unexpected_in_brackets other) start

  -- Parser::parse_bracket_segment
  unfoldable pub parse_bracket_segment : Parse Float PathSegment
  parse_bracket_segment = do t ← bump; seg ← bracket_of t.start t.kind; expect r_bracket; pure seg

  -- one round of the loop of Parser::parse_path_segments, whose next rounds are `next`
  abbrev pub segment_of :
      Parse Float (List PathSegment) → TokenKind Float → Parse Float (List PathSegment)
  segment_of next dot = do
    bump
    name ← take_ident expected_field
    later ← next
    pure (field name ∷ later)
  segment_of next l_bracket = do bump; seg ← parse_bracket_segment; later ← next; pure (seg ∷ later)
  segment_of next _ = pure []

  -- The loop. Each round takes a token, so that more fuel than there are tokens is enough.
  unfoldable pub segments : ℕ → Parse Float (List PathSegment)
  segments zero = λ p. err out_of_fuel
  segments (suc fuel) = do t ← peek; segment_of (segments fuel) t.kind

  -- Parser::parse_path_segments
  unfoldable pub parse_path_segments : Parse Float (List PathSegment)
  parse_path_segments p = segments (suc (length p.tokens)) p

  -- Parser::parse_reference
  unfoldable pub parse_reference_at : Parse Float Reference
  parse_reference_at = do
    expect dollar
    root ← parse_root
    path ← parse_path_segments
    pure (record { root = root; path = path })

  -- Parser::parse_primary; `nested` is the Parser::parse_unary inside its parentheses.
  abbrev pub primary_of :
      Parse Float (Expression Float) → ℕ → TokenKind Float → Parse Float (Expression Float)
  primary_of nested start l_paren = do
    descend start
    bump
    e ← parse_coalesce nested
    ascend
    expect r_paren
    pure e
  primary_of nested start dollar = do r ← parse_reference_at; pure (ref r)
  primary_of nested start (string s) = bump >> pure (literal (Literal.string s))
  primary_of nested start (number n) = bump >> pure (literal (Literal.number n))
  primary_of nested start true_word = bump >> pure (literal (Literal.bool true))
  primary_of nested start false_word = bump >> pure (literal (Literal.bool false))
  primary_of nested start null_word = bump >> pure (literal Literal.null)
  primary_of nested start other = fail (expected_expression other) start

  abbrev pub unary_of :
      Parse Float (Expression Float) → ℕ → TokenKind Float → Parse Float (Expression Float)
  unary_of nested start not = do
    descend start
    bump
    inner ← nested
    ascend
    pure (unary UnaryOp.not inner)
  unary_of nested start other = primary_of nested start other

  -- Parser::parse_unary, for `levels` nested `(` and `!` at most
  unfoldable pub parse_unary : ℕ → Parse Float (Expression Float)
  parse_unary zero = λ p. err out_of_fuel
  parse_unary (suc levels) = do t ← peek; unary_of (parse_unary levels) t.start t.kind

  -- Parser::parse_expression: `descend` fails one level before the fuel runs out.
  unfoldable pub parse_expression_at : Parse Float (Expression Float)
  parse_expression_at = parse_coalesce (parse_unary (suc max_expr_depth))

  abbrev pub lexed : {A : Type 0} → Result (Fault LexError) A → Run Float A
  lexed (ok ts) = ok ts
  lexed (err (error e)) = err (error (lex e))
  lexed (err panic) = err panic
  lexed (err out_of_fuel) = err out_of_fuel

  -- The shape of the two entry points: tokenize, parse, and expect the end.
  unfoldable pub parse_all : {A : Type 0} → Parse Float A → Str → Run Float A
  parse_all parse src = Outcome.◌>>=◌ (lexed (tokenize f64 src)) λ tokens.
      Outcome.◌>>=◌
        ((do a ← parse; expect_eof; pure a) (record { tokens = tokens; depth = 0; ops = 0 }))
        λ (a, p). ok a

  -- parse_reference
  unfoldable pub parse_reference : Str → Run Float Reference
  unfolding parse_all
  parse_reference = parse_all parse_reference_at

  -- parse_expression
  unfoldable pub parse_expression : Str → Run Float (Expression Float)
  unfolding parse_all
  parse_expression = parse_all parse_expression_at
