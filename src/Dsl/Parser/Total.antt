-- ===== src/Dsl/Parser/Total.antt =====
-- The parser returns on every text, and what it accepts is within its caps.
use gwead.Prelude.{ℕ, zero, suc, ◌+◌, ◌≤◌, ◌<◌, ◌≡◌, refl, ◌∙◌, true, false, length, arith}
use gwead.Prelude.Outcome.{Result}
use gwead.Fault.{Fault, Ensures, holds, rejected, Ensures-bind, Ensures-weaken}
use gwead.Dsl.Float.{F64}
use gwead.Dsl.Ast.{Str, Expression, Literal, literal, ref}
use gwead.Dsl.Lexer.{
  TokenKind, string, LexError, l_paren, r_paren, number, dollar, not, true_word, false_word,
  null_word,
}
use gwead.Dsl.Lexer.Total.{tokenize_total}
use gwead.Dsl.Parser.{
  ◌>>◌, Parser, Parse, bump, descend, ascend, parse_reference_at, primary_of, unary_of, parse_unary,
  parse_expression_at, lexed, parse_all, parse_reference, parse_expression, max_expr_depth,
  max_expr_ops, pure,
}
use gwead.Dsl.Parser.State.{
  Ready, Kept, IsTokens-EndsEof, peek-Ensures, bump-Ensures, expect-Ensures, expect_eof-Ensures,
  descend-Ensures,
}
use gwead.Dsl.Parser.Paths.{parse_reference_at-Ensures}
use gwead.Dsl.Parser.Levels.{
  binaries, negations, height, height-le, Account, Operand, parse_coalesce-Operand,
}

module _ (f64 : F64) where
  open f64 use {Float}

  -- an expression with no operator of its own
  leaf :
      (e : Expression Float) (p p' : Parser Float) (deep : ℕ)
      → binaries e ≡ 0
      → negations e ≡ 0
      → Kept p p'
      → p.depth ≡ deep
      → Ready p
      → Account p.ops deep (e, p')
  leaf e p p' deep b n k d r = record {
    ready = k.ready;
    depth = k.depth ∙ d;
    ops = omega (arith, b, k.ops);
    nested = omega (arith, n, d, r.deep);
  }

  literal-Account :
      (l : Literal Float) (p : Parser Float) (deep : ℕ)
      → Ready p
      → p.depth ≡ deep
      → Ensures (Account p.ops deep) ((bump >> pure (literal l)) p)
  literal-Account l p deep r d = Ensures-bind (bump-Ensures p r) λ (_, p') k.
      holds (leaf (literal l) p p' deep (unfold binaries in refl) (unfold negations in refl) k d r)

  module _ (deep : ℕ) (nested : Parse Float (Expression Float))
      (known : deep < max_expr_depth → Operand (suc deep) nested) where
    -- one level further in
    inside :
        {P : Expression Float × Parser Float → Type 0} (start : ℕ)
        (f : Parse Float (Expression Float)) (p : Parser Float)
        → Ready p
        → p.depth ≡ deep
        → ((p' : Parser Float)
            → Ready p'
            → p'.depth ≡ suc deep
            → p'.ops ≡ p.ops
            → deep < max_expr_depth
            → Ensures P (f p'))
        → Ensures P ((do descend start; bump; f) p)
    inside start f p r d k = Ensures-bind (descend-Ensures start p) λ (_, p₁) (same, cap). rw same (
        Ensures-bind
          (bump-Ensures (record p { depth = p.depth + 1 })
            (record { ends = r.ends; deep = cap; many = r.many }))
          λ (_, p₂) kept. k p₂ kept.ready (omega (arith, kept.depth)) kept.ops (omega arith))

    -- and out again
    outside :
        (e : Expression Float) (base : ℕ) (p : Parser Float)
        → Account base (suc deep) (e, p)
        → Ensures (λ r. Account base deep (e, r.1)) (ascend p)
    unfolding ascend
    outside e base p a = holds (record {
      ready = record {
        ends = a.ready.ends;
        deep = omega (arith, a.ready.deep);
        many = a.ready.many;
      };
      depth = omega (arith, a.depth);
      ops = a.ops;
      nested = omega (arith, a.nested);
    })

    closed :
        (e : Expression Float) (base : ℕ) (p p' : Parser Float)
        → Account base deep (e, p)
        → Kept p p'
        → Account base deep (e, p')
    closed e base p p' a k = record {
      ready = k.ready;
      depth = k.depth ∙ a.depth;
      ops = k.ops ∙ a.ops;
      nested = a.nested;
    }

    primary_of-Account :
        (start : ℕ) (k : TokenKind Float) (p : Parser Float)
        → Ready p
        → p.depth ≡ deep
        → Ensures (Account p.ops deep) (primary_of f64 nested start k p)
    primary_of-Account start l_paren p r d = inside start _ p r d λ p₁ r₁ d₁ o₁ cap.
        Ensures-bind (parse_coalesce-Operand (suc deep) nested (known cap) p₁ r₁ d₁) λ (e, p₂) a.
          Ensures-bind (outside e p.ops p₂ (rw o₁ at a)) λ (_, p₃) b.
            Ensures-bind (expect-Ensures r_paren p₃ b.ready)
              λ (_, p₄) k. holds (closed e p.ops p₃ p₄ b k)
    primary_of-Account start dollar p r d =
        Ensures-bind (parse_reference_at-Ensures f64 p r) λ (path, p') k.
          holds
            (leaf (ref path) p p' deep (unfold binaries in refl) (unfold negations in refl) k d r)
    primary_of-Account start (string s) p r d = literal-Account (Literal.string s) p deep r d
    primary_of-Account start (number n) p r d = literal-Account (Literal.number n) p deep r d
    primary_of-Account start true_word p r d = literal-Account (Literal.bool true) p deep r d
    primary_of-Account start false_word p r d = literal-Account (Literal.bool false) p deep r d
    primary_of-Account start null_word p r d = literal-Account Literal.null p deep r d
    primary_of-Account start _ p r d = rejected

    unary_of-Account :
        (start : ℕ) (k : TokenKind Float) (p : Parser Float)
        → Ready p
        → p.depth ≡ deep
        → Ensures (Account p.ops deep) (unary_of f64 nested start k p)
    unary_of-Account start not p r d = inside start _ p r d λ p₁ r₁ d₁ o₁ cap.
        Ensures-bind (known cap p₁ r₁ d₁) λ (e, p₂) a.
          Ensures-bind (outside e p.ops p₂ (rw o₁ at a)) λ (_, p₃) b. holds (record {
            ready = b.ready;
            depth = b.depth;
            ops = unfold binaries in b.ops;
            nested = unfold negations in omega (arith, a.nested);
          })
    unary_of-Account start k p r d = primary_of-Account start k p r d

  parse_unary-Operand :
      (levels deep : ℕ)
      → max_expr_depth < deep + levels
      → deep ≤ max_expr_depth
      → Operand deep (parse_unary f64 levels)
  unfolding parse_unary
  parse_unary-Operand zero deep h cap p r d = absurd (omega arith)
  parse_unary-Operand (suc levels) deep h cap p r d =
      Ensures-bind (peek-Ensures p r) λ (t, p') (same, _, _). rw same (
        unary_of-Account deep (parse_unary f64 levels)
          (λ more. parse_unary-Operand levels (suc deep) (omega arith) (omega arith)) t.start t.kind
          p r d)

  parse_expression_at-Account : Operand 0 (parse_expression_at f64)
  unfolding parse_expression_at
  parse_expression_at-Account =
      parse_coalesce-Operand 0 _
        (parse_unary-Operand (suc max_expr_depth) 0 (omega arith) (omega arith))

  lexed-Ensures :
      {A : Type 0} {P : A → Type 0} {r : Result (Fault LexError) A}
      → Ensures P r
      → Ensures P (lexed f64 r)
  lexed-Ensures (holds h) = holds h
  lexed-Ensures rejected = rejected

  parse_all-Ensures :
      {A : Type 0} (P : A → Type 0) (parse : Parse Float A) (src : Str)
      → ((p : Parser Float)
          → Ready p
          → p.depth ≡ 0
          → p.ops ≡ 0
          → Ensures (λ r. Ready r.1 × P r.0) (parse p))
      → Ensures P (parse_all f64 parse src)
  unfolding parse_all
  parse_all-Ensures {A} P parse src known =
      Ensures-bind (lexed-Ensures (tokenize_total f64 src)) λ ts t.
        let p : Parser Float = record { tokens = ts; depth = 0; ops = 0 } in
        Ensures-bind
          (Ensures-bind
            (known p
              (record {
                ends = IsTokens-EndsEof 0 (length src) ts t;
                deep = omega arith;
                many = omega arith;
              })
              refl refl)
            λ (a, p') (r, h).
              Ensures-bind {Q = λ (r : A × Parser Float). P r.0} (expect_eof-Ensures p' r)
                λ _ _. holds h)
          λ (a, p') h. holds h

  -- On every text the reference parser returns a reference or an error, with no panic and within
  -- its fuel.
  pub parse_reference_total : (src : Str) → Ensures (λ r. Unit) (parse_reference f64 src)
  unfolding parse_reference
  parse_reference_total src =
      parse_all-Ensures (λ r. Unit) (parse_reference_at f64) src
        λ p r _ _. Ensures-weaken (parse_reference_at-Ensures f64 p r) λ r' k. (k.ready, tt)

  -- What the caps promise of an expression.
  pub record IsBounded (e : Expression Float) : Type 0 where
    pub operators : binaries e ≤ max_expr_ops
    pub nesting : negations e ≤ max_expr_depth
    pub recursion : height e ≤ max_expr_ops + max_expr_depth + 1

  -- On every text the expression parser returns an expression or an error, with no panic and within
  -- its fuel; the expression has at most 256 binary operators and 128 nested negations, so that the
  -- evaluator recurs at most 385 deep.
  pub parse_expression_total : (src : Str) → Ensures IsBounded (parse_expression f64 src)
  unfolding parse_expression
  parse_expression_total src = parse_all-Ensures IsBounded (parse_expression_at f64) src λ p r d o.
      Ensures-weaken (parse_expression_at-Account p r d) λ (e, p') a. (
        a.ready,
        record {
          operators = omega (arith, a.ops, o, a.ready.many);
          nesting = omega (arith, a.nested);
          recursion = omega (arith, a.ops, o, a.ready.many, a.nested, height-le e);
        },
      )
