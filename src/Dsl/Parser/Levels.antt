-- ===== src/Dsl/Parser/Levels.antt =====
-- The levels of precedence: what an expression costs, and that each loop over operators ends.
use gwead.Prelude.{ℕ, zero, suc, ◌+◌, ◌≤◌, ◌<◌, ◌≡◌, ◌∙◌, Option, none, some, arith}
use Prim.Native.Nat.{max}
use gwead.Fault.{Ensures, holds, Ensures-bind}
use gwead.Dsl.Ast.{Expression, BinaryOp, literal, ref, unary, binary}
use gwead.Dsl.Lexer.{TokenKind}
use gwead.Dsl.Parser.{
  Parser, Parse, operator_then, operators, level, parse_comparison, parse_equality, parse_and,
  parse_or, parse_coalesce, max_expr_depth, max_expr_ops,
}
use gwead.Dsl.Parser.State.{Ready, peek-Ensures, bump-Ensures, count_op-Ensures}

-- binary operators, nested `!`, and the depth of the evaluator's recursion
unfoldable pub binaries : {F : Type 0} → Expression F → ℕ
binaries (literal l) = 0
binaries (ref r) = 0
binaries (unary o e) = binaries e
binaries (binary o l r) = suc (binaries l + binaries r)

unfoldable pub negations : {F : Type 0} → Expression F → ℕ
negations (literal l) = 0
negations (ref r) = 0
negations (unary o e) = suc (negations e)
negations (binary o l r) = max (negations l) (negations r)

unfoldable pub height : {F : Type 0} → Expression F → ℕ
height (literal l) = 1
height (ref r) = 1
height (unary o e) = suc (height e)
height (binary o l r) = suc (max (height l) (height r))

pub height-le : {F : Type 0} (e : Expression F) → height e ≤ suc (binaries e + negations e)
unfolding binaries negations height
height-le (literal l) = omega arith
height-le (ref r) = omega arith
height-le (unary o e) = omega (arith, height-le e)
height-le (binary o l r) = omega (arith, height-le l, height-le r)

module _ {F : Type 0} where
  -- What an expression costs: its binary operators are counted from `base`, its negations stand in
  -- `deep` levels.
  pub record Account (base deep : ℕ) (r : Expression F × Parser F) : Type 0 where
    pub ready : Ready r.1
    pub depth : r.1.depth ≡ deep
    pub ops : r.1.ops ≡ base + binaries r.0
    pub nested : negations r.0 + deep ≤ max_expr_depth

  abbrev pub Operand : ℕ → Parse F (Expression F) → Type 0
  Operand deep m = (p : Parser F) → Ready p → p.depth ≡ deep → Ensures (Account p.ops deep) (m p)

  module _ (deep : ℕ) (operand : Parse F (Expression F)) (known : Operand deep operand)
      (base : ℕ) where
    pub operator_then-Account :
        (next : Expression F → Parse F (Expression F)) (left : Expression F) (start : ℕ)
        (o : Option BinaryOp) (p : Parser F)
        → Account base deep (left, p)
        → ((e : Expression F) (p' : Parser F)
            → Account base deep (e, p')
            → p.ops < p'.ops
            → Ensures (Account base deep) (next e p'))
        → Ensures (Account base deep) (operator_then next operand left start o p)
    operator_then-Account next left start none p a k = holds a
    operator_then-Account next left start (some op) p a k =
        Ensures-bind (count_op-Ensures start p) λ (_, p₁) (same, cap). rw same (
          Ensures-bind
            (bump-Ensures (record p { ops = p.ops + 1 })
              (record { ends = a.ready.ends; deep = a.ready.deep; many = cap }))
            λ (_, p₂) kept.
              Ensures-bind (known p₂ kept.ready (kept.depth ∙ a.depth)) λ (right, p₃) b.
                k (binary op left right) p₃
                  (record {
                    ready = b.ready;
                    depth = b.depth;
                    ops = unfold binaries in omega (arith, b.ops, kept.ops, a.ops);
                    nested = unfold negations in omega (arith, a.nested, b.nested);
                  })
                  (omega (arith, b.ops, kept.ops)))

    pub operators-Account :
        (fuel : ℕ) (op : TokenKind F → Option BinaryOp) (left : Expression F) (p : Parser F)
        → Account base deep (left, p)
        → max_expr_ops < p.ops + fuel
        → Ensures (Account base deep) (operators fuel op operand left p)
    unfolding operators
    operators-Account zero op left p a h = absurd (omega (arith, a.ready.many))
    operators-Account (suc fuel) op left p a h =
        Ensures-bind (peek-Ensures p a.ready) λ (t, p') (same, _, _). rw same (
          operator_then-Account (operators fuel op operand) left t.start (op t.kind) p a
            λ e p' b more. operators-Account fuel op e p' b (omega arith))

  pub level-Operand :
      (deep : ℕ) (op : TokenKind F → Option BinaryOp) (operand : Parse F (Expression F))
      → Operand deep operand
      → Operand deep (level op operand)
  unfolding level
  level-Operand deep op operand known p r e = Ensures-bind (known p r e) λ (left, p') a.
      operators-Account deep operand known p.ops (suc max_expr_ops) op left p' a (omega arith)

  pub parse_coalesce-Operand :
      (deep : ℕ) (operand : Parse F (Expression F))
      → Operand deep operand
      → Operand deep (parse_coalesce operand)
  unfolding parse_coalesce parse_or parse_and parse_equality parse_comparison
  parse_coalesce-Operand deep operand known = level-Operand deep _ _ (
      level-Operand deep _ _
        (level-Operand deep _ _ (level-Operand deep _ _ (level-Operand deep _ operand known))))
