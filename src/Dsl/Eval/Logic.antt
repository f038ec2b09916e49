-- ===== src/Dsl/Eval/Logic.antt =====
-- The laws of the logical operators, over any context.
use gwead.Prelude.{◌≡◌, arith}
use gwead.Dsl.Float.{F64}
use gwead.Dsl.Ast.{Expression, UnaryOp, BinaryOp, unary, binary}
use gwead.Dsl.Eval.{EvalContext, is_truthy, eval_binary, eval_expression}

module _ (f64 : F64) where
  open f64 use {Float, Number}

  abbrev pub not_of : Expression Float → Expression Float
  not_of e = unary UnaryOp.not e

  -- `!(a && b)` evaluates to what `!a || !b` does, and `!(a || b)` to what `!a && !b` does.
  pub de_morgan :
      (a b : Expression Float) (ctx : EvalContext Number)
      → (eval_expression f64 (not_of (binary BinaryOp.and a b)) ctx
          ≡ eval_expression f64 (binary BinaryOp.or (not_of a) (not_of b)) ctx)
        × (eval_expression f64 (not_of (binary BinaryOp.or a b)) ctx
            ≡ eval_expression f64 (binary BinaryOp.and (not_of a) (not_of b)) ctx)
  unfolding eval_expression eval_binary is_truthy
  de_morgan a b ctx = ground arith

  -- `??` associates.
  pub coalesce_assoc :
      (a b c : Expression Float) (ctx : EvalContext Number)
      → eval_expression f64 (binary BinaryOp.coalesce (binary BinaryOp.coalesce a b) c) ctx
        ≡ eval_expression f64 (binary BinaryOp.coalesce a (binary BinaryOp.coalesce b c)) ctx
  unfolding eval_expression eval_binary
  coalesce_assoc a b c ctx = ground arith
