-- ===== src/Dsl/Parser/State.antt =====
-- What each step of the parser does to its state.
use gwead.Prelude.{
  ℕ, suc, ◌+◌, ◌≤◌, ◌<◌, ◌≡◌, refl, ap, Bool, true, false, List, [], ◌∷◌, ltb, length, arith,
  Bool-cases, inl, inr,
}
use gwead.Prelude.Outcome
use gwead.Prelude.Outcome.{Result, ok, err}
use gwead.Fault.{Ensures, holds, rejected, Ensures-bind, Ensures-weaken}
use gwead.Dsl.Lexer.{TokenKind, Token, is_eof, ident, string}
use gwead.Dsl.Lexer.Total.{IsTokens, Ends}
use gwead.Dsl.Parser.{
  Parser, Parse, Run, Message, peek, bump, expect, expect_eof, descend, count_op, advance,
  first_token, same_kind, take_ident, take_string, ident_of, string_of, max_expr_depth,
  max_expr_ops,
}

-- the last token is `eof`, and no other is
abbrev pub EndsEof : {F : Type 0} → List (Token F) → Type 0
EndsEof [] = ⊥
EndsEof (t ∷ ts) = Ends (is_eof t.kind) ts (EndsEof ts)

Ends-map :
    {F : Type 0} {P Q : Type 0} (b : Bool) (ts : List (Token F))
    → (P → Q)
    → Ends b ts P
    → Ends b ts Q
Ends-map true ts f h = h
Ends-map false ts f h = f h

pub IsTokens-EndsEof : {F : Type 0} (lo n : ℕ) (ts : List (Token F)) → IsTokens lo n ts → EndsEof ts
IsTokens-EndsEof lo n [] h = h
IsTokens-EndsEof lo n (t ∷ ts) h =
    Ends-map (is_eof t.kind) ts (IsTokens-EndsEof (suc t.start) n ts) h.3

module _ {F : Type 0} where
  pub record Ready (p : Parser F) : Type 0 where
    pub ends : EndsEof p.tokens
    pub deep : p.depth ≤ max_expr_depth
    pub many : p.ops ≤ max_expr_ops

  -- A step that leaves the counters and takes no token back.
  pub record Kept (p p' : Parser F) : Type 0 where
    pub ready : Ready p'
    pub depth : p'.depth ≡ p.depth
    pub ops : p'.ops ≡ p.ops
    pub shorter : length p'.tokens ≤ length p.tokens

  pub Kept-refl : (p : Parser F) → Ready p → Kept p p
  Kept-refl p r = record { ready = r; depth = refl; ops = refl; shorter = omega arith }

  pub Kept-trans : {p q r : Parser F} → Kept p q → Kept q r → Kept p r
  Kept-trans h k = record {
    ready = k.ready;
    depth = omega (arith, h.depth, k.depth);
    ops = omega (arith, h.ops, k.ops);
    shorter = omega (arith, h.shorter, k.shorter);
  }

  EndsEof-advance :
      (t : Token F) (ts : List (Token F)) → EndsEof (t ∷ ts) → EndsEof (advance (t ∷ ts))
  EndsEof-advance t ts h = elim (Bool-cases (is_eof t.kind)) [
    | inl e ↦ rw e h
    | inr e ↦ rw e (rw e at h)
  ]

  length-advance : (ts : List (Token F)) → length (advance ts) ≤ length ts
  length-advance [] = omega arith
  length-advance (t ∷ ts) = ground arith

  advanced :
      (p : Parser F) (t : Token F) (ts : List (Token F))
      → Ready p
      → p.tokens ≡ t ∷ ts
      → Kept p (record p { tokens = advance p.tokens })
  advanced p t ts r e = record {
    ready = record {
      ends = rw e (EndsEof-advance t ts (rw e at r.ends));
      deep = r.deep;
      many = r.many;
    };
    depth = refl;
    ops = refl;
    shorter = length-advance p.tokens;
  }

  -- what `peek` shows: the state is as it was, and the token is the first
  abbrev pub Peeked : Parser F → Token F × Parser F → Type 0
  Peeked p r = (r.1 ≡ p) × (ts : List (Token F)) × (p.tokens ≡ r.0 ∷ ts)

  first_token_cases :
      (ts : List (Token F))
      → EndsEof ts
      → (t : Token F) × (rest : List (Token F)) × (ts ≡ t ∷ rest) × (first_token ts ≡ ok t)
  first_token_cases [] h = absurd h
  first_token_cases (t ∷ ts) h = (t, ts, refl, refl)

  pub peek-Ensures : (p : Parser F) → Ready p → Ensures (Peeked p) (peek p)
  unfolding peek
  peek-Ensures p r =
      let (t, ts, e, f) = first_token_cases p.tokens r.ends in rw f (holds (refl, ts, e))

  pub bump-Ensures : (p : Parser F) → Ready p → Ensures (λ r. Kept p r.1) (bump p)
  unfolding bump
  bump-Ensures p r =
      let (t, ts, e, f) = first_token_cases p.tokens r.ends in rw f (holds (advanced p t ts r e))

  -- a token that is not the end is taken
  pub bump-shorter :
      (p : Parser F) (t : Token F) (ts : List (Token F))
      → Ready p
      → p.tokens ≡ t ∷ ts
      → is_eof t.kind ≡ false
      → Ensures (λ r. Kept p r.1 × (length r.1.tokens < length p.tokens)) (bump p)
  unfolding bump
  bump-shorter p t ts r e more =
      let shorter : length (advance p.tokens) < length p.tokens = rw (e, more) (omega arith) in
      rw (ap first_token e) (holds (advanced p t ts r e, shorter))

  pub expect-Ensures :
      (want : TokenKind F) (p : Parser F) → Ready p → Ensures (λ r. Kept p r.1) (expect want p)
  unfolding expect
  expect-Ensures want p r = Ensures-bind (peek-Ensures p r) λ (t, p') (same, _, _).
      rw same (elim (Bool-cases (same_kind t.kind want)) [
        | inl e ↦ rw e (bump-Ensures p r)
        | inr e ↦ rw e rejected
      ])

  -- `expect_eof` passes only at the last token.
  pub expect_eof-Ensures :
      (p : Parser F) → Ready p → Ensures (λ r. (r.1 ≡ p) × (length p.tokens ≡ 1)) (expect_eof p)
  unfolding expect_eof
  expect_eof-Ensures p r = Ensures-bind (peek-Ensures p r) λ (t, p') (same, ts, first).
      rw same (elim (Bool-cases (is_eof t.kind)) [
        | inl e ↦ rw e (holds (refl, omega (arith, ap length first, ap length (last t ts first e))))
        | inr e ↦ rw e rejected
      ])
    where
      last :
          (t : Token F) (ts : List (Token F)) → p.tokens ≡ t ∷ ts → is_eof t.kind ≡ true → ts ≡ []
      last t ts first e = rw e at (rw first at r.ends)

  ident_of-Ensures :
      (message : Message F) (start : ℕ) (k : TokenKind F) (p : Parser F)
      → Ready p
      → Ensures (λ r. Kept p r.1) (ident_of message start k p)
  ident_of-Ensures message start (ident name) p r = holds (Kept-refl p r)
  ident_of-Ensures message start _ p r = rejected

  string_of-Ensures :
      (message : Message F) (start : ℕ) (k : TokenKind F) (p : Parser F)
      → Ready p
      → Ensures (λ r. Kept p r.1) (string_of message start k p)
  string_of-Ensures message start (string s) p r = holds (Kept-refl p r)
  string_of-Ensures message start _ p r = rejected

  -- A step after a step that kept the state.
  pub Kept-bind :
      {A B : Type 0} {m : Run F (A × Parser F)} {f : A → Parse F B} (p : Parser F)
      → Ensures (λ r. Kept p r.1) m
      → ((a : A) (p' : Parser F) → Ready p' → Ensures (λ r. Kept p' r.1) (f a p'))
      → Ensures (λ r. Kept p r.1) (Outcome.◌>>=◌ m (λ (a, p'). f a p'))
  Kept-bind p h k =
      Ensures-bind h
        λ (a, p') kept. Ensures-weaken (k a p' kept.ready) λ r later. Kept-trans kept later

  pub take_ident-Ensures :
      (message : Message F) (p : Parser F)
      → Ready p
      → Ensures (λ r. Kept p r.1) (take_ident message p)
  unfolding take_ident
  take_ident-Ensures message p r =
      Kept-bind p (bump-Ensures p r) λ t. ident_of-Ensures message t.start t.kind

  pub take_string-Ensures :
      (message : Message F) (p : Parser F)
      → Ready p
      → Ensures (λ r. Kept p r.1) (take_string message p)
  unfolding take_string
  take_string-Ensures message p r =
      Kept-bind p (bump-Ensures p r) λ t. string_of-Ensures message t.start t.kind

  -- One more operator, within the cap.
  pub count_op-Ensures :
      (position : ℕ) (p : Parser F)
      → Ensures
          (λ r. (r.1 ≡ record p { ops = p.ops + 1 }) × (p.ops + 1 ≤ max_expr_ops))
          (count_op position p)
  unfolding count_op
  count_op-Ensures position p = elim (Bool-cases (ltb max_expr_ops (p.ops + 1))) [
    | inl e ↦ rw e rejected
    | inr e ↦ rw e (holds (refl, ground arith))
  ]

  -- One more level, within the cap.
  pub descend-Ensures :
      (position : ℕ) (p : Parser F)
      → Ensures
          (λ r. (r.1 ≡ record p { depth = p.depth + 1 }) × (p.depth + 1 ≤ max_expr_depth))
          (descend position p)
  unfolding descend
  descend-Ensures position p = elim (Bool-cases (ltb max_expr_depth (p.depth + 1))) [
    | inl e ↦ rw e rejected
    | inr e ↦ rw e (holds (refl, ground arith))
  ]
