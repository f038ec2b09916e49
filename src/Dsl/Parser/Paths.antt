-- ===== src/Dsl/Parser/Paths.antt =====
-- The parts of a reference: the parser keeps its counters, and the loop over segments ends.
use gwead.Prelude.{
  ℕ, zero, suc, ◌<◌, ◌≡◌, refl, Bool, true, false, ◌||◌, List, ◌∷◌, if◌then◌else◌, length, arith,
}
use gwead.Text.{str_eq, chars}
use gwead.Fault.{Ensures, holds, rejected, Ensures-bind}
use gwead.Dsl.Float.{F64}
use gwead.Dsl.Ast.{Str, Root, PathSegment}
use gwead.Dsl.Lexer.{
  TokenKind, Token, ident, dot, at, eq, l_paren, r_paren, r_bracket, l_bracket, star, number,
  question, dollar,
}
use gwead.Dsl.Parser.{
  ◌>>=◌, ◌>>◌, Parser, Parse, bump, expect, take_ident, named_root, root_of, parse_root,
  parse_filter, bracket_of, parse_bracket_segment, segment_of, segments, parse_path_segments,
  parse_reference_at, pure, expected_step_id, expected_filter_field, filter_not_string,
  expected_field,
}
use gwead.Dsl.Parser.State.{
  Ready, Kept, Kept-refl, Kept-trans, Kept-bind, peek-Ensures, bump-Ensures, bump-shorter,
  expect-Ensures, take_ident-Ensures, take_string-Ensures,
}

module _ {F : Type 0} where
  pub Ensures-choice :
      {A : Type 0} {P : A × Parser F → Type 0} (b : Bool) (m n : Parse F A) (p : Parser F)
      → Ensures P (m p)
      → Ensures P (n p)
      → Ensures P ((if b then m else n) p)
  Ensures-choice true m n p h k = h
  Ensures-choice false m n p h k = k

  pub named_root-Ensures :
      (name : Str) (position : ℕ) (p : Parser F)
      → Ready p
      → Ensures (λ r. Kept p r.1) (named_root name position p)
  unfolding named_root
  named_root-Ensures name position p r =
      Ensures-choice (str_eq name (chars "input")) _ _ p (taken Root.input) (
        Ensures-choice (str_eq name (chars "config")) _ _ p (taken Root.config) (
          Ensures-choice (str_eq name (chars "secrets")) _ _ p (taken Root.secrets) (
            Ensures-choice (str_eq name (chars "trigger")) _ _ p (taken Root.trigger) (
              Ensures-choice (str_eq name (chars "vars")) _ _ p (taken Root.vars) (
                Ensures-choice (str_eq name (chars "item")) _ _ p (taken Root.item)
                  (Ensures-choice (str_eq name (chars "steps")) _ _ p step rejected))))))
    where
      taken : (root : Root) → Ensures (λ r. Kept p r.1) ((bump >> pure root) p)
      taken root = Kept-bind p (bump-Ensures p r) λ _ p r. holds (Kept-refl p r)

      step :
          Ensures
            (λ r. Kept p r.1)
            ((do bump; expect dot; id ← take_ident expected_step_id; pure (Root.steps id)) p)
      step = Kept-bind p (bump-Ensures p r) λ _ p r. Kept-bind p (expect-Ensures dot p r) λ _ p r.
          Kept-bind p (take_ident-Ensures expected_step_id p r) λ _ p r. holds (Kept-refl p r)

  pub root_of-Ensures :
      (start : ℕ) (k : TokenKind F) (p : Parser F)
      → Ready p
      → Ensures (λ r. Kept p r.1) (root_of start k p)
  root_of-Ensures start (ident name) p r = named_root-Ensures name start p r
  root_of-Ensures start _ p r = holds (Kept-refl p r)

  pub parse_root-Ensures : (p : Parser F) → Ready p → Ensures (λ r. Kept p r.1) (parse_root p)
  unfolding parse_root
  parse_root-Ensures p r =
      Ensures-bind (peek-Ensures p r)
        λ (t, p') (same, _, _). rw same (root_of-Ensures t.start t.kind p r)

  pub parse_filter-Ensures : (p : Parser F) → Ready p → Ensures (λ r. Kept p r.1) (parse_filter p)
  unfolding parse_filter
  parse_filter-Ensures p r = Kept-bind p (expect-Ensures l_paren p r) λ _ p r.
      Kept-bind p (expect-Ensures at p r) λ _ p r. Kept-bind p (expect-Ensures dot p r) λ _ p r.
        Kept-bind p (take_ident-Ensures expected_filter_field p r) λ name p r.
          Kept-bind p (expect-Ensures eq p r) λ _ p r.
            Kept-bind p (take_string-Ensures filter_not_string p r)
              λ value p r. Kept-bind p (expect-Ensures r_paren p r) λ _ p r. holds (Kept-refl p r)

module _ (f64 : F64) where
  open f64 use {Float, is_negative, has_fract, to_usize}

  pub bracket_of-Ensures :
      (start : ℕ) (k : TokenKind Float) (p : Parser Float)
      → Ready p
      → Ensures (λ r. Kept p r.1) (bracket_of f64 start k p)
  bracket_of-Ensures start star p r = holds (Kept-refl p r)
  bracket_of-Ensures start (number n) p r =
      Ensures-choice (is_negative n || has_fract n) _ _ p rejected (holds (Kept-refl p r))
  bracket_of-Ensures start question p r = parse_filter-Ensures p r
  bracket_of-Ensures start _ p r = rejected

  pub parse_bracket_segment-Ensures :
      (p : Parser Float) → Ready p → Ensures (λ r. Kept p r.1) (parse_bracket_segment f64 p)
  unfolding parse_bracket_segment
  parse_bracket_segment-Ensures p r = Kept-bind p (bump-Ensures p r) λ t p r.
      Kept-bind p (bracket_of-Ensures t.start t.kind p r)
        λ seg p r. Kept-bind p (expect-Ensures r_bracket p r) λ _ p r. holds (Kept-refl p r)

  pub segment_of-Ensures :
      (next : Parse Float (List PathSegment)) (p : Parser Float) (t : Token Float)
      (ts : List (Token Float)) (k : TokenKind Float)
      → Ready p
      → p.tokens ≡ t ∷ ts
      → t.kind ≡ k
      → ((p' : Parser Float)
          → Ready p'
          → length p'.tokens < length p.tokens
          → Ensures (λ r. Kept p' r.1) (next p'))
      → Ensures (λ r. Kept p r.1) (segment_of f64 next k p)
  segment_of-Ensures next p t ts dot r first e rest =
      Ensures-bind (bump-shorter p t ts r first (rw e refl)) λ (_, p₁) (k₁, less).
        Ensures-bind (take_ident-Ensures expected_field p₁ k₁.ready) λ (name, p₂) k₂.
          Ensures-bind (rest p₂ k₂.ready (omega (arith, k₂.shorter)))
            λ (later, p₃) k₃. holds (Kept-trans k₁ (Kept-trans k₂ k₃))
  segment_of-Ensures next p t ts l_bracket r first e rest =
      Ensures-bind (bump-shorter p t ts r first (rw e refl)) λ (_, p₁) (k₁, less).
        Ensures-bind (parse_bracket_segment-Ensures p₁ k₁.ready) λ (seg, p₂) k₂.
          Ensures-bind (rest p₂ k₂.ready (omega (arith, k₂.shorter)))
            λ (later, p₃) k₃. holds (Kept-trans k₁ (Kept-trans k₂ k₃))
  segment_of-Ensures next p t ts _ r first e rest = holds (Kept-refl p r)

  pub segments-Ensures :
      (fuel : ℕ) (p : Parser Float)
      → Ready p
      → length p.tokens < fuel
      → Ensures (λ r. Kept p r.1) (segments f64 fuel p)
  unfolding segments
  segments-Ensures zero p r h = absurd (omega arith)
  segments-Ensures (suc fuel) p r h = Ensures-bind (peek-Ensures p r) λ (t, p') (same, ts, first).
      rw same (
        segment_of-Ensures (segments f64 fuel) p t ts t.kind r first refl
          λ p'' r'' less. segments-Ensures fuel p'' r'' (omega arith))

  pub parse_reference_at-Ensures :
      (p : Parser Float) → Ready p → Ensures (λ r. Kept p r.1) (parse_reference_at f64 p)
  unfolding parse_reference_at parse_path_segments
  parse_reference_at-Ensures p r = Kept-bind p (expect-Ensures dollar p r) λ _ p r.
      Kept-bind p (parse_root-Ensures p r) λ root p r.
        Kept-bind p (segments-Ensures (suc (length p.tokens)) p r (omega arith))
          λ path p r. holds (Kept-refl p r)
