-- ===== src/Dsl/Lexer/Total.antt =====
-- The lexer returns on every text, and what it returns is a well-formed sequence of tokens.
use gwead.Prelude.{
  subst, ℕ, zero, suc, ◌+◌, ◌≤◌, ◌<◌, ◌≡◌, refl, Bool, true, false, ◌&&◌, ◌||◌, Option, none, some,
  List, [], ◌∷◌, ◌==◌, length, arith, ◌⊎◌, inl, inr,
}
use gwead.Text.{is_ascii_digit, is_ascii_alphabetic, is_ascii_alphanumeric}
use gwead.Text.Utf8.{from_utf8}
use gwead.Fault.{Ensures, holds, rejected, Ensures-bind, Ensures-if, Ensures-weaken}
use gwead.Dsl.Float.{F64}
use gwead.Dsl.Ast.{Str}
use gwead.Dsl.Lexer.{
  TokenKind, Token, Lexer, is_eof, span, skip_whitespace, is_space, single, double, prefix,
  lex_number, lex_word, number_text, number_token, number_value, next_token, tokenize_from,
  tokenize, is_ident_byte, starts_digit, quote, lex_at, lex_single, lex_double, lex_prefix,
}
use gwead.Dsl.Lexer.Lengths.{
  length-span, length-number_text, number_text_first, Takes, single_more, double_more, prefix_more,
  lex_string-Takes, lex_ident-Takes,
}

-- Each token starts behind the one before it, the end of the text is at `n`, and the `eof` token
-- stands there, last and nowhere else.
abbrev pub Ends : {F : Type 0} → Bool → List (Token F) → Type 0 → Type 0
Ends true ts P = ts ≡ []
Ends false ts P = P

abbrev pub IsTokens : {F : Type 0} → ℕ → ℕ → List (Token F) → Type 0
IsTokens lo n [] = ⊥
IsTokens lo n (t ∷ ts) =
    (lo ≤ t.start)
    × (t.start ≤ n)
    × (is_eof t.kind ≡ true → t.start ≡ n)
    × Ends (is_eof t.kind) ts (IsTokens (suc t.start) n ts)

module _ (f64 : F64) where
  open f64 use {Float, parse}

  lex_number-Takes :
      (start : ℕ) (b : ℕ) (r : Str)
      → (is_ascii_digit b || b == b'-') ≡ true
      → Ensures (Takes start (length (b ∷ r))) (lex_number f64 start (b ∷ r))
  unfolding lex_number
  lex_number-Takes start b r h = token (from_utf8 (number_text (b ∷ r)).0)
    where
      valued :
          (raw : Str) (o : Option Float)
          → Ensures (Takes start (length (b ∷ r))) (
              number_value f64 raw start
                (start + length (number_text (b ∷ r)).0)
                (number_text (b ∷ r)).1
                o)
      valued raw none = rejected
      valued raw (some n) = holds (record {
        starts = refl;
        more = refl;
        moves = omega (arith, number_text_first b r h);
        keeps = omega (arith, length-number_text (b ∷ r));
      })

      token :
          (o : Option Str)
          → Ensures (Takes start (length (b ∷ r))) (
              number_token f64 start
                (start + length (number_text (b ∷ r)).0)
                (number_text (b ∷ r)).1
                o)
      token none = rejected
      token (some raw) = valued raw (parse raw)

  lex_word-Takes :
      (start b : ℕ) (r : Str) → Ensures (Takes start (length (b ∷ r))) (lex_word f64 start b r)
  unfolding lex_word
  lex_word-Takes start b r =
      Ensures-if (b == quote) (λ _. lex_string-Takes start b r)
        λ _.
          Ensures-if (is_ascii_digit b || b == b'-' && starts_digit r)
            (λ e. lex_number-Takes start b r (ground arith))
            λ _.
              Ensures-if (is_ascii_alphabetic b || b == b'_')
                (λ e.
                  lex_ident-Takes start b r
                    (unfold is_ident_byte is_ascii_alphanumeric in ground arith))
                λ _. rejected

  lex_single-Takes :
      (start b : ℕ) (r : Str)
      → Ensures (Takes start (length (b ∷ r))) (lex_single f64 start b r (single b))
  lex_single-Takes start b r = one (single b) refl
    where
      three :
          (o : Option (TokenKind Float))
          → prefix b ≡ o
          → Ensures (Takes start (length (b ∷ r))) (lex_prefix f64 start b r o)
      three none e = lex_word-Takes start b r
      three (some k) e = holds (record {
        starts = refl;
        more = prefix_more b e;
        moves = omega arith;
        keeps = omega arith;
      })

      two :
          (o : Option (TokenKind Float))
          → double b r ≡ o
          → Ensures (Takes start (length (b ∷ r))) (lex_double f64 start b r o)
      two none e = three (prefix b) refl
      two (some k) e =
          let (more, len) = double_more b r e in
          holds (record { starts = refl; more = more; moves = omega arith; keeps = omega arith })

      one :
          (o : Option (TokenKind Float))
          → single b ≡ o
          → Ensures (Takes start (length (b ∷ r))) (lex_single f64 start b r o)
      one none e = two (double b r) refl
      one (some k) e = holds (record {
        starts = refl;
        more = single_more b e;
        moves = omega arith;
        keeps = omega arith;
      })

  -- What `next_token` gives from `l`: the end of the text, or a token that starts later and more.
  abbrev Next : Lexer → Token Float × Lexer → Type 0
  Next l r =
      ((is_eof r.0.kind ≡ true) × (r.0.start ≡ l.pos + length l.rest))
      ⊎ ((is_eof r.0.kind ≡ false)
          × (l.pos ≤ r.0.start)
          × (r.0.start < r.1.pos)
          × (r.1.pos + length r.1.rest ≡ l.pos + length l.rest))

  next_token-Next : (l : Lexer) → Ensures (Next l) (next_token f64 l)
  unfolding next_token skip_whitespace
  next_token-Next l =
      from (span is_space l.rest).0 (span is_space l.rest).1 (length-span is_space l.rest)
    where
      from :
          (passed left : Str)
          → length passed + length left ≡ length l.rest
          → Ensures (Next l) (lex_at f64 left (l.pos + length passed))
      from passed [] e = holds (inl (refl, omega arith))
      from passed (b ∷ r) e = Ensures-weaken (lex_single-Takes (l.pos + length passed) b r) λ a t.
          inr (
            t.more,
            omega (arith, t.starts),
            omega (arith, t.starts, t.moves),
            omega (arith, t.keeps),
          )

  IsTokens-lower :
      (lo lo' n : ℕ) (ts : List (Token Float)) → lo' ≤ lo → IsTokens lo n ts → IsTokens lo' n ts
  IsTokens-lower lo lo' n [] h k = absurd k
  IsTokens-lower lo lo' n (t ∷ ts) h k = (omega arith, k.1, k.2, k.3)

  tokenize_from-IsTokens :
      (fuel : ℕ) (l : Lexer)
      → length l.rest < fuel
      → Ensures (IsTokens l.pos (l.pos + length l.rest)) (tokenize_from f64 fuel l)
  unfolding tokenize_from
  tokenize_from-IsTokens zero l h = absurd (omega arith)
  tokenize_from-IsTokens (suc fuel) l h = Ensures-bind (next_token-Next l) λ (t, l') k. elim k [
    | inl (e, at_end) ↦ rw e (holds (omega arith, omega arith, λ _. at_end, rw e refl))
    | inr (e, from, moved, kept) ↦ rw e (
        Ensures-bind (tokenize_from-IsTokens fuel l' (omega arith)) λ ts later. holds (
          from,
          omega arith,
          λ x. cc (e, x),
          rw e (rw kept at (IsTokens-lower l'.pos (suc t.start) _ ts moved later)),
        ))
  ]

  -- On every text the lexer returns: its tokens or an error, within the fuel given, and the tokens
  -- start in order within the text and end in one `eof` at its end.
  pub tokenize_total : (src : Str) → Ensures (IsTokens 0 (length src)) (tokenize f64 src)
  unfolding tokenize
  tokenize_total src =
      Ensures-weaken
        (tokenize_from-IsTokens (suc (length src)) (record { rest = src; pos = 0 }) (omega arith))
        λ ts h. subst (λ n. IsTokens 0 n ts) (omega arith) h
