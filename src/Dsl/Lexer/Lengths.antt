-- ===== src/Dsl/Lexer/Lengths.antt =====
-- How much of the text a token takes.
use mathlib.Core.List.{tail}
use gwead.Prelude.{
  ℕ, suc, ◌+◌, ◌<◌, ◌≡◌, refl, Bool, true, false, ◌||◌, Option, none, some, [], ◌∷◌, ◌++◌, ◌==◌,
  length, length-append, arith, Bool-cases, inl, inr,
}
use gwead.Text.{is_ascii_digit}
use gwead.Text.Utf8.{from_utf8}
use gwead.Fault.{Ensures, holds, rejected}
use gwead.Dsl.Ast.{Str}
use gwead.Dsl.Lexer.{
  TokenKind, Token, Lexer, is_eof, span, single, double, prefix, word, lex_string, lex_ident,
  number_text, sign_part, fraction_part, string_token, close_string, ident_token, is_quoted,
  is_ident_byte,
}

pub length-span : (p : ℕ → Bool) (s : Str) → length (span p s).0 + length (span p s).1 ≡ length s
unfolding span
length-span p [] = omega arith
length-span p (b ∷ r) = ground (arith, length-span p r)

-- a byte that passes is taken
pub span_first : (p : ℕ → Bool) (b : ℕ) (r : Str) → p b ≡ true → 0 < length (span p (b ∷ r)).0
unfolding span
span_first p b r h = ground arith

pub length-sign_part : (s : Str) → length (sign_part s).0 + length (sign_part s).1 ≡ length s
length-sign_part [] = omega arith
length-sign_part (b ∷ r) = ground arith

pub length-fraction_part :
    (s : Str) → length (fraction_part s).0 + length (fraction_part s).1 ≡ length s
length-fraction_part [] = omega arith
length-fraction_part (b ∷ r) = ground (arith, length-span is_ascii_digit r)

pub length-number_text : (s : Str) → length (number_text s).0 + length (number_text s).1 ≡ length s
unfolding number_text
length-number_text s =
    let (sign, r₁) = sign_part s in
    let (digits, r₂) = span is_ascii_digit r₁ in
    omega (
      arith,
      length-append sign (digits ++ (fraction_part r₂).0),
      length-append digits (fraction_part r₂).0,
      length-sign_part s,
      length-span is_ascii_digit r₁,
      length-fraction_part r₂,
    )

pub number_text_first :
    (b : ℕ) (r : Str) → (is_ascii_digit b || b == b'-') ≡ true → 0 < length (number_text (b ∷ r)).0
unfolding number_text
number_text_first b r h = elim (Bool-cases (b == b'-')) [
  | inl e ↦ rw e (omega arith)
  | inr e ↦ rw e (
      omega (
        arith,
        length-append (span is_ascii_digit (b ∷ r)).0
            (fraction_part (span is_ascii_digit (b ∷ r)).1).0,
        span_first is_ascii_digit b r (ground arith),
      ))
]

pub word_more : (F : Type 0) (raw : Str) → is_eof (word {F = F} raw) ≡ false
unfolding word
word_more F raw = ground arith

module _ {F : Type 0} where
  -- The token starts at `start`, is not the end, and the lexer moves past it: `n` bytes were left.
  pub record Takes (start n : ℕ) (r : Token F × Lexer) : Type 0 where
    pub starts : r.0.start ≡ start
    pub more : is_eof r.0.kind ≡ false
    pub moves : start < r.1.pos
    pub keeps : r.1.pos + length r.1.rest ≡ start + n

  pub single_more : (b : ℕ) {k : TokenKind F} → single b ≡ some k → is_eof k ≡ false
  unfolding single
  single_more b h = ground arith

  -- a two-byte operator has its second byte
  pub double_more :
      (b : ℕ) (r : Str) {k : TokenKind F}
      → double b r ≡ some k
      → (is_eof k ≡ false) × (suc (length (tail r)) ≡ length r)
  unfolding double
  double_more b [] h = ground arith
  double_more b (c ∷ r) h = ground arith

  pub prefix_more : (b : ℕ) {k : TokenKind F} → prefix b ≡ some k → is_eof k ≡ false
  unfolding prefix
  prefix_more b h = ground arith

  pub lex_string-Takes :
      (start : ℕ) (b : ℕ) (r : Str)
      → Ensures (Takes start (length (b ∷ r))) (lex_string {F = F} start r)
  unfolding lex_string
  lex_string-Takes start b r =
      closed (span is_quoted r).0 (span is_quoted r).1 (length-span is_quoted r)
    where
      token :
          (content rest : Str)
          → length content + suc (length rest) ≡ length r
          → (o : Option Str)
          → Ensures
              (Takes start (length (b ∷ r)))
              (string_token {F = F} start (start + 1 + length content + 1) rest o)
      token content rest e none = rejected
      token content rest e (some s) =
          holds (record { starts = refl; more = refl; moves = omega arith; keeps = omega arith })

      closed :
          (content rest : Str)
          → length content + length rest ≡ length r
          → Ensures (Takes start (length (b ∷ r))) (close_string {F = F} start content rest)
      closed content [] e = rejected
      closed content (q ∷ rest) e = token content rest e (from_utf8 content)

  pub lex_ident-Takes :
      (start : ℕ) (b : ℕ) (r : Str)
      → is_ident_byte b ≡ true
      → Ensures (Takes start (length (b ∷ r))) (lex_ident {F = F} start (b ∷ r))
  unfolding lex_ident
  lex_ident-Takes start b r h = token (from_utf8 (span is_ident_byte (b ∷ r)).0)
    where
      token :
          (o : Option Str)
          → Ensures (Takes start (length (b ∷ r))) (
              ident_token {F = F} start
                (start + length (span is_ident_byte (b ∷ r)).0)
                (span is_ident_byte (b ∷ r)).1
                o)
      token none = rejected
      token (some raw) = holds (record {
        starts = refl;
        more = word_more F raw;
        moves = omega (arith, span_first is_ident_byte b r h);
        keeps = omega (arith, length-span is_ident_byte (b ∷ r));
      })
