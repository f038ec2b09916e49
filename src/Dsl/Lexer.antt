-- ===== src/Dsl/Lexer.antt =====
-- src/dsl/lexer.rs. The lexer's state is the source from its position on, and the position.
pub mod Lengths
pub mod Total
use mathlib.Core.List.{head?, tail}
use gwead.Prelude.{
  ℕ, zero, suc, ◌+◌, Bool, true, false, ◌&&◌, ◌||◌, Option, none, some, List, [], ◌∷◌, ◌++◌, leb,
  ◌==◌, if◌then◌else◌, length,
}
use gwead.Prelude.Outcome.{Result, ok, err, ◌>>=◌}
use gwead.Text.{str_eq, chars, is_ascii_alphabetic, is_ascii_digit, is_ascii_alphanumeric}
use gwead.Text.Utf8.{from_utf8}
use gwead.Fault.{Fault, error, out_of_fuel}
use gwead.Dsl.Float.{F64}
use gwead.Dsl.Ast.{Str}

pub data TokenKind (F : Type 0) : Type 0 where
  dollar dot l_bracket r_bracket l_paren r_paren question at star : TokenKind F
  eq not_eq lt le gt ge not and or coalesce : TokenKind F
  ident string : Str → TokenKind F
  number : F → TokenKind F
  true_word false_word null_word eof : TokenKind F

pub record Token (F : Type 0) : Type 0 where
  pub kind : TokenKind F
  pub start : ℕ

-- The messages of the lexer, with the values that they print.
pub data Message : Type 0 where
  unexpected_byte : ℕ → Message
  unterminated_string invalid_utf8_in_string invalid_utf8_in_number invalid_utf8_in_ident : Message
  invalid_number : Str → Message

pub record LexError : Type 0 where
  pub message : Message
  pub position : ℕ

pub record Lexer : Type 0 where
  pub rest : Str
  pub pos : ℕ

-- A byte loop `while let Some(b) = self.peek() { if p(b) { self.pos += 1 } else { break } }`: what
-- it passes over, and what is left.
unfoldable pub span : (ℕ → Bool) → Str → Str × Str
span p [] = ([], [])
span p (b ∷ r) = let (passed, left) = span p r in if p b then (b ∷ passed, left) else ([], b ∷ r)

unfoldable pub is_space : ℕ → Bool
is_space b = b == b' ' || b == 9 || b == 10 || b == 13

-- Lexer::skip_whitespace
unfoldable pub skip_whitespace : Lexer → Lexer
skip_whitespace l =
    let (passed, left) = span is_space l.rest in record { rest = left; pos = l.pos + length passed }

abbrev pub starts_digit : Str → Bool
starts_digit [] = false
starts_digit (b ∷ r) = is_ascii_digit b

unfoldable pub is_ident_byte : ℕ → Bool
is_ident_byte b = is_ascii_alphanumeric b || b == b'_' || b == b'-'

abbrev pub quote : ℕ
quote = 39

unfoldable pub is_quoted : ℕ → Bool
is_quoted b = if b == quote then false else true

-- Does `peek2` show this byte?
abbrev pub follows : ℕ → Str → Bool
follows c [] = false
follows c (b ∷ r) = b == c

-- the result of next_token and of the functions that it calls
abbrev pub Lexed : Type 0 → Type 0
Lexed F = Result (Fault LexError) (Token F × Lexer)

module _ {F : Type 0} where
  abbrev pub is_eof : TokenKind F → Bool
  is_eof eof = true
  is_eof _ = false

  abbrev pub emit : TokenKind F → ℕ → Str → ℕ → Lexed F
  emit kind start rest pos =
      ok (record { kind = kind; start = start }, record { rest = rest; pos = pos })

  abbrev pub fail : Message → ℕ → Lexed F
  fail message position = err (error (record { message = message; position = position }))

  -- the single-character punctuation of Lexer::next_token
  unfoldable pub single : ℕ → Option (TokenKind F)
  single b =
      if b == b'$'
      then some dollar
      else if b == b'.'
      then some dot
      else if b == b'['
      then some l_bracket
      else if b == b']'
      then some r_bracket
      else if b == b'('
      then some l_paren
      else if b == b')'
      then some r_paren
      else if b == b'@'
      then some at
      else if b == b'*'
      then some star
      else none

  -- the two-byte operators of Lexer::next_token: the byte after `b` is the first of `r`
  unfoldable pub double : ℕ → Str → Option (TokenKind F)
  double b r =
      if b == b'=' && follows b'=' r
      then some eq
      else if b == b'!' && follows b'=' r
      then some not_eq
      else if b == b'&' && follows b'&' r
      then some and
      else if b == b'|' && follows b'|' r
      then some or
      else if b == b'?' && follows b'?' r
      then some coalesce
      else if b == b'<' && follows b'=' r
      then some le
      else if b == b'>' && follows b'=' r
      then some ge
      else none

  -- the arms after them, where the second byte is another
  unfoldable pub prefix : ℕ → Option (TokenKind F)
  prefix b =
      if b == b'<'
      then some lt
      else if b == b'>'
      then some gt
      else if b == b'!'
      then some not
      else if b == b'?'
      then some question
      else none

  abbrev pub string_token : ℕ → ℕ → Str → Option Str → Lexed F
  string_token start pos rest none = fail invalid_utf8_in_string start
  string_token start pos rest (some s) = emit (string s) start rest pos

  abbrev pub close_string : ℕ → Str → Str → Lexed F
  close_string start content [] = fail unterminated_string start
  close_string start content (q ∷ rest) =
      string_token start (start + 1 + length content + 1) rest (from_utf8 content)

  -- Lexer::lex_string, on what follows the opening quote at `start`
  unfoldable pub lex_string : ℕ → Str → Lexed F
  lex_string start r = let (content, rest) = span is_quoted r in close_string start content rest

  -- the keywords of Lexer::lex_ident
  unfoldable pub word : Str → TokenKind F
  word raw =
      if str_eq raw (chars "true")
      then true_word
      else if str_eq raw (chars "false")
      then false_word
      else if str_eq raw (chars "null")
      then null_word
      else ident raw

  abbrev pub ident_token : ℕ → ℕ → Str → Option Str → Lexed F
  ident_token start pos rest none = fail invalid_utf8_in_ident start
  ident_token start pos rest (some raw) = emit (word raw) start rest pos

  -- Lexer::lex_ident
  unfoldable pub lex_ident : ℕ → Str → Lexed F
  lex_ident start s =
      let (raw, rest) = span is_ident_byte s in
      ident_token start (start + length raw) rest (from_utf8 raw)

-- The text of a number: an optional `-`, digits, and a point with digits where a digit follows it.
abbrev pub sign_part : Str → Str × Str
sign_part [] = ([], [])
sign_part (b ∷ r) = if b == b'-' then (b ∷ [], r) else ([], b ∷ r)

abbrev pub fraction_part : Str → Str × Str
fraction_part [] = ([], [])
fraction_part (b ∷ r) =
    let (digits, left) = span is_ascii_digit r in
    if b == b'.' && starts_digit r then (b ∷ digits, left) else ([], b ∷ r)

unfoldable pub number_text : Str → Str × Str
number_text s =
    let (sign, r₁) = sign_part s in
    let (digits, r₂) = span is_ascii_digit r₁ in
    let (fraction, r₃) = fraction_part r₂ in (sign ++ (digits ++ fraction), r₃)

module _ (f64 : F64) where
  open f64 use {Float, parse}

  abbrev pub number_value : Str → ℕ → ℕ → Str → Option Float → Lexed Float
  number_value raw start pos rest none = fail (invalid_number raw) start
  number_value raw start pos rest (some n) = emit (number n) start rest pos

  abbrev pub number_token : ℕ → ℕ → Str → Option Str → Lexed Float
  number_token start pos rest none = fail invalid_utf8_in_number start
  number_token start pos rest (some raw) = number_value raw start pos rest (parse raw)

  -- Lexer::lex_number
  unfoldable pub lex_number : ℕ → Str → Lexed Float
  lex_number start s =
      let (raw, rest) = number_text s in
      number_token start (start + length raw) rest (from_utf8 raw)

  -- the rest of Lexer::next_token, where the byte `b` at `start` opens no punctuation
  unfoldable pub lex_word : ℕ → ℕ → Str → Lexed Float
  lex_word start b r =
      if b == quote
      then lex_string start r
      else if is_ascii_digit b || b == b'-' && starts_digit r
      then lex_number start (b ∷ r)
      else if is_ascii_alphabetic b || b == b'_'
      then lex_ident start (b ∷ r)
      else fail (unexpected_byte b) start

  abbrev pub lex_prefix : ℕ → ℕ → Str → Option (TokenKind Float) → Lexed Float
  lex_prefix start b r (some kind) = emit kind start r (start + 1)
  lex_prefix start b r none = lex_word start b r

  abbrev pub lex_double : ℕ → ℕ → Str → Option (TokenKind Float) → Lexed Float
  lex_double start b r (some kind) = emit kind start (tail r) (start + 2)
  lex_double start b r none = lex_prefix start b r (prefix b)

  abbrev pub lex_single : ℕ → ℕ → Str → Option (TokenKind Float) → Lexed Float
  lex_single start b r (some kind) = emit kind start r (start + 1)
  lex_single start b r none = lex_double start b r (double b r)

  abbrev pub lex_at : Str → ℕ → Lexed Float
  lex_at [] pos = emit eof pos [] pos
  lex_at (b ∷ r) pos = lex_single pos b r (single b)

  -- Lexer::next_token
  unfoldable pub next_token : Lexer → Lexed Float
  next_token l = let l' = skip_whitespace l in lex_at l'.rest l'.pos

  -- The loop of Lexer::tokenize, for `fuel` tokens at most.
  unfoldable pub tokenize_from : ℕ → Lexer → Result (Fault LexError) (List (Token Float))
  tokenize_from zero l = err out_of_fuel
  tokenize_from (suc fuel) l = do
    (tok, l') ← next_token l
    if is_eof tok.kind then ok (tok ∷ []) else (tokenize_from fuel l' >>= λ later. ok (tok ∷ later))

  -- Lexer::new and Lexer::tokenize. Every token but the last takes a byte at least.
  unfoldable pub tokenize : Str → Result (Fault LexError) (List (Token Float))
  tokenize src = tokenize_from (suc (length src)) (record { rest = src; pos = 0 })
