-- ===== src/Dsl/Steps.antt =====
-- The step ids that Identity validates, in a reference: which of them the parser can name.
use gwead.Prelude.{
  ℕ, ◌+◌, ◌≡◌, refl, Bool, true, false, ◌||◌, none, some, [], ◌∷◌, ◌++◌, ◌==◌, if◌then◌else◌, arith,
  All, Bool-cases, inl, inr, ◌⊎◌, length,
}
use gwead.Prelude.Outcome.{ok, err}
use gwead.Text.{str_eq, chars, is_ascii_digit, is_ascii_alphabetic, is_ascii_alphanumeric}
use gwead.Text.Utf8.{from_utf8, is_utf8, lead}
use gwead.Fault.{error}
use gwead.Dsl.Parser.{
  expected_step_id, unexpected, parse_reference, parse_all, parse_reference_at, parse_root,
  named_root, parse_path_segments, segments, take_ident, expect, expect_eof, peek, bump,
}
use gwead.Identity.{step_id, validate_name}
use gwead.Identity.Names.{IsName, IsNameChar, validate_name_iff}
use gwead.Dsl.Float.{F64}
use gwead.Dsl.Ast.{Str, Root}
use gwead.Dsl.Lexer.{
  TokenKind, span, is_space, skip_whitespace, single, double, prefix, lex_word, is_ident_byte,
  lex_ident, word, is_eof, next_token, tokenize_from, tokenize,
}

-- Names are ASCII.
lead_name : (c : ℕ) → IsNameChar c → lead c ≡ some (0, 0x80, 0xbf)
unfolding lead
lead_name c h = ground arith

is_utf8-names : (s : Str) → All IsNameChar s → is_utf8 0 0x80 0xbf s ≡ true
unfolding is_utf8
is_utf8-names [] h = refl
is_utf8-names (c ∷ s) h = rw (lead_name c h.0, is_utf8) (is_utf8-names s h.1)

span_names : (s : Str) → All IsNameChar s → span is_ident_byte s ≡ (s, [])
unfolding span is_ident_byte is_ascii_alphanumeric
span_names [] h = refl
span_names (c ∷ s) h = ground (arith, span_names s h.1)

from_utf8-names : (s : Str) → All IsNameChar s → from_utf8 s ≡ some s
unfolding from_utf8
from_utf8-names s h = rw (is_utf8-names s h) refl

-- The first character of a step id opens no other token.
starts_id : (c : ℕ) (s : Str) → IsName step_id (c ∷ s) → (is_ascii_alphabetic c || c == b'_') ≡ true
unfolding is_ascii_alphabetic
starts_id c s n = ground (arith, n.chars.0, n.first.0, n.first.1 refl)

module _ (c : ℕ) (h : (is_ascii_alphabetic c || c == b'_') ≡ true) where
  span-id : (s : Str) → span is_space (c ∷ s) ≡ ([], c ∷ s)
  unfolding span is_space is_ascii_alphabetic
  span-id s = ground arith

  single-id : {F : Type 0} → single {F = F} c ≡ none
  unfolding single is_ascii_alphabetic
  single-id = ground arith

  double-id : {F : Type 0} (s : Str) → double {F = F} c s ≡ none
  unfolding double is_ascii_alphabetic
  double-id s = ground arith

  prefix-id : {F : Type 0} → prefix {F = F} c ≡ none
  unfolding prefix is_ascii_alphabetic
  prefix-id = ground arith

  lex_word-id : (f64 : F64) (pos : ℕ) (s : Str) → lex_word f64 pos c s ≡ lex_ident pos (c ∷ s)
  unfolding lex_word is_ascii_alphabetic is_ascii_digit
  lex_word-id f64 pos s = ground arith

-- the words that the lexer takes for literals
unfoldable pub is_keyword : Str → Bool
is_keyword id = str_eq id (chars "true") || str_eq id (chars "false") || str_eq id (chars "null")

module _ (f64 : F64) where
  open f64 use {Float}

  lex_ident-id :
      (id : Str) (pos : ℕ)
      → IsName step_id id
      → lex_ident {F = Float} pos id
        ≡ ok (record { kind = word id; start = pos }, record { rest = []; pos = pos + length id })
  unfolding lex_ident
  lex_ident-id id pos n = rw (span_names id n.chars, from_utf8-names id n.chars) refl

  -- the id as a token
  next_token-id :
      (id : Str) (pos : ℕ)
      → IsName step_id id
      → next_token f64 (record { rest = id; pos = pos })
        ≡ ok (record { kind = word id; start = pos }, record { rest = []; pos = pos + length id })
  unfolding next_token skip_whitespace
  next_token-id [] pos n = absurd n.first
  next_token-id (c ∷ s) pos n =
      let h = starts_id c s n in
      let here : pos + 0 ≡ pos = omega arith in
      rw (span-id c h s) (
        rw here (
          rw (single-id c h {F = Float}) (
            rw (double-id c h {F = Float} s) (
              rw (prefix-id c h {F = Float})
                (rw (lex_word-id c h f64 pos s) (lex_ident-id (c ∷ s) pos n))))))

  -- the tokens before it and behind it
  next_token-dollar :
      (r : Str)
      → next_token f64 (record { rest = b'$' ∷ r; pos = 0 })
        ≡ ok (record { kind = TokenKind.dollar; start = 0 }, record { rest = r; pos = 1 })
  unfolding next_token skip_whitespace span is_space single
  next_token-dollar r = refl

  next_token-steps :
      (r : Str)
      → next_token f64 (record { rest = chars "steps." ++ r; pos = 1 })
        ≡ ok (
          record { kind = TokenKind.ident (chars "steps"); start = 1 },
          record { rest = b'.' ∷ r; pos = 6 },
        )
  unfolding next_token skip_whitespace span is_space single double prefix lex_word lex_ident
      is_ident_byte is_ascii_alphanumeric is_ascii_digit is_ascii_alphabetic from_utf8 word str_eq
  next_token-steps r = refl

  next_token-dot :
      (r : Str)
      → next_token f64 (record { rest = b'.' ∷ r; pos = 6 })
        ≡ ok (record { kind = TokenKind.dot; start = 6 }, record { rest = r; pos = 7 })
  unfolding next_token skip_whitespace span is_space single
  next_token-dot r = refl

  next_token-end :
      (pos : ℕ)
      → next_token f64 (record { rest = []; pos = pos })
        ≡ ok (record { kind = TokenKind.eof; start = pos }, record { rest = []; pos = pos })
  unfolding next_token skip_whitespace span
  next_token-end pos = let here : pos + 0 ≡ pos = omega arith in rw here refl

  word_more : (id : Str) → is_eof (word {F = Float} id) ≡ false
  unfolding word
  word_more id = ground arith

  -- the tokens of a reference to a step
  tokenize-steps :
      (id : Str)
      → IsName step_id id
      → tokenize f64 (chars "$steps." ++ id)
        ≡ ok (
            record { kind = TokenKind.dollar; start = 0 }
            ∷ record { kind = TokenKind.ident (chars "steps"); start = 1 }
            ∷ record { kind = TokenKind.dot; start = 6 }
            ∷ record { kind = word id; start = 7 }
            ∷ record { kind = TokenKind.eof; start = 7 + length id }
            ∷ [])
  unfolding tokenize tokenize_from
  tokenize-steps id n = rw (next_token-dollar (chars "steps." ++ id)) (
      rw (next_token-steps id) (
        rw (next_token-dot id) (
          rw (next_token-id id 7 n)
            (rw (word_more id) (rw (next_token-end (7 + length id)) refl)))))

  keyword_words :
      (id : Str)
      → is_keyword id ≡ true
      → (word {F = Float} id ≡ TokenKind.true_word)
        ⊎ (word {F = Float} id ≡ TokenKind.false_word)
        ⊎ (word {F = Float} id ≡ TokenKind.null_word)
  unfolding word is_keyword
  keyword_words id h = ground arith

  ident_words : (id : Str) → is_keyword id ≡ false → word {F = Float} id ≡ TokenKind.ident id
  unfolding word is_keyword
  ident_words id h = ground arith

  -- A step id that validates can be named in a reference exactly if it is none of the words `true`,
  -- `false` and `null`: `$steps.<id>` then parses to the step of that id, and is an error otherwise.
  pub parse_reference-validate_name :
      (id : Str)
      → validate_name step_id id ≡ ok tt
      → parse_reference f64 (chars "$steps." ++ id) ≡ (
          if is_keyword id
          then err (error (unexpected expected_step_id 7))
          else ok (record { root = Root.steps id; path = [] }))
  unfolding parse_reference parse_all parse_reference_at parse_root named_root parse_path_segments
      segments take_ident expect expect_eof peek bump str_eq
  parse_reference-validate_name id h =
      rw (tokenize-steps id ((validate_name_iff step_id id).0 h))
        (elim (Bool-cases (is_keyword id)) [
          | inl k ↦ rw k (elim (keyword_words id k) [
            | inl e ↦ rw e refl
            | inr (inl e) ↦ rw e refl
            | inr (inr e) ↦ rw e refl
          ])
          | inr k ↦ rw (k, ident_words id k) refl
        ])
