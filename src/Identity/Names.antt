-- ===== src/Identity/Names.antt =====
-- What `validate_name` accepts, by an independent description of the grammar.
use gwead.Prelude.{
  ==_iff, subst, ℕ, ◌+◌, ◌≤◌, ◌<◌, ◌≡◌, ◌≢◌, refl, ◌↔◌, ◌⊎◌, inl, inr, true, false, ◌&&◌, [], ◌∷◌,
  ◌==◌, length, All, arith, Bool-cases,
}
use gwead.Prelude.Outcome.{ok}
use gwead.Text.{Str, len, len_utf8, contains, is_ascii_alphanumeric, is_ascii_digit}
use gwead.Identity.{
  NameKind, step_id, is_step_id, is_name_char, check_chars, validate_name, max_name_len,
  namespace_separator,
}

-- `[A-Za-z0-9_-]`
abbrev pub IsNameChar : ℕ → Type 0
IsNameChar c =
    ((b'a' ≤ c) × (c ≤ b'z'))
    ⊎ ((b'A' ≤ c) × (c ≤ b'Z'))
    ⊎ ((b'0' ≤ c) × (c ≤ b'9'))
    ⊎ (c ≡ b'_')
    ⊎ (c ≡ b'-')

-- the first character, where there is one, is no `-`, and no digit in a step id
abbrev pub IsFirst : NameKind → Str → Type 0
IsFirst kind [] = ⊥
IsFirst kind (c ∷ cs) = (c ≢ b'-') × (kind ≡ step_id → ¬ ((b'0' ≤ c) × (c ≤ b'9')))

-- The grammar of names: 1 to 128 characters of `[A-Za-z0-9_-]`, which are a byte each.
pub record IsName (kind : NameKind) (name : Str) : Type 0 where
  pub short : length name ≤ max_name_len
  pub chars : All IsNameChar name
  pub first : IsFirst kind name

is_name_char_iff : (i c : ℕ) → 0 < i → (is_name_char i c ≡ true) ↔ IsNameChar c
unfolding is_name_char is_ascii_alphanumeric
is_name_char_iff i c h = (λ e. ground arith, λ e. ground arith)

len_utf8-pos : (c : ℕ) → 0 < len_utf8 c
unfolding len_utf8
len_utf8-pos c = ground arith

-- After the first character the loop accepts exactly the characters of names.
check_chars_iff :
    (kind : NameKind) (name : Str) (i : ℕ) (s : Str)
    → 0 < i
    → (check_chars kind name i s ≡ ok tt) ↔ All IsNameChar s
unfolding check_chars
check_chars_iff kind name i [] h = (λ e. tt, λ e. refl)
check_chars_iff kind name i (c ∷ s) h = elim (Bool-cases (is_name_char i c)) [
  | inl e ↦ rw e (
    λ r. (
      (is_name_char_iff i c h).0 e,
      (check_chars_iff kind name (i + len_utf8 c) s (omega (arith))).0 r,
    ),
    λ a. (check_chars_iff kind name (i + len_utf8 c) s (omega (arith))).1 a.1,
  )
  | inr e ↦ rw e (λ r. cc, λ a. cc (e, (is_name_char_iff i c h).1 a.0))
]

first_char_iff : (c : ℕ) → (is_name_char 0 c ≡ true) ↔ (IsNameChar c × (c ≢ b'-'))
unfolding is_name_char is_ascii_alphanumeric
first_char_iff c = (λ e. ground arith, λ e. ground arith)

digit_iff : (c : ℕ) → (is_ascii_digit c ≡ true) ↔ ((b'0' ≤ c) × (c ≤ b'9'))
unfolding is_ascii_digit
digit_iff c = (λ e. ground arith, λ e. ground arith)

pub is_step_id_iff : (kind : NameKind) → (is_step_id kind ≡ true) ↔ (kind ≡ step_id)
is_step_id_iff kind = ground arith

-- What the accepted characters exclude, and the bytes that they take.
pub len-names : (s : Str) → All IsNameChar s → len s ≡ length s
unfolding len
len-names [] h = refl
len-names (c ∷ s) h = ground (arith, len-names s h.1)

pub contains-names :
    (sep : ℕ) (s : Str) → ¬ IsNameChar sep → All IsNameChar s → contains sep s ≡ false
unfolding contains
contains-names sep [] n h = refl
contains-names sep (c ∷ s) n h = elim (Bool-cases (c == sep)) [
  | inl e ↦ absurd (n (subst IsNameChar ((==_iff c sep).0 e) h.0))
  | inr e ↦ rw e (contains-names sep s n h.1)
]

-- The tests before the loop, on a name that is not empty.
abbrev Passes : NameKind → ℕ → Str → Type 0
Passes kind c s =
    (len (c ∷ s) ≤ max_name_len)
    × (contains namespace_separator (c ∷ s) ≡ false)
    × ((is_step_id kind && is_ascii_digit c) ≡ false)
    × (is_name_char 0 c ≡ true)
    × (check_chars kind (c ∷ s) (0 + len_utf8 c) s ≡ ok tt)

validate_name-Passes :
    (kind : NameKind) (c : ℕ) (s : Str) → (validate_name kind (c ∷ s) ≡ ok tt) ↔ Passes kind c s
unfolding validate_name check_chars
validate_name-Passes kind c s = (λ e. ground arith, λ e. ground arith)

Passes-IsName : (kind : NameKind) (c : ℕ) (s : Str) → Passes kind c s → IsName kind (c ∷ s)
Passes-IsName kind c s p =
    let here = (first_char_iff c).0 p.3 in
    let rest =
      (check_chars_iff kind (c ∷ s) (0 + len_utf8 c) s (omega (arith, len_utf8-pos c))).0 p.4 in
    let chars : All IsNameChar (c ∷ s) = (here.0, rest) in
    record {
      short = omega (arith, len-names (c ∷ s) chars);
      chars = chars;
      first = (here.1, λ k d. cc (p.2, (is_step_id_iff kind).1 k, (digit_iff c).1 d));
    }

-- `/` is no character of a name
pub not-IsNameChar-separator : ¬ IsNameChar namespace_separator
not-IsNameChar-separator h = ground arith

step_id_first :
    (kind : NameKind) (c : ℕ)
    → (kind ≡ step_id → ¬ ((b'0' ≤ c) × (c ≤ b'9')))
    → (is_step_id kind && is_ascii_digit c) ≡ false
step_id_first kind c h = elim (Bool-cases (is_step_id kind)) [
  | inr e ↦ rw e
  | inl e ↦ elim (Bool-cases (is_ascii_digit c)) [
    | inr d ↦ rw (e, d)
    | inl d ↦ absurd (h ((is_step_id_iff kind).0 e) ((digit_iff c).0 d))
  ]
]

IsName-Passes : (kind : NameKind) (c : ℕ) (s : Str) → IsName kind (c ∷ s) → Passes kind c s
IsName-Passes kind c s n = (
  omega (arith, len-names (c ∷ s) n.chars, n.short),
  contains-names namespace_separator (c ∷ s) not-IsNameChar-separator n.chars,
  step_id_first kind c n.first.1,
  (first_char_iff c).1 (n.chars.0, n.first.0),
  (check_chars_iff kind (c ∷ s) (0 + len_utf8 c) s (omega (arith, len_utf8-pos c))).1 n.chars.1,
)

-- A name is accepted exactly if it is 1 to 128 characters of `[A-Za-z0-9_-]`, the first of them no
-- `-`, and no digit where the name is a step id.
pub validate_name_iff :
    (kind : NameKind) (name : Str) → (validate_name kind name ≡ ok tt) ↔ IsName kind name
validate_name_iff kind [] = (λ e. unfold validate_name in cc e, λ n. absurd n.first)
validate_name_iff kind (c ∷ s) = (
  λ e. Passes-IsName kind c s ((validate_name-Passes kind c s).0 e),
  λ n. (validate_name-Passes kind c s).1 (IsName-Passes kind c s n),
)
