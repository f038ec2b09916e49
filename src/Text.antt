-- ===== src/Text.antt =====
-- The parts of Rust's `str` that the kernel uses. A `str` is the list of its characters, as Unicode
-- scalar values; `len` is its length in bytes of UTF-8.
pub mod Affix
pub mod Ends
pub mod Split
pub mod Utf8
use Prim.Native.Char.{code}
use Prim.Native.String.{String}
use gwead.Prelude.{
  ℕ, ◌+◌, Bool, true, false, ◌&&◌, ◌||◌, Option, none, some, List, [], ◌∷◌, ltb, leb, ◌==◌,
  if◌then◌else◌,
}

abbrev pub Str : Type 0
Str = List ℕ

-- str::chars, of a literal
abbrev pub chars : String → Str
chars String.[] = []
chars (String.◌∷◌ c s) = code c ∷ chars s

-- char::len_utf8
unfoldable pub len_utf8 : ℕ → ℕ
len_utf8 c = if ltb c 0x80 then 1 else if ltb c 0x800 then 2 else if ltb c 0x10000 then 3 else 4

-- str::len
unfoldable pub len : Str → ℕ
unfolding len_utf8
len [] = 0
len (c ∷ cs) = len_utf8 c + len cs

-- str::is_empty
abbrev pub is_empty : Str → Bool
is_empty [] = true
is_empty (c ∷ cs) = false

-- `==` on strings
unfoldable pub str_eq : Str → Str → Bool
str_eq [] [] = true
str_eq (a ∷ s) (b ∷ t) = (a == b) && str_eq s t
str_eq _ _ = false

-- str::contains, of a character
unfoldable pub contains : ℕ → Str → Bool
contains sep [] = false
contains sep (c ∷ cs) = (c == sep) || contains sep cs

abbrev before_first : ℕ → Option (Str × Str) → Option (Str × Str)
before_first c none = none
before_first c (some (a, b)) = some (c ∷ a, b)

-- str::split_once, at the first separator
unfoldable pub split_once : ℕ → Str → Option (Str × Str)
split_once sep [] = none
split_once sep (c ∷ cs) = if c == sep then some ([], cs) else before_first c (split_once sep cs)

abbrev pub at_last : ℕ → ℕ → Str → Option (Str × Str) → Option (Str × Str)
at_last sep c cs (some (a, b)) = some (c ∷ a, b)
at_last sep c cs none = if c == sep then some ([], cs) else none

-- str::rsplit_once, at the last separator
unfoldable pub rsplit_once : ℕ → Str → Option (Str × Str)
rsplit_once sep [] = none
rsplit_once sep (c ∷ cs) = at_last sep c cs (rsplit_once sep cs)

abbrev pub extend : ℕ → List Str → List Str
extend c [] = (c ∷ []) ∷ []
extend c (s ∷ ss) = (c ∷ s) ∷ ss

-- str::split, collected
unfoldable pub split : ℕ → Str → List Str
split sep [] = [] ∷ []
split sep (c ∷ cs) = let rest = split sep cs in if c == sep then [] ∷ rest else extend c rest

-- char::is_ascii_alphabetic, is_ascii_digit and is_ascii_alphanumeric
unfoldable pub is_ascii_alphabetic : ℕ → Bool
is_ascii_alphabetic c = leb b'a' c && leb c b'z' || leb b'A' c && leb c b'Z'

unfoldable pub is_ascii_digit : ℕ → Bool
is_ascii_digit c = leb b'0' c && leb c b'9'

unfoldable pub is_ascii_alphanumeric : ℕ → Bool
unfolding is_ascii_alphabetic is_ascii_digit
is_ascii_alphanumeric c = is_ascii_alphabetic c || is_ascii_digit c
