-- ===== src/Text/Affix.antt =====
-- The parts of Rust's `str` at its two ends: trimming, prefixes and suffixes.
use gwead.Prelude.{
  ℕ, ◌+◌, Bool, true, false, ◌&&◌, ◌||◌, Option, none, some, [], ◌∷◌, leb, ◌==◌, if◌then◌else◌,
}
use gwead.Text.{Str, str_eq, is_empty}

-- char::is_whitespace, the property White_Space of Unicode
unfoldable pub is_whitespace : ℕ → Bool
is_whitespace c =
    leb 9 c && leb c 13
    || c == 0x20
    || c == 0x85
    || c == 0xa0
    || c == 0x1680
    || leb 0x2000 c && leb c 0x200a
    || c == 0x2028
    || c == 0x2029
    || c == 0x202f
    || c == 0x205f
    || c == 0x3000

-- str::trim_start, trim_end and trim
unfoldable pub trim_start : Str → Str
trim_start [] = []
trim_start (c ∷ cs) = let later = trim_start cs in if is_whitespace c then later else c ∷ cs

unfoldable pub trim_end : Str → Str
trim_end [] = []
trim_end (c ∷ cs) =
    let later = trim_end cs in if is_whitespace c && is_empty later then [] else c ∷ later

unfoldable pub trim : Str → Str
unfolding trim_start trim_end is_whitespace
trim s = trim_end (trim_start s)

-- str::strip_prefix, of a string
unfoldable pub strip_prefix : Str → Str → Option Str
strip_prefix [] s = some s
strip_prefix (c ∷ p) [] = none
strip_prefix (c ∷ p) (d ∷ s) = let rest = strip_prefix p s in if c == d then rest else none

abbrev pub put_back : ℕ → Option Str → Option Str
put_back c none = none
put_back c (some s) = some (c ∷ s)

-- str::strip_suffix, of a string
unfoldable pub strip_suffix : Str → Str → Option Str
strip_suffix p [] = if str_eq p [] then some [] else none
strip_suffix p (c ∷ cs) =
    let shorter = strip_suffix p cs in if str_eq p (c ∷ cs) then some [] else put_back c shorter

abbrev pub is_found : Option Str → Bool
is_found none = false
is_found (some s) = true

-- str::starts_with and ends_with, of a string
unfoldable pub starts_with : Str → Str → Bool
unfolding strip_prefix
starts_with p s = is_found (strip_prefix p s)

unfoldable pub ends_with : Str → Str → Bool
unfolding strip_suffix
ends_with p s = is_found (strip_suffix p s)

-- char::to_ascii_lowercase, str::to_ascii_lowercase and eq_ignore_ascii_case
unfoldable pub lower : ℕ → ℕ
lower c = if leb b'A' c && leb c b'Z' then c + 32 else c

unfoldable pub to_ascii_lowercase : Str → Str
unfolding lower
to_ascii_lowercase [] = []
to_ascii_lowercase (c ∷ cs) = lower c ∷ to_ascii_lowercase cs

unfoldable pub eq_ignore_ascii_case : Str → Str → Bool
unfolding to_ascii_lowercase
eq_ignore_ascii_case s t = str_eq (to_ascii_lowercase s) (to_ascii_lowercase t)
