-- ===== src/Text/Utf8.antt =====
-- std::str::from_utf8: the byte sequences that are UTF-8, by the table of well-formed sequences of
-- the Unicode standard.
use gwead.Prelude.{
  ℕ, zero, suc, Bool, true, false, ◌&&◌, Option, none, some, List, [], ◌∷◌, ltb, leb, ◌==◌,
  if◌then◌else◌,
}

-- How many bytes follow a first byte, and between which bounds the next one lies.
unfoldable pub lead : ℕ → Option (ℕ × ℕ × ℕ)
lead b =
    if ltb b 0x80
    then some (0, 0x80, 0xbf)
    else if ltb b 0xc2
    then none
    else if ltb b 0xe0
    then some (1, 0x80, 0xbf)
    else if b == 0xe0
    then some (2, 0xa0, 0xbf)
    else if b == 0xed
    then some (2, 0x80, 0x9f)
    else if ltb b 0xf0
    then some (2, 0x80, 0xbf)
    else if b == 0xf0
    then some (3, 0x90, 0xbf)
    else if ltb b 0xf4
    then some (3, 0x80, 0xbf)
    else if b == 0xf4
    then some (3, 0x80, 0x8f)
    else none

unfoldable pub is_utf8 : ℕ → ℕ → ℕ → List ℕ → Bool
unfolding lead
is_utf8 zero lo hi [] = true
is_utf8 (suc k) lo hi [] = false
is_utf8 zero lo hi (b ∷ r) = elim (lead b) [
  | none ↦ false
  | some (k, lo', hi') ↦ is_utf8 k lo' hi' r
]
is_utf8 (suc k) lo hi (b ∷ r) = let later = is_utf8 k 0x80 0xbf r in leb lo b && leb b hi && later

unfoldable pub from_utf8 : List ℕ → Option (List ℕ)
unfolding is_utf8
from_utf8 bytes = if is_utf8 0 0x80 0xbf bytes then some bytes else none
