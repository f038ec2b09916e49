-- ===== src/Streams/Excerpt.antt =====
-- truncate_text of src/kernel/streams.rs: the text of an error cut to a number of bytes.
use Prim.Native.Nat.{◌%◌, ◌/◌}
use gwead.Prelude.{
  ℕ, zero, suc, ◌+◌, ◌-◌, ◌≤◌, ◌≡◌, inl, inr, refl, Bool, true, ◌||◌, none, some, List, [], ◌∷◌,
  ◌++◌, length, ltb, leb, ◌==◌, if◌then◌else◌, take, get_elem?, arith, Bool-cases,
}
use gwead.Text.{chars}

abbrev pub Bytes : Type 0
Bytes = List ℕ

-- the decimal digits of a number, the last `fuel` of them
unfoldable pub decimal : ℕ → ℕ → Bytes
decimal zero n = []
decimal (suc fuel) n =
    if ltb n 10 then (n + 48) ∷ [] else decimal fuel (n / 10) ++ (n % 10 + 48) ∷ []

-- `… (N bytes total)`, where a `usize` has at most 20 digits
unfoldable pub total_suffix : ℕ → Bytes
total_suffix n = (0xe2 ∷ 0x80 ∷ 0xa6 ∷ []) ++ chars " (" ++ decimal 20 n ++ chars " bytes total)"

-- str::is_char_boundary: an end of the text, or a byte that starts a character
unfoldable pub is_char_boundary : ℕ → Bytes → Bool
is_char_boundary zero s = true
is_char_boundary (suc i) s = elim (get_elem? s (suc i)) [
  | none ↦ suc i == length s
  | some b ↦ ltb b 0x80 || leb 0xc0 b
]

-- the loop that moves the cut back
unfoldable pub back_to_boundary : ℕ → Bytes → ℕ
back_to_boundary zero s = zero
back_to_boundary (suc cut) s =
    let back = back_to_boundary cut s in if is_char_boundary (suc cut) s then suc cut else back

abbrev min : ℕ → ℕ → ℕ
min m n = if leb m n then m else n

unfoldable pub truncate_text : Bytes → ℕ → Bytes
truncate_text s max =
    if leb (length s) max
    then s
    else take (back_to_boundary (min (max - length (total_suffix (length s))) (length s)) s) s
      ++ total_suffix (length s)

min-le : (m n : ℕ) → min m n ≤ m
min-le m n = ground arith

back_to_boundary-le : (cut : ℕ) (s : Bytes) → back_to_boundary cut s ≤ cut
unfolding back_to_boundary
back_to_boundary-le zero s = omega arith
back_to_boundary-le (suc cut) s = elim (Bool-cases (is_char_boundary (suc cut) s)) [
  | inl e ↦ rw e (omega arith)
  | inr e ↦ rw e (omega (arith, back_to_boundary-le cut s))
]

back_to_boundary-is_char_boundary :
    (cut : ℕ) (s : Bytes) → is_char_boundary (back_to_boundary cut s) s ≡ true
unfolding back_to_boundary
back_to_boundary-is_char_boundary zero s = unfold is_char_boundary in refl
back_to_boundary-is_char_boundary (suc cut) s = elim (Bool-cases (is_char_boundary (suc cut) s)) [
  | inl e ↦ rw e e
  | inr e ↦ rw e (back_to_boundary-is_char_boundary cut s)
]

-- What a text of more than `max` bytes is cut to: whole characters of its own, and its length.
pub data IsExcerpt (s : Bytes) (max : ℕ) : Bytes → Type 0 where
  whole : length s ≤ max → IsExcerpt s max s
  cut_at :
      (cut : ℕ)
      → suc max ≤ length s
      → is_char_boundary cut s ≡ true
      → (length (total_suffix (length s)) ≤ max → cut + length (total_suffix (length s)) ≤ max)
      → IsExcerpt s max (take cut s ++ total_suffix (length s))

pub truncate_text-IsExcerpt : (s : Bytes) (max : ℕ) → IsExcerpt s max (truncate_text s max)
unfolding truncate_text
truncate_text-IsExcerpt s max = elim (Bool-cases (leb (length s) max)) [
  | inl e ↦ rw e (whole (ground (arith, e)))
  | inr e ↦
      let room = max - length (total_suffix (length s)) in
      rw e (
        cut_at (back_to_boundary (min room (length s)) s) (ground (arith, e))
          (back_to_boundary-is_char_boundary (min room (length s)) s)
          (λ fits.
            omega
              (arith, back_to_boundary-le (min room (length s)) s, min-le room (length s), fits)))
]
