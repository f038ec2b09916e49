-- ===== src/Streams/Kept.antt =====
-- The text that a stream keeps of a failure: how long it is, and what of the failure's text it has.
use Prim.Native.Nat.{◌%◌, ◌/◌}
use gwead.Prelude.{
  take, ℕ, zero, suc, ◌+◌, ◌≤◌, inl, inr, [], ◌∷◌, ◌++◌, length, length-append, length-take, ltb,
  arith, Bool-cases,
}
use gwead.Text.{chars}
use gwead.Streams.{kept_text, max_last_error_bytes}
use gwead.Streams.Excerpt.{
  Bytes, decimal, total_suffix, truncate_text, IsExcerpt, whole, cut_at, truncate_text-IsExcerpt,
}

length-decimal : (fuel n : ℕ) → length (decimal fuel n) ≤ fuel
unfolding decimal
length-decimal zero n = omega arith
length-decimal (suc fuel) n = elim (Bool-cases (ltb n 10)) [
  | inl e ↦ rw e (omega arith)
  | inr e ↦ rw e (
      omega (
        arith,
        length-append (decimal fuel (n / 10)) ((n % 10 + 48) ∷ []),
        length-decimal fuel (n / 10),
      ))
]

length-total_suffix : (n : ℕ) → length (total_suffix n) ≤ 38
unfolding total_suffix
length-total_suffix n = omega (
  arith,
  length-append (chars " (") (decimal 20 n ++ chars " bytes total)"),
  length-append (decimal 20 n) (chars " bytes total)"),
  length-decimal 20 n,
)

total_suffix_positive : (n : ℕ) → 1 ≤ length (total_suffix n)
unfolding total_suffix
total_suffix_positive n = omega arith

IsExcerpt-bounds :
    (s out : Bytes) (max : ℕ)
    → IsExcerpt s max out
    → 1 ≤ length s
    → 38 ≤ max
    → (1 ≤ length out) × (length out ≤ max)
IsExcerpt-bounds s out max (whole fits) some_byte room = (some_byte, fits)
IsExcerpt-bounds s out max (cut_at cut long boundary fits) some_byte room = (
  omega (
    arith,
    length-append (take cut s) (total_suffix (length s)),
    total_suffix_positive (length s),
  ),
  omega (
    arith,
    length-append (take cut s) (total_suffix (length s)),
    length-take cut s,
    fits (omega (arith, length-total_suffix (length s), room)),
  ),
)

-- The text that is kept of a failure is never empty and never longer than 4096 bytes; a text that is
-- not empty and that fits is kept whole, and any other is cut to whole characters of its own, with the
-- number of its bytes behind them.
pub kept_text-IsExcerpt :
    (b : ℕ) (raw : Bytes)
    → (1 ≤ length (kept_text []))
      × (length (kept_text []) ≤ max_last_error_bytes)
      × (1 ≤ length (kept_text (b ∷ raw)))
      × (length (kept_text (b ∷ raw)) ≤ max_last_error_bytes)
      × IsExcerpt (b ∷ raw) max_last_error_bytes (kept_text (b ∷ raw))
unfolding kept_text
kept_text-IsExcerpt b raw =
    let excerpt = truncate_text-IsExcerpt (b ∷ raw) max_last_error_bytes in
    let (some_byte, fits) =
      IsExcerpt-bounds (b ∷ raw) (truncate_text (b ∷ raw) max_last_error_bytes) max_last_error_bytes
        excerpt (omega arith) (omega arith) in
    (omega arith, omega arith, some_byte, fits, excerpt)
