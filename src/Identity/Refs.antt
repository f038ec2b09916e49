-- ===== src/Identity/Refs.antt =====
-- The implRefs that validate, by their segments.
use gwead.Prelude.{ℕ, ◌≡◌, ◌↔◌, refl, false, List, [], ◌∷◌, ◌==◌, arith, All, Bool-cases, inl, inr}
use gwead.Prelude.Outcome.{ok, >>=-eq-ok}
use gwead.Text.{Str, contains, split, extend}
use gwead.Identity.{native_impl_ref_segment, validate_name, check_segments, validate_impl_ref}
use gwead.Identity.Names.{IsName, validate_name_iff}
use gwead.Identity.Plugins.{IsName-no_separator}

abbrev pub AreNames : List Str → Type 0
AreNames = All (IsName native_impl_ref_segment)

check_segments_iff : (ss : List Str) → (check_segments ss ≡ ok tt) ↔ AreNames ss
unfolding check_segments
check_segments_iff [] = (λ e. tt, λ h. refl)
check_segments_iff (s ∷ ss) = (
  λ e.
      let (u, f, rest) =
        >>=-eq-ok (validate_name native_impl_ref_segment s) (λ _. check_segments ss) e in
      ((validate_name_iff native_impl_ref_segment s).0 f, (check_segments_iff ss).0 rest),
  λ (n, all).
      rw ((validate_name_iff native_impl_ref_segment s).1 n) ((check_segments_iff ss).1 all),
)

-- the parts of a text, none of which has a `/`, make up a text without one
abbrev NoSlash : List Str → Type 0
NoSlash = All (λ s. contains b'/' s ≡ false)

extend-NoSlash :
    (c : ℕ) (ss : List Str) → NoSlash (extend c ss) → ((c == b'/') ≡ false) × NoSlash ss
unfolding contains
extend-NoSlash c [] h = (ground arith, tt)
extend-NoSlash c (s ∷ ss) (h, all) = (ground arith, (ground arith, all))

split-NoSlash : (t : Str) → NoSlash (split b'.' t) → contains b'/' t ≡ false
unfolding split contains
split-NoSlash [] h = refl
split-NoSlash (c ∷ t) h = elim (Bool-cases (c == b'.')) [
  | inl e ↦ let all = (rw e at h).1 in ground (arith, split-NoSlash t all)
  | inr e ↦ let (x, all) = extend-NoSlash c (split b'.' t) (rw e at h) in rw x (split-NoSlash t all)
]

AreNames-NoSlash : (ss : List Str) → AreNames ss → NoSlash ss
AreNames-NoSlash [] h = tt
AreNames-NoSlash (s ∷ ss) (n, all) =
    (IsName-no_separator native_impl_ref_segment s n, AreNames-NoSlash ss all)

-- An implRef validates exactly if each of its segments between the dots is a name.
pub validate_impl_ref_iff :
    (reference : Str) → (validate_impl_ref reference ≡ ok tt) ↔ AreNames (split b'.' reference)
unfolding validate_impl_ref
validate_impl_ref_iff [] = (λ e. cc e, λ h. unfold split in absurd h.0.first)
validate_impl_ref_iff (c ∷ t) = (
  λ e. elim (Bool-cases (contains b'/' (c ∷ t))) [
    | inl f ↦ cc (rw f at e)
    | inr f ↦ (check_segments_iff (split b'.' (c ∷ t))).0 (rw f at e)
  ],
  λ h.
      rw (split-NoSlash (c ∷ t) (AreNames-NoSlash (split b'.' (c ∷ t)) h))
        ((check_segments_iff (split b'.' (c ∷ t))).1 h),
)
