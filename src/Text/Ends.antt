-- ===== src/Text/Ends.antt =====
-- What a prefix and a suffix that were found say of a string.
use gwead.Prelude.{
  ◌≡◌, ◌↔◌, refl, true, some, [], ◌∷◌, ◌++◌, arith, Bool-cases, Option-cases, inl, inr,
}
use gwead.Text.{Str, str_eq}
use gwead.Text.Split.{str_eq_iff, str_eq_refl}
use gwead.Text.Affix.{strip_prefix, strip_suffix, starts_with, ends_with}

pub strip_prefix-eq-some : (p s r : Str) → strip_prefix p s ≡ some r → s ≡ p ++ r
unfolding strip_prefix
strip_prefix-eq-some [] s r h = cc h
strip_prefix-eq-some (c ∷ p) [] r h = cc h
strip_prefix-eq-some (c ∷ p) (d ∷ s) r h = ground (arith, strip_prefix-eq-some p s r)

strip_prefix-append : (p r : Str) → strip_prefix p (p ++ r) ≡ some r
unfolding strip_prefix
strip_prefix-append [] r = refl
strip_prefix-append (c ∷ p) r = ground (arith, strip_prefix-append p r)

pub strip_suffix-eq-some : (p s r : Str) → strip_suffix p s ≡ some r → s ≡ r ++ p
unfolding strip_suffix
strip_suffix-eq-some p [] r h = elim (Bool-cases (str_eq p [])) [
  | inl e ↦ let e' = (str_eq_iff p []).0 e in ground arith
  | inr e ↦ ground arith
]
strip_suffix-eq-some p (c ∷ s) r h = elim (Bool-cases (str_eq p (c ∷ s))) [
  | inl e ↦ let e' = (str_eq_iff p (c ∷ s)).0 e in ground arith
  | inr e ↦ elim (Option-cases (strip_suffix p s)) [
    | inl n ↦ ground arith
    | inr (r', f) ↦ ground (arith, strip_suffix-eq-some p s r' f)
  ]
]

-- a suffix that is there is found
ends_with-append : (r p : Str) → ends_with p (r ++ p) ≡ true
unfolding ends_with strip_suffix str_eq
ends_with-append [] [] = refl
ends_with-append [] (c ∷ p) = rw (str_eq_refl (c ∷ p)) refl
ends_with-append (c ∷ r) p = elim (Bool-cases (str_eq p (c ∷ (r ++ p)))) [
  | inl e ↦ ground arith
  | inr e ↦ elim (Option-cases (strip_suffix p (r ++ p))) [
    | inl n ↦ let found = ends_with-append r p in ground arith
    | inr (r', f) ↦ ground arith
  ]
]

pub starts_with_iff : (p s : Str) → (starts_with p s ≡ true) ↔ ((r : Str) × (s ≡ p ++ r))
unfolding starts_with
starts_with_iff p s = (
  λ h. elim (Option-cases (strip_prefix p s)) [
    | inl n ↦ ground arith
    | inr (r, f) ↦ (r, strip_prefix-eq-some p s r f)
  ],
  λ (r, e). rw (e, strip_prefix-append p r) refl,
)

pub ends_with_iff : (p s : Str) → (ends_with p s ≡ true) ↔ ((r : Str) × (s ≡ r ++ p))
ends_with_iff p s = (
  λ h. elim (Option-cases (strip_suffix p s)) [
    | inl n ↦ unfold ends_with in ground arith
    | inr (r, f) ↦ (r, strip_suffix-eq-some p s r f)
  ],
  λ (r, e). rw e (ends_with-append r p),
)
