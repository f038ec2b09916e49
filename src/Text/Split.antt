-- ===== src/Text/Split.antt =====
-- Equality, containment and splitting of strings, characterised.
use gwead.Prelude.{
  ℕ, ◌≡◌, ◌≢◌, refl, ap, ◌∙◌, ◌⊎◌, inl, inr, ◌↔◌, true, false, Option, none, some, List, [], ◌∷◌,
  ◌++◌, arith, ◌==◌, Bool-cases, Option-cases, ◌||◌, ==_iff,
}
use gwead.Text.{Str, str_eq, contains, split_once, rsplit_once, split, extend}

pub str_eq_iff : (s t : Str) → (str_eq s t ≡ true) ↔ (s ≡ t)
unfolding str_eq
str_eq_iff [] [] = (λ h. refl, λ h. refl)
str_eq_iff [] (b ∷ t) = (λ h. cc, λ h. cc)
str_eq_iff (a ∷ s) [] = (λ h. cc, λ h. cc)
str_eq_iff (a ∷ s) (b ∷ t) =
    (λ h. ground (arith, str_eq_iff s t), λ h. ground (arith, str_eq_iff s t))

pub str_eq_refl : (s : Str) → str_eq s s ≡ true
str_eq_refl s = (str_eq_iff s s).1 refl

pub contains-append :
    (sep : ℕ) (s t : Str) → contains sep (s ++ t) ≡ (contains sep s || contains sep t)
unfolding contains
contains-append sep [] t = refl
contains-append sep (c ∷ s) t = ground (arith, contains-append sep s t)

-- The first separator is found behind a part that has none.
pub split_once-append :
    (sep : ℕ) (s t : Str) → contains sep s ≡ false → split_once sep (s ++ sep ∷ t) ≡ some (s, t)
unfolding split_once contains
split_once-append sep [] t h = ground arith
split_once-append sep (c ∷ s) t h = ground (arith, split_once-append sep s t)

pub split_once-eq-some : (sep : ℕ) (s a b : Str) → split_once sep s ≡ some (a, b) → s ≡ a ++ sep ∷ b
unfolding split_once
split_once-eq-some sep [] a b h = cc
split_once-eq-some sep (c ∷ s) a b h = elim (Bool-cases (c == sep)) [
  | inl e ↦ ground arith
  | inr e ↦ elim (Option-cases (split_once sep s)) [
    | inl n ↦ ground arith
    | inr ((a', b'), p) ↦ ground (arith, split_once-eq-some sep s a' b' p)
  ]
]

pub split_once-eq-none : (sep : ℕ) (s : Str) → contains sep s ≡ false → split_once sep s ≡ none
unfolding split_once contains
split_once-eq-none sep [] h = refl
split_once-eq-none sep (c ∷ s) h = ground (arith, split_once-eq-none sep s)

pub rsplit_once-eq-none : (sep : ℕ) (s : Str) → contains sep s ≡ false → rsplit_once sep s ≡ none
unfolding rsplit_once contains
rsplit_once-eq-none sep [] h = refl
rsplit_once-eq-none sep (c ∷ s) h = ground (arith, rsplit_once-eq-none sep s)

-- Where the last separator of `s ++ sep ∷ t` stands, by the last separator of `t`.
abbrev pub last_of : ℕ → Str → Str → Option (Str × Str) → Str × Str
last_of sep s t none = (s, t)
last_of sep s t (some (a, b)) = (s ++ sep ∷ a, b)

pub rsplit_once-append :
    (sep : ℕ) (s t : Str)
    → rsplit_once sep (s ++ sep ∷ t) ≡ some (last_of sep s t (rsplit_once sep t))
unfolding rsplit_once
rsplit_once-append sep [] t = elim (Option-cases (rsplit_once sep t)) [
  | inl n ↦ ground arith
  | inr (p, e) ↦ ground arith
]
rsplit_once-append sep (c ∷ s) t = elim (Option-cases (rsplit_once sep t)) [
  | inl n ↦ ground (arith, rsplit_once-append sep s t)
  | inr (p, e) ↦ ground (arith, rsplit_once-append sep s t)
]

pub rsplit_once-eq-some :
    (sep : ℕ) (s a b : Str) → rsplit_once sep s ≡ some (a, b) → s ≡ a ++ sep ∷ b
unfolding rsplit_once
rsplit_once-eq-some sep [] a b h = cc
rsplit_once-eq-some sep (c ∷ s) a b h = elim (Option-cases (rsplit_once sep s)) [
  | inl n ↦ ground arith
  | inr ((a', b'), p) ↦ ground (arith, rsplit_once-eq-some sep s a' b' p)
]

-- A part with no separator is one segment.
pub split-append :
    (sep : ℕ) (s t : Str) → contains sep s ≡ false → split sep (s ++ sep ∷ t) ≡ s ∷ split sep t
unfolding split contains
split-append sep [] t h = ground arith
split-append sep (c ∷ s) t h = ground (arith, split-append sep s t)

pub split_whole : (sep : ℕ) (s : Str) → contains sep s ≡ false → split sep s ≡ s ∷ []
unfolding split contains
split_whole sep [] h = refl
split_whole sep (c ∷ s) h = ground (arith, split_whole sep s)

-- The first segment has no separator, and is the whole text or ends at the first separator.
abbrev pub StartsWith : ℕ → Str → Str → List Str → Type 0
StartsWith sep s a rest =
    (contains sep a ≡ false)
    × (((rest ≡ []) × (s ≡ a)) ⊎ ((t : Str) × (s ≡ a ++ sep ∷ t) × (split sep t ≡ rest)))

split_ne_nil : (sep : ℕ) (s : Str) → split sep s ≢ []
unfolding split
split_ne_nil sep [] e = cc
split_ne_nil sep (c ∷ s) e = elim (Bool-cases (c == sep)) [
  | inl p ↦ cc (e, p)
  | inr p ↦ ground (arith, split_ne_nil sep s)
]

extend_start :
    (sep c : ℕ) (s : Str) (segments : List Str) (a : Str) (rest : List Str)
    → (c == sep) ≡ false
    → ((b : Str) (r : List Str) → segments ≡ b ∷ r → StartsWith sep s b r)
    → segments ≢ []
    → extend c segments ≡ a ∷ rest
    → StartsWith sep (c ∷ s) a rest
unfolding contains
extend_start sep c s [] a rest p ih ne e = absurd (ne refl)
extend_start sep c s (b ∷ r) a rest p ih ne e =
    let ea : a ≡ c ∷ b = cc e in
    let er : rest ≡ r = cc e in
    let (plain, cases) = ih b r refl in
    rw (ea, er)
      (
        ground arith,
        elim cases [
          | inl (e₁, e₂) ↦ inl (e₁, ap (λ x. c ∷ x) e₂)
          | inr (t, e₁, e₂) ↦ inr (t, ap (λ x. c ∷ x) e₁, e₂)
        ],
      )

pub split-eq-cons :
    (sep : ℕ) (s a : Str) (rest : List Str) → split sep s ≡ a ∷ rest → StartsWith sep s a rest
unfolding split
split-eq-cons sep [] a rest e =
    let ea : a ≡ [] = cc e in
    let er : rest ≡ [] = cc e in rw (ea, er) (unfold contains in refl, inl (refl, refl))
split-eq-cons sep (c ∷ s) a rest e = elim (Bool-cases (c == sep)) [
  | inl p ↦
      let f : ◌≡◌ {A = List Str} ([] ∷ split sep s) (a ∷ rest) = ground arith in
      let ea : a ≡ [] = cc f in
      let er : rest ≡ split sep s = cc f in
      rw (ea, er) (unfold contains in refl, inr (s, rw ((==_iff c sep).0 p), refl))
  | inr p ↦
      extend_start sep c s (split sep s) a rest p (split-eq-cons sep s) (split_ne_nil sep s)
        (ground arith)
]

-- Three segments, exactly where the text is those three parts, free of the separator, joined by it.
pub split_three :
    (sep : ℕ) (s a b c : Str)
    → (split sep s ≡ a ∷ b ∷ c ∷ []) ↔ (
        (s ≡ a ++ sep ∷ (b ++ sep ∷ c))
        × (contains sep a ≡ false)
        × (contains sep b ≡ false)
        × (contains sep c ≡ false))
split_three sep s a b c = (
  λ e. three (split-eq-cons sep s a (b ∷ c ∷ []) e),
  λ (e, pa, pb, pc).
      rw (e, split-append sep a (b ++ sep ∷ c) pa, split-append sep b c pb, split_whole sep c pc)
        refl,
)
  where
    last : (t : Str) → StartsWith sep t c [] → (t ≡ c) × (contains sep c ≡ false)
    last t (pc, inl (_, e)) = (e, pc)
    last t (pc, inr (u, _, e)) = absurd (split_ne_nil sep u e)

    two :
        (t : Str)
        → StartsWith sep t b (c ∷ [])
        → (t ≡ b ++ sep ∷ c) × (contains sep b ≡ false) × (contains sep c ≡ false)
    two t (pb, inl (e, _)) = cc e
    two t (pb, inr (u, e, f)) =
        let (g, pc) = last u (split-eq-cons sep u c [] f) in (e ∙ ap (λ x. b ++ sep ∷ x) g, pb, pc)

    three :
        StartsWith sep s a (b ∷ c ∷ [])
        → (s ≡ a ++ sep ∷ (b ++ sep ∷ c))
          × (contains sep a ≡ false)
          × (contains sep b ≡ false)
          × (contains sep c ≡ false)
    three (pa, inl (e, _)) = cc e
    three (pa, inr (u, e, f)) =
        let (g, pb, pc) = two u (split-eq-cons sep u b (c ∷ []) f) in
        (e ∙ ap (λ x. a ++ sep ∷ x) g, pa, pb, pc)
