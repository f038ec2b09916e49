-- ===== src/Identity/Chain.antt =====
-- The ancestor chain of a namespace, and the containment rule that is read off it.
use gwead.Prelude.{
  ℕ, zero, suc, ◌≤◌, ◌<◌, ◌≡◌, refl, sym, ap, subst, ◌↔◌, ◌⊎◌, inl, inr, true, List, [], ◌∷◌, ◌++◌,
  length, length-append, In, arith, Bool-cases, Option-cases, append_assoc,
}
use gwead.Text.{Str, str_eq, rsplit_once}
use gwead.Text.Split.{str_eq_iff, str_eq_refl, rsplit_once-append, rsplit_once-eq-some}
use gwead.Identity.{
  namespace_separator, namespace_part, namespace_of, walk, ancestor_namespaces, any_eq, is_on_chain,
}

-- `ns` is `of` or encloses it: the root, `of` itself, or a prefix of `of` that ends at a separator.
abbrev pub Encloses : Str → Str → Type 0
Encloses ns of = (ns ≡ []) ⊎ (ns ≡ of) ⊎ ((rest : Str) × (of ≡ ns ++ namespace_separator ∷ rest))

-- the enclosing namespace
abbrev parent : Str → Str
parent ns = namespace_part (rsplit_once namespace_separator ns)

length-parent : (c : ℕ) (s : Str) → length (parent (c ∷ s)) ≤ length s
length-parent c s = elim (Option-cases (rsplit_once namespace_separator (c ∷ s))) [
  | inl n ↦ rw n (omega arith)
  | inr ((a, b), e) ↦ rw e (
      let whole = ap length (rsplit_once-eq-some namespace_separator (c ∷ s) a b e) in
      omega (arith, whole, length-append a (namespace_separator ∷ b)))
]

Encloses-root : (ns : Str) → Encloses ns [] → ns ≡ []
Encloses-root ns (inl e) = e
Encloses-root ns (inr (inl e)) = e
Encloses-root [] (inr (inr (rest, e))) = refl
Encloses-root (c ∷ s) (inr (inr (rest, e))) = cc

Encloses-below : (ns a b : Str) → Encloses ns a → Encloses ns (a ++ namespace_separator ∷ b)
Encloses-below ns a b (inl e) = inl e
Encloses-below ns a b (inr (inl e)) = inr (inr (b, rw e))
Encloses-below ns a b (inr (inr (rest, e))) =
    inr
      (inr (rest ++ namespace_separator ∷ b, rw e (append_assoc ns (namespace_separator ∷ rest) _)))

pub In-walk-Encloses : (fuel : ℕ) (ns of : Str) → In ns (walk fuel of) → Encloses ns of
unfolding walk
In-walk-Encloses zero ns of h = absurd h
In-walk-Encloses (suc fuel) ns [] h = ground arith
In-walk-Encloses (suc fuel) ns (c ∷ s) (inl e) = inr (inl e)
In-walk-Encloses (suc fuel) ns (c ∷ s) (inr h) =
    elim (Option-cases (rsplit_once namespace_separator (c ∷ s))) [
      | inl n ↦ inl (Encloses-root ns (In-walk-Encloses fuel ns [] (rw n at h)))
      | inr ((a, b), e) ↦
          subst (Encloses ns) (sym (rsplit_once-eq-some namespace_separator (c ∷ s) a b e))
            (Encloses-below ns a b (In-walk-Encloses fuel ns a (rw e at h)))
    ]

In-walk_self : (fuel : ℕ) (ns : Str) → 0 < fuel → In ns (walk fuel ns)
unfolding walk
In-walk_self zero ns h = absurd (omega arith)
In-walk_self (suc fuel) [] h = inl refl
In-walk_self (suc fuel) (c ∷ s) h = inl refl

In-walk-root : (fuel : ℕ) (of : Str) → length of < fuel → In [] (walk fuel of)
unfolding walk
In-walk-root zero of h = absurd (omega arith)
In-walk-root (suc fuel) [] h = inl refl
In-walk-root (suc fuel) (c ∷ s) h =
    inr (In-walk-root fuel (parent (c ∷ s)) (omega (arith, length-parent c s)))

-- a namespace with a separator after `ns` has a parent that `ns` still encloses
parent-below : (ns rest : Str) → Encloses ns (parent (ns ++ namespace_separator ∷ rest))
parent-below ns rest =
    rw (rsplit_once-append namespace_separator ns rest)
      (elim (Option-cases (rsplit_once namespace_separator rest)) [
        | inl n ↦ rw n (inr (inl refl))
        | inr ((a, b), e) ↦ rw e (inr (inr (a, refl)))
      ])

Encloses-In-walk :
    (fuel : ℕ) (ns of : Str) → length of < fuel → Encloses ns of → In ns (walk fuel of)
unfolding walk
Encloses-In-walk zero ns of h k = absurd (omega arith)
Encloses-In-walk (suc fuel) ns [] h k = inl (Encloses-root ns k)
Encloses-In-walk (suc fuel) ns (c ∷ s) h (inl e) =
    subst (λ x. In x (walk (suc fuel) (c ∷ s))) (sym e) (In-walk-root (suc fuel) (c ∷ s) h)
Encloses-In-walk (suc fuel) ns (c ∷ s) h (inr (inl e)) = inl e
Encloses-In-walk (suc fuel) ns (c ∷ s) h (inr (inr (rest, e))) = inr (
    Encloses-In-walk fuel ns (parent (c ∷ s)) (omega (arith, length-parent c s))
      (rw e (parent-below ns rest)))

any_eq_iff : (s : Str) (ts : List Str) → (any_eq s ts ≡ true) ↔ In s ts
unfolding any_eq
any_eq_iff s [] = (λ e. cc, λ h. absurd h)
any_eq_iff s (t ∷ ts) = (
  λ e. elim (Bool-cases (str_eq t s)) [
    | inl p ↦ inl (sym ((str_eq_iff t s).0 p))
    | inr p ↦ inr ((any_eq_iff s ts).0 (ground arith))
  ],
  elim [ inl e ↦ rw (e, str_eq_refl t) refl | inr h ↦ ground (arith, (any_eq_iff s ts).1 h) ],
)

-- The walk up from a namespace meets exactly the namespaces that enclose it, root and itself
-- included, and a prefix counts only where it ends at a separator.
pub ancestor_namespaces_iff : (ns of : Str) → In ns (ancestor_namespaces of) ↔ Encloses ns of
unfolding ancestor_namespaces
ancestor_namespaces_iff ns of = (
  In-walk-Encloses (suc (length of)) ns of,
  Encloses-In-walk (suc (length of)) ns of (omega arith),
)

-- A target is on the chain exactly if its namespace encloses the other's.
pub is_on_chain_iff :
    (target of : Str)
    → (is_on_chain target of ≡ true) ↔ Encloses (namespace_of target) (namespace_of of)
unfolding is_on_chain
is_on_chain_iff target of =
    let found = any_eq_iff (namespace_of target) (ancestor_namespaces (namespace_of of)) in
    let walked = ancestor_namespaces_iff (namespace_of target) (namespace_of of) in
    (λ e. walked.0 (found.0 e), λ k. found.1 (walked.1 k))
