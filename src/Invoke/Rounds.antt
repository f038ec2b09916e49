-- ===== src/Invoke/Rounds.antt =====
-- The rounds that the search can still take: each round brings them down.
use gwead.Prelude.{
  ℕ, suc, ◌+◌, ◌-◌, ◌≤◌, ◌≡◌, Option, none, some, List, [], ◌∷◌, In, length, inl, inr, arith,
}
use gwead.Invoke.{NodeRef, Adjacency, Color, Colors, neighbours, color_of, work}
use gwead.Invoke.Explore.{Stack, color_of-same, color_of-other, node_cases}

module _ (adj : Adjacency) where
  abbrev pub degree : NodeRef → ℕ
  degree n = length (neighbours adj n)

  abbrev weight : ℕ → Option Color → ℕ
  weight d none = suc d
  weight d (some c) = 0

  -- the nodes with no colour yet, each with what it leads to
  pub white : Colors → List NodeRef → ℕ
  white colors [] = 0
  white colors (n ∷ ns) = weight (degree n) (color_of colors n) + white colors ns

  -- the nodes of the stack, each with what it still leads to
  abbrev pub pending : Stack → ℕ
  pending [] = 0
  pending ((n, i) ∷ stack) = suc (degree n - i) + pending stack

  weight-le : (d : ℕ) (o : Option Color) → weight d o ≤ suc d
  weight-le d none = omega arith
  weight-le d (some c) = omega arith

  pub white-le :
      (n : NodeRef) (c : Color) (colors : Colors) (ns : List NodeRef)
      → white ((n, c) ∷ colors) ns ≤ white colors ns
  unfolding white
  white-le n c colors [] = omega arith
  white-le n c colors (m ∷ ns) = elim (node_cases n m) [
    | inl e ↦ rw (color_of-same n m c colors e) (omega (arith, white-le n c colors ns))
    | inr e ↦ rw (color_of-other n m c colors e) (omega (arith, white-le n c colors ns))
  ]

  -- a node that gets its first colour
  pub white-push :
      (n : NodeRef) (c : Color) (colors : Colors) (ns : List NodeRef)
      → color_of colors n ≡ none
      → In n ns
      → white ((n, c) ∷ colors) ns + suc (degree n) ≤ white colors ns
  unfolding white
  white-push n c colors [] e h = absurd h
  white-push n c colors (m ∷ ns) e (inl f) =
      rw (color_of-same n m c colors f) (rw (← f) (rw e (omega (arith, white-le n c colors ns))))
  white-push n c colors (m ∷ ns) e (inr h) = elim (node_cases n m) [
    | inl f ↦
        rw (color_of-same n m c colors f) (rw (← f) (rw e (omega (arith, white-le n c colors ns))))
    | inr f ↦ rw (color_of-other n m c colors f) (omega (arith, white-push n c colors ns e h))
  ]

  -- the fuel that the search is given
  pub white-le-work : (colors : Colors) (ns : List NodeRef) → white colors ns ≤ work adj ns
  unfolding white work
  white-le-work colors [] = omega arith
  white-le-work colors (n ∷ ns) =
      omega (arith, weight-le (degree n) (color_of colors n), white-le-work colors ns)
