-- ===== src/Streams/Entries.antt =====
-- The entries of a handle table, looked up after an insertion or a removal.
use gwead.Prelude.{
  ℕ, ◌≡◌, ◌≢◌, refl, ◌∙◌, none, some, List, [], ◌∷◌, ◌==◌, ==_iff, inl, inr, arith, Bool-cases,
}
use gwead.Streams.Registry.{place, insert, remove}

pub place-insert_same : (id at : ℕ) (m : List (ℕ × ℕ)) → place id (insert id at m) ≡ some at
unfolding place insert
place-insert_same id at [] = ground (arith, ==_iff id id)
place-insert_same id at ((k, a) ∷ m) = elim (Bool-cases (k == id)) [
  | inl e ↦ rw e (ground (arith, ==_iff id id))
  | inr e ↦ rw e (rw e (place-insert_same id at m))
]

pub place-insert_other :
    (id at j : ℕ) (m : List (ℕ × ℕ)) → id ≢ j → place j (insert id at m) ≡ place j m
unfolding place insert
place-insert_other id at j [] other = ground (arith, ==_iff id j)
place-insert_other id at j ((k, a) ∷ m) other = elim (Bool-cases (k == id)) [
  | inl e ↦ ground (arith, e, ==_iff id j, ==_iff k j, ==_iff k id)
  | inr e ↦ rw e (elim (Bool-cases (k == j)) [
    | inl f ↦ rw f refl
    | inr f ↦ rw f (place-insert_other id at j m other)
  ])
]

pub place-remove_same : (id : ℕ) (m : List (ℕ × ℕ)) → place id (remove id m) ≡ none
unfolding place remove
place-remove_same id [] = refl
place-remove_same id ((k, a) ∷ m) = elim (Bool-cases (k == id)) [
  | inl e ↦ rw e (place-remove_same id m)
  | inr e ↦ rw e (rw e (place-remove_same id m))
]

pub place-remove_other : (id j : ℕ) (m : List (ℕ × ℕ)) → id ≢ j → place j (remove id m) ≡ place j m
unfolding place remove
place-remove_other id j [] other = refl
place-remove_other id j ((k, a) ∷ m) other = elim (Bool-cases (k == id)) [
  | inl e ↦ rw e (place-remove_other id j m other ∙ ground (arith, e, ==_iff k j, ==_iff k id))
  | inr e ↦ rw e (elim (Bool-cases (k == j)) [
    | inl f ↦ rw f refl
    | inr f ↦ rw f (place-remove_other id j m other)
  ])
]
