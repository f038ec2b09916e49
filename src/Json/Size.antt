-- ===== src/Json/Size.antt =====
-- The number of values in a JSON value, as a measure of what stands inside it.
use gwead.Prelude.{
  ℕ, suc, ◌+◌, ◌≤◌, ◌<◌, ◌≡◌, ap, Option, none, some, In, inl, inr, arith, Bool-cases, Option-cases,
}
use gwead.Text.{Str, str_eq}
use gwead.Json.{
  Value, Items, Fields, null, bool, number, string, array, object, nil, cons, end, field, elements,
  member, get, as_array,
}

module _ {N : Type 0} where
  unfoldable mutual
    pub size : Value N → ℕ
    size (array vs) = suc (sizes vs)
    size (object fs) = suc (field_sizes fs)
    size _ = 1

    pub sizes : Items N → ℕ
    sizes nil = 0
    sizes (cons v vs) = size v + sizes vs

    pub field_sizes : Fields N → ℕ
    field_sizes end = 0
    field_sizes (field k v fs) = size v + field_sizes fs

  pub elements-size : (vs : Items N) (v : Value N) → In v (elements vs) → size v ≤ sizes vs
  unfolding sizes
  elements-size nil v i = absurd i
  elements-size (cons w vs) v (inl e) = rw e (omega arith)
  elements-size (cons w vs) v (inr i) = omega (arith, elements-size vs v i)

  pub member-size :
      (k : Str) (fs : Fields N) (v : Value N) → member k fs ≡ some v → size v ≤ field_sizes fs
  unfolding member field_sizes
  member-size k end v e = cc e
  member-size k (field j w fs) v e = elim (Bool-cases (str_eq j k)) [
    | inl f ↦ let same : w ≡ v = cc (rw (f, member) at e) in omega (arith, ap size same)
    | inr f ↦ omega (arith, member-size k fs v (rw (f, member) at e))
  ]

  -- `params.get(key).and_then(|v| v.as_array())`
  abbrev pub array_in : Option (Value N) → Option (Items N)
  array_in none = none
  array_in (some v) = as_array v

  unfoldable pub array_at : Str → Value N → Option (Items N)
  array_at k v = array_in (get k v)

  pub as_array-size : (w : Value N) (vs : Items N) → as_array w ≡ some vs → sizes vs < size w
  unfolding size
  as_array-size null vs e = cc e
  as_array-size (bool b) vs e = cc e
  as_array-size (number n) vs e = cc e
  as_array-size (string s) vs e = cc e
  as_array-size (object fs) vs e = cc e
  as_array-size (array ws) vs e = let same : ws ≡ vs = cc e in omega (arith, ap sizes same)

  pub array_at-size :
      (k : Str) (v : Value N) (vs : Items N) → array_at k v ≡ some vs → sizes vs < size v
  unfolding array_at size
  array_at-size k null vs e = cc e
  array_at-size k (bool b) vs e = cc e
  array_at-size k (number n) vs e = cc e
  array_at-size k (string s) vs e = cc e
  array_at-size k (array ws) vs e = cc e
  array_at-size k (object fs) vs e = elim (Option-cases (member k fs)) [
    | inl f ↦ cc (rw f at e)
    | inr (w, f) ↦ omega (arith, as_array-size w vs (rw f at e), member-size k fs w f)
  ]
