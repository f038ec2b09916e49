-- ===== src/Dsl/Eval/Picks.antt =====
-- What a path picks from a value, told segment by segment without the functions that compute it
-- (src/dsl/eval.rs).
use gwead.Prelude.{
  ℕ, zero, suc, ◌+◌, ◌≤◌, ◌≡◌, ◌≢◌, ◌↔◌, refl, sym, ap, ◌∙◌, true, Option, none, some, List, [],
  ◌∷◌, ◌++◌, length, length-append, append_assoc, get_elem?, arith, Bool-cases, inl, inr,
}
use gwead.Text.{Str}
use gwead.Text.Split.{str_eq_iff}
use gwead.Json.{
  Value, Items, null, bool, number, string, array, object, elements, items, get, member, as_array,
}
use gwead.Dsl.Ast.{PathSegment, field, index, wildcard, filter_eq}
use gwead.Dsl.Eval.{segment_of, keep_equal, field_equals_string, is_string, optional, unwrap}

-- a segment that picks elements of an array
abbrev pub IsOfArray : PathSegment → Type 0
IsOfArray (field name) = ⊥
IsOfArray (index i) = Unit
IsOfArray wildcard = Unit
IsOfArray (filter_eq name value) = Unit

module _ {N : Type 0} where
  -- The elements whose member of this name is this string, in order.
  pub data Kept (name value : Str) : List (Value N) → List (Value N) → Type 0 where
    at_end : Kept name value [] []
    keep :
        {elem : Value N} {rest kept : List (Value N)}
        → get name elem ≡ some (string value)
        → Kept name value rest kept
        → Kept name value (elem ∷ rest) (elem ∷ kept)
    skip :
        {elem : Value N} {rest kept : List (Value N)}
        → get name elem ≢ some (string value)
        → Kept name value rest kept
        → Kept name value (elem ∷ rest) kept

  -- The values that one segment picks under a value, in order.
  pub data Picks : PathSegment → Value N → List (Value N) → Type 0 where
    member_named :
        {name : Str} {v w : Value N} → get name v ≡ some w → Picks (field name) v (w ∷ [])
    no_member : {name : Str} {v : Value N} → get name v ≡ none → Picks (field name) v []
    at_index :
        {i : ℕ} {v w : Value N} {arr : Items N} (before after : List (Value N))
        → as_array v ≡ some arr
        → elements arr ≡ before ++ w ∷ after
        → length before ≡ i
        → Picks (index i) v (w ∷ [])
    past_end :
        {i : ℕ} {v : Value N} (arr : Items N)
        → as_array v ≡ some arr
        → length (elements arr) ≤ i
        → Picks (index i) v []
    every : {v : Value N} {arr : Items N} → as_array v ≡ some arr → Picks wildcard v (elements arr)
    equal_ones :
        {name value : Str} {v : Value N} {kept : List (Value N)} (arr : Items N)
        → as_array v ≡ some arr
        → Kept name value (elements arr) kept
        → Picks (filter_eq name value) v kept
    no_array :
        {seg : PathSegment} {v : Value N} → IsOfArray seg → as_array v ≡ none → Picks seg v []

  mutual
    -- the values at the end of a path from one value, depth first
    pub data Walks : List PathSegment → Value N → List (Value N) → Type 0 where
      stays : {v : Value N} → Walks [] v (v ∷ [])
      goes :
          {seg : PathSegment} {path : List PathSegment} {v : Value N} {us ws : List (Value N)}
          → Picks seg v us
          → WalksAll path us ws
          → Walks (seg ∷ path) v ws

    -- those from each of some values, one after the other
    pub data WalksAll : List PathSegment → List (Value N) → List (Value N) → Type 0 where
      no_more : {path : List PathSegment} → WalksAll path [] []
      one_then :
          {path : List PathSegment} {u : Value N} {us ws ws' : List (Value N)}
          → Walks path u ws
          → WalksAll path us ws'
          → WalksAll path (u ∷ us) (ws ++ ws')

  -- What a reference evaluates to, by the number of values that its path picks.
  pub data Gives : List (Value N) → Value N → Type 0 where
    nothing : Gives [] null
    only : {v : Value N} → Gives (v ∷ []) v
    several : {ws : List (Value N)} → 2 ≤ length ws → Gives ws (array (items ws))

  pub unwrap-Gives : (ws : List (Value N)) → Gives ws (unwrap ws)
  unwrap-Gives [] = nothing
  unwrap-Gives (v ∷ []) = only
  unwrap-Gives (v ∷ w ∷ vs) = several (omega arith)

  optional-Picks :
      (name : Str) (v : Value N) (o : Option (Value N))
      → get name v ≡ o
      → Picks (field name) v (optional o)
  optional-Picks name v none e = no_member e
  optional-Picks name v (some w) e = member_named e

  index-Picks :
      (i j : ℕ) (v : Value N) (arr : Items N) (before after : List (Value N))
      → as_array v ≡ some arr
      → elements arr ≡ before ++ after
      → length before + j ≡ i
      → Picks (index i) v (optional (get_elem? after j))
  index-Picks i j v arr before [] e f g =
      past_end arr e (omega (arith, ap length f, length-append before [], g))
  index-Picks i zero v arr before (w ∷ after) e f g = at_index before after e f (omega (arith, g))
  index-Picks i (suc j) v arr before (w ∷ after) e f g =
      index-Picks i j v arr (before ++ w ∷ []) after e
        (f ∙ sym (append_assoc before (w ∷ []) after))
        (omega (arith, g, length-append before (w ∷ [])))

  is_string_iff :
      (expected : Str) (o : Option (Value N))
      → (is_string expected o ≡ true) ↔ (o ≡ some (string expected))
  is_string_iff expected none = (λ e. cc e, λ e. cc e)
  is_string_iff expected (some null) = (λ e. cc e, λ e. cc e)
  is_string_iff expected (some (bool b)) = (λ e. cc e, λ e. cc e)
  is_string_iff expected (some (number n)) = (λ e. cc e, λ e. cc e)
  is_string_iff expected (some (array vs)) = (λ e. cc e, λ e. cc e)
  is_string_iff expected (some (object fs)) = (λ e. cc e, λ e. cc e)
  is_string_iff expected (some (string s)) = (
    λ e. ap (λ x. some (string x)) ((str_eq_iff s expected).0 e),
    λ e. (str_eq_iff s expected).1 (cc e),
  )

  field_equals_string-get :
      (v : Value N) (name expected : Str)
      → field_equals_string v name expected ≡ is_string expected (get name v)
  field_equals_string-get null name expected = refl
  field_equals_string-get (bool b) name expected = refl
  field_equals_string-get (number n) name expected = refl
  field_equals_string-get (string s) name expected = refl
  field_equals_string-get (array vs) name expected = refl
  field_equals_string-get (object fs) name expected = refl

  keep_equal-Kept :
      (name value : Str) (vs : List (Value N)) → Kept name value vs (keep_equal name value vs)
  keep_equal-Kept name value [] = at_end
  keep_equal-Kept name value (elem ∷ rest) =
      let same = field_equals_string-get elem name value in
      let told = is_string_iff value (get name elem) in
      elim (Bool-cases (field_equals_string elem name value)) [
        | inl e ↦
            rw (e, keep_equal) (keep (told.0 (sym same ∙ e)) (keep_equal-Kept name value rest))
        | inr e ↦
            rw (e, keep_equal)
              (skip (λ f. cc (e, same, told.1 f)) (keep_equal-Kept name value rest))
      ]

  pub segment_of-Picks : (seg : PathSegment) (v : Value N) → Picks seg v (segment_of seg v)
  unfolding segment_of
  segment_of-Picks (field name) (object fs) = optional-Picks name (object fs) (member name fs) refl
  segment_of-Picks (field name) null = no_member refl
  segment_of-Picks (field name) (bool b) = no_member refl
  segment_of-Picks (field name) (number n) = no_member refl
  segment_of-Picks (field name) (string s) = no_member refl
  segment_of-Picks (field name) (array vs) = no_member refl
  segment_of-Picks (index i) (array vs) =
      index-Picks i i (array vs) vs [] (elements vs) refl refl (omega arith)
  segment_of-Picks (index i) null = no_array tt refl
  segment_of-Picks (index i) (bool b) = no_array tt refl
  segment_of-Picks (index i) (number n) = no_array tt refl
  segment_of-Picks (index i) (string s) = no_array tt refl
  segment_of-Picks (index i) (object fs) = no_array tt refl
  segment_of-Picks wildcard (array vs) = every refl
  segment_of-Picks wildcard null = no_array tt refl
  segment_of-Picks wildcard (bool b) = no_array tt refl
  segment_of-Picks wildcard (number n) = no_array tt refl
  segment_of-Picks wildcard (string s) = no_array tt refl
  segment_of-Picks wildcard (object fs) = no_array tt refl
  segment_of-Picks (filter_eq name value) (array vs) =
      equal_ones vs refl (keep_equal-Kept name value (elements vs))
  segment_of-Picks (filter_eq name value) null = no_array tt refl
  segment_of-Picks (filter_eq name value) (bool b) = no_array tt refl
  segment_of-Picks (filter_eq name value) (number n) = no_array tt refl
  segment_of-Picks (filter_eq name value) (string s) = no_array tt refl
  segment_of-Picks (filter_eq name value) (object fs) = no_array tt refl
