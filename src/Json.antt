-- ===== src/Json.antt =====
-- serde_json's `Value` over a type `N` of numbers. An object lists its members in the order in which
-- the map iterates over them; keys and strings are lists of bytes.
pub mod Size
use gwead.Prelude.{
  ◌≡◌, refl, ap, Bool, true, false, Option, none, some, List, [], ◌∷◌, if◌then◌else◌,
}
use gwead.Text.{Str, str_eq}

mutual
  pub data Value (N : Type 0) : Type 0 where
    null : Value N
    bool : Bool → Value N
    number : N → Value N
    string : Str → Value N
    array : Items N → Value N
    object : Fields N → Value N

  pub data Items (N : Type 0) : Type 0 where
    nil : Items N
    cons : Value N → Items N → Items N

  pub data Fields (N : Type 0) : Type 0 where
    end : Fields N
    field : Str → Value N → Fields N → Fields N

module _ {N : Type 0} where
  abbrev pub elements : Items N → List (Value N)
  elements nil = []
  elements (cons v vs) = v ∷ elements vs

  abbrev pub items : List (Value N) → Items N
  items [] = nil
  items (v ∷ vs) = cons v (items vs)

  pub elements-items : (vs : List (Value N)) → elements (items vs) ≡ vs
  elements-items [] = refl
  elements-items (v ∷ vs) = ap (λ x. v ∷ x) (elements-items vs)

  -- Map::get
  unfoldable pub member : Str → Fields N → Option (Value N)
  member k end = none
  member k (field j v fs) = if str_eq j k then some v else member k fs

  -- Value::get, of a string
  abbrev pub get : Str → Value N → Option (Value N)
  get k (object fs) = member k fs
  get k _ = none

  -- Value::as_array, Value::as_str and Value::is_null
  abbrev pub as_array : Value N → Option (Items N)
  as_array (array vs) = some vs
  as_array _ = none

  abbrev pub as_str : Value N → Option Str
  as_str (string s) = some s
  as_str _ = none

  abbrev pub is_null : Value N → Bool
  is_null null = true
  is_null _ = false
