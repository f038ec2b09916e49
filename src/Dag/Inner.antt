-- ===== src/Dag/Inner.antt =====
-- Which step ids are defined in the bodies inside a step's parameters, told without the walk that
-- collects them (src/kernel/dag.rs).
use gwead.Prelude.{◌≡◌, some, List, [], ◌∷◌, In}
use gwead.Text.{Str, chars}
use gwead.Json.{Value, Items, string, array, elements, get}

abbrev pub body_keys : List Str
body_keys = chars "steps" ∷ chars "then" ∷ chars "try" ∷ chars "catch" ∷ chars "finally" ∷ []

module _ {N : Type 0} where
  -- The parameters have this array of steps: under a key of a body, or as one of the branches.
  pub data Holds (params : Value N) (vs : Items N) : Type 0 where
    body : (key : Str) → In key body_keys → get key params ≡ some (array vs) → Holds params vs
    branch :
        (branches : Items N)
        → get (chars "branches") params ≡ some (array branches)
        → In (array vs) (elements branches)
        → Holds params vs

  -- A step with this id is in an array that the parameters have, or further inside: in the parameters
  -- of a step there, or in an object of `ifs`.
  pub data Defines (id : Str) : Value N → Type 0 where
    step_of :
        {params : Value N} {vs : Items N} (item : Value N)
        → Holds params vs
        → In item (elements vs)
        → get (chars "id") item ≡ some (string id)
        → Defines id params
    inside :
        {params : Value N} {vs : Items N} (item p : Value N)
        → Holds params vs
        → In item (elements vs)
        → get (chars "params") item ≡ some p
        → Defines id p
        → Defines id params
    in_ifs :
        {params : Value N} (ifs : Items N) (b : Value N)
        → get (chars "ifs") params ≡ some (array ifs)
        → In b (elements ifs)
        → Defines id b
        → Defines id params
