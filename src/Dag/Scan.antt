-- ===== src/Dag/Scan.antt =====
-- The step ids that a step's parameters refer to, and those defined inside its bodies.
use gwead.Prelude.{Bool, false, ◌||◌, Option, none, some, List, [], ◌∷◌, ◌++◌, if◌then◌else◌}
use gwead.Text.{Str, str_eq, chars}
use gwead.Json.{Value, Items, Fields, string, array, object, nil, cons, end, field, get, as_str}
use gwead.Dag.Step.{StepDef}

-- membership in the `HashSet` of the ids seen, which holds what `out` holds
unfoldable pub has_id : Str → List Str → Bool
has_id id [] = false
has_id id (s ∷ ss) = str_eq s id || has_id id ss

-- push_unique
unfoldable pub push_unique : Str → List Str → List Str
unfolding has_id
push_unique id out = if has_id id out then out else out ++ id ∷ []

unfoldable pub push_all : List Str → List Str → List Str
unfolding push_unique
push_all [] out = out
push_all (id ∷ ids) out = push_all ids (push_unique id out)

module _ {N : Type 0} (refs : Str → List Str) where
  -- scan_value, scan_string
  unfoldable mutual
    unfolding push_all

    pub scan_value : Value N → List Str → List Str
    scan_value (string s) out = push_all (refs s) out
    scan_value (array vs) out = scan_items vs out
    scan_value (object fs) out = scan_fields fs out
    scan_value _ out = out

    pub scan_items : Items N → List Str → List Str
    scan_items nil out = out
    scan_items (cons v vs) out = scan_items vs (scan_value v out)

    pub scan_fields : Fields N → List Str → List Str
    scan_fields end out = out
    scan_fields (field k v fs) out = scan_fields fs (scan_value v out)

module _ {N : Type 0} (is_unrooted : Str → Bool) where
  -- contains_unrooted_steps_template
  unfoldable mutual
    pub contains_unrooted_steps_template : Value N → Bool
    contains_unrooted_steps_template (string s) = is_unrooted s
    contains_unrooted_steps_template (array vs) = any_unrooted vs
    contains_unrooted_steps_template (object fs) = any_unrooted_field fs
    contains_unrooted_steps_template _ = false

    pub any_unrooted : Items N → Bool
    any_unrooted nil = false
    any_unrooted (cons v vs) = contains_unrooted_steps_template v || any_unrooted vs

    pub any_unrooted_field : Fields N → Bool
    any_unrooted_field end = false
    any_unrooted_field (field k v fs) = contains_unrooted_steps_template v || any_unrooted_field fs

abbrev pub insert_id : Option Str → List Str → List Str
insert_id none out = out
insert_id (some id) out = id ∷ out

module _ {N : Type 0} where
  abbrev pub string_id : Option (Value N) → Option Str
  string_id none = none
  string_id (some v) = as_str v

  -- collect_inner_step_ids and collect_step_ids_in_array. `params.get(key)` walks the members to the
  -- first with that key; `out` stands for a `HashSet`.
  unfoldable mutual
    pub collect_inner_step_ids : Value N → List Str → List Str
    collect_inner_step_ids (object fs) out = at_body (chars "finally") fs (
        at_body (chars "catch") fs (
          at_body (chars "try") fs (
            at_body (chars "then") fs
              (at_body (chars "steps") fs (at_branches fs (at_ifs fs out))))))
    collect_inner_step_ids _ out = out

    -- `params.get("ifs")`, an array of branch objects
    pub at_ifs : Fields N → List Str → List Str
    at_ifs end out = out
    at_ifs (field k v fs) out =
        let here = ifs_branches v out in
        let later = at_ifs fs out in if str_eq k (chars "ifs") then here else later

    pub ifs_branches : Value N → List Str → List Str
    ifs_branches (array branches) out = each_branch branches out
    ifs_branches _ out = out

    pub each_branch : Items N → List Str → List Str
    each_branch nil out = out
    each_branch (cons branch rest) out = each_branch rest (collect_inner_step_ids branch out)

    -- `params.get("branches")`, an array of arrays of steps
    pub at_branches : Fields N → List Str → List Str
    at_branches end out = out
    at_branches (field k v fs) out =
        let here = step_arrays v out in
        let later = at_branches fs out in if str_eq k (chars "branches") then here else later

    pub step_arrays : Value N → List Str → List Str
    step_arrays (array arrays) out = each_array arrays out
    step_arrays _ out = out

    pub each_array : Items N → List Str → List Str
    each_array nil out = out
    each_array (cons v rest) out = each_array rest (collect_step_ids_in_array v out)

    -- the keys INNER_BODY_KEYS
    pub at_body : Str → Fields N → List Str → List Str
    at_body key end out = out
    at_body key (field k v fs) out =
        let here = collect_step_ids_in_array v out in
        let later = at_body key fs out in if str_eq k key then here else later

    pub collect_step_ids_in_array : Value N → List Str → List Str
    collect_step_ids_in_array (array steps) out = each_step steps out
    collect_step_ids_in_array _ out = out

    pub each_step : Items N → List Str → List Str
    each_step nil out = out
    each_step (cons item rest) out =
        each_step rest (inner_params item (insert_id (string_id (get (chars "id") item)) out))

    -- `item.get("params")`
    pub inner_params : Value N → List Str → List Str
    inner_params (object fs) out = at_params fs out
    inner_params _ out = out

    pub at_params : Fields N → List Str → List Str
    at_params end out = out
    at_params (field k v fs) out =
        let here = collect_inner_step_ids v out in
        let later = at_params fs out in if str_eq k (chars "params") then here else later

-- the loop over `local_out` of extract_step_deps
unfoldable pub push_outer : List Str → List Str → List Str → List Str
unfolding push_unique has_id
push_outer scoped_local [] out = out
push_outer scoped_local (id ∷ ids) out =
    push_outer scoped_local ids (if has_id id scoped_local then out else push_unique id out)

-- extract_step_deps
unfoldable pub extract_step_deps : {N : Type 0} → (Str → List Str) → StepDef N → List Str
unfolding push_all push_outer
extract_step_deps refs step =
    push_outer (collect_inner_step_ids step.params []) (scan_value refs step.params [])
      (push_all step.depends_on [])
