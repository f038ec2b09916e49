-- ===== src/Permissions/Categories.antt =====
-- The categories that an embedder declares, and the permissions of a manifest, held to them. What
-- the embedder's validator does is its own: a function in the record of the category. The categories
-- that the message of an unknown one lists stand as they are declared.
use gwead.Prelude.{
  ◌≡◌, refl, ap, ◌∙◌, Option, none, some, List, [], ◌∷◌, In, map, inl, inr, if◌then◌else◌,
  Bool-cases, arith, All,
}
use gwead.Prelude.Outcome.{Result, ok, err, ◌>>=◌, ◌>>◌}
use gwead.Fault.{OnOk, value, failed, OnOk-elim, OnOk-bind, OnOk-self}
use gwead.Text.{Str, is_empty, str_eq, contains, split}
use gwead.Text.Split.{str_eq_iff}
use gwead.Text.Affix.{trim}
use gwead.Identity.{NameError, app_category_segment, validate_name}
use gwead.Permissions.{
  Permission, network_egress, blobs, step_type, invoke_plugin, invoke_role, provide_step_type,
  bind_native_impl, app_defined,
}
use gwead.Permissions.Grammar.{
  PermissionParseError, unknown_app_category, app_value_rejected, parse_permission,
}
use gwead.Permissions.Print.{parse_permission-print}
use gwead.Permissions.Printed.{print}

pub record AppPermissionCategory : Type 0 where
  pub name : Str
  pub validator : Option (Str → Result Str (Unit {0}))

-- AppPermissionCategory::check_value
abbrev pub validate_by : Option (Str → Result Str (Unit {0})) → Str → Result Str (Unit {0})
validate_by none text = ok tt
validate_by (some validator) text = validator text

unfoldable pub check_value : AppPermissionCategory → Str → Result Str (Unit {0})
check_value category text = validate_by category.validator text

-- `categories.iter().find(|c| c.name() == kind)`
unfoldable pub find_category : Str → List AppPermissionCategory → Option AppPermissionCategory
find_category kind [] = none
find_category kind (c ∷ cs) =
    let later = find_category kind cs in if str_eq c.name kind then some c else later

abbrev pub rejected_as : Str → Str → Result Str (Unit {0}) → Result PermissionParseError (Unit {0})
rejected_as raw kind (ok u) = ok u
rejected_as raw kind (err reason) = err (app_value_rejected raw kind reason)

abbrev pub in_category :
    Str
    → Str
    → Str
    → List AppPermissionCategory
    → Option AppPermissionCategory
    → Result PermissionParseError (Unit {0})
in_category raw kind text categories none =
    err (unknown_app_category raw kind (map (λ c. c.name) categories))
in_category raw kind text categories (some category) =
    rejected_as raw kind (check_value category text)

abbrev pub hold_to :
    List AppPermissionCategory → Str → Permission → Result PermissionParseError (Unit {0})
hold_to categories raw (app_defined kind text) =
    in_category raw kind text categories (find_category kind categories)
hold_to categories raw _ = ok tt

-- parse_manifest_permissions; `collect` stops at the first error
unfoldable pub parse_manifest_permissions :
    List Str → List AppPermissionCategory → Result PermissionParseError (List Permission)
parse_manifest_permissions [] categories = ok []
parse_manifest_permissions (entry ∷ raw) categories = do
  parsed ← parse_permission entry
  hold_to categories (trim entry) parsed
  later ← parse_manifest_permissions raw categories
  ok (parsed ∷ later)

-- the messages of validate_app_category_name
pub data CategoryError : Type 0 where
  no_name : CategoryError
  no_dot has_colon : Str → CategoryError
  bad_segment : NameError → CategoryError

abbrev pub segment_named : Result NameError (Unit {0}) → Result CategoryError (Unit {0})
segment_named (ok u) = ok u
segment_named (err e) = err (bad_segment e)

unfoldable pub check_category_segments : List Str → Result CategoryError (Unit {0})
check_category_segments [] = ok tt
check_category_segments (segment ∷ rest) =
    let later = check_category_segments rest in
    segment_named (validate_name app_category_segment segment) >> later

-- validate_app_category_name
unfoldable pub validate_app_category_name : Str → Result CategoryError (Unit {0})
validate_app_category_name name =
    if is_empty name
    then err no_name
    else if contains b'.' name
    then (if contains b':' name
        then err (has_colon name)
        else check_category_segments (split b'.' name))
    else err (no_dot name)

-- An embedder's permission is of a declared category, which accepts its value.
abbrev pub IsDeclared : List AppPermissionCategory → Permission → Type 0
IsDeclared categories (app_defined kind text) =
    (c : AppPermissionCategory) × In c categories × (c.name ≡ kind) × (check_value c text ≡ ok tt)
IsDeclared categories _ = Unit

find_category-eq-some :
    (kind : Str) (cs : List AppPermissionCategory) (c : AppPermissionCategory)
    → find_category kind cs ≡ some c
    → In c cs × (c.name ≡ kind)
unfolding find_category
find_category-eq-some kind [] c h = cc h
find_category-eq-some kind (d ∷ cs) c h = elim (Bool-cases (str_eq d.name kind)) [
  | inl e ↦
      let same : c ≡ d = ground arith in
      (inl same, ap (λ x. x.name) same ∙ (str_eq_iff d.name kind).0 e)
  | inr e ↦ let (i, f) = find_category-eq-some kind cs c (rw e at h) in (inr i, f)
]

hold_to-IsDeclared :
    (categories : List AppPermissionCategory) (raw : Str) (p : Permission)
    → OnOk (λ u. IsDeclared categories p) (hold_to categories raw p)
hold_to-IsDeclared categories raw (app_defined kind text) =
    found (find_category kind categories) refl
  where
    accepted :
        (c : AppPermissionCategory)
        → In c categories × (c.name ≡ kind)
        → (r : Result Str (Unit {0})) → check_value c text ≡ r
        → OnOk (λ u. IsDeclared categories (app_defined kind text)) (rejected_as raw kind r)
    accepted c (i, e) (ok tt) f = value (c, i, e, f)
    accepted c (i, e) (err reason) f = failed

    found :
        (o : Option AppPermissionCategory)
        → find_category kind categories ≡ o
        → OnOk
            (λ u. IsDeclared categories (app_defined kind text))
            (in_category raw kind text categories o)
    found none e = failed
    found (some c) e =
        accepted c (find_category-eq-some kind categories c e) (check_value c text) refl
hold_to-IsDeclared categories raw (network_egress h) = value tt
hold_to-IsDeclared categories raw (blobs op p) = value tt
hold_to-IsDeclared categories raw (step_type t) = value tt
hold_to-IsDeclared categories raw (invoke_plugin n) = value tt
hold_to-IsDeclared categories raw (invoke_role n) = value tt
hold_to-IsDeclared categories raw (provide_step_type t s) = value tt
hold_to-IsDeclared categories raw (bind_native_impl t) = value tt

-- The permissions that a manifest is registered with are its entries one by one, none lost and none
-- changed but for the white space around it, and each of an embedder's category is of one that the
-- embedder declared, whose validator accepted the value.
pub parse_manifest_permissions-IsDeclared :
    (raw : List Str) (categories : List AppPermissionCategory) (ps : List Permission)
    → parse_manifest_permissions raw categories ≡ ok ps
    → (map print ps ≡ map trim raw) × All (IsDeclared categories) ps
unfolding parse_manifest_permissions
parse_manifest_permissions-IsDeclared raw categories ps h = OnOk-elim (each raw) h
  where
    each :
        (raw : List Str)
        → OnOk
            (λ ps. (map print ps ≡ map trim raw) × All (IsDeclared categories) ps)
            (parse_manifest_permissions raw categories)
    each [] = value (refl, tt)
    each (entry ∷ raw) = OnOk-bind (OnOk-self (parse_permission entry)) λ p e.
        OnOk-bind (hold_to-IsDeclared categories (trim entry) p) λ _ d.
          OnOk-bind (each raw)
            λ later (same, all). value (rw (parse_permission-print entry p e, same) refl, (d, all))
