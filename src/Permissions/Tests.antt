-- ===== src/Permissions/Tests.antt =====
-- Entries, grants and checks at concrete inputs.
use gwead.Prelude.{◌≡◌, ◌↔◌, refl, true, false, some, List, [], ◌∷◌, In, All, map}
use gwead.Prelude.Outcome.{Result, ok, err}
use gwead.Text.{Str, chars, len, contains, split_once, str_eq, is_ascii_alphanumeric}
use gwead.Text.Affix.{
  trim, strip_prefix, strip_suffix, to_ascii_lowercase, eq_ignore_ascii_case, starts_with,
  ends_with,
}
use gwead.Identity.{validate_name, check_chars, is_name_char, validate_step_type_reference}
use gwead.Permissions.{
  BlobOp, NamePattern, HostPattern, PathPattern, Permission, network_egress, blobs, step_type,
  invoke_role, provide_step_type, app_defined, is_granted, check, host_matches, path_matches,
  check_network_egress, check_blobs, check_invoke_role, check_step_type,
}
use gwead.Permissions.Grammar.{
  malformed, reserved_category, port, parse_permission, parse_category, split_two, parse_other,
  parse_host_pattern, parse_path_pattern, reject_glob_chars, find_glob, blob_op,
  validate_permission_name,
}
use gwead.Permissions.Print.{parse_permission-print}
use gwead.Permissions.Printed.{print}
use gwead.Permissions.Valid.{parse_permission-IsValid}
use gwead.Permissions.Parts.{IsValid}
use gwead.Permissions.Checks.{
  HostCovers, PathCovers, NameCovers, check_network_egress_iff, check_blobs_iff, check_names_iff,
}
use gwead.Permissions.Categories.{
  AppPermissionCategory, IsDeclared, check_value, find_category, parse_manifest_permissions,
  parse_manifest_permissions-IsDeclared,
}
use gwead.Text.{split}
use gwead.Permissions.Printed.{joined}
use gwead.Permissions.Categories.{validate_app_category_name, check_category_segments}
use gwead.Permissions.Reachable.{validate_app_category_name-parse_permission}

entries_parse :
    (parse_permission (chars " network:egress:*.Example.com ")
      ≡ ok (network_egress (HostPattern.suffix (chars "Example.com"))))
    × (parse_permission (chars "network:egress:a.b:80")
        ≡ err (malformed (chars "network:egress:a.b:80") port))
    × (parse_permission (chars "blobs:read:in/*")
        ≡ ok (blobs BlobOp.read (PathPattern.prefix (chars "in"))))
    × (parse_permission (chars "provide:step_type:script:lua")
        ≡ ok (provide_step_type (chars "script") (some (chars "lua"))))
    × (parse_permission (chars "evets:x")
        ≡ err (reserved_category (chars "evets:x") (chars "evets")))
unfolding parse_permission parse_category split_two parse_other parse_host_pattern
    parse_path_pattern reject_glob_chars find_glob blob_op validate_permission_name trim
    strip_prefix strip_suffix str_eq split_once contains validate_step_type_reference validate_name
    len check_chars is_name_char is_ascii_alphanumeric
entries_parse = (refl, refl, refl, refl, refl)

abbrev egress_entry : Str
egress_entry = chars " network:egress:*.Example.com "

abbrev egress_grant : Permission
egress_grant = network_egress (HostPattern.suffix (chars "Example.com"))

parse_permission-print_example : print egress_grant ≡ trim egress_entry
parse_permission-print_example = parse_permission-print egress_entry egress_grant entries_parse.0

parse_permission-IsValid_example : IsValid (provide_step_type (chars "script") (some (chars "lua")))
parse_permission-IsValid_example =
    parse_permission-IsValid (chars "provide:step_type:script:lua")
      (provide_step_type (chars "script") (some (chars "lua"))) entries_parse.3

abbrev grants : List Permission
grants =
    egress_grant
    ∷ blobs BlobOp.read (PathPattern.prefix (chars "in"))
    ∷ step_type (chars "acme.sign")
    ∷ []

hosts_checked :
    (is_granted (check_network_egress grants (chars "api.example.COM")) ≡ true)
    × (is_granted (check_network_egress grants (chars "badexample.com")) ≡ false)
    × (is_granted (check_blobs grants BlobOp.read (chars "in/a")) ≡ true)
    × (is_granted (check_blobs grants BlobOp.write (chars "in/a")) ≡ false)
    × (is_granted (check_blobs grants BlobOp.read (chars "inner")) ≡ false)
unfolding check_network_egress check_blobs check host_matches path_matches eq_ignore_ascii_case
    to_ascii_lowercase ends_with starts_with str_eq is_granted
hosts_checked = (refl, refl, refl, refl, refl)

check_network_egress_iff_example :
    (is_granted (check_network_egress grants (chars "api.example.COM")) ≡ true) ↔ (
      (pat : HostPattern) × In (network_egress pat) grants
      × HostCovers pat (chars "api.example.COM"))
check_network_egress_iff_example = check_network_egress_iff grants (chars "api.example.COM")

check_blobs_iff_example :
    (is_granted (check_blobs grants BlobOp.read (chars "in/a")) ≡ true)
    ↔ ((pat : PathPattern) × In (blobs BlobOp.read pat) grants × PathCovers pat (chars "in/a"))
check_blobs_iff_example = check_blobs_iff grants BlobOp.read (chars "in/a")

check_names_iff_example :
    ((is_granted (check_invoke_role grants (chars "acme.sign")) ≡ true)
      ↔ ((pat : NamePattern) × In (invoke_role pat) grants × NameCovers pat (chars "acme.sign")))
    × ((is_granted (check_step_type grants (chars "acme.sign")) ≡ true)
        ↔ In (step_type (chars "acme.sign")) grants)
check_names_iff_example = check_names_iff grants (chars "acme.sign")

-- an embedder's category whose values are not empty
abbrev not_empty : Str → Result Str (Unit {0})
not_empty [] = err []
not_empty (c ∷ s) = ok tt

abbrev events : List AppPermissionCategory
events = record { name = chars "acme.events"; validator = some not_empty } ∷ []

abbrev manifest : List Str
manifest = chars "acme.events:publish " ∷ chars "blobs:read:in/*" ∷ []

abbrev manifest_permissions : List Permission
manifest_permissions =
    app_defined (chars "acme.events") (chars "publish")
    ∷ blobs BlobOp.read (PathPattern.prefix (chars "in"))
    ∷ []

manifest_parses : parse_manifest_permissions manifest events ≡ ok manifest_permissions
unfolding parse_manifest_permissions find_category check_value parse_permission parse_category
    split_two parse_other parse_path_pattern reject_glob_chars find_glob blob_op trim strip_suffix
    str_eq split_once contains
manifest_parses = refl

parse_manifest_permissions-IsDeclared_example :
    (map print manifest_permissions ≡ map trim manifest)
    × All (IsDeclared events) manifest_permissions
parse_manifest_permissions-IsDeclared_example =
    parse_manifest_permissions-IsDeclared manifest events manifest_permissions manifest_parses

events_declarable : validate_app_category_name (chars "acme.events") ≡ ok tt
unfolding validate_app_category_name check_category_segments split contains validate_name len
    check_chars is_name_char is_ascii_alphanumeric
events_declarable = refl

events_entry_trimmed :
    trim (joined (chars "acme.events") (chars "publish"))
    ≡ joined (chars "acme.events") (chars "publish")
unfolding trim
events_entry_trimmed = refl

validate_app_category_name-parse_permission_example :
    parse_permission (chars "acme.events:publish")
    ≡ ok (app_defined (chars "acme.events") (chars "publish"))
validate_app_category_name-parse_permission_example =
    validate_app_category_name-parse_permission (chars "acme.events") (chars "publish")
      events_declarable refl events_entry_trimmed
