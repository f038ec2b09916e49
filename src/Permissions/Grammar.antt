-- ===== src/Permissions/Grammar.antt =====
-- The grammar of a permission entry. An error keeps the values that its message prints.
use gwead.Prelude.{ℕ, ◌||◌, Option, none, some, List, [], ◌∷◌, ◌==◌, if◌then◌else◌}
use gwead.Prelude.Outcome.{Result, ok, err, ◌>>=◌, ◌>>◌}
use gwead.Text.{Str, chars, is_empty, str_eq, contains, split_once}
use gwead.Text.Affix.{trim, strip_prefix, strip_suffix}
use gwead.Identity.{
  NameKind, NameError, validate_reference, validate_step_type_reference, validate_impl_ref,
}
use gwead.Permissions.{
  BlobOp, NamePattern, HostPattern, PathPattern, Permission, network_egress, blobs, step_type,
  invoke_plugin, invoke_role, provide_step_type, bind_native_impl, app_defined,
}

-- The messages of `Malformed`.
pub data Reason : Type 0 where
  only_egress only_native_impl only_plugin_or_role only_step_type bad_blobs_op no_selector
        no_value :
      Str → Reason
  no_host no_path no_step_type no_impl_ref no_target no_provided port empty_suffix : Reason
  reserved_char : Str → ℕ → Reason
  bad_name : NameError → Reason

pub data PermissionParseError : Type 0 where
  empty : PermissionParseError
  reserved_category : Str → Str → PermissionParseError
  unknown_app_category : Str → Str → List Str → PermissionParseError
  app_value_rejected : Str → Str → Str → PermissionParseError
  malformed : Str → Reason → PermissionParseError

-- `s.splitn(2, sep)`, a missing part being empty
abbrev pub both_parts : Str → Option (Str × Str) → Str × Str
both_parts s none = (s, [])
both_parts s (some parts) = parts

unfoldable pub split_two : ℕ → Str → Str × Str
split_two sep s = both_parts s (split_once sep s)

-- `s.chars().find(|c| GLOB_CHARS.contains(c))`
unfoldable pub find_glob : Str → Option ℕ
find_glob [] = none
find_glob (c ∷ cs) =
    let later = find_glob cs in if c == b'*' || c == b'?' || c == b'[' then some c else later

abbrev pub reject_found : Str → Str → Option ℕ → Result PermissionParseError (Unit {0})
reject_found raw field none = ok tt
reject_found raw field (some c) = err (malformed raw (reserved_char field c))

-- reject_glob_chars
unfoldable pub reject_glob_chars : Str → Str → Str → Result PermissionParseError (Unit {0})
reject_glob_chars raw field s = reject_found raw field (find_glob s)

-- `map_err(|e| PermissionParseError::Malformed(raw.to_string(), e.to_string()))`
abbrev pub named : Str → Result NameError (Unit {0}) → Result PermissionParseError (Unit {0})
named raw (ok u) = ok u
named raw (err e) = err (malformed raw (bad_name e))

-- validate_permission_name
unfoldable pub validate_permission_name :
    Str → NameKind → Str → Result PermissionParseError (Unit {0})
validate_permission_name raw kind name = named raw (validate_reference kind name)

abbrev pub suffix_or_exact : Str → Str → Option Str → Result PermissionParseError HostPattern
suffix_or_exact raw s none = do
  reject_glob_chars raw (chars "host pattern") s
  ok (HostPattern.exact s)
suffix_or_exact raw s (some []) = err (malformed raw empty_suffix)
suffix_or_exact raw s (some (c ∷ domain)) = do
  reject_glob_chars raw (chars "host pattern suffix") (c ∷ domain)
  ok (HostPattern.suffix (c ∷ domain))

-- parse_host_pattern
unfoldable pub parse_host_pattern : Str → Str → Result PermissionParseError HostPattern
parse_host_pattern raw s =
    if str_eq s (chars "*")
    then ok HostPattern.any
    else if contains b':' s
    then err (malformed raw port)
    else suffix_or_exact raw s (strip_prefix (chars "*.") s)

abbrev pub prefix_or_exact : Str → Str → Option Str → Result PermissionParseError PathPattern
prefix_or_exact raw s (some folder) = do
  reject_glob_chars raw (chars "path pattern prefix") folder
  ok (PathPattern.prefix folder)
prefix_or_exact raw s none = do
  reject_glob_chars raw (chars "path pattern") s
  ok (PathPattern.exact s)

-- parse_path_pattern
unfoldable pub parse_path_pattern : Str → Str → Result PermissionParseError PathPattern
parse_path_pattern raw s =
    if str_eq s (chars "*")
    then ok PathPattern.any
    else prefix_or_exact raw s (strip_suffix (chars "/*") s)

-- `network:`
abbrev pub parse_network : Str → Str × Str → Result PermissionParseError Permission
parse_network trimmed (kind, host) =
    if str_eq kind (chars "egress")
    then (if is_empty host
        then err (malformed trimmed no_host)
        else (parse_host_pattern trimmed host >>= λ p. ok (network_egress p)))
    else err (malformed trimmed (only_egress kind))

unfoldable pub blob_op : Str → Option BlobOp
blob_op s =
    if str_eq s (chars "read")
    then some BlobOp.read
    else if str_eq s (chars "write")
    then some BlobOp.write
    else if str_eq s (chars "delete")
    then some BlobOp.delete
    else if str_eq s (chars "list")
    then some BlobOp.list
    else if str_eq s (chars "stat")
    then some BlobOp.stat
    else if str_eq s (chars "watch")
    then some BlobOp.watch
    else none

abbrev pub blobs_on : Str → Str → Str → Option BlobOp → Result PermissionParseError Permission
blobs_on trimmed op_str path none = err (malformed trimmed (bad_blobs_op op_str))
blobs_on trimmed op_str path (some op) =
    if is_empty path
    then err (malformed trimmed no_path)
    else (parse_path_pattern trimmed path >>= λ p. ok (blobs op p))

-- `blobs:`
abbrev pub parse_blobs : Str → Str × Str → Result PermissionParseError Permission
parse_blobs trimmed (op_str, path) = blobs_on trimmed op_str path (blob_op op_str)

-- `step_type:`
unfoldable pub parse_step_type : Str → Str → Result PermissionParseError Permission
parse_step_type trimmed rest = if is_empty rest then err (malformed trimmed no_step_type) else (do
  reject_glob_chars trimmed (chars "step type name") rest
  named trimmed (validate_step_type_reference rest)
  ok (step_type rest))

-- `bind:`
abbrev pub parse_bind : Str → Str × Str → Result PermissionParseError Permission
parse_bind trimmed (what, target) =
    if str_eq what (chars "native_impl")
    then (if is_empty target then err (malformed trimmed no_impl_ref) else (do
      reject_glob_chars trimmed (chars "bound implRef") target
      named trimmed (validate_impl_ref target)
      ok (bind_native_impl target)))
    else err (malformed trimmed (only_native_impl what))

abbrev pub invoke_pattern : Str → NameKind → Str → Result PermissionParseError NamePattern
invoke_pattern trimmed name_kind name = if str_eq name (chars "*") then ok NamePattern.any else (do
  reject_glob_chars trimmed (chars "invoke target name") name
  validate_permission_name trimmed name_kind name
  ok (NamePattern.exact name))

-- `invoke:`
abbrev pub parse_invoke : Str → Str × Str → Result PermissionParseError Permission
parse_invoke trimmed (kind, name) =
    if is_empty name
    then err (malformed trimmed no_target)
    else if str_eq kind (chars "plugin")
    then (invoke_pattern trimmed NameKind.plugin name >>= λ p. ok (invoke_plugin p))
    else if str_eq kind (chars "role")
    then (invoke_pattern trimmed NameKind.role name >>= λ p. ok (invoke_role p))
    else err (malformed trimmed (only_plugin_or_role kind))

abbrev pub validate_selector : Str → Option Str → Result PermissionParseError (Unit {0})
validate_selector raw none = ok tt
validate_selector raw (some sel) = do
  reject_glob_chars raw (chars "provided step type selector") sel
  validate_permission_name raw NameKind.step_type_selector sel

abbrev pub provided : Str → Str → Option Str → Result PermissionParseError Permission
provided raw name selector = do
  reject_glob_chars raw (chars "provided step type") name
  named raw (validate_step_type_reference name)
  validate_selector raw selector
  ok (provide_step_type name selector)

abbrev pub provide_target : Str → Str → Option (Str × Str) → Result PermissionParseError Permission
provide_target raw target none = provided raw target none
provide_target raw target (some (t, [])) = err (malformed raw (no_selector t))
provide_target raw target (some (t, c ∷ sel)) = provided raw t (some (c ∷ sel))

-- parse_provide
abbrev pub parse_provide : Str → Str × Str → Result PermissionParseError Permission
parse_provide raw (what, target) =
    if str_eq what (chars "step_type")
    then (if is_empty target
        then err (malformed raw no_provided)
        else provide_target raw target (split_once b':' target))
    else err (malformed raw (only_step_type what))

-- a category of the embedder's
unfoldable pub parse_other : Str → Str → Str → Result PermissionParseError Permission
parse_other trimmed other rest =
    if is_empty other
    then err empty
    else if contains b'.' other
    then (if is_empty rest
        then err (malformed trimmed (no_value other))
        else ok (app_defined other rest))
    else err (reserved_category trimmed other)

-- the match on the category
unfoldable pub parse_category : Str → Str × Str → Result PermissionParseError Permission
parse_category trimmed (category, rest) =
    if str_eq category (chars "network")
    then parse_network trimmed (split_two b':' rest)
    else if str_eq category (chars "blobs")
    then parse_blobs trimmed (split_two b':' rest)
    else if str_eq category (chars "step_type")
    then parse_step_type trimmed rest
    else if str_eq category (chars "provide")
    then parse_provide trimmed (split_two b':' rest)
    else if str_eq category (chars "bind")
    then parse_bind trimmed (split_two b':' rest)
    else if str_eq category (chars "invoke")
    then parse_invoke trimmed (split_two b':' rest)
    else parse_other trimmed category rest

-- parse_permission
unfoldable pub parse_permission : Str → Result PermissionParseError Permission
parse_permission raw =
    let trimmed = trim raw in
    if is_empty trimmed then err empty else parse_category trimmed (split_two b':' trimmed)

-- parse_permission_list
unfoldable pub parse_permission_list : List Str → Result PermissionParseError (List Permission)
parse_permission_list [] = ok []
parse_permission_list (s ∷ raw) = do
  p ← parse_permission s
  ps ← parse_permission_list raw
  ok (p ∷ ps)
