-- ===== src/Permissions.antt =====
-- src/kernel/permissions.rs: the grants of a manifest, and the checks against them. The value of an
-- embedder's grant is a JSON string always, and is kept as its text.
pub mod Grammar
pub mod Printed
pub mod Print
pub mod Checks
pub mod Parts
pub mod Valid
pub mod Categories
pub mod Reachable
pub mod Tests
use gwead.Prelude.{
  ℕ, ◌+◌, Bool, true, false, ◌&&◌, ◌||◌, Option, none, some, List, [], ◌∷◌, ◌++◌, ◌==◌,
  if◌then◌else◌,
}
use gwead.Text.{Str, chars, is_empty, str_eq, contains, split_once, split}
use gwead.Text.Affix.{
  trim, strip_prefix, strip_suffix, starts_with, ends_with, to_ascii_lowercase,
  eq_ignore_ascii_case,
}

pub data BlobOp : Type 0 where
  read write delete list stat watch : BlobOp

pub data NamePattern : Type 0 where
  any : NamePattern
  exact : Str → NamePattern

pub data HostPattern : Type 0 where
  any : HostPattern
  suffix exact : Str → HostPattern

pub data PathPattern : Type 0 where
  any : PathPattern
  prefix exact : Str → PathPattern

pub data Permission : Type 0 where
  network_egress : HostPattern → Permission
  blobs : BlobOp → PathPattern → Permission
  step_type : Str → Permission
  invoke_plugin invoke_role : NamePattern → Permission
  provide_step_type : Str → Option Str → Permission
  bind_native_impl : Str → Permission
  app_defined : Str → Str → Permission

-- NamePattern::matches, HostPattern::matches and PathPattern::matches
abbrev pub name_matches : NamePattern → Str → Bool
name_matches NamePattern.any name = true
name_matches (NamePattern.exact n) name = str_eq n name

unfoldable pub host_matches : HostPattern → Str → Bool
host_matches HostPattern.any host = true
host_matches (HostPattern.exact h) host = eq_ignore_ascii_case h host
host_matches (HostPattern.suffix domain) host =
    if eq_ignore_ascii_case host domain
    then true
    else ends_with (to_ascii_lowercase (b'.' ∷ domain)) (to_ascii_lowercase host)

unfoldable pub path_matches : PathPattern → Str → Bool
path_matches PathPattern.any key = true
path_matches (PathPattern.exact p) key = str_eq p key
path_matches (PathPattern.prefix folder) key =
    if str_eq key folder then true else starts_with (folder ++ b'/' ∷ []) key

-- PermissionCheck; a denial keeps what was asked for, whose text the message prints
pub data PermissionCheck : Type 0 where
  granted : PermissionCheck
  denied : Permission → PermissionCheck

unfoldable pub is_granted : PermissionCheck → Bool
is_granted granted = true
is_granted (denied requested) = false

abbrev pub same_op : BlobOp → BlobOp → Bool
same_op read read = true
same_op write write = true
same_op delete delete = true
same_op list list = true
same_op stat stat = true
same_op watch watch = true
same_op _ _ = false

-- The tests of the checks on one grant.
abbrev pub allows_egress : Str → Permission → Bool
allows_egress host (network_egress pat) = host_matches pat host
allows_egress host _ = false

abbrev pub allows_blobs : BlobOp → Str → Permission → Bool
allows_blobs op key (blobs grant_op path) = same_op grant_op op && path_matches path key
allows_blobs op key _ = false

abbrev pub allows_role : Str → Permission → Bool
allows_role role (invoke_role pat) = name_matches pat role
allows_role role _ = false

abbrev pub allows_step_type : Str → Permission → Bool
allows_step_type asked (step_type name) = str_eq name asked
allows_step_type asked _ = false

-- the loop over the grants, which returns at the first that allows
unfoldable pub check : (Permission → Bool) → Permission → List Permission → PermissionCheck
check allows requested [] = denied requested
check allows requested (grant ∷ grants) =
    let later = check allows requested grants in if allows grant then granted else later

-- check_network_egress, check_blobs, check_invoke_role and check_step_type
unfoldable pub check_network_egress : List Permission → Str → PermissionCheck
check_network_egress grants host =
    check (allows_egress host) (network_egress (HostPattern.exact host)) grants

unfoldable pub check_blobs : List Permission → BlobOp → Str → PermissionCheck
check_blobs grants op key = check (allows_blobs op key) (blobs op (PathPattern.exact key)) grants

unfoldable pub check_invoke_role : List Permission → Str → PermissionCheck
check_invoke_role grants role =
    check (allows_role role) (invoke_role (NamePattern.exact role)) grants

unfoldable pub check_step_type : List Permission → Str → PermissionCheck
check_step_type grants asked = check (allows_step_type asked) (step_type asked) grants
