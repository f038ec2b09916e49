-- ===== src/Identity.antt =====
-- src/kernel/identity.rs: the name grammar, namespaces and their ancestor chains, step type names
-- and implRefs, and a plugin's identity. Error values keep the fields that the messages print.
pub mod Names
pub mod Chain
pub mod Plugins
pub mod Owners
pub mod Refs
pub mod Tests
use gwead.Prelude.{
  ℕ, zero, suc, ◌+◌, ◌<◌, ◌≡◌, Bool, true, false, ◌&&◌, ◌||◌, not, Option, none, some, List, [],
  ◌∷◌, ◌++◌, map, ltb, ◌==◌, if◌then◌else◌, length,
}
use gwead.Prelude.Outcome.{Result, ok, err, ◌>>=◌, ◌>>◌}
use gwead.Text.{
  Str, len, len_utf8, is_empty, str_eq, contains, split_once, rsplit_once, split,
  is_ascii_alphanumeric, is_ascii_digit,
}

-- NAMESPACE_SEPARATOR, STEP_TYPE_SEPARATOR, MAX_NAME_LEN, IMPL_REF_SEGMENTS
abbrev pub namespace_separator : ℕ
namespace_separator = b'/'

abbrev pub step_type_separator : ℕ
step_type_separator = b'.'

abbrev pub max_name_len : ℕ
max_name_len = 128

abbrev pub impl_ref_segments : ℕ
impl_ref_segments = 3

pub data NameKind : Type 0 where
  plugin role step_type step_type_selector namespace native_impl_ref native_impl_ref_segment :
      NameKind
  app_category_segment step_id : NameKind

pub data NameError : Type 0 where
  empty : NameKind → NameError
  too_long : NameKind → Str → ℕ → ℕ → NameError
  invalid_char : NameKind → Str → ℕ → NameError
  leading_digit qualified_reserved : NameKind → Str → NameError
  step_type_not_owned : Str → Str → NameError

abbrev pub is_step_id : NameKind → Bool
is_step_id step_id = true
is_step_id _ = false

abbrev pub first_is_digit : Str → Bool
first_is_digit [] = false
first_is_digit (c ∷ cs) = is_ascii_digit c

-- the test in the loop over `char_indices`
unfoldable pub is_name_char : ℕ → ℕ → Bool
is_name_char i ch = is_ascii_alphanumeric ch || ch == b'_' || ch == b'-' && ltb 0 i

-- `for (i, ch) in name.char_indices()`: `rest` is the part of `name` from byte `i` on
unfoldable pub check_chars : NameKind → Str → ℕ → Str → Result NameError (Unit {0})
check_chars kind name i [] = ok tt
check_chars kind name i (ch ∷ rest) =
    if is_name_char i ch
    then check_chars kind name (i + len_utf8 ch) rest
    else err (invalid_char kind name ch)

-- validate_name
unfoldable pub validate_name : NameKind → Str → Result NameError (Unit {0})
validate_name kind name =
    if is_empty name
    then err (empty kind)
    else if ltb max_name_len (len name)
    then err (too_long kind name (len name) max_name_len)
    else if contains namespace_separator name
    then err (qualified_reserved kind name)
    else if is_step_id kind && first_is_digit name
    then err (leading_digit kind name)
    else check_chars kind name 0 name

-- validate_reference
abbrev pub validate_reference : NameKind → Str → Result NameError (Unit {0})
validate_reference kind reference = validate_name kind reference

-- validate_namespace
unfoldable pub validate_namespace : Str → Result NameError (Unit {0})
validate_namespace ns = if is_empty ns then ok tt else validate_name namespace ns

-- qualify
unfoldable pub qualify : Str → Str → Str
qualify ns name = if is_empty ns then name else ns ++ namespace_separator ∷ name

abbrev pub namespace_part : Option (Str × Str) → Str
namespace_part (some (ns, name)) = ns
namespace_part none = []

abbrev pub name_part : Str → Option (Str × Str) → Str
name_part identity (some (ns, name)) = name
name_part identity none = identity

-- namespace_of
unfoldable pub namespace_of : Str → Str
namespace_of identity = namespace_part (rsplit_once namespace_separator identity)

-- local_name_of
unfoldable pub local_name_of : Str → Str
local_name_of identity = name_part identity (rsplit_once namespace_separator identity)

-- same_namespace
unfoldable pub same_namespace : Str → Str → Bool
same_namespace a b = str_eq (namespace_of a) (namespace_of b)

-- The items that the iterator of ancestor_namespaces yields from `here` on, `fuel` of them at most.
unfoldable pub walk : ℕ → Str → List Str
walk zero here = []
walk (suc fuel) here =
    let enclosing = walk fuel (namespace_part (rsplit_once namespace_separator here)) in
    if is_empty here then here ∷ [] else here ∷ enclosing

-- ancestor_namespaces, collected. Each step shortens the namespace, so the fuel is never used up.
unfoldable pub ancestor_namespaces : Str → List Str
ancestor_namespaces ns = walk (suc (length ns)) ns

unfoldable pub any_eq : Str → List Str → Bool
any_eq s [] = false
any_eq s (t ∷ ts) = str_eq t s || any_eq s ts

-- is_on_chain
unfoldable pub is_on_chain : Str → Str → Bool
is_on_chain target of = any_eq (namespace_of target) (ancestor_namespaces (namespace_of of))

-- plugin_reference_candidates
unfoldable pub plugin_reference_candidates : Str → Str → Result NameError (List Str)
plugin_reference_candidates caller_identity reference = do
  validate_reference plugin reference
  ok (map (λ ns. qualify ns reference) (ancestor_namespaces (namespace_of caller_identity)))

abbrev pub check_owner : Str → Str → Bool → Result NameError (Unit {0})
check_owner name declaring_plugin owned =
    if owned then ok tt else err (step_type_not_owned name declaring_plugin)

abbrev pub check_step_type : Str → Str → Bool → Option (Str × Str) → Result NameError (Unit {0})
check_step_type name declaring_plugin kernel_owned none = do
  validate_name step_type name
  check_owner name declaring_plugin kernel_owned
check_step_type name declaring_plugin kernel_owned (some (owner, local)) = do
  validate_name plugin owner
  validate_name step_type local
  check_owner name declaring_plugin (str_eq owner declaring_plugin)

-- validate_step_type_name
unfoldable pub validate_step_type_name : Str → Str → Bool → Result NameError (Unit {0})
validate_step_type_name name declaring_plugin kernel_owned =
    check_step_type name declaring_plugin kernel_owned (split_once step_type_separator name)

abbrev pub check_step_type_reference : Str → Option (Str × Str) → Result NameError (Unit {0})
check_step_type_reference name none = validate_name step_type name
check_step_type_reference name (some (owner, local)) = do
  validate_name plugin owner
  validate_name step_type local

-- validate_step_type_reference
unfoldable pub validate_step_type_reference : Str → Result NameError (Unit {0})
validate_step_type_reference name =
    check_step_type_reference name (split_once step_type_separator name)

unfoldable pub check_segments : List Str → Result NameError (Unit {0})
check_segments [] = ok tt
check_segments (segment ∷ rest) =
    let later = check_segments rest in validate_name native_impl_ref_segment segment >> later

-- validate_impl_ref
unfoldable pub validate_impl_ref : Str → Result NameError (Unit {0})
unfolding check_segments
validate_impl_ref reference =
    if is_empty reference
    then err (empty native_impl_ref)
    else if contains namespace_separator reference
    then err (qualified_reserved native_impl_ref reference)
    else check_segments (split b'.' reference)

abbrev pub second_of_three : List Str → Option Str
second_of_three (a ∷ b ∷ c ∷ []) = some b
second_of_three _ = none

-- impl_ref_owner
unfoldable pub impl_ref_owner : Str → Option Str
impl_ref_owner reference = second_of_three (split b'.' reference)

pub record PluginIdentity : Type 0 where
  pub namespace : Str
  pub name : Str

-- PluginIdentity::new, root, is_root, qualified
unfoldable pub new : Str → Str → Result NameError PluginIdentity
new ns name = do
  validate_namespace ns
  validate_name plugin name
  ok (record { namespace = ns; name = name })

unfoldable pub root : Str → Result NameError PluginIdentity
unfolding new
root name = new [] name

unfoldable pub is_root : PluginIdentity → Bool
is_root id = is_empty id.namespace

unfoldable pub qualified : PluginIdentity → Str
qualified id = qualify id.namespace id.name
