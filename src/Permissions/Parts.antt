-- ===== src/Permissions/Parts.antt =====
-- What a permission must satisfy, and that the parsers of its parts see to it.
use gwead.Prelude.{
  ℕ, ◌≡◌, ◌≢◌, ◌⊎◌, refl, true, false, Option, none, some, [], ◌∷◌, ◌++◌, arith, All, inl, inr,
}
use gwead.Prelude.Outcome.{Result, ok, err}
use gwead.Fault.{OnOk, value, failed, OnOk-bind, OnOk-if, OnOk-weaken}
use gwead.Text.{Str, chars, is_empty, str_eq, split_once, split, contains}
use gwead.Text.Split.{split_once-eq-some, contains-append}
use gwead.Text.Ends.{strip_prefix-eq-some}
use gwead.Text.Affix.{strip_prefix, strip_suffix}
use gwead.Identity.{
  NameKind, NameError, validate_name, validate_reference, validate_step_type_reference,
  check_step_type_reference, validate_impl_ref,
}
use gwead.Identity.Refs.{AreNames, validate_impl_ref_iff}
use gwead.Fault.{OnOk-self}
use gwead.Identity.Names.{IsName, validate_name_iff}
use gwead.Permissions.{
  NamePattern, HostPattern, PathPattern, Permission, network_egress, blobs, step_type,
  invoke_plugin, invoke_role, provide_step_type, bind_native_impl, app_defined,
}
use gwead.Permissions.Grammar.{
  find_glob, reject_glob_chars, reject_found, named, validate_permission_name, parse_host_pattern,
  suffix_or_exact, parse_path_pattern, prefix_or_exact,
}

-- no reserved glob character
abbrev pub IsLiteral : Str → Type 0
IsLiteral = All (λ c. (c ≢ b'*') × (c ≢ b'?') × (c ≢ b'['))

abbrev pub IsHost : HostPattern → Type 0
IsHost HostPattern.any = Unit
IsHost (HostPattern.suffix domain) =
    IsLiteral domain × (contains b':' domain ≡ false) × (is_empty domain ≡ false)
IsHost (HostPattern.exact h) = IsLiteral h × (contains b':' h ≡ false)

abbrev pub IsPath : PathPattern → Type 0
IsPath PathPattern.any = Unit
IsPath (PathPattern.prefix folder) = IsLiteral folder
IsPath (PathPattern.exact p) = IsLiteral p

abbrev pub IsTarget : NameKind → NamePattern → Type 0
IsTarget kind NamePattern.any = Unit
IsTarget kind (NamePattern.exact n) = IsName kind n

-- `<name>` of the kernel, or `<plugin>.<name>`
abbrev pub IsStepType : Str → Type 0
IsStepType t =
    IsName NameKind.step_type t
    ⊎ ((owner : Str) × (local : Str) × (t ≡ owner ++ b'.' ∷ local)
        × IsName NameKind.plugin owner
        × IsName NameKind.step_type local)

abbrev pub IsSelector : Option Str → Type 0
IsSelector none = Unit
IsSelector (some sel) = IsName NameKind.step_type_selector sel

-- Every name is one that the grammar of names accepts, every literal is free of reserved characters.
abbrev pub IsValid : Permission → Type 0
IsValid (network_egress h) = IsHost h
IsValid (blobs op p) = IsPath p
IsValid (step_type t) = IsStepType t
IsValid (invoke_plugin n) = IsTarget NameKind.plugin n
IsValid (invoke_role n) = IsTarget NameKind.role n
IsValid (provide_step_type t sel) = IsStepType t × IsSelector sel
IsValid (bind_native_impl t) = AreNames (split b'.' t)
IsValid (app_defined kind text) = (contains b'.' kind ≡ true) × (is_empty text ≡ false)

pub find_glob-IsLiteral : (s : Str) → find_glob s ≡ none → IsLiteral s
unfolding find_glob
find_glob-IsLiteral [] h = tt
find_glob-IsLiteral (c ∷ s) h =
    ((ground arith, ground arith, ground arith), find_glob-IsLiteral s (ground arith))

pub reject_glob_chars-OnOk :
    (raw field s : Str) → OnOk (λ u. IsLiteral s) (reject_glob_chars raw field s)
unfolding reject_glob_chars
reject_glob_chars-OnOk raw field s = on (find_glob s) refl
  where
    on : (o : Option ℕ) → find_glob s ≡ o → OnOk (λ u. IsLiteral s) (reject_found raw field o)
    on none e = value (find_glob-IsLiteral s e)
    on (some c) e = failed

pub named-OnOk : (raw : Str) (r : Result NameError (Unit {0})) → OnOk (λ u. r ≡ ok tt) (named raw r)
named-OnOk raw (ok u) = value refl
named-OnOk raw (err e) = failed

pub validate_name-OnOk :
    (kind : NameKind) (name : Str) → OnOk (λ u. IsName kind name) (validate_name kind name)
validate_name-OnOk kind name =
    OnOk-weaken (OnOk-self (validate_name kind name)) λ u e. (validate_name_iff kind name).0 e

pub validate_permission_name-OnOk :
    (raw : Str) (kind : NameKind) (name : Str)
    → OnOk (λ u. IsName kind name) (validate_permission_name raw kind name)
unfolding validate_permission_name
validate_permission_name-OnOk raw kind name =
    OnOk-weaken (named-OnOk raw (validate_reference kind name))
      λ u e. (validate_name_iff kind name).0 e

pub validate_step_type_reference-OnOk :
    (t : Str) → OnOk (λ u. IsStepType t) (validate_step_type_reference t)
unfolding validate_step_type_reference
validate_step_type_reference-OnOk t = on (split_once b'.' t) refl
  where
    on :
        (o : Option (Str × Str))
        → split_once b'.' t ≡ o
        → OnOk (λ u. IsStepType t) (check_step_type_reference t o)
    on none e = OnOk-weaken (validate_name-OnOk NameKind.step_type t) λ u n. inl n
    on (some (owner, local)) e = OnOk-bind (validate_name-OnOk NameKind.plugin owner) λ _ n.
        OnOk-weaken (validate_name-OnOk NameKind.step_type local)
          λ _ m. inr (owner, local, split_once-eq-some b'.' t owner local e, n, m)

pub validate_impl_ref-OnOk : (t : Str) → OnOk (λ u. AreNames (split b'.' t)) (validate_impl_ref t)
validate_impl_ref-OnOk t =
    OnOk-weaken (OnOk-self (validate_impl_ref t)) λ u e. (validate_impl_ref_iff t).0 e

-- a check of a name whose error becomes one of the permission
pub named_check :
    {P : Type 0} (raw : Str) (r : Result NameError (Unit {0}))
    → OnOk (λ u. P) r
    → OnOk (λ u. P) (named raw r)
named_check raw (ok u) (value h) = value h
named_check raw (err e) failed = failed

pub parse_host_pattern-IsHost :
    (raw s : Str) → is_empty s ≡ false → OnOk IsHost (parse_host_pattern raw s)
unfolding parse_host_pattern
parse_host_pattern-IsHost raw s more =
    OnOk-if (str_eq s (chars "*")) (λ _. value tt)
      λ _.
        OnOk-if (contains b':' s) (λ _. failed)
          λ plain. literal plain (strip_prefix (chars "*.") s) refl
  where
    literal :
        contains b':' s ≡ false
        → (o : Option Str) → strip_prefix (chars "*.") s ≡ o
        → OnOk IsHost (suffix_or_exact raw s o)
    literal plain none e =
        OnOk-bind (reject_glob_chars-OnOk raw (chars "host pattern") s) λ _ l. value (l, plain)
    literal plain (some []) e = failed
    literal plain (some (c ∷ domain)) e =
        OnOk-bind (reject_glob_chars-OnOk raw (chars "host pattern suffix") (c ∷ domain)) λ _ l.
          value (
            l,
            ground (
              arith,
              contains-append b':' (chars "*.") (c ∷ domain),
              strip_prefix-eq-some (chars "*.") s (c ∷ domain) e,
            ),
            refl,
          )

pub parse_path_pattern-IsPath : (raw s : Str) → OnOk IsPath (parse_path_pattern raw s)
unfolding parse_path_pattern
parse_path_pattern-IsPath raw s =
    OnOk-if (str_eq s (chars "*")) (λ _. value tt) λ _. literal (strip_suffix (chars "/*") s)
  where
    literal : (o : Option Str) → OnOk IsPath (prefix_or_exact raw s o)
    literal none = OnOk-bind (reject_glob_chars-OnOk raw (chars "path pattern") s) λ _ l. value l
    literal (some folder) =
        OnOk-bind (reject_glob_chars-OnOk raw (chars "path pattern prefix") folder) λ _ l. value l
