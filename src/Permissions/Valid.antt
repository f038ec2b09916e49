-- ===== src/Permissions/Valid.antt =====
-- What a permission that parses can name: nothing that no registry could hold.
use gwead.Prelude.{◌≡◌, Option, none, some, [], ◌∷◌}
use gwead.Prelude.Outcome.{ok}
use gwead.Fault.{OnOk, value, failed, OnOk-elim, OnOk-bind, OnOk-if}
use gwead.Text.{Str, chars, is_empty, str_eq, split_once, contains}
use gwead.Text.Affix.{trim}
use gwead.Identity.{NameKind, validate_step_type_reference, validate_impl_ref}
use gwead.Permissions.{BlobOp, Permission}
use gwead.Permissions.Grammar.{
  split_two, parse_network, blob_op, blobs_on, parse_blobs, parse_step_type, parse_bind,
  invoke_pattern, parse_invoke, validate_selector, provided, provide_target, parse_provide,
  parse_other, parse_category, parse_permission,
}
use gwead.Permissions.Parts.{
  IsTarget, IsSelector, IsValid, reject_glob_chars-OnOk, validate_permission_name-OnOk,
  validate_step_type_reference-OnOk, validate_impl_ref-OnOk, named_check, parse_host_pattern-IsHost,
  parse_path_pattern-IsPath,
}

module _ (t : Str) where
  parse_network-IsValid : (kind host : Str) → OnOk IsValid (parse_network t (kind, host))
  parse_network-IsValid kind host =
      OnOk-if (str_eq kind (chars "egress"))
        (λ _.
          OnOk-if (is_empty host) (λ _. failed)
            λ more. OnOk-bind (parse_host_pattern-IsHost t host more) λ _ h. value h)
        λ _. failed

  parse_blobs-IsValid : (op_str path : Str) → OnOk IsValid (parse_blobs t (op_str, path))
  parse_blobs-IsValid op_str path = on (blob_op op_str)
    where
      on : (o : Option BlobOp) → OnOk IsValid (blobs_on t op_str path o)
      on none = failed
      on (some op) =
          OnOk-if (is_empty path) (λ _. failed)
            λ _. OnOk-bind (parse_path_pattern-IsPath t path) λ _ h. value h

  parse_step_type-IsValid : (rest : Str) → OnOk IsValid (parse_step_type t rest)
  unfolding parse_step_type
  parse_step_type-IsValid rest =
      OnOk-if (is_empty rest) (λ _. failed)
        λ _. OnOk-bind (reject_glob_chars-OnOk t (chars "step type name") rest) λ _ _.
          OnOk-bind
            (named_check t (validate_step_type_reference rest)
              (validate_step_type_reference-OnOk rest))
            λ _ h. value h

  parse_bind-IsValid : (what target : Str) → OnOk IsValid (parse_bind t (what, target))
  parse_bind-IsValid what target =
      OnOk-if (str_eq what (chars "native_impl"))
        (λ _.
          OnOk-if (is_empty target) (λ _. failed)
            λ _. OnOk-bind (reject_glob_chars-OnOk t (chars "bound implRef") target) λ _ _.
              OnOk-bind (named_check t (validate_impl_ref target) (validate_impl_ref-OnOk target))
                λ _ h. value h)
        λ _. failed

  invoke_pattern-IsTarget :
      (kind : NameKind) (name : Str) → OnOk (IsTarget kind) (invoke_pattern t kind name)
  invoke_pattern-IsTarget kind name =
      OnOk-if (str_eq name (chars "*")) (λ _. value tt)
        λ _.
          OnOk-bind (reject_glob_chars-OnOk t (chars "invoke target name") name)
            λ _ _. OnOk-bind (validate_permission_name-OnOk t kind name) λ _ n. value n

  parse_invoke-IsValid : (kind name : Str) → OnOk IsValid (parse_invoke t (kind, name))
  parse_invoke-IsValid kind name =
      OnOk-if (is_empty name) (λ _. failed)
        λ _.
          OnOk-if (str_eq kind (chars "plugin"))
            (λ _. OnOk-bind (invoke_pattern-IsTarget NameKind.plugin name) λ _ h. value h)
            λ _.
              OnOk-if (str_eq kind (chars "role"))
                (λ _. OnOk-bind (invoke_pattern-IsTarget NameKind.role name) λ _ h. value h)
                λ _. failed

  validate_selector-IsSelector :
      (sel : Option Str) → OnOk (λ u. IsSelector sel) (validate_selector t sel)
  validate_selector-IsSelector none = value tt
  validate_selector-IsSelector (some sel) =
      OnOk-bind (reject_glob_chars-OnOk t (chars "provided step type selector") sel)
        λ _ _. validate_permission_name-OnOk t NameKind.step_type_selector sel

  provided-IsValid : (name : Str) (sel : Option Str) → OnOk IsValid (provided t name sel)
  provided-IsValid name sel =
      OnOk-bind (reject_glob_chars-OnOk t (chars "provided step type") name) λ _ _.
        OnOk-bind
          (named_check t (validate_step_type_reference name)
            (validate_step_type_reference-OnOk name))
          λ _ h. OnOk-bind (validate_selector-IsSelector sel) λ _ k. value (h, k)

  parse_provide-IsValid : (what target : Str) → OnOk IsValid (parse_provide t (what, target))
  parse_provide-IsValid what target =
      OnOk-if (str_eq what (chars "step_type"))
        (λ _. OnOk-if (is_empty target) (λ _. failed) λ _. on (split_once b':' target)) λ _. failed
    where
      on : (o : Option (Str × Str)) → OnOk IsValid (provide_target t target o)
      on none = provided-IsValid target none
      on (some (a, [])) = failed
      on (some (a, c ∷ sel)) = provided-IsValid a (some (c ∷ sel))

  parse_category-IsValid : (category rest : Str) → OnOk IsValid (parse_category t (category, rest))
  unfolding parse_category parse_other
  parse_category-IsValid category rest =
      let (a, b) = split_two b':' rest in
      OnOk-if (str_eq category (chars "network")) (λ _. parse_network-IsValid a b)
        λ _.
          OnOk-if (str_eq category (chars "blobs")) (λ _. parse_blobs-IsValid a b)
            λ _.
              OnOk-if (str_eq category (chars "step_type")) (λ _. parse_step_type-IsValid rest)
                λ _.
                  OnOk-if (str_eq category (chars "provide")) (λ _. parse_provide-IsValid a b)
                    λ _.
                      OnOk-if (str_eq category (chars "bind")) (λ _. parse_bind-IsValid a b)
                        λ _.
                          OnOk-if (str_eq category (chars "invoke")) (λ _. parse_invoke-IsValid a b)
                            λ _.
                              OnOk-if (is_empty category) (λ _. failed)
                                λ _.
                                  OnOk-if (contains b'.' category)
                                    (λ dot.
                                      OnOk-if (is_empty rest) (λ _. failed)
                                        λ more. value (dot, more))
                                    λ _. failed

-- What parses can name what it grants: an invoked plugin or role, a step type, a selector and the
-- segments of an implRef are names that validation accepts; a literal host has no colon and a suffix
-- is not empty; no literal of a host or a path holds `*`, `?` or `[`; the category of an embedder
-- has a dot, and a value.
pub parse_permission-IsValid :
    (raw : Str) (p : Permission) → parse_permission raw ≡ ok p → IsValid p
unfolding parse_permission
parse_permission-IsValid raw p h =
    OnOk-elim
      (OnOk-if {P = IsValid} (is_empty (trim raw)) (λ _. failed)
        λ _.
          parse_category-IsValid (trim raw) (split_two b':' (trim raw)).0
            (split_two b':' (trim raw)).1)
      h
