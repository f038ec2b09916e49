-- ===== src/Permissions/Print.antt =====
-- A permission written out, and that parsing loses nothing of an entry.
use gwead.Prelude.{
  ◌≡◌, refl, sym, ap, ◌∙◌, Option, none, some, [], ◌∷◌, ◌++◌, if◌then◌else◌, append-nil, subst,
}
use gwead.Prelude.Outcome.{Result, ok}
use gwead.Fault.{OnOk, value, failed, OnOk-elim, OnOk-any, OnOk-bind, OnOk-if, OnOk-weaken}
use gwead.Text.{Str, chars, is_empty, str_eq, split_once, contains}
use gwead.Text.Split.{split_once-eq-some}
use gwead.Text.Affix.{trim}
use gwead.Identity.{NameKind, validate_step_type_reference, validate_impl_ref}
use gwead.Permissions.{
  BlobOp, Permission, network_egress, blobs, invoke_plugin, invoke_role, provide_step_type,
  bind_native_impl,
}
use gwead.Permissions.Grammar.{
  PermissionParseError, split_two, reject_glob_chars, parse_network, blob_op, blobs_on, parse_blobs,
  parse_step_type, parse_bind, invoke_pattern, parse_invoke, provided, provide_target,
  parse_provide, parse_other, parse_category, parse_permission, named, validate_permission_name,
  validate_selector,
}
use gwead.Permissions.Printed.{
  print_name, print_host, print_path, print_selector, joined, print, str_eq-eq-true,
  split_two-joined, parse_host_pattern-OnOk, parse_path_pattern-OnOk, blob_op-eq-some, Reads,
  Reads-joined,
}

module _ (t rest : Str) where
  parse_network-Reads : OnOk (Reads (chars "network") rest) (parse_network t (split_two b':' rest))
  unfolding print
  parse_network-Reads =
      OnOk-if (str_eq (split_two b':' rest).0 (chars "egress"))
        (λ k.
          OnOk-if (is_empty (split_two b':' rest).1) (λ _. failed)
            λ more. OnOk-bind (parse_host_pattern-OnOk t (split_two b':' rest).1) λ h e. value (
              Reads-joined (chars "network") rest (print_host h) (network_egress h) more
                (ap (λ x. joined (chars "network") (joined x (print_host h)))
                  (sym (str_eq-eq-true k)))
                e))
        λ _. failed

  parse_blobs-Reads : OnOk (Reads (chars "blobs") rest) (parse_blobs t (split_two b':' rest))
  unfolding print
  parse_blobs-Reads = on (blob_op (split_two b':' rest).0) refl
    where
      on :
          (o : Option BlobOp)
          → blob_op (split_two b':' rest).0 ≡ o
          → OnOk
              (Reads (chars "blobs") rest)
              (blobs_on t (split_two b':' rest).0 (split_two b':' rest).1 o)
      on none e = failed
      on (some op) e =
          OnOk-if (is_empty (split_two b':' rest).1) (λ _. failed)
            λ more. OnOk-bind (parse_path_pattern-OnOk t (split_two b':' rest).1) λ p f. value (
              Reads-joined (chars "blobs") rest (print_path p) (blobs op p) more
                (ap (λ x. joined (chars "blobs") (joined x (print_path p)))
                  (blob_op-eq-some (split_two b':' rest).0 op e))
                f)

  parse_step_type-Reads : OnOk (Reads (chars "step_type") rest) (parse_step_type t rest)
  unfolding print parse_step_type
  parse_step_type-Reads =
      OnOk-if (is_empty rest) (λ _. failed)
        λ more. OnOk-bind (OnOk-any (reject_glob_chars t (chars "step type name") rest)) λ _ _.
          OnOk-bind (OnOk-any (named t (validate_step_type_reference rest)))
            λ _ _. value (refl, more)

  parse_bind-Reads : OnOk (Reads (chars "bind") rest) (parse_bind t (split_two b':' rest))
  unfolding print
  parse_bind-Reads =
      OnOk-if (str_eq (split_two b':' rest).0 (chars "native_impl"))
        (λ k.
          OnOk-if (is_empty (split_two b':' rest).1) (λ _. failed)
            λ more.
              OnOk-bind
                (OnOk-any (reject_glob_chars t (chars "bound implRef") (split_two b':' rest).1))
                λ _ _.
                  OnOk-bind (OnOk-any (named t (validate_impl_ref (split_two b':' rest).1))) λ _ _.
                    value (
                      Reads-joined (chars "bind") rest (split_two b':' rest).1
                        (bind_native_impl (split_two b':' rest).1) more
                        (ap (λ x. joined (chars "bind") (joined x (split_two b':' rest).1))
                          (sym (str_eq-eq-true k)))
                        refl))
        λ _. failed

  invoke_pattern-OnOk :
      (kind : NameKind) (name : Str) → OnOk (λ n. print_name n ≡ name) (invoke_pattern t kind name)
  invoke_pattern-OnOk kind name =
      OnOk-if (str_eq name (chars "*")) (λ e. value (sym (str_eq-eq-true e)))
        λ _.
          OnOk-bind (OnOk-any (reject_glob_chars t (chars "invoke target name") name))
            λ _ _. OnOk-bind (OnOk-any (validate_permission_name t kind name)) λ _ _. value refl

  parse_invoke-Reads : OnOk (Reads (chars "invoke") rest) (parse_invoke t (split_two b':' rest))
  unfolding print
  parse_invoke-Reads =
      OnOk-if (is_empty (split_two b':' rest).1) (λ _. failed)
        λ more.
          OnOk-if (str_eq (split_two b':' rest).0 (chars "plugin"))
            (λ k. OnOk-bind (invoke_pattern-OnOk NameKind.plugin (split_two b':' rest).1) λ n e.
              value (
                Reads-joined (chars "invoke") rest (print_name n) (invoke_plugin n) more
                  (ap (λ x. joined (chars "invoke") (joined x (print_name n)))
                    (sym (str_eq-eq-true k)))
                  e))
            λ _.
              OnOk-if (str_eq (split_two b':' rest).0 (chars "role"))
                (λ k. OnOk-bind (invoke_pattern-OnOk NameKind.role (split_two b':' rest).1) λ n e.
                  value (
                    Reads-joined (chars "invoke") rest (print_name n) (invoke_role n) more
                      (ap (λ x. joined (chars "invoke") (joined x (print_name n)))
                        (sym (str_eq-eq-true k)))
                      e))
                λ _. failed

  provided-OnOk :
      (name : Str) (sel : Option Str)
      → OnOk (λ p. p ≡ provide_step_type name sel) (provided t name sel)
  provided-OnOk name sel =
      OnOk-bind (OnOk-any (reject_glob_chars t (chars "provided step type") name)) λ _ _.
        OnOk-bind (OnOk-any (named t (validate_step_type_reference name)))
          λ _ _. OnOk-bind (OnOk-any (validate_selector t sel)) λ _ _. value refl

  parse_provide-Reads : OnOk (Reads (chars "provide") rest) (parse_provide t (split_two b':' rest))
  unfolding print
  parse_provide-Reads =
      OnOk-if (str_eq (split_two b':' rest).0 (chars "step_type"))
        (λ k.
          OnOk-if (is_empty (split_two b':' rest).1) (λ _. failed)
            λ more.
              OnOk-weaken (target (split_once b':' (split_two b':' rest).1) refl)
                λ p (name, sel, e, f).
                  Reads-joined (chars "provide") rest (name ++ print_selector sel) p more
                    (ap print e
                      ∙ ap (λ x. joined (chars "provide") (joined x (name ++ print_selector sel)))
                          (sym (str_eq-eq-true k)))
                    f)
        λ _. failed
    where
      target :
          (o : Option (Str × Str))
          → split_once b':' (split_two b':' rest).1 ≡ o
          → OnOk
              (λ p.
                (name : Str) × (sel : Option Str) × (p ≡ provide_step_type name sel)
                × (name ++ print_selector sel ≡ (split_two b':' rest).1))
              (provide_target t (split_two b':' rest).1 o)
      target none e =
          OnOk-weaken (provided-OnOk (split_two b':' rest).1 none)
            λ p f. ((split_two b':' rest).1, none, f, append-nil (split_two b':' rest).1)
      target (some (a, [])) e = failed
      target (some (a, c ∷ sel)) e = OnOk-weaken (provided-OnOk a (some (c ∷ sel))) λ p f. (
        a,
        some (c ∷ sel),
        f,
        sym (split_once-eq-some b':' (split_two b':' rest).1 a (c ∷ sel) e),
      )

  parse_other-Reads : (category : Str) → OnOk (Reads category rest) (parse_other t category rest)
  unfolding print parse_other
  parse_other-Reads category =
      OnOk-if (is_empty category) (λ _. failed)
        λ _.
          OnOk-if (contains b'.' category)
            (λ _. OnOk-if (is_empty rest) (λ _. failed) λ more. value (refl, more)) λ _. failed

  parse_category-Reads :
      (category : Str) → OnOk (Reads category rest) (parse_category t (category, rest))
  unfolding parse_category
  parse_category-Reads category = case (chars "network") parse_network-Reads (
      case (chars "blobs") parse_blobs-Reads (
        case (chars "step_type") parse_step_type-Reads (
          case (chars "provide") parse_provide-Reads (
            case (chars "bind") parse_bind-Reads
              (case (chars "invoke") parse_invoke-Reads (parse_other-Reads category))))))
    where
      case :
          (word : Str) {x y : Result PermissionParseError Permission}
          → OnOk (Reads word rest) x
          → OnOk (Reads category rest) y
          → OnOk (Reads category rest) (if str_eq category word then x else y)
      case word {x} h k =
          OnOk-if (str_eq category word)
            (λ e. subst (λ w. OnOk (Reads w rest) x) (sym (str_eq-eq-true e)) h) λ _. k

-- Parsing loses nothing of an entry: what parses, printed, is the entry without the white space
-- around it.
pub parse_permission-print :
    (raw : Str) (p : Permission) → parse_permission raw ≡ ok p → print p ≡ trim raw
unfolding parse_permission
parse_permission-print raw p h =
    OnOk-elim
      (OnOk-if {P = λ p. print p ≡ trim raw} (is_empty (trim raw)) (λ _. failed)
        λ _.
          OnOk-weaken
            (parse_category-Reads (trim raw) (split_two b':' (trim raw)).1
              (split_two b':' (trim raw)).0)
            λ q (e, more). e ∙ sym (split_two-joined (trim raw) more))
      h
