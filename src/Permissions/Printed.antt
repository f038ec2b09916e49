-- ===== src/Permissions/Printed.antt =====
-- How a permission is written, and the parts of an entry that read so.
use gwead.Prelude.{
  ◌≡◌, refl, sym, ap, ◌∙◌, true, false, Option, none, some, [], ◌∷◌, ◌++◌, arith, Option-cases, inl,
  inr,
}
use gwead.Fault.{OnOk, value, failed, OnOk-any, OnOk-bind, OnOk-if}
use gwead.Text.{Str, chars, is_empty, str_eq, split_once, contains}
use gwead.Text.Split.{str_eq_iff, split_once-eq-some}
use gwead.Text.Ends.{strip_prefix-eq-some, strip_suffix-eq-some}
use gwead.Text.Affix.{strip_prefix, strip_suffix}
use gwead.Permissions.{
  BlobOp, NamePattern, HostPattern, PathPattern, Permission, network_egress, blobs, step_type,
  invoke_plugin, invoke_role, provide_step_type, bind_native_impl, app_defined,
}
use gwead.Permissions.Grammar.{
  split_two, reject_glob_chars, parse_host_pattern, suffix_or_exact, parse_path_pattern,
  prefix_or_exact, blob_op,
}

abbrev pub print_name : NamePattern → Str
print_name NamePattern.any = chars "*"
print_name (NamePattern.exact n) = n

abbrev pub print_host : HostPattern → Str
print_host HostPattern.any = chars "*"
print_host (HostPattern.suffix domain) = chars "*." ++ domain
print_host (HostPattern.exact h) = h

abbrev pub print_path : PathPattern → Str
print_path PathPattern.any = chars "*"
print_path (PathPattern.prefix folder) = folder ++ chars "/*"
print_path (PathPattern.exact p) = p

abbrev pub print_op : BlobOp → Str
print_op BlobOp.read = chars "read"
print_op BlobOp.write = chars "write"
print_op BlobOp.delete = chars "delete"
print_op BlobOp.list = chars "list"
print_op BlobOp.stat = chars "stat"
print_op BlobOp.watch = chars "watch"

abbrev pub print_selector : Option Str → Str
print_selector none = []
print_selector (some sel) = b':' ∷ sel

-- two parts of an entry with the colon between them
abbrev pub joined : Str → Str → Str
joined a b = a ++ b':' ∷ b

-- the text of a permission, which an entry of a manifest has
unfoldable pub print : Permission → Str
print (network_egress h) = joined (chars "network") (joined (chars "egress") (print_host h))
print (blobs op p) = joined (chars "blobs") (joined (print_op op) (print_path p))
print (step_type t) = joined (chars "step_type") t
print (invoke_plugin n) = joined (chars "invoke") (joined (chars "plugin") (print_name n))
print (invoke_role n) = joined (chars "invoke") (joined (chars "role") (print_name n))
print (provide_step_type t sel) =
    joined (chars "provide") (joined (chars "step_type") (t ++ print_selector sel))
print (bind_native_impl t) = joined (chars "bind") (joined (chars "native_impl") t)
print (app_defined kind text) = joined kind text

pub str_eq-eq-true : {s t : Str} → str_eq s t ≡ true → s ≡ t
str_eq-eq-true {s} {t} h = (str_eq_iff s t).0 h

-- a part that is not empty stands behind the first colon
pub split_two-joined :
    (s : Str)
    → is_empty (split_two b':' s).1 ≡ false
    → s ≡ joined (split_two b':' s).0 (split_two b':' s).1
unfolding split_two
split_two-joined s h = elim (Option-cases (split_once b':' s)) [
  | inl e ↦ ground arith
  | inr ((a, b), e) ↦ rw e (split_once-eq-some b':' s a b e)
]

pub joined_filled : (a b : Str) → is_empty (joined a b) ≡ false
joined_filled [] b = refl
joined_filled (c ∷ a) b = refl

-- What the grammar reads of a part, printed, is the part.
pub parse_host_pattern-OnOk :
    (raw s : Str) → OnOk (λ h. print_host h ≡ s) (parse_host_pattern raw s)
unfolding parse_host_pattern
parse_host_pattern-OnOk raw s =
    OnOk-if (str_eq s (chars "*")) (λ e. value (sym (str_eq-eq-true e)))
      λ _. OnOk-if (contains b':' s) (λ _. failed) λ _. literal (strip_prefix (chars "*.") s) refl
  where
    literal :
        (o : Option Str)
        → strip_prefix (chars "*.") s ≡ o
        → OnOk (λ h. print_host h ≡ s) (suffix_or_exact raw s o)
    literal none e =
        OnOk-bind (OnOk-any (reject_glob_chars raw (chars "host pattern") s)) λ _ _. value refl
    literal (some []) e = failed
    literal (some (c ∷ domain)) e =
        OnOk-bind (OnOk-any (reject_glob_chars raw (chars "host pattern suffix") (c ∷ domain)))
          λ _ _. value (sym (strip_prefix-eq-some (chars "*.") s (c ∷ domain) e))

pub parse_path_pattern-OnOk :
    (raw s : Str) → OnOk (λ p. print_path p ≡ s) (parse_path_pattern raw s)
unfolding parse_path_pattern
parse_path_pattern-OnOk raw s =
    OnOk-if (str_eq s (chars "*")) (λ e. value (sym (str_eq-eq-true e)))
      λ _. literal (strip_suffix (chars "/*") s) refl
  where
    literal :
        (o : Option Str)
        → strip_suffix (chars "/*") s ≡ o
        → OnOk (λ p. print_path p ≡ s) (prefix_or_exact raw s o)
    literal none e =
        OnOk-bind (OnOk-any (reject_glob_chars raw (chars "path pattern") s)) λ _ _. value refl
    literal (some folder) e =
        OnOk-bind (OnOk-any (reject_glob_chars raw (chars "path pattern prefix") folder))
          λ _ _. value (sym (strip_suffix-eq-some (chars "/*") s folder e))

pub blob_op-eq-some : (s : Str) (op : BlobOp) → blob_op s ≡ some op → print_op op ≡ s
unfolding blob_op
blob_op-eq-some s op h = ground (
  arith,
  str_eq_iff s (chars "read"),
  str_eq_iff s (chars "write"),
  str_eq_iff s (chars "delete"),
  str_eq_iff s (chars "list"),
  str_eq_iff s (chars "stat"),
  str_eq_iff s (chars "watch"),
)

-- The rest of an entry behind its category is read whole, and is not empty.
abbrev pub Reads : Str → Str → Permission → Type 0
Reads category rest p = (print p ≡ joined category rest) × (is_empty rest ≡ false)

-- `rest` is two parts with a colon between them
pub Reads-joined :
    (category rest inner : Str) (p : Permission)
    → is_empty (split_two b':' rest).1 ≡ false
    → print p ≡ joined category (joined (split_two b':' rest).0 inner)
    → inner ≡ (split_two b':' rest).1
    → Reads category rest p
Reads-joined category rest inner p more e f =
    let whole = split_two-joined rest more in
    (
      e
          ∙ ap (λ x. joined category (joined (split_two b':' rest).0 x)) f
          ∙ ap (joined category) (sym whole),
      ap is_empty whole ∙ joined_filled (split_two b':' rest).0 (split_two b':' rest).1,
    )
