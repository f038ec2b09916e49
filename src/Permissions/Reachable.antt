-- ===== src/Permissions/Reachable.antt =====
-- A category that an embedder may declare is one that an entry of a manifest can name.
use gwead.Prelude.{◌≡◌, refl, true, false, arith, Bool-cases, inl, inr}
use gwead.Prelude.Outcome.{ok}
use gwead.Text.{Str, chars, is_empty, str_eq, contains}
use gwead.Text.Split.{str_eq_iff, split_once-append}
use gwead.Text.Affix.{trim}
use gwead.Permissions.{app_defined}
use gwead.Permissions.Grammar.{split_two, parse_other, parse_category, parse_permission}
use gwead.Permissions.Printed.{joined, joined_filled}
use gwead.Permissions.Categories.{validate_app_category_name}

-- a name with a dot is no word without one
dotted-str_eq :
    (name word : Str)
    → contains b'.' name ≡ true
    → contains b'.' word ≡ false
    → str_eq name word ≡ false
dotted-str_eq name word dot plain = elim (Bool-cases (str_eq name word)) [
  | inl e ↦ let same = (str_eq_iff name word).0 e in cc (dot, plain, same)
  | inr e ↦ e
]

validate_app_category_name-dotted :
    (name : Str)
    → validate_app_category_name name ≡ ok tt
    → (is_empty name ≡ false) × (contains b'.' name ≡ true) × (contains b':' name ≡ false)
unfolding validate_app_category_name
validate_app_category_name-dotted name h = (ground arith, ground arith, ground arith)

parse_category-dotted :
    (t name text : Str)
    → is_empty name ≡ false
    → contains b'.' name ≡ true
    → is_empty text ≡ false
    → parse_category t (name, text) ≡ ok (app_defined name text)
unfolding parse_category parse_other contains
parse_category-dotted t name text named dot filled =
    rw
      (
        dotted-str_eq name (chars "network") dot refl,
        dotted-str_eq name (chars "blobs") dot refl,
        dotted-str_eq name (chars "step_type") dot refl,
        dotted-str_eq name (chars "provide") dot refl,
        dotted-str_eq name (chars "bind") dot refl,
        dotted-str_eq name (chars "invoke") dot refl,
        named,
        dot,
        filled,
      )
      refl

-- An entry of a category whose name an embedder may declare, with a value and no white space around
-- it, parses to a permission of that category: no category of the kernel captures it.
pub validate_app_category_name-parse_permission :
    (name text : Str)
    → validate_app_category_name name ≡ ok tt
    → is_empty text ≡ false
    → trim (joined name text) ≡ joined name text
    → parse_permission (joined name text) ≡ ok (app_defined name text)
unfolding parse_permission split_two
validate_app_category_name-parse_permission name text h filled trimmed =
    let (named, dot, plain) = validate_app_category_name-dotted name h in
    rw (trimmed, joined_filled name text, split_once-append b':' name text plain)
      (parse_category-dotted (joined name text) name text named dot filled)
