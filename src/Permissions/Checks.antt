-- ===== src/Permissions/Checks.antt =====
-- What the checks grant, by an independent description of what a grant covers.
use gwead.Prelude.{
  ◌≡◌, ◌↔◌, ◌⊎◌, refl, sym, ◌∙◌, subst, Bool, true, false, List, [], ◌∷◌, ◌++◌, In, arith,
  Bool-cases, inl, inr, if◌then◌else◌, append_assoc,
}
use gwead.Text.{Str}
use gwead.Text.Split.{str_eq_iff}
use gwead.Text.Ends.{starts_with_iff, ends_with_iff}
use gwead.Text.Affix.{to_ascii_lowercase, eq_ignore_ascii_case}
use gwead.Permissions.{
  BlobOp, NamePattern, HostPattern, PathPattern, Permission, network_egress, blobs, step_type,
  invoke_plugin, invoke_role, provide_step_type, bind_native_impl, app_defined, is_granted, same_op,
  check, allows_egress, allows_blobs, allows_role, allows_step_type, name_matches, host_matches,
  path_matches, check_network_egress, check_blobs, check_invoke_role, check_step_type,
}

-- `s` and `t` are the same but for the case of ASCII letters
abbrev pub SameFolded : Str → Str → Type 0
SameFolded s t = to_ascii_lowercase s ≡ to_ascii_lowercase t

-- the host itself, or a host below the domain, in any case
abbrev pub HostCovers : HostPattern → Str → Type 0
HostCovers HostPattern.any host = Unit
HostCovers (HostPattern.exact h) host = SameFolded h host
HostCovers (HostPattern.suffix domain) host =
    SameFolded host domain
    ⊎ ((below : Str) × (to_ascii_lowercase host ≡ below ++ b'.' ∷ to_ascii_lowercase domain))

-- the key itself, or a key under the folder
abbrev pub PathCovers : PathPattern → Str → Type 0
PathCovers PathPattern.any key = Unit
PathCovers (PathPattern.exact p) key = p ≡ key
PathCovers (PathPattern.prefix folder) key =
    (key ≡ folder) ⊎ ((under : Str) × (key ≡ folder ++ b'/' ∷ under))

abbrev pub NameCovers : NamePattern → Str → Type 0
NameCovers NamePattern.any name = Unit
NameCovers (NamePattern.exact n) name = n ≡ name

if_or_iff :
    {P Q : Type 0} (a b : Bool)
    → (a ≡ true) ↔ P
    → (b ≡ true) ↔ Q
    → ((if a then true else b) ≡ true) ↔ (P ⊎ Q)
if_or_iff true b h k = (λ e. inl (h.0 refl), λ x. refl)
if_or_iff false b h k = (λ e. inr (k.0 e), λ x. elim x [ inl p ↦ cc (h.1 p) | inr q ↦ k.1 q ])

host_matches_iff :
    (pat : HostPattern) (host : Str) → (host_matches pat host ≡ true) ↔ HostCovers pat host
unfolding host_matches eq_ignore_ascii_case
host_matches_iff HostPattern.any host = (λ e. tt, λ x. refl)
host_matches_iff (HostPattern.exact h) host =
    str_eq_iff (to_ascii_lowercase h) (to_ascii_lowercase host)
host_matches_iff (HostPattern.suffix domain) host =
    if_or_iff _ _ (str_eq_iff (to_ascii_lowercase host) (to_ascii_lowercase domain)) (
      unfold to_ascii_lowercase in
      ends_with_iff (b'.' ∷ to_ascii_lowercase domain) (to_ascii_lowercase host))

path_matches_iff :
    (pat : PathPattern) (key : Str) → (path_matches pat key ≡ true) ↔ PathCovers pat key
unfolding path_matches
path_matches_iff PathPattern.any key = (λ e. tt, λ x. refl)
path_matches_iff (PathPattern.exact p) key = str_eq_iff p key
path_matches_iff (PathPattern.prefix folder) key = if_or_iff _ _ (str_eq_iff key folder) (
  λ h.
      let (r, e) = (starts_with_iff (folder ++ b'/' ∷ []) key).0 h in
      (r, e ∙ append_assoc folder (b'/' ∷ []) r),
  λ (r, e).
      (starts_with_iff (folder ++ b'/' ∷ []) key).1
        (r, e ∙ sym (append_assoc folder (b'/' ∷ []) r)),
)

name_matches_iff :
    (pat : NamePattern) (name : Str) → (name_matches pat name ≡ true) ↔ NameCovers pat name
name_matches_iff NamePattern.any name = (λ e. tt, λ x. refl)
name_matches_iff (NamePattern.exact n) name = str_eq_iff n name

-- the loop finds a grant that allows
check_iff :
    (allows : Permission → Bool) (requested : Permission) (grants : List Permission)
    → (is_granted (check allows requested grants) ≡ true)
      ↔ ((g : Permission) × In g grants × (allows g ≡ true))
unfolding check is_granted
check_iff allows requested [] = (λ e. cc e, λ (g, i, e). absurd i)
check_iff allows requested (grant ∷ grants) = (
  λ h. elim (Bool-cases (allows grant)) [
    | inl e ↦ (grant, inl refl, e)
    | inr e ↦ let (g, i, f) = (check_iff allows requested grants).0 (rw e at h) in (g, inr i, f)
  ],
  λ (g, i, f). elim (Bool-cases (allows grant)) [
    | inl e ↦ rw e refl
    | inr e ↦ rw e (elim i [
      | inl same ↦ cc (e, same, f)
      | inr later ↦ (check_iff allows requested grants).1 (g, later, f)
    ])
  ],
)

same_op_iff : (a b : BlobOp) → (same_op a b ≡ true) ↔ (a ≡ b)
same_op_iff a b = ground arith

-- A host is granted exactly if one of the grants is for network egress and its pattern covers the
-- host: any host, the host itself, or the domain with all below it, without regard to the case of
-- ASCII letters. No grants deny.
pub check_network_egress_iff :
    (grants : List Permission) (host : Str)
    → (is_granted (check_network_egress grants host) ≡ true)
      ↔ ((pat : HostPattern) × In (network_egress pat) grants × HostCovers pat host)
unfolding check_network_egress
check_network_egress_iff grants host = (
  λ h. let (g, i, e) = found.0 h in of g i e,
  λ (pat, i, c). found.1 (network_egress pat, i, (host_matches_iff pat host).1 c),
)
  where
    found :
        (is_granted (check (allows_egress host) (network_egress (HostPattern.exact host)) grants)
          ≡ true)
        ↔ ((g : Permission) × In g grants × (allows_egress host g ≡ true))
    found = check_iff (allows_egress host) (network_egress (HostPattern.exact host)) grants

    of :
        (g : Permission)
        → In g grants
        → allows_egress host g ≡ true
        → (pat : HostPattern) × In (network_egress pat) grants × HostCovers pat host
    of (network_egress pat) i e = (pat, i, (host_matches_iff pat host).0 e)
    of (blobs op p) i e = cc e
    of (step_type t) i e = cc e
    of (invoke_plugin n) i e = cc e
    of (invoke_role n) i e = cc e
    of (provide_step_type t s) i e = cc e
    of (bind_native_impl t) i e = cc e
    of (app_defined k v) i e = cc e

-- An operation on a key is granted exactly if one of the grants is for this operation and its
-- pattern covers the key: any key, the key itself, or a folder with all under it. No grants deny.
pub check_blobs_iff :
    (grants : List Permission) (op : BlobOp) (key : Str)
    → (is_granted (check_blobs grants op key) ≡ true)
      ↔ ((pat : PathPattern) × In (blobs op pat) grants × PathCovers pat key)
unfolding check_blobs
check_blobs_iff grants op key = (
  λ h. let (g, i, e) = found.0 h in of g i e,
  λ (pat, i, c).
      found.1
        (blobs op pat, i, rw ((same_op_iff op op).1 refl, (path_matches_iff pat key).1 c) refl),
)
  where
    found :
        (is_granted (check (allows_blobs op key) (blobs op (PathPattern.exact key)) grants) ≡ true)
        ↔ ((g : Permission) × In g grants × (allows_blobs op key g ≡ true))
    found = check_iff (allows_blobs op key) (blobs op (PathPattern.exact key)) grants

    of :
        (g : Permission)
        → In g grants
        → allows_blobs op key g ≡ true
        → (pat : PathPattern) × In (blobs op pat) grants × PathCovers pat key
    of (blobs op' pat) i e =
        let same : op' ≡ op = (same_op_iff op' op).0 (ground arith) in
        (
          pat,
          subst (λ o. In (blobs o pat) grants) same i,
          (path_matches_iff pat key).0 (ground arith),
        )
    of (network_egress pat) i e = cc e
    of (step_type t) i e = cc e
    of (invoke_plugin n) i e = cc e
    of (invoke_role n) i e = cc e
    of (provide_step_type t s) i e = cc e
    of (bind_native_impl t) i e = cc e
    of (app_defined k v) i e = cc e

-- A role may be dispatched to exactly if one of the grants is for any role or for this one, and a
-- step type may be used exactly if one of the grants names it. No grants deny.
pub check_names_iff :
    (grants : List Permission) (name : Str)
    → ((is_granted (check_invoke_role grants name) ≡ true)
        ↔ ((pat : NamePattern) × In (invoke_role pat) grants × NameCovers pat name))
      × ((is_granted (check_step_type grants name) ≡ true) ↔ In (step_type name) grants)
unfolding check_invoke_role check_step_type
check_names_iff grants name = (
  (
    λ h.
        let (g, i, e) =
          (check_iff (allows_role name) (invoke_role (NamePattern.exact name)) grants).0 h in
        role_of g i e,
    λ (pat, i, c).
        (check_iff (allows_role name) (invoke_role (NamePattern.exact name)) grants).1
          (invoke_role pat, i, (name_matches_iff pat name).1 c),
  ),
  (
    λ h.
        let (g, i, e) = (check_iff (allows_step_type name) (step_type name) grants).0 h in
        step_type_of g i e,
    λ i.
        (check_iff (allows_step_type name) (step_type name) grants).1
          (step_type name, i, (str_eq_iff name name).1 refl),
  ),
)
  where
    role_of :
        (g : Permission)
        → In g grants
        → allows_role name g ≡ true
        → (pat : NamePattern) × In (invoke_role pat) grants × NameCovers pat name
    role_of (invoke_role pat) i e = (pat, i, (name_matches_iff pat name).0 e)
    role_of (network_egress pat) i e = cc e
    role_of (blobs op p) i e = cc e
    role_of (step_type t) i e = cc e
    role_of (invoke_plugin n) i e = cc e
    role_of (provide_step_type t s) i e = cc e
    role_of (bind_native_impl t) i e = cc e
    role_of (app_defined k v) i e = cc e

    step_type_of :
        (g : Permission) → In g grants → allows_step_type name g ≡ true → In (step_type name) grants
    step_type_of (step_type t) i e =
        subst (λ x. In (step_type x) grants) ((str_eq_iff t name).0 e) i
    step_type_of (network_egress pat) i e = cc e
    step_type_of (blobs op p) i e = cc e
    step_type_of (invoke_plugin n) i e = cc e
    step_type_of (invoke_role n) i e = cc e
    step_type_of (provide_step_type t s) i e = cc e
    step_type_of (bind_native_impl t) i e = cc e
    step_type_of (app_defined k v) i e = cc e
