-- ===== src/Identity/Owners.antt =====
-- Who may declare a step type, and whose code an implRef is.
use gwead.Prelude.{
  ◌≡◌, refl, ap, ◌∙◌, subst, ◌↔◌, ◌⊎◌, inl, inr, Bool, true, false, Option, none, some, List, [],
  ◌∷◌, ◌++◌, arith,
}
use gwead.Prelude.Outcome.{ok, >>=-eq-ok}
use gwead.Text.{Str, contains, split, split_once}
use gwead.Text.Split.{
  str_eq_iff, str_eq_refl, split_once-append, split_once-eq-some, split_once-eq-none, split_three,
}
use gwead.Identity.{
  NameKind, plugin, step_type, step_type_separator, validate_name, check_step_type, second_of_three,
  validate_step_type_name, impl_ref_owner,
}
use gwead.Identity.Names.{IsName, IsNameChar, validate_name_iff, contains-names}

not-IsNameChar-dot : ¬ IsNameChar step_type_separator
not-IsNameChar-dot h = ground arith

IsName-no_dot :
    (kind : NameKind) (name : Str) → IsName kind name → contains step_type_separator name ≡ false
IsName-no_dot kind name n = contains-names step_type_separator name not-IsNameChar-dot n.chars

-- `<plugin>.<name>` under the declaring plugin's own local name
abbrev pub IsOwned : Str → Str → Type 0
IsOwned name declaring_plugin =
    (local : Str) × (name ≡ declaring_plugin ++ step_type_separator ∷ local)
    × IsName plugin declaring_plugin
    × IsName step_type local

-- A plugin may declare a step type exactly if its name is `<plugin>.<name>` under the plugin's own
-- local name; the kernel may besides declare every name with no dot.
pub validate_step_type_name_iff :
    (name declaring_plugin : Str) (kernel_owned : Bool)
    → (validate_step_type_name name declaring_plugin kernel_owned ≡ ok tt)
      ↔ (((kernel_owned ≡ true) × IsName step_type name) ⊎ IsOwned name declaring_plugin)
unfolding validate_step_type_name
validate_step_type_name_iff name p k =
    (accepted (split_once step_type_separator name) refl, accepts)
  where
    accepted :
        (o : Option (Str × Str))
        → split_once step_type_separator name ≡ o
        → check_step_type name p k o ≡ ok tt
        → ((k ≡ true) × IsName step_type name) ⊎ IsOwned name p
    accepted none e h =
        let (_, f, rest) = >>=-eq-ok (validate_name step_type name) _ h in
        inl (ground arith, (validate_name_iff step_type name).0 f)
    accepted (some (owner, local)) e h =
        let (_, f, h₁) = >>=-eq-ok (validate_name plugin owner) _ h in
        let (_, g, h₂) = >>=-eq-ok (validate_name step_type local) _ h₁ in
        let same : owner ≡ p = (str_eq_iff owner p).0 (ground arith) in
        inr (
          local,
          split_once-eq-some step_type_separator name owner local e
              ∙ ap (λ x. x ++ step_type_separator ∷ local) same,
          subst (IsName plugin) same ((validate_name_iff plugin owner).0 f),
          (validate_name_iff step_type local).0 g,
        )

    accepts :
        ((k ≡ true) × IsName step_type name) ⊎ IsOwned name p
        → check_step_type name p k (split_once step_type_separator name) ≡ ok tt
    accepts (inl (e, n)) =
        rw
          (
            split_once-eq-none step_type_separator name (IsName-no_dot step_type name n),
            (validate_name_iff step_type name).1 n,
            e,
          )
          refl
    accepts (inr (local, e, n, m)) =
        rw
          (
            e,
            split_once-append step_type_separator p local (IsName-no_dot plugin p n),
            (validate_name_iff plugin p).1 n,
            (validate_name_iff step_type local).1 m,
            str_eq_refl p,
          )
          refl

second_of_three-some :
    (segments : List Str) (b : Str)
    → second_of_three segments ≡ some b
    → (a : Str) × (c : Str) × (segments ≡ a ∷ b ∷ c ∷ [])
second_of_three-some (a ∷ b ∷ c ∷ []) b' h = (a, c, ap (λ x. a ∷ x ∷ c ∷ []) (cc h))
second_of_three-some [] b' h = cc h
second_of_three-some (a ∷ []) b' h = cc h
second_of_three-some (a ∷ b ∷ []) b' h = cc h
second_of_three-some (a ∷ b ∷ c ∷ d ∷ r) b' h = cc h

-- An implRef has the owner `p` exactly if it is `<owner>.<p>.<step>`, with no further dot.
pub impl_ref_owner_iff :
    (reference p : Str)
    → (impl_ref_owner reference ≡ some p) ↔ (
        (owner : Str) × (step : Str) × (reference ≡ owner ++ b'.' ∷ (p ++ b'.' ∷ step))
        × (contains b'.' owner ≡ false)
        × (contains b'.' p ≡ false)
        × (contains b'.' step ≡ false))
unfolding impl_ref_owner
impl_ref_owner_iff reference p = (
  λ h.
      let (a, c, e) = second_of_three-some (split b'.' reference) p h in
      let (f, pa, pb, pc) = (split_three b'.' reference a p c).0 e in (a, c, f, pa, pb, pc),
  λ (a, c, f, pa, pb, pc). rw ((split_three b'.' reference a p c).1 (f, pa, pb, pc)) refl,
)
