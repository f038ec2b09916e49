-- ===== src/Registry/Removal.antt =====
-- Entries and lists of the registry after the removal of what names a plugin.
use gwead.Prelude.{
  ◌≡◌, ◌≢◌, ◌↔◌, inl, inr, refl, sym, ap, subst, Bool, true, not, Option, none, some, List, [], ◌∷◌,
  In, Bool-cases, Option-cases,
}
use gwead.Text.{Str, str_eq}
use gwead.Text.Split.{str_eq_iff}
use gwead.Invoke.{NodeRef, node_eq}
use gwead.Invoke.Walks.{node_eq_iff}
use gwead.Registry.{Table, find, retain, or_empty}
use gwead.Registry.Lookup.{to_list, map_values, is_nonempty}
use gwead.Registry.Retain.{In-retain, find-retain, find-retain-kept, find-map_values, find-changed}

-- the test of what is kept
pub others_iff : (s plugin : Str) → (not (str_eq s plugin) ≡ true) ↔ (s ≢ plugin)
others_iff s plugin = elim (Bool-cases (str_eq s plugin)) [
  | inl e ↦ rw e (λ h. cc h, λ h. absurd (h ((str_eq_iff s plugin).0 e)))
  | inr e ↦ rw e (λ h f. cc (e, (str_eq_iff s plugin).1 f), λ h. refl)
]

pub none-retain :
    {K V : Type 0} (eq : K → K → Bool) (keep : K × V → Bool) (k : K) (t : Table K V)
    → ((j : K) (v : V) → eq j k ≡ true → keep (j, v) ≢ true)
    → find eq k (retain keep t) ≡ none
none-retain eq keep k t never = elim (Option-cases (find eq k (retain keep t))) [
  | inl e ↦ e
  | inr (v, e) ↦ let (j, f, g) = find-retain eq keep k t v e in absurd (never j v f g)
]

pub In-to_list : {V : Type 0} (v : V) (o : Option V) → In v (to_list o) ↔ (o ≡ some v)
In-to_list v none = (λ i. absurd i, λ e. cc e)
In-to_list v (some w) =
    (λ i. elim i [ inl e ↦ ap some (sym e) | inr x ↦ absurd x ], λ e. inl (cc e))

pub str_key : (j plugin : Str) → str_eq j plugin ≡ true → not (str_eq j plugin) ≢ true
str_key j plugin e h = cc (ap not e, h)

pub node_key :
    (j : NodeRef) (plugin name : Str)
    → node_eq j (plugin, name) ≡ true
    → not (str_eq j.0 plugin) ≢ true
node_key j plugin name e h =
    (others_iff j.0 plugin).0 h (ap (λ x. x.0) ((node_eq_iff j (plugin, name)).0 e))

-- a list under a key, of which what names the plugin was removed
module _ {V : Type 0} (keep : V → Bool) where
  pub list_gone :
      (k : Str) (t : Table Str (List V)) (v : V)
      → In v (or_empty (find str_eq k (retain (λ e. is_nonempty e.1) (map_values (retain keep) t))))
      → keep v ≡ true
  list_gone k t v i =
      elim (Option-cases
        (find str_eq k (retain (λ e. is_nonempty e.1) (map_values (retain keep) t)))) [
          | inl e ↦ absurd (subst (λ o. In v (or_empty o)) e i)
          | inr (vs, e) ↦
              let (ws, f) = find-changed str_eq (λ x. is_nonempty x.1) (retain keep) k t vs e in
              ((In-retain keep v ws).0
                (subst (λ l. In v l) (sym f) (subst (λ o. In v (or_empty o)) e i))).1
        ]

  nonempty : (v : V) (vs : List V) → In v vs → is_nonempty vs ≡ true
  nonempty v [] i = absurd i
  nonempty v (w ∷ vs) i = refl

  pub list_kept :
      (k : Str) (t : Table Str (List V)) (v : V)
      → keep v ≡ true
      → In v (or_empty (find str_eq k t))
      → In v (or_empty (find str_eq k (retain (λ e. is_nonempty e.1) (map_values (retain keep) t))))
  list_kept k t v kept i = elim (Option-cases (find str_eq k t)) [
    | inl e ↦ absurd (subst (λ o. In v (or_empty o)) e i)
    | inr (vs, e) ↦
        let j : In v (retain keep vs) =
          (In-retain keep v vs).1 (subst (λ o. In v (or_empty o)) e i, kept) in
        subst (λ o. In v (or_empty o))
          (sym (
            find-retain-kept str_eq (λ x. is_nonempty x.1) k (map_values (retain keep) t)
              (retain keep vs) (find-map_values str_eq (retain keep) k t vs e)
              (λ j' f. nonempty v (retain keep vs) j)))
          j
  ]
