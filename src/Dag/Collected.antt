-- ===== src/Dag/Collected.antt =====
-- The walk that collects the step ids defined inside a step's parameters, against what they define.
use gwead.Prelude.{
  ◌≡◌, ◌↔◌, ◌⊎◌, inl, inr, refl, subst, Bool, true, false, Option, none, some, List, In,
  if◌then◌else◌,
}
use gwead.Text.{Str, str_eq, chars}
use gwead.Json.{
  Value, Items, Fields, null, bool, number, string, array, object, nil, cons, end, field, elements,
  member, get,
}
use gwead.Dag.Scan.{
  insert_id, string_id, collect_inner_step_ids, at_ifs, ifs_branches, each_branch, at_branches,
  step_arrays, each_array, at_body, collect_step_ids_in_array, each_step, inner_params, at_params,
}
use gwead.Dag.Inner.{body_keys, Holds, body, branch, Defines, step_of, inside, in_ifs}

pub Or-none : {P Q : Type 0} → ¬ Q → P ↔ (P ⊎ Q)
Or-none never = (λ h. inl h, λ h. elim h [ inl p ↦ p | inr x ↦ absurd (never x) ])

pub Or-step : {P Q R S T : Type 0} → P ↔ (Q ⊎ R) → Q ↔ (S ⊎ T) → P ↔ (S ⊎ (T ⊎ R))
Or-step f g = (
  λ p. elim (f.0 p) [
    | inl q ↦ elim (g.0 q) [ inl s ↦ inl s | inr t ↦ inr (inl t) ]
    | inr r ↦ inr (inr r)
  ],
  λ h. elim h [
    | inl s ↦ f.1 (inl (g.1 (inl s)))
    | inr (inl t) ↦ f.1 (inl (g.1 (inr t)))
    | inr (inr r) ↦ f.1 (inr r)
  ],
)

Or-map : {P Q R S : Type 0} → P ↔ (Q ⊎ R) → (R → S) → (S → R) → P ↔ (Q ⊎ S)
Or-map f to from = (
  λ p. elim (f.0 p) [ inl q ↦ inl q | inr r ↦ inr (to r) ],
  λ h. f.1 (elim h [ inl q ↦ inl q | inr s ↦ inr (from s) ]),
)

module _ {N : Type 0} (a : Str) where
  -- some value of the list has the property
  abbrev Any : (Value N → Type 0) → Items N → Type 0
  Any Q vs = (v : Value N) × In v (elements vs) × Q v

  abbrev AnyOf : (Value N → Type 0) → Value N → Type 0
  AnyOf Q v = (vs : Items N) × (v ≡ array vs) × Any Q vs

  abbrev At : (Value N → Type 0) → Str → Fields N → Type 0
  At Q key fs = (v : Value N) × (member key fs ≡ some v) × Q v

  abbrev DefinedBy : Value N → Type 0
  DefinedBy item =
      (get (chars "id") item ≡ some (string a))
      ⊎ ((p : Value N) × (get (chars "params") item ≡ some p) × Defines a p)

  Any-cons :
      (Q : Value N → Type 0) (v : Value N) (vs : Items N) {P S : Type 0}
      → P ↔ (S ⊎ (Q v ⊎ Any Q vs))
      → P ↔ (S ⊎ Any Q (cons v vs))
  Any-cons Q v vs f =
      Or-map f (λ h. elim h [ inl q ↦ (v, inl refl, q) | inr (w, i, q) ↦ (w, inr i, q) ])
        (λ (w, i, q). elim i [ inl e ↦ inl (subst Q e q) | inr j ↦ inr (w, j, q) ])

  AnyOf-array :
      (Q : Value N → Type 0) (vs : Items N) {P S : Type 0}
      → P ↔ (S ⊎ Any Q vs)
      → P ↔ (S ⊎ AnyOf Q (array vs))
  AnyOf-array Q vs f = Or-map f (λ x. (vs, refl, x)) (λ (ws, e, x). subst (λ us. Any Q us) (cc e) x)

  At-field :
      (Q : Value N → Type 0) (key k : Str) (v : Value N) (fs : Fields N) (b : Bool)
      (here later : List Str) (S : Type 0)
      → str_eq k key ≡ b
      → In a here ↔ (S ⊎ Q v)
      → In a later ↔ (S ⊎ At Q key fs)
      → In a (if b then here else later) ↔ (S ⊎ At Q key (field k v fs))
  unfolding member
  At-field Q key k v fs true here later S e f g =
      Or-map f (λ q. (v, rw e refl, q)) (λ (w, h, q). subst Q (cc (rw e at h)) q)
  At-field Q key k v fs false here later S e f g =
      Or-map g (λ (w, h, q). (w, rw e h, q)) (λ (w, h, q). (w, rw e at h, q))

  insert_id_iff :
      (o : Option (Value N)) (out : List Str)
      → In a (insert_id (string_id o) out) ↔ (In a out ⊎ (o ≡ some (string a)))
  insert_id_iff none out = Or-none (λ e. cc e)
  insert_id_iff (some null) out = Or-none (λ e. cc e)
  insert_id_iff (some (bool b)) out = Or-none (λ e. cc e)
  insert_id_iff (some (number n)) out = Or-none (λ e. cc e)
  insert_id_iff (some (array vs)) out = Or-none (λ e. cc e)
  insert_id_iff (some (object fs)) out = Or-none (λ e. cc e)
  insert_id_iff (some (string s)) out = (
    λ i. elim i [ inl e ↦ inr (cc e) | inr j ↦ inl j ],
    λ h. elim h [ inl j ↦ inr j | inr e ↦ inl (cc e) ],
  )

  -- what has no members has no steps
  bare : (v : Value N) → ((key : Str) → get key v ≡ none) → ¬ Defines a v
  bare v no_member (step_of item (body key i e) j f) = cc (e, no_member key)
  bare v no_member (step_of item (branch bs e i) j f) = cc (e, no_member (chars "branches"))
  bare v no_member (inside item p (body key i e) j f d) = cc (e, no_member key)
  bare v no_member (inside item p (branch bs e i) j f d) = cc (e, no_member (chars "branches"))
  bare v no_member (in_ifs ifs b e i d) = cc (e, no_member (chars "ifs"))

  abbrev Body : Str → Fields N → Type 0
  Body key fs = At (AnyOf DefinedBy) key fs

  abbrev Parts : Fields N → Type 0
  Parts fs =
      (((((At (AnyOf (Defines a)) (chars "ifs") fs
                ⊎ At (AnyOf (AnyOf DefinedBy)) (chars "branches") fs)
              ⊎ Body (chars "steps") fs)
            ⊎ Body (chars "then") fs)
          ⊎ Body (chars "try") fs)
        ⊎ Body (chars "catch") fs)
      ⊎ Body (chars "finally") fs

  by_step :
      (fs : Fields N) (vs : Items N)
      → Holds (object fs) vs
      → Any DefinedBy vs
      → Defines a (object fs)
  by_step fs vs h (item, i, inl e) = step_of item h i e
  by_step fs vs h (item, i, inr (p, e, d)) = inside item p h i e d

  Body-Defines :
      (fs : Fields N) (key : Str) → In key body_keys → Body key fs → Defines a (object fs)
  Body-Defines fs key k (v, e, (vs, f, any)) = by_step fs vs (body key k (cc (e, f))) any

  Parts-Defines : (fs : Fields N) → Parts fs → Defines a (object fs)
  Parts-Defines fs (inl (inl (inl (inl (inl (inl (v, e, (bs, f, (b, i, d))))))))) =
      in_ifs bs b (cc (e, f)) i d
  Parts-Defines fs (inl (inl (inl (inl (inl (inr (v, e, (bs, f, (w, i, (vs, g, any)))))))))) =
      by_step fs vs (branch bs (cc (e, f)) (subst (λ x. In x (elements bs)) g i)) any
  Parts-Defines fs (inl (inl (inl (inl (inr x))))) = Body-Defines fs (chars "steps") (inl refl) x
  Parts-Defines fs (inl (inl (inl (inr x)))) = Body-Defines fs (chars "then") (inr (inl refl)) x
  Parts-Defines fs (inl (inl (inr x))) = Body-Defines fs (chars "try") (inr (inr (inl refl))) x
  Parts-Defines fs (inl (inr x)) = Body-Defines fs (chars "catch") (inr (inr (inr (inl refl)))) x
  Parts-Defines fs (inr x) = Body-Defines fs (chars "finally") (inr (inr (inr (inr (inl refl))))) x

  Holds-Parts : (fs : Fields N) (vs : Items N) → Holds (object fs) vs → Any DefinedBy vs → Parts fs
  Holds-Parts fs vs (branch bs e i) any =
      inl (inl (inl (inl (inl (inr (array bs, e, (bs, refl, (array vs, i, (vs, refl, any)))))))))
  Holds-Parts fs vs (body key i e) any =
      let at = λ (k : Str) (f : key ≡ k). subst (λ x. Body x fs) f (array vs, e, (vs, refl, any)) in
      elim i [
        | inl f ↦ inl (inl (inl (inl (inr (at (chars "steps") f)))))
        | inr (inl f) ↦ inl (inl (inl (inr (at (chars "then") f))))
        | inr (inr (inl f)) ↦ inl (inl (inr (at (chars "try") f)))
        | inr (inr (inr (inl f))) ↦ inl (inr (at (chars "catch") f))
        | inr (inr (inr (inr (inl f)))) ↦ inr (at (chars "finally") f)
        | inr (inr (inr (inr (inr x)))) ↦ absurd x
      ]

  Defines-Parts : (fs : Fields N) → Defines a (object fs) → Parts fs
  Defines-Parts fs (step_of {vs = vs} item h i e) = Holds-Parts fs vs h (item, i, inl e)
  Defines-Parts fs (inside {vs = vs} item p h i e d) = Holds-Parts fs vs h (item, i, inr (p, e, d))
  Defines-Parts fs (in_ifs bs b e i d) =
      inl (inl (inl (inl (inl (inl (array bs, e, (bs, refl, (b, i, d))))))))

  mutual
    unfolding collect_inner_step_ids member

    pub In-collect_inner_step_ids :
        (v : Value N) (out : List Str)
        → In a (collect_inner_step_ids v out) ↔ (In a out ⊎ Defines a v)
    In-collect_inner_step_ids null out = Or-none (bare null (λ key. refl))
    In-collect_inner_step_ids (bool b) out = Or-none (bare (bool b) (λ key. refl))
    In-collect_inner_step_ids (number n) out = Or-none (bare (number n) (λ key. refl))
    In-collect_inner_step_ids (string s) out = Or-none (bare (string s) (λ key. refl))
    In-collect_inner_step_ids (array vs) out = Or-none (bare (array vs) (λ key. refl))
    In-collect_inner_step_ids (object fs) out =
        Or-map
          (Or-step (In-at_body (chars "finally") fs _) (
            Or-step (In-at_body (chars "catch") fs _) (
              Or-step (In-at_body (chars "try") fs _) (
                Or-step (In-at_body (chars "then") fs _) (
                  Or-step (In-at_body (chars "steps") fs _)
                    (Or-step (In-at_branches fs (at_ifs fs out)) (In-at_ifs fs out)))))))
          (Parts-Defines fs) (Defines-Parts fs)

    In-at_ifs :
        (fs : Fields N) (out : List Str)
        → In a (at_ifs fs out) ↔ (In a out ⊎ At (AnyOf (Defines a)) (chars "ifs") fs)
    In-at_ifs end out = Or-none (λ (v, e, q). cc e)
    In-at_ifs (field k v fs) out =
        At-field (AnyOf (Defines a)) (chars "ifs") k v fs (str_eq k (chars "ifs")) _ _ (In a out)
          refl (In-ifs_branches v out) (In-at_ifs fs out)

    In-ifs_branches :
        (v : Value N) (out : List Str)
        → In a (ifs_branches v out) ↔ (In a out ⊎ AnyOf (Defines a) v)
    In-ifs_branches (array vs) out = AnyOf-array (Defines a) vs (In-each_branch vs out)
    In-ifs_branches null out = Or-none (λ (vs, e, q). cc e)
    In-ifs_branches (bool b) out = Or-none (λ (vs, e, q). cc e)
    In-ifs_branches (number n) out = Or-none (λ (vs, e, q). cc e)
    In-ifs_branches (string s) out = Or-none (λ (vs, e, q). cc e)
    In-ifs_branches (object fs) out = Or-none (λ (vs, e, q). cc e)

    In-each_branch :
        (vs : Items N) (out : List Str)
        → In a (each_branch vs out) ↔ (In a out ⊎ Any (Defines a) vs)
    In-each_branch nil out = Or-none (λ (v, i, q). i)
    In-each_branch (cons v vs) out = Any-cons (Defines a) v vs (
        Or-step (In-each_branch vs (collect_inner_step_ids v out))
          (In-collect_inner_step_ids v out))

    In-at_branches :
        (fs : Fields N) (out : List Str)
        → In a (at_branches fs out)
          ↔ (In a out ⊎ At (AnyOf (AnyOf DefinedBy)) (chars "branches") fs)
    In-at_branches end out = Or-none (λ (v, e, q). cc e)
    In-at_branches (field k v fs) out =
        At-field (AnyOf (AnyOf DefinedBy)) (chars "branches") k v fs (str_eq k (chars "branches")) _
          _ (In a out) refl (In-step_arrays v out) (In-at_branches fs out)

    In-step_arrays :
        (v : Value N) (out : List Str)
        → In a (step_arrays v out) ↔ (In a out ⊎ AnyOf (AnyOf DefinedBy) v)
    In-step_arrays (array vs) out = AnyOf-array (AnyOf DefinedBy) vs (In-each_array vs out)
    In-step_arrays null out = Or-none (λ (vs, e, q). cc e)
    In-step_arrays (bool b) out = Or-none (λ (vs, e, q). cc e)
    In-step_arrays (number n) out = Or-none (λ (vs, e, q). cc e)
    In-step_arrays (string s) out = Or-none (λ (vs, e, q). cc e)
    In-step_arrays (object fs) out = Or-none (λ (vs, e, q). cc e)

    In-each_array :
        (vs : Items N) (out : List Str)
        → In a (each_array vs out) ↔ (In a out ⊎ Any (AnyOf DefinedBy) vs)
    In-each_array nil out = Or-none (λ (v, i, q). i)
    In-each_array (cons v vs) out =
        Any-cons (AnyOf DefinedBy) v vs
          (Or-step (In-each_array vs (collect_step_ids_in_array v out)) (In-array v out))

    In-at_body :
        (key : Str) (fs : Fields N) (out : List Str)
        → In a (at_body key fs out) ↔ (In a out ⊎ Body key fs)
    In-at_body key end out = Or-none (λ (v, e, q). cc e)
    In-at_body key (field k v fs) out =
        At-field (AnyOf DefinedBy) key k v fs (str_eq k key) _ _ (In a out) refl (In-array v out)
          (In-at_body key fs out)

    In-array :
        (v : Value N) (out : List Str)
        → In a (collect_step_ids_in_array v out) ↔ (In a out ⊎ AnyOf DefinedBy v)
    In-array (array vs) out = AnyOf-array DefinedBy vs (In-each_step vs out)
    In-array null out = Or-none (λ (vs, e, q). cc e)
    In-array (bool b) out = Or-none (λ (vs, e, q). cc e)
    In-array (number n) out = Or-none (λ (vs, e, q). cc e)
    In-array (string s) out = Or-none (λ (vs, e, q). cc e)
    In-array (object fs) out = Or-none (λ (vs, e, q). cc e)

    In-each_step :
        (vs : Items N) (out : List Str) → In a (each_step vs out) ↔ (In a out ⊎ Any DefinedBy vs)
    In-each_step nil out = Or-none (λ (v, i, q). i)
    In-each_step (cons item rest) out =
        let out' = insert_id (string_id (get (chars "id") item)) out in
        Any-cons DefinedBy item rest (
          Or-step (In-each_step rest (inner_params item out'))
            (Or-step (In-inner_params item out') (insert_id_iff (get (chars "id") item) out)))

    In-inner_params :
        (item : Value N) (out : List Str)
        → In a (inner_params item out)
          ↔ (In a out ⊎ ((p : Value N) × (get (chars "params") item ≡ some p) × Defines a p))
    In-inner_params (object fs) out = In-at_params fs out
    In-inner_params null out = Or-none (λ (p, e, q). cc e)
    In-inner_params (bool b) out = Or-none (λ (p, e, q). cc e)
    In-inner_params (number n) out = Or-none (λ (p, e, q). cc e)
    In-inner_params (string s) out = Or-none (λ (p, e, q). cc e)
    In-inner_params (array vs) out = Or-none (λ (p, e, q). cc e)

    In-at_params :
        (fs : Fields N) (out : List Str)
        → In a (at_params fs out) ↔ (In a out ⊎ At (Defines a) (chars "params") fs)
    In-at_params end out = Or-none (λ (v, e, q). cc e)
    In-at_params (field k v fs) out =
        At-field (Defines a) (chars "params") k v fs (str_eq k (chars "params")) _ _ (In a out) refl
          (In-collect_inner_step_ids v out) (In-at_params fs out)
