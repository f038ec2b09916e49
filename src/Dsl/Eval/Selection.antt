-- ===== src/Dsl/Eval/Selection.antt =====
-- What a path selects, taken depth first, value by value.
use gwead.Prelude.{
  ◌≡◌, refl, sym, ap, ◌∙◌, some, List, [], ◌∷◌, ◌++◌, if◌then◌else◌, append_assoc, append-nil,
}
use gwead.Json.{Value}
use gwead.Dsl.Ast.{PathSegment, Reference}
use gwead.Dsl.Eval.Picks.{
  Walks, WalksAll, stays, goes, no_more, one_then, Gives, unwrap-Gives, segment_of-Picks,
}
use gwead.Dsl.Eval.{
  EvalContext, resolve_root, segment_of, apply_segment_onto, apply_segment, select, select_from,
  is_empty, eval_reference,
}

-- f applied to each element, the results one after the other
abbrev each : {A B : Type 0} → (A → List B) → List A → List B
each f [] = []
each f (x ∷ xs) = f x ++ each f xs

each-append :
    {A B : Type 0} (f : A → List B) (xs ys : List A) → each f (xs ++ ys) ≡ each f xs ++ each f ys
each-append f [] ys = refl
each-append f (x ∷ xs) ys =
    rw (each-append f xs ys) (sym (append_assoc (f x) (each f xs) (each f ys)))

each-each :
    {A B C : Type 0} (f : A → List B) (g : B → List C) (xs : List A)
    → each g (each f xs) ≡ each (λ x. each g (f x)) xs
each-each f g [] = refl
each-each f g (x ∷ xs) =
    each-append g (f x) (each f xs) ∙ ap (λ t. each g (f x) ++ t) (each-each f g xs)

each_single : {A : Type 0} (xs : List A) → each (λ x. x ∷ []) xs ≡ xs
each_single [] = refl
each_single (x ∷ xs) = ap (λ t. x ∷ t) (each_single xs)

module _ {N : Type 0} where
  -- the values under `v` along the path, depth first
  selected : List PathSegment → Value N → List (Value N)
  selected [] v = v ∷ []
  selected (seg ∷ path) v = each (selected path) (segment_of seg v)

  apply_segment_onto_lem :
      (seg : PathSegment) (out sel : List (Value N))
      → apply_segment_onto seg out sel ≡ out ++ each (segment_of seg) sel
  unfolding apply_segment_onto
  apply_segment_onto_lem seg out [] = sym (append-nil out)
  apply_segment_onto_lem seg out (v ∷ sel) =
      apply_segment_onto_lem seg (out ++ segment_of seg v) sel
      ∙ append_assoc out (segment_of seg v) (each (segment_of seg) sel)

  apply_segment_lem :
      (seg : PathSegment) (sel : List (Value N)) → apply_segment seg sel ≡ each (segment_of seg) sel
  unfolding apply_segment
  apply_segment_lem seg sel = apply_segment_onto_lem seg [] sel

  select_lem :
      (path : List PathSegment) (sel : List (Value N)) → select path sel ≡ each (selected path) sel
  unfolding select selected
  select_lem [] sel = sym (each_single sel)
  select_lem (seg ∷ path) sel = rw (apply_segment_lem seg sel) (
      stop (each (segment_of seg) sel) (select_lem path [])
      ∙ select_lem path (each (segment_of seg) sel)
      ∙ each-each (segment_of seg) (selected path) sel)
    where
      stop :
          (next : List (Value N))
          → select {N = N} path [] ≡ []
          → (if is_empty next then next else select path next) ≡ select path next
      stop [] e = sym e
      stop (v ∷ vs) e = refl

  each-WalksAll :
      (path : List PathSegment)
      → ((v : Value N) → Walks path v (selected path v))
      → (us : List (Value N)) → WalksAll path us (each (selected path) us)
  each-WalksAll path walks [] = no_more
  each-WalksAll path walks (u ∷ us) = one_then (walks u) (each-WalksAll path walks us)

  selected-Walks : (path : List PathSegment) (v : Value N) → Walks path v (selected path v)
  unfolding selected
  selected-Walks [] v = stays
  selected-Walks (seg ∷ path) v =
      goes (segment_of-Picks seg v) (each-WalksAll path (selected-Walks path) (segment_of seg v))

  -- A reference whose root resolves evaluates to what its path picks under the root, value by value
  -- and segment by segment, depth first: the member of a name, the element at an index, every element,
  -- or the elements with a member that is a given string, and nothing where the value is no such
  -- object or array. It is null for no value, the only value, or the array of two or more, in order.
  pub eval_reference-selected :
      (r : Reference) (ctx : EvalContext N) (root : Value N)
      → resolve_root r.root ctx ≡ some root
      → (ws : List (Value N)) × Walks r.path root ws × Gives ws (eval_reference r ctx)
  unfolding eval_reference
  eval_reference-selected r ctx root h = (
    selected r.path root,
    selected-Walks r.path root,
    rw (h, select_from)
        (rw (select_lem r.path (root ∷ []), append-nil (selected r.path root))
          (unwrap-Gives (selected r.path root))),
  )
