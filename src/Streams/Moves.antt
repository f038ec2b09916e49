-- ===== src/Streams/Moves.antt =====
-- What an adoption and a removal do to the handle tables of the executions.
use gwead.Prelude.{
  ℕ, ◌+◌, ◌≤◌, ◌<◌, ◌≡◌, ◌≢◌, ◌⊎◌, inl, inr, refl, sym, ap, ◌∙◌, subst, some, leb, ◌==◌, ==_iff,
  arith, Bool-cases,
}
use gwead.Prelude.Outcome.{ok}
use gwead.Fault.{OnOk, value, failed}
use gwead.Text.{Str}
use gwead.Streams.Registry.{
  max_stream_handle, StreamRegistry, place, insert, remove, next_handle, adopt,
}
use gwead.Streams.Tables.{put, Reaches, IsExclusive}
use gwead.Streams.Entries.{
  place-insert_same, place-insert_other, place-remove_same, place-remove_other,
}

pub ℕ-cases : (i j : ℕ) → (i ≡ j) ⊎ (i ≢ j)
ℕ-cases i j = elim (Bool-cases (i == j)) [
  | inl e ↦ inl ((==_iff i j).0 e)
  | inr e ↦ inr (λ f. cc (e, (==_iff i j).1 f))
]

pub put_same :
    (i j : ℕ) (reg : StreamRegistry) (tables : ℕ → StreamRegistry)
    → i ≡ j
    → put i reg tables j ≡ reg
put_same i j reg tables e = rw ((==_iff j i).1 (sym e)) refl

pub put_other :
    (i j : ℕ) (reg : StreamRegistry) (tables : ℕ → StreamRegistry)
    → i ≢ j
    → put i reg tables j ≡ tables j
put_other i j reg tables other = elim (Bool-cases (j == i)) [
  | inl e ↦ absurd (other (sym ((==_iff j i).0 e)))
  | inr e ↦ rw e refl
]

-- A table that is handed on with an entry for a place that nothing reaches yet.
abbrev pub adopted : ℕ → StreamRegistry → StreamRegistry
adopted at reg = record { streams = insert reg.next_id at reg.streams; next_id = reg.next_id + 1 }

pub adopt-ok :
    (at : ℕ) (reg : StreamRegistry)
    → reg.next_id ≤ max_stream_handle
    → adopt {E = Str} at reg ≡ ok (reg.next_id, adopted at reg)
unfolding adopt next_handle
adopt-ok at reg le = ground (arith, le)

pub adopt-OnOk :
    (at : ℕ) (reg : StreamRegistry)
    → OnOk (λ out. out ≡ (reg.next_id, adopted at reg)) (adopt {E = Str} at reg)
unfolding adopt next_handle
adopt-OnOk at reg = elim (Bool-cases (leb reg.next_id max_stream_handle)) [
  | inl e ↦ rw e (value refl)
  | inr e ↦ rw e failed
]

module _ (tables : ℕ → StreamRegistry) (size ops : ℕ) (h : IsExclusive tables size ops) where
  -- the new entry, and the old ones
  pub Reaches-adopted :
      (i at j id a : ℕ)
      → Reaches (put i (adopted at (tables i)) tables) j id a
      → ((j ≡ i) × (id ≡ (tables i).next_id) × (a ≡ at)) ⊎ Reaches tables j id a
  Reaches-adopted i at j id a r = elim (ℕ-cases i j) [
    | inr other ↦ inr (
        subst (λ t. place id t.streams ≡ some a)
          (put_other i j (adopted at (tables i)) tables other) r)
    | inl e ↦
        let r' =
          subst (λ t. place id t.streams ≡ some a) (put_same i j (adopted at (tables i)) tables e)
            r in
        elim (ℕ-cases (tables i).next_id id) [
          | inl f ↦
              inl (
                sym e,
                sym f,
                cc (r', place-insert_same (tables i).next_id at (tables i).streams, f),
              )
          | inr f ↦ inr (
              subst (λ k. place id (tables k).streams ≡ some a) e
                (sym (place-insert_other (tables i).next_id at id (tables i).streams f) ∙ r'))
        ]
  ]

  pub next_id-put :
      (i at j : ℕ)
      → ((tables j).next_id ≤ (put i (adopted at (tables i)) tables j).next_id)
        × ((put i (adopted at (tables i)) tables j).next_id ≤ (tables j).next_id + 1)
  next_id-put i at j = elim (ℕ-cases i j) [
    | inl e ↦ (
      omega (
        arith,
        ap (λ t. t.next_id) (put_same i j (adopted at (tables i)) tables e),
        ap (λ k. (tables k).next_id) e,
      ),
      omega (
        arith,
        ap (λ t. t.next_id) (put_same i j (adopted at (tables i)) tables e),
        ap (λ k. (tables k).next_id) e,
      ),
    )
    | inr other ↦ (
      omega (arith, ap (λ t. t.next_id) (put_other i j (adopted at (tables i)) tables other)),
      omega (arith, ap (λ t. t.next_id) (put_other i j (adopted at (tables i)) tables other)),
    )
  ]

  pub adopted-IsExclusive :
      (i at size' : ℕ)
      → ((j id : ℕ) → ¬ Reaches tables j id at)
      → at < size'
      → size ≤ size'
      → IsExclusive (put i (adopted at (tables i)) tables) size' (ops + 1)
  adopted-IsExclusive i at size' fresh room le = record {
    once = λ j k id id' a r r'. elim (Reaches-adopted i at j id a r) [
      | inl (e, f, g) ↦ elim (Reaches-adopted i at k id' a r') [
        | inl (e', f', g') ↦ (cc (e, e'), cc (f, f'))
        | inr old ↦ absurd (fresh k id' (subst (λ x. Reaches tables k id' x) g old))
      ]
      | inr old ↦ elim (Reaches-adopted i at k id' a r') [
        | inl (e', f', g') ↦ absurd (fresh j id (subst (λ x. Reaches tables j id x) g' old))
        | inr old' ↦ h.once j k id id' a old old'
      ]
    ];
    issued = λ j id a r. elim (Reaches-adopted i at j id a r) [
      | inl (e, f, g) ↦
          let n = ap (λ t. t.next_id) (put_same i j (adopted at (tables i)) tables (sym e)) in
          (omega (arith, f, (h.counted i).0), omega (arith, f, n), omega (arith, g, room))
      | inr old ↦
          let (one, below, at_size) = h.issued j id a old in
          (one, omega (arith, below, (next_id-put i at j).0), omega (arith, at_size, le))
    ];
    counted = λ j. (
      omega (arith, (h.counted j).0, (next_id-put i at j).0),
      omega (arith, (h.counted j).1, (next_id-put i at j).1),
    );
  }

  -- tables that reach less
  pub fewer-IsExclusive :
      (tables' : ℕ → StreamRegistry) (size' ops' : ℕ)
      → ((j id a : ℕ)
          → Reaches tables' j id a
          → Reaches tables j id a × ((tables j).next_id ≤ (tables' j).next_id))
      → ((j : ℕ) → (1 ≤ (tables' j).next_id) × ((tables' j).next_id ≤ ops' + 1))
      → size ≤ size'
      → IsExclusive tables' size' ops'
  fewer-IsExclusive tables' size' ops' sub counted' le = record {
    once = λ j k id id' a r r'. h.once j k id id' a (sub j id a r).0 (sub k id' a r').0;
    issued = λ j id a r.
        let (one, below, at_size) = h.issued j id a (sub j id a r).0 in
        (one, omega (arith, below, (sub j id a r).1), omega (arith, at_size, le));
    counted = counted';
  }

  abbrev pub removed : ℕ → ℕ → ℕ → StreamRegistry
  removed i id = put i (record (tables i) { streams = remove id (tables i).streams }) tables

  pub Reaches-removed :
      (i id j id' a : ℕ)
      → Reaches (removed i id) j id' a
      → Reaches tables j id' a × (((i ≡ j) × (id ≡ id')) → ⊥)
  Reaches-removed i id j id' a r =
      let left = record (tables i) { streams = remove id (tables i).streams } in
      elim (ℕ-cases i j) [
        | inr other ↦ (
          subst (λ t. place id' t.streams ≡ some a) (put_other i j left tables other) r,
          λ (e, f). other e,
        )
        | inl e ↦
            let r' = subst (λ t. place id' t.streams ≡ some a) (put_same i j left tables e) r in
            elim (ℕ-cases id id') [
              | inl f ↦ cc (r', place-remove_same id (tables i).streams, f)
              | inr f ↦ (
                subst (λ k. place id' (tables k).streams ≡ some a) e
                    (sym (place-remove_other id id' (tables i).streams f) ∙ r'),
                λ (e', f'). f f',
              )
            ]
      ]

  pub next_id-removed : (i id j : ℕ) → (removed i id j).next_id ≡ (tables j).next_id
  next_id-removed i id j =
      let left = record (tables i) { streams = remove id (tables i).streams } in
      elim (ℕ-cases i j) [
        | inr other ↦ ap (λ t. t.next_id) (put_other i j left tables other)
        | inl e ↦ ap (λ t. t.next_id) (put_same i j left tables e) ∙ ap (λ k. (tables k).next_id) e
      ]

  pub removed-IsExclusive : (i id : ℕ) → IsExclusive (removed i id) size ops
  removed-IsExclusive i id =
      fewer-IsExclusive (removed i id) size ops
        (λ j k a r. ((Reaches-removed i id j k a r).0, omega (arith, next_id-removed i id j)))
        (λ j. (
          omega (arith, next_id-removed i id j, (h.counted j).0),
          omega (arith, next_id-removed i id j, (h.counted j).1),
        ))
        (omega arith)

  -- the stream that was taken has no handle left
  pub Reaches-taken :
      (i id at : ℕ) → Reaches tables i id at → (j k : ℕ) → ¬ Reaches (removed i id) j k at
  Reaches-taken i id at e j k r =
      (Reaches-removed i id j k at r).1 (h.once i j id k at e (Reaches-removed i id j k at r).0)
