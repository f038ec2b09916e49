-- ===== src/Streams/Exclusive.antt =====
-- Every stream has at most one handle, in one execution, and a handle that was given up stays so.
use gwead.Prelude.{
  ℕ, ◌+◌, ◌≤◌, ◌<◌, ◌≡◌, inl, inr, refl, ap, subst, some, List, [], ◌∷◌, ◌++◌, length,
  length-append, get_elem?, length-set, arith, Option-cases,
}
use gwead.Prelude.Outcome.{ok}
use gwead.Streams.{Polled, new, close_inner}
use gwead.Streams.Registry.{
  max_stream_handle, StreamRegistry, place, new_registry, take_stream, drain, Store, register,
  close,
}
use gwead.Streams.Tables.{
  Op, register_at, transfer, close_at, drain_at, World, put, step, run, started, IsExclusive,
}
use gwead.Streams.Moves.{
  ℕ-cases, put_same, put_other, adopted, adopt-ok, adopted-IsExclusive, fewer-IsExclusive, removed,
  removed-IsExclusive, Reaches-taken,
}

-- the tables after a drain
drain-IsExclusive :
    (tables : ℕ → StreamRegistry) (size ops i : ℕ)
    → IsExclusive tables size ops
    → IsExclusive (put i (drain (tables i)) tables) size (ops + 1)
unfolding drain place
drain-IsExclusive tables size ops i h =
    fewer-IsExclusive tables size ops h (put i (drain (tables i)) tables) size (ops + 1)
      (λ j k a r. elim (ℕ-cases i j) [
        | inl e ↦
            cc
              (subst (λ t. place k t.streams ≡ some a) (put_same i j (drain (tables i)) tables e) r)
        | inr other ↦ (
          subst (λ t. place k t.streams ≡ some a) (put_other i j (drain (tables i)) tables other) r,
          omega (arith, ap (λ t. t.next_id) (put_other i j (drain (tables i)) tables other)),
        )
      ])
      (λ j. elim (ℕ-cases i j) [
        | inl e ↦
            let n = ap (λ t. t.next_id) (put_same i j (drain (tables i)) tables e) in
            (omega (arith, n), omega (arith, n))
        | inr other ↦
            let n = ap (λ t. t.next_id) (put_other i j (drain (tables i)) tables other) in
            (omega (arith, n, (h.counted j).0), omega (arith, n, (h.counted j).1))
      ])
      (omega arith)

module _ {S W : Type 0} (poll_next : S → Polled S) (empty : S) where
  length-close :
      (id : ℕ) (reg : StreamRegistry) (store : Store S W)
      → length (close poll_next empty id reg store) ≡ length store
  unfolding close
  length-close id reg store = elim (Option-cases (place id reg.streams)) [
    | inl e ↦ rw (e, close) refl
    | inr (at, e) ↦ elim (Option-cases (get_elem? store at)) [
      | inl f ↦ rw (e, close) (rw f refl)
      | inr (inner, f) ↦
          rw (e, close) (rw f (length-set store at (close_inner poll_next empty inner)))
    ]
  ]

  abbrev Steps : Op S W → World S W → ℕ → Type 0
  Steps op w ops =
      (w' : World S W) × (step poll_next empty op w ≡ ok w')
      × IsExclusive w'.tables (length w'.store) ops

  step-IsExclusive :
      (op : Op S W) (w : World S W) (ops : ℕ)
      → IsExclusive w.tables (length w.store) ops
      → ops < max_stream_handle
      → Steps op w (ops + 1)
  unfolding step register take_stream
  step-IsExclusive (register_at i direction) w ops h room =
      let at = length w.store in
      rw (adopt-ok at (w.tables i) (omega (arith, (h.counted i).1, room))) (
        record {
          store = w.store ++ new direction ∷ [];
          tables = put i (adopted at (w.tables i)) w.tables;
        },
        refl,
        adopted-IsExclusive w.tables at ops h i at (length (w.store ++ new direction ∷ []))
            (λ j k r. absurd (omega (arith, (h.issued j k at r).2)))
            (omega (arith, length-append w.store (new direction ∷ [])))
            (omega (arith, length-append w.store (new direction ∷ []))),
      )
  step-IsExclusive (transfer i j id) w ops h room =
      elim (Option-cases (place id (w.tables i).streams)) [
        | inl e ↦
            rw (e, step)
              (
                w,
                refl,
                fewer-IsExclusive w.tables (length w.store) ops h w.tables (length w.store)
                    (ops + 1) (λ j k a r. (r, omega arith))
                    (λ j. ((h.counted j).0, omega (arith, (h.counted j).1))) (omega arith),
              )
        | inr (at, e) ↦
            let left = removed w.tables (length w.store) ops h i id in
            let h' = removed-IsExclusive w.tables (length w.store) ops h i id in
            rw (e, step)
              (rw (adopt-ok at (left j) (omega (arith, (h'.counted j).1, room))) (
                record w { tables = put j (adopted at (left j)) left },
                refl,
                adopted-IsExclusive left (length w.store) ops h' j at (length w.store)
                    (Reaches-taken w.tables (length w.store) ops h i id at e) (h.issued i id at e).2
                    (omega arith),
              ))
      ]
  step-IsExclusive (close_at i id) w ops h room = (
    record w { store = close poll_next empty id (w.tables i) w.store },
    refl,
    fewer-IsExclusive w.tables (length w.store) ops h w.tables _ (ops + 1)
        (λ j k a r. (r, omega arith)) (λ j. ((h.counted j).0, omega (arith, (h.counted j).1)))
        (omega (arith, length-close id (w.tables i) w.store)),
  )
  step-IsExclusive (drain_at i) w ops h room = (
    record w { tables = put i (drain (w.tables i)) w.tables },
    refl,
    drain-IsExclusive w.tables (length w.store) ops i h,
  )

  run-from :
      (todo : List (Op S W)) (w : World S W) (ops : ℕ)
      → IsExclusive w.tables (length w.store) ops
      → ops + length todo ≤ max_stream_handle
      → (w' : World S W) × (run poll_next empty todo w ≡ ok w')
        × IsExclusive w'.tables (length w'.store) (ops + length todo)
  unfolding run
  run-from [] w ops h room =
      (w, refl, subst (λ n. IsExclusive w.tables (length w.store) n) (omega arith) h)
  run-from (op ∷ todo) w ops h room =
      let (w1, e, h1) = step-IsExclusive op w ops h (omega (arith, room)) in
      let (w2, f, h2) = run-from todo w1 (ops + 1) h1 (omega (arith, room)) in
      (w2, rw e f, subst (λ n. IsExclusive w2.tables (length w2.store) n) (omega arith) h2)

  -- Whatever up to 2147483647 registrations, transfers, closes and drains the executions make, no
  -- handle counter overflows, every stream has at most one handle, in one execution, and every handle
  -- is positive and reaches a stream.
  pub run-IsExclusive :
      (todo : List (Op S W))
      → length todo ≤ max_stream_handle
      → (w : World S W) × (run poll_next empty todo (started S W) ≡ ok w)
        × IsExclusive w.tables (length w.store) (length todo)
  unfolding new_registry place
  run-IsExclusive todo room =
      subst
        (λ n.
          (w : World S W) × (run poll_next empty todo (started S W) ≡ ok w)
          × IsExclusive w.tables (length w.store) n)
        (omega arith)
        (run-from todo (started S W) 0
          (record {
            once = λ i j id id' at r r'. cc r;
            issued = λ i id at r. cc r;
            counted = λ i. (omega arith, omega arith);
          })
          (omega (arith, room)))
