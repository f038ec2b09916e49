-- ===== src/Streams/Stale.antt =====
-- A handle that was given up names nothing, until its table is drained.
use gwead.Prelude.{
  ℕ, ◌<◌, ◌≡◌, ◌≢◌, inl, inr, refl, sym, ap, ◌∙◌, subst, none, some, List, [], ◌∷◌, length, arith,
  Option-cases, All,
}
use gwead.Prelude.Outcome.{ok}
use gwead.Fault.{OnOk, value, OnOk-bind, OnOk-elim}
use gwead.Streams.{Polled}
use gwead.Streams.Registry.{StreamRegistry, place, remove, take_stream, register}
use gwead.Streams.Tables.{Op, register_at, transfer, close_at, drain_at, World, put, step, run}
use gwead.Streams.Entries.{place-insert_other, place-remove_same, place-remove_other}
use gwead.Streams.Moves.{ℕ-cases, put_same, put_other, adopted, adopt-OnOk}

-- The handle was issued by this execution's table, and is not in use.
abbrev pub IsGivenUp : ℕ → ℕ → (ℕ → StreamRegistry) → Type 0
IsGivenUp i id tables = (id < (tables i).next_id) × (place id (tables i).streams ≡ none)

adopted-IsGivenUp :
    (i id at j : ℕ) (tables : ℕ → StreamRegistry)
    → IsGivenUp i id tables
    → IsGivenUp i id (put j (adopted at (tables j)) tables)
adopted-IsGivenUp i id at j tables (below, gone) = elim (ℕ-cases j i) [
  | inr other ↦
      subst (λ reg. (id < reg.next_id) × (place id reg.streams ≡ none))
        (sym (put_other j i (adopted at (tables j)) tables other)) (below, gone)
  | inl e ↦
      subst (λ reg. (id < reg.next_id) × (place id reg.streams ≡ none))
        (sym (put_same j i (adopted at (tables j)) tables e))
        (let next = ap (λ k. (tables k).next_id) e in
          (
            omega (arith, below, next),
            place-insert_other (tables j).next_id at id (tables j).streams
                  (λ f. omega (arith, f, below, next))
                ∙ ap (λ k. place id (tables k).streams) e
                ∙ gone,
          ))
]

removed-IsGivenUp :
    (i id j k : ℕ) (tables : ℕ → StreamRegistry)
    → IsGivenUp i id tables
    → IsGivenUp i id (put j (record (tables j) { streams = remove k (tables j).streams }) tables)
removed-IsGivenUp i id j k tables (below, gone) =
    let left = record (tables j) { streams = remove k (tables j).streams } in
    elim (ℕ-cases j i) [
      | inr other ↦
          subst (λ reg. (id < reg.next_id) × (place id reg.streams ≡ none))
            (sym (put_other j i left tables other)) (below, gone)
      | inl e ↦
          subst (λ reg. (id < reg.next_id) × (place id reg.streams ≡ none))
            (sym (put_same j i left tables e))
            (
              omega (arith, below, ap (λ k. (tables k).next_id) e),
              elim (ℕ-cases k id) [
                | inl f ↦
                    subst (λ x. place x (remove k (tables j).streams) ≡ none) f
                      (place-remove_same k (tables j).streams)
                | inr f ↦
                    place-remove_other k id (tables j).streams f
                    ∙ ap (λ k. place id (tables k).streams) e
                    ∙ gone
              ],
            )
    ]

take_stream-eq-some :
    (id at : ℕ) (reg reg' : StreamRegistry)
    → take_stream id reg ≡ some (at, reg')
    → record reg { streams = remove id reg.streams } ≡ reg'
unfolding take_stream
take_stream-eq-some id at reg reg' e = elim (Option-cases (place id reg.streams)) [
  | inl f ↦ cc (rw (f, take_stream) at e)
  | inr (at', f) ↦ let e' = rw (f, take_stream) at e in cc e'
]

module _ {S W : Type 0} (poll_next : S → Polled S) (empty : S) where
  -- The operation does not drain this execution's table.
  abbrev pub Spares : ℕ → Op S W → Type 0
  Spares i (drain_at j) = j ≢ i
  Spares i _ = Unit

  step-IsGivenUp :
      (op : Op S W) (w : World S W) (i id : ℕ)
      → Spares i op
      → IsGivenUp i id w.tables
      → OnOk (λ w'. IsGivenUp i id w'.tables) (step poll_next empty op w)
  unfolding step register take_stream
  step-IsGivenUp (register_at j direction) w i id spares given =
      OnOk-bind {P = λ out. out.1 ≡ adopted (length w.store) (w.tables j)}
        (OnOk-bind (adopt-OnOk (length w.store) (w.tables j)) (λ out e. value (ap (λ x. x.1) e)))
        (λ out e. value (
          subst (λ reg. IsGivenUp i id (put j reg w.tables)) (sym e)
            (adopted-IsGivenUp i id (length w.store) j w.tables given)))
  step-IsGivenUp (transfer j k m) w i id spares given =
      elim (Option-cases (place m (w.tables j).streams)) [
        | inl e ↦ rw (e, step) (value given)
        | inr (at, e) ↦
            let left =
              put j (record (w.tables j) { streams = remove m (w.tables j).streams }) w.tables in
            rw (e, step)
              (OnOk-bind (adopt-OnOk at (left k)) (λ out f. value (
                subst (λ x. IsGivenUp i id (put k x left)) (sym (ap (λ x. x.1) f))
                  (adopted-IsGivenUp i id at k left (removed-IsGivenUp i id j m w.tables given)))))
      ]
  step-IsGivenUp (close_at j m) w i id spares given = value given
  step-IsGivenUp (drain_at j) w i id spares (below, gone) = value (
      subst (λ reg. (id < reg.next_id) × (place id reg.streams ≡ none))
        (sym (put_other j i _ w.tables spares)) (below, gone))

  run-OnOk :
      (todo : List (Op S W)) (w : World S W) (i id : ℕ)
      → All (Spares i) todo
      → IsGivenUp i id w.tables
      → OnOk (λ w'. IsGivenUp i id w'.tables) (run poll_next empty todo w)
  unfolding run
  run-OnOk [] w i id spares given = value given
  run-OnOk (op ∷ todo) w i id (spare, spares) given =
      OnOk-bind (step-IsGivenUp op w i id spare given)
        (λ w' given'. run-OnOk todo w' i id spares given')

  -- Once an execution has given up a handle that it was issued, the handle names nothing there, whatever
  -- operations follow and whichever execution makes them, until this execution's table is drained: no
  -- later stream is given the same handle.
  pub run-IsGivenUp :
      (i id at : ℕ) (w : World S W) (reg : StreamRegistry) (todo : List (Op S W)) (w' : World S W)
      → id < (w.tables i).next_id
      → take_stream id (w.tables i) ≡ some (at, reg)
      → All (Spares i) todo
      → run poll_next empty todo (record w { tables = put i reg w.tables }) ≡ ok w'
      → place id (w'.tables i).streams ≡ none
  run-IsGivenUp i id at w reg todo w' below e spares f =
      (OnOk-elim
        (run-OnOk todo (record w { tables = put i reg w.tables }) i id spares
          (subst (λ r. (id < r.next_id) × (place id r.streams ≡ none))
            (take_stream-eq-some id at (w.tables i) reg e ∙ sym (put_same i i reg w.tables refl))
            (below, place-remove_same id (w.tables i).streams)))
        f).1
