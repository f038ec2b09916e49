-- ===== src/Streams/FanOut.antt =====
-- take_readable and the eager fan-out of src/kernel/streams.rs. The combinators of the crate futures
-- are parameters: `prepend` puts a chunk in front of a source, `iter` makes a source of items.
use gwead.Prelude.{
  ℕ, zero, suc, Option, none, some, List, [], ◌∷◌, get_elem?, set, ◌==◌, if◌then◌else◌,
}
use gwead.Prelude.Outcome.{Result, ok, err, ◌>>=◌}
use gwead.Fault.{Fault, error, out_of_fuel}
use gwead.Text.{Str, chars}
use gwead.Streams.{Item, chunk, failed, Polled, pending, ready, readable, take_inner}
use gwead.Streams.Excerpt.{Bytes}
use gwead.Streams.Registry.{StreamRegistry, Store, place, register}

module _ {S : Type 0} (prepend : Bytes → S → S) where
  -- `once(prefix).chain(source)`, where a read has left a prefix
  abbrev pub joined : Option Bytes × S → S
  joined (none, source) = source
  joined (some prefix, source) = prepend prefix source

module _ {S : Type 0} (poll_next : S → Polled S) where
  -- the loop of fan_out_readable_shared that drains the source, for so many polls: its items up to
  -- its end or its first error
  abbrev pub item_then : Item → Option (List Item) → Option (List Item)
  item_then item none = none
  item_then item (some items) = some (item ∷ items)

  unfoldable pub drain_source : ℕ → S → Option (List Item)
  drain_source zero source = none
  drain_source (suc polls) source = elim (poll_next source) [
    | pending s ↦ drain_source polls s
    | ready none s ↦ some []
    | ready (some (failed raw)) s ↦ some (failed raw ∷ [])
    | ready (some (chunk bytes)) s ↦ item_then (chunk bytes) (drain_source polls s)
  ]

module _ {S W : Type 0} (iter : List Item → S) where
  -- its loop that makes the branches
  unfoldable pub branches :
      ℕ
      → List Item
      → StreamRegistry
      → Store S W
      → Result (Fault Str) (List ℕ × StreamRegistry × Store S W)
  branches zero items reg store = ok ([], reg, store)
  branches (suc n) items reg store =
      register (readable (iter items) none) reg store >>= λ (id, reg', store').
      branches n items reg' store' >>= λ (ids, reg'', store''). ok (id ∷ ids, reg'', store'')

module _ {S W : Type 0} (poll_next : S → Polled S) (empty : S) (prepend : Bytes → S → S)
    (iter : List Item → S) where
  -- StreamRegistry::take_readable, but for the content type
  unfoldable pub take_readable : ℕ → StreamRegistry → Store S W → Option (S × Store S W)
  take_readable id reg store = elim (place id reg.streams) [
    | none ↦ none
    | some at ↦ elim (get_elem? store at) [
      | none ↦ none
      | some inner ↦ elim (take_inner poll_next empty inner) [
        | none ↦ none
        | some (source, inner') ↦ some (joined prepend source, set store at inner')
      ]
    ]
  ]

  -- fan_out_readable_shared; it takes as many polls as the source needs
  unfoldable pub fan_out_readable_shared :
      ℕ
      → ℕ
      → ℕ
      → StreamRegistry
      → Store S W
      → Result (Fault Str) (List ℕ × StreamRegistry × Store S W)
  fan_out_readable_shared polls producer n reg store =
      if n == 0
      then err (error (chars "fan_out_readable_shared: n_branches must be > 0"))
      else elim (take_readable producer reg store) [
        | none ↦ err (error (chars "fan_out_readable_shared: producer is not an open readable"))
        | some (source, store') ↦ elim (drain_source poll_next polls source) [
          | none ↦ err out_of_fuel
          | some items ↦ branches iter n items reg store'
        ]
      ]
