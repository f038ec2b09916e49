-- ===== src/Streams/Registry.antt =====
-- StreamRegistry of src/kernel/streams.rs: the handle table of an execution. A stream is shared by
-- reference, so a table holds places in a store of streams that all executions have in common; the
-- HashMap is a list of entries.
use gwead.Prelude.{
  ℕ, ◌+◌, ◌-◌, ◌^◌, Bool, Option, none, some, List, [], ◌∷◌, ◌++◌, length, get_elem?, set, leb,
  ◌==◌, if◌then◌else◌,
}
use gwead.Prelude.Outcome.{Result, ok, err, ◌>>=◌}
use gwead.Fault.{Fault, panic}
use gwead.Streams.{
  Polled, Code, count, stream_invalid_handle, StreamDirection, readable, writable, StreamInner, new,
  close_inner, read_async,
}
use gwead.Streams.Excerpt.{Bytes}

abbrev pub max_stream_handle : ℕ
max_stream_handle = 2 ^ 31 - 1

pub record StreamRegistry : Type 0 where
  pub streams : List (ℕ × ℕ)
  pub next_id : ℕ

-- HashMap::get, HashMap::insert and HashMap::remove
unfoldable pub place : ℕ → List (ℕ × ℕ) → Option ℕ
place id [] = none
place id ((k, at) ∷ rest) = if k == id then some at else place id rest

unfoldable pub insert : ℕ → ℕ → List (ℕ × ℕ) → List (ℕ × ℕ)
insert id at [] = (id, at) ∷ []
insert id at ((k, a) ∷ rest) = if k == id then (id, at) ∷ rest else (k, a) ∷ insert id at rest

unfoldable pub remove : ℕ → List (ℕ × ℕ) → List (ℕ × ℕ)
remove id [] = []
remove id ((k, a) ∷ rest) = if k == id then remove id rest else (k, a) ∷ remove id rest

unfoldable pub new_registry : StreamRegistry
new_registry = record { streams = []; next_id = 1 }

unfoldable pub next_handle : {E : Type 0} → StreamRegistry → Result (Fault E) (ℕ × StreamRegistry)
next_handle reg =
    if leb reg.next_id max_stream_handle
    then ok (reg.next_id, record reg { next_id = reg.next_id + 1 })
    else err panic

-- StreamRegistry::adopt, and the end of every registration
unfoldable pub adopt : {E : Type 0} → ℕ → StreamRegistry → Result (Fault E) (ℕ × StreamRegistry)
unfolding next_handle
adopt at reg =
    next_handle reg >>= λ (id, reg'). ok (id, record reg' { streams = insert id at reg'.streams })

-- StreamRegistry::take
unfoldable pub take_stream : ℕ → StreamRegistry → Option (ℕ × StreamRegistry)
take_stream id reg = elim (place id reg.streams) [
  | none ↦ none
  | some at ↦ some (at, record reg { streams = remove id reg.streams })
]

unfoldable pub drain : StreamRegistry → StreamRegistry
drain reg = record { streams = []; next_id = 1 }

-- the streams of all executions
abbrev pub Store : Type 0 → Type 0 → Type 0
Store S W = List (StreamInner S W)

module _ {S W : Type 0} where
  -- StreamRegistry::get, to the stream itself
  unfoldable pub get_stream : ℕ → StreamRegistry → Store S W → Option (StreamInner S W)
  get_stream id reg store = elim (place id reg.streams) [
    | none ↦ none
    | some at ↦ get_elem? store at
  ]

  -- register_readable and register_writable, on the stream's direction: the stream is new
  unfoldable pub register :
      {E : Type 0}
      → StreamDirection S W
      → StreamRegistry
      → Store S W
      → Result (Fault E) (ℕ × StreamRegistry × Store S W)
  unfolding adopt new
  register direction reg store =
      adopt (length store) reg >>= λ (id, reg'). ok (id, reg', store ++ new direction ∷ [])

  -- StreamRegistry::writable_sender
  abbrev pub sender_of : StreamInner S W → Option W
  sender_of inner =
      if inner.closed
      then none
      else elim inner.direction [ readable s l ↦ none | writable sink ↦ some sink ]

  unfoldable pub writable_sender : ℕ → StreamRegistry → Store S W → Option W
  unfolding get_stream
  writable_sender id reg store = elim (get_stream id reg store) [
    | none ↦ none
    | some inner ↦ sender_of inner
  ]

module _ {S W : Type 0} (poll_next : S → Polled S) (empty : S) where
  -- StreamRegistry::close and close_handle
  unfoldable pub close : ℕ → StreamRegistry → Store S W → Store S W
  close id reg store = elim (place id reg.streams) [
    | none ↦ store
    | some at ↦ elim (get_elem? store at) [
      | none ↦ store
      | some inner ↦ set store at (close_inner poll_next empty inner)
    ]
  ]

  unfoldable pub close_handle : ℕ → StreamRegistry → Store S W → Code × Store S W
  unfolding close
  close_handle id reg store = elim (place id reg.streams) [
    | none ↦ (stream_invalid_handle, store)
    | some at ↦ (count 0, close id reg store)
  ]

  -- read_async_shared, without a disturbance
  abbrev pub stored : ℕ → Store S W → Code × Bytes × StreamInner S W → Code × Bytes × Store S W
  stored at store (code, bytes, inner) = (code, bytes, set store at inner)

  unfoldable pub read_async_shared :
      List Bool → ℕ → ℕ → StreamRegistry → Store S W → Option (Code × Bytes × Store S W)
  read_async_shared rounds n id reg store = elim (place id reg.streams) [
    | none ↦ some (stream_invalid_handle, [], store)
    | some at ↦ elim (get_elem? store at) [
      | none ↦ some (stream_invalid_handle, [], store)
      | some inner ↦ elim (read_async poll_next empty rounds n inner) [
        | none ↦ none
        | some out ↦ some (stored at store out)
      ]
    ]
  ]
