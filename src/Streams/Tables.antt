-- ===== src/Streams/Tables.antt =====
-- The handle tables of any number of executions over one store of streams: a handle names at most one
-- stream, and a stream has at most one handle, in one execution.
use gwead.Prelude.{ℕ, ◌+◌, ◌≤◌, ◌<◌, ◌≡◌, none, some, List, [], ◌∷◌, ◌==◌, if◌then◌else◌}
use gwead.Prelude.Outcome.{Result, ok, ◌>>=◌}
use gwead.Fault.{Fault}
use gwead.Text.{Str}
use gwead.Streams.{Polled, StreamDirection}
use gwead.Streams.Registry.{
  StreamRegistry, place, new_registry, adopt, take_stream, drain, Store, register, close,
}

-- A stream is moved from one execution to another by `take` there and `adopt` here.
pub data Op (S W : Type 0) : Type 0 where
  register_at : ℕ → StreamDirection S W → Op S W
  transfer : ℕ → ℕ → ℕ → Op S W
  close_at : ℕ → ℕ → Op S W
  drain_at : ℕ → Op S W

pub record World (S W : Type 0) : Type 0 where
  pub store : Store S W
  pub tables : ℕ → StreamRegistry

abbrev pub put : ℕ → StreamRegistry → (ℕ → StreamRegistry) → ℕ → StreamRegistry
put i reg tables j = if j == i then reg else tables j

module _ {S W : Type 0} (poll_next : S → Polled S) (empty : S) where
  unfoldable pub step : Op S W → World S W → Result (Fault Str) (World S W)
  step (register_at i direction) w = register direction (w.tables i) w.store >>= λ (id, reg, store).
      ok (record { store = store; tables = put i reg w.tables })
  step (transfer i j id) w = elim (take_stream id (w.tables i)) [
    | none ↦ ok w
    | some (at, reg) ↦ adopt at (put i reg w.tables j) >>= λ (id', reg').
        ok (record w { tables = put j reg' (put i reg w.tables) })
  ]
  step (close_at i id) w = ok (record w { store = close poll_next empty id (w.tables i) w.store })
  step (drain_at i) w = ok (record w { tables = put i (drain (w.tables i)) w.tables })

  unfoldable pub run : List (Op S W) → World S W → Result (Fault Str) (World S W)
  run [] w = ok w
  run (op ∷ ops) w = step op w >>= λ w'. run ops w'

abbrev pub started : (S W : Type 0) → World S W
started S W = record { store = []; tables = λ i. new_registry }

-- A handle of an execution reaches a place of the store.
abbrev pub Reaches : (ℕ → StreamRegistry) → ℕ → ℕ → ℕ → Type 0
Reaches tables i id at = place id (tables i).streams ≡ some at

-- after so many operations
pub record IsExclusive (tables : ℕ → StreamRegistry) (size : ℕ) (ops : ℕ) : Type 0 where
  pub once :
      (i j id id' at : ℕ) → Reaches tables i id at → Reaches tables j id' at → (i ≡ j) × (id ≡ id')
  pub issued :
      (i id at : ℕ) → Reaches tables i id at → (1 ≤ id) × (id < (tables i).next_id) × (at < size)
  pub counted : (i : ℕ) → (1 ≤ (tables i).next_id) × ((tables i).next_id ≤ ops + 1)
