-- ===== src/Streams/Events.antt =====
-- A readable stream, the read in flight on it, and what its guest, the other tasks and its source
-- may do: reads, polls, closes, the taking of its source and the dropping of a read, in any order.
use gwead.Prelude.{ℕ, Bool, true, false, Option, none, some, List, [], ◌∷◌, ◌++◌}
use gwead.Prelude.Outcome.{ok, err}
use gwead.Streams.{
  Polled, Code, readable, StreamInner, Reading, new, begin_read, poll_read, finish_read,
  close_inner, take_inner,
}
use gwead.Streams.Excerpt.{Bytes}

-- what can happen next; a read names the length of its buffer, a poll whether the token has fired
pub data Event : Type 0 where
  read : ℕ → Event
  poll : Bool → Event
  close take_source drop_read : Event

-- A stream, the read in flight, which holds the read gate, with its buffer's length, and what the
-- guest has been handed: the bytes, and the codes, the last one first. `dropped` tells whether a read
-- was dropped in flight.
pub record Handle (S W : Type 0) : Type 0 where
  pub inner : StreamInner S W
  pub reading : Option (ℕ × Reading S)
  pub handed : Bytes
  pub codes : List Code
  pub dropped : Bool

module _ {S W : Type 0} (poll_next : S → Polled S) (empty : S) where
  abbrev pub opened : S → Handle S W
  opened source = record {
    inner = new (readable source none);
    reading = none;
    handed = [];
    codes = [];
    dropped = false;
  }

  -- A second read waits at the gate. A poll is a round of the loop, and the put-back is one of its
  -- own, so that anything may come between.
  unfoldable pub step : Event → Handle S W → Handle S W
  step (read n) h = elim h.reading [
    | some r ↦ h
    | none ↦ elim (begin_read poll_next empty h.inner) [
      | err code ↦ record h { codes = code ∷ h.codes }
      | ok (r, inner) ↦ record h { inner = inner; reading = some (n, r) }
    ]
  ]
  step (poll fired) h = elim h.reading [
    | none ↦ h
    | some (n, r) ↦ elim r.pull [
      | none ↦ record h { reading = some (n, poll_read poll_next fired r) }
      | some p ↦
          let (code, bytes, inner) = finish_read poll_next empty n p r h.inner in
          record h {
            inner = inner;
            reading = none;
            handed = h.handed ++ bytes;
            codes = code ∷ h.codes;
          }
    ]
  ]
  step close h = record h { inner = close_inner poll_next empty h.inner }
  step take_source h = elim (take_inner poll_next empty h.inner) [
    | none ↦ h
    | some (taken, inner) ↦ record h { inner = inner }
  ]
  -- A deadline drops the future of the read, and the source with it; what stays is what the read left
  -- in its place.
  step drop_read h = elim h.reading [
    | none ↦ h
    | some r ↦ record h { reading = none; dropped = true }
  ]

  unfoldable pub run : List Event → Handle S W → Handle S W
  run [] h = h
  run (e ∷ es) h = run es (step e h)
