-- ===== src/Streams.antt =====
-- src/kernel/streams.rs: the streams of an execution. A stream that is read from holds a source, of
-- the crate futures; one that is written to holds the sender of a tokio channel. Both are types of
-- which only the answer to a poll is known: what it yields, or that it has to wait. What a source or
-- a channel will do later belongs to its state. An operation that waits is a function for each of
-- its parts between two points at which other tasks run.
pub mod Excerpt
pub mod Yields
pub mod Events
pub mod Flow
pub mod Dropped
pub mod Known
pub mod Delivery
pub mod Finishes
pub mod Writes
pub mod Registry
pub mod FanOut
pub mod Tables
pub mod Entries
pub mod Moves
pub mod Exclusive
pub mod Stale
pub mod Branches
pub mod Cancel
pub mod Kept
pub mod Tests
use Prim.Native.Nat.{◌%◌}
use gwead.Prelude.{
  ℕ, ◌^◌, ◌+◌, ◌-◌, Bool, true, false, Option, none, some, List, [], ◌∷◌, length, ltb,
  if◌then◌else◌, take, drop,
}
use gwead.Prelude.Outcome.{Result, ok, err}
use gwead.Text.{Str, chars}
use Excerpt.{Bytes, truncate_text}

-- what a source yields; an `io::Error` is the text that it renders to
pub data Item : Type 0 where
  chunk : Bytes → Item
  failed : Bytes → Item

-- Stream::poll_next; `ready none` is the end
pub data Polled (S : Type 0) : Type 0 where
  pending : S → Polled S
  ready : Option Item → S → Polled S

-- a poll of Sender::send: committed, waiting for room, or the receiver is gone
pub data Sent (W : Type 0) : Type 0 where
  committed full gone : W → Sent W

-- What a call returns: a number of bytes, or one of the negative codes.
pub data Code : Type 0 where
  count : ℕ → Code
  stream_eof stream_invalid_handle stream_direction_mismatch stream_closed stream_io_error
        stream_cancelled :
      Code

-- The bits of the `i32` that crosses to the guest.
unfoldable pub as_i32 : Code → ℕ
as_i32 (count n) = n % 2 ^ 32
as_i32 stream_eof = 2 ^ 32 - 1
as_i32 stream_invalid_handle = 2 ^ 32 - 2
as_i32 stream_direction_mismatch = 2 ^ 32 - 3
as_i32 stream_closed = 2 ^ 32 - 4
as_i32 stream_io_error = 2 ^ 32 - 5
as_i32 stream_cancelled = 2 ^ 32 - 7

pub data StreamDirection (S W : Type 0) : Type 0 where
  readable : S → Option Bytes → StreamDirection S W
  writable : W → StreamDirection S W

pub record StreamInner (S W : Type 0) : Type 0 where
  pub direction : StreamDirection S W
  pub closed : Bool
  pub last_error : Option Bytes

abbrev pub stream_write_cancelled_text : Bytes
stream_write_cancelled_text =
    chars "write released by the step's cancellation token; nothing was committed"

abbrev pub stream_read_cancelled_text : Bytes
stream_read_cancelled_text =
    chars "read released by the step's cancellation token; the source was left as it was"

abbrev pub empty_error_text : Bytes
empty_error_text = chars "source failed without a message"

abbrev pub max_last_error_bytes : ℕ
max_last_error_bytes = 4096

-- how the pull of read_async ended: with a chunk at hand, or by `eof`, `io_error` or `released`
pub data Pull : Type 0 where
  at_hand at_end released : Pull
  broken : Bytes → Pull

-- A read in flight: its locals `source` and `leftover`, and how the pull ended, once it has.
pub record Reading (S : Type 0) : Type 0 where
  pub source : S
  pub leftover : Option Bytes
  pub pull : Option Pull

-- the text that is kept of an error
unfoldable pub kept_text : Bytes → Bytes
kept_text [] = empty_error_text
kept_text (b ∷ raw) = truncate_text (b ∷ raw) max_last_error_bytes

abbrev pub pull_of : Option Bytes → Option Pull
pull_of none = none
pull_of (some c) = some at_hand

-- What is copied of a chunk into a buffer of `n` bytes, and what is left of it.
abbrev pub head_of : ℕ → Option Bytes → Bytes
head_of n none = []
head_of n (some c) = take n c

abbrev pub tail_of : ℕ → Option Bytes → Option Bytes
tail_of n none = none
tail_of n (some c) = if ltb n (length c) then some (drop n c) else none

-- `last_error`, when a read is over
abbrev pub recorded : Pull → Option Bytes → Option Bytes
recorded (broken raw) old = some (kept_text raw)
recorded released old = some stream_read_cancelled_text
recorded at_hand old = old
recorded at_end old = old

-- `StreamState::new`, and the source of StreamRegistry::register_readable
unfoldable pub new : {S W : Type 0} → StreamDirection S W → StreamInner S W
new direction = record { direction = direction; closed = false; last_error = none }

-- what a read makes of its source's answer; the token is asked only where the source has to wait
unfoldable pub answered : {S : Type 0} → Bool → Reading S → Polled S → Reading S
answered fired r (pending s) = record r { source = s; pull = if fired then some released else none }
answered fired r (ready none s) = record r { source = s; pull = some at_end }
answered fired r (ready (some (failed raw)) s) = record r { source = s; pull = some (broken raw) }
answered fired r (ready (some (chunk [])) s) = record r { source = s }
answered fired r (ready (some (chunk (b ∷ bs))) s) = record r {
  source = s;
  leftover = some (b ∷ bs);
  pull = some at_hand;
}

module _ {S : Type 0} (poll_next : S → Polled S) where
  -- step 2: one round of the loop, where `fired` tells whether the token has fired
  unfoldable pub poll_read : Bool → Reading S → Reading S
  poll_read fired r = elim r.pull [ some p ↦ r | none ↦ answered fired r (poll_next r.source) ]

  -- the rounds of a read that nothing else disturbs, one for each of the token's states
  unfoldable pub poll_rounds : List Bool → Reading S → Reading S
  poll_rounds [] r = r
  poll_rounds (fired ∷ later) r = poll_rounds later (poll_read fired r)

module _ {S W : Type 0} (poll_next : S → Polled S) (empty : S) where
  -- step 1 of read_async
  unfoldable pub begin_read : StreamInner S W → Result Code (Reading S × StreamInner S W)
  begin_read inner = if inner.closed then err stream_closed else elim inner.direction [
    | writable sink ↦ err stream_direction_mismatch
    | readable source leftover ↦ ok (
      record { source = source; leftover = leftover; pull = pull_of leftover },
      record inner { direction = readable empty none },
    )
  ]

  -- steps 3 and 4, for a buffer of `n` bytes: the code, the bytes copied, and the stream
  abbrev pub put_back : S → Option Bytes → StreamInner S W → StreamInner S W
  put_back source leftover inner = if inner.closed then inner else elim inner.direction [
    | writable sink ↦ inner
    | readable s l ↦ record inner { direction = readable source leftover }
  ]

  unfoldable pub finish_read :
      ℕ → Pull → Reading S → StreamInner S W → Code × Bytes × StreamInner S W
  finish_read n p r inner =
      let noted = record inner { last_error = recorded p inner.last_error } in
      elim p [
        | at_hand ↦ (
          count (length (head_of n r.leftover)),
          head_of n r.leftover,
          put_back r.source (tail_of n r.leftover) noted,
        )
        | at_end ↦ (stream_eof, [], put_back empty none noted)
        | broken raw ↦ (stream_io_error, [], put_back r.source none noted)
        | released ↦ (stream_cancelled, [], put_back r.source none noted)
      ]

  abbrev pub finished : ℕ → Reading S → StreamInner S W → Option (Code × Bytes × StreamInner S W)
  finished n r inner = elim r.pull [ none ↦ none | some p ↦ some (finish_read n p r inner) ]

  -- read_async without a disturbance; `none` if it is still parked after these rounds
  unfoldable pub read_async :
      List Bool → ℕ → StreamInner S W → Option (Code × Bytes × StreamInner S W)
  read_async rounds n inner = elim (begin_read inner) [
    | err code ↦ some (code, [], inner)
    | ok (r, inner') ↦ finished n (poll_rounds poll_next rounds r) inner'
  ]

  -- StreamRegistry::close, on the stream itself
  unfoldable pub close_inner : StreamInner S W → StreamInner S W
  close_inner inner = record inner { closed = true; direction = readable empty none }

  -- StreamRegistry::take_readable, on the stream itself: the prefix and the source
  unfoldable pub take_inner : StreamInner S W → Option ((Option Bytes × S) × StreamInner S W)
  take_inner inner = if inner.closed then none else elim inner.direction [
    | writable sink ↦ none
    | readable source leftover ↦
        some ((leftover, source), record inner { closed = true; direction = readable empty none })
  ]
