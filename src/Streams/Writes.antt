-- ===== src/Streams/Writes.antt =====
-- write_async of src/kernel/streams.rs, for the sender of a channel.
use gwead.Prelude.{Bool, Option, none, some, List, [], ◌∷◌, length, if◌then◌else◌}
use gwead.Prelude.Outcome.{Result, ok, err}
use gwead.Streams.Excerpt.{Bytes}
use gwead.Streams.{
  Sent, committed, full, gone, Code, count, stream_closed, stream_direction_mismatch,
  stream_cancelled, readable, writable, StreamInner, stream_write_cancelled_text,
}

-- `last_error`, when a write is over
abbrev pub write_recorded : Code → Option Bytes → Option Bytes
write_recorded stream_cancelled old = some stream_write_cancelled_text
write_recorded _ old = old

module _ {W : Type 0} (poll_send : W → Bytes → Sent W) where
  -- The rounds of write_async: the code, once there is one, and the channel after them.
  unfoldable pub send_rounds : List Bool → Bytes → W → Option Code × W
  send_rounds [] bytes sink = (none, sink)
  send_rounds (fired ∷ later) bytes sink = elim (poll_send sink bytes) [
    | committed sink' ↦ (some (count (length bytes)), sink')
    | gone sink' ↦ (some stream_closed, sink')
    | full sink' ↦
        let rest = send_rounds later bytes sink' in
        if fired then (some stream_cancelled, sink') else rest
  ]

module _ {S W : Type 0} (poll_send : W → Bytes → Sent W) where
  -- the sender that write_async clones
  unfoldable pub begin_write : StreamInner S W → Result Code W
  begin_write inner = if inner.closed then err stream_closed else elim inner.direction [
    | readable s l ↦ err stream_direction_mismatch
    | writable sink ↦ ok sink
  ]

  -- write_async without a disturbance: the channel that the sender leads to is kept with the stream
  unfoldable pub write_async : List Bool → Bytes → StreamInner S W → Option (Code × StreamInner S W)
  write_async rounds bytes inner = elim (begin_write inner) [
    | err code ↦ some (code, inner)
    | ok sink ↦
        let (answer, sink') = send_rounds poll_send rounds bytes sink in
        elim answer [
          | none ↦ none
          | some code ↦ some (
            code,
            record inner {
              direction = writable sink';
              last_error = write_recorded code inner.last_error;
            },
          )
        ]
  ]
