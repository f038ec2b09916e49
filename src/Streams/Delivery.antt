-- ===== src/Streams/Delivery.antt =====
-- Every byte of a source is handed out once and in order, whatever happens to the stream.
use gwead.Prelude.{◌≡◌, ◌≢◌, refl, true, false, Option, none, some, List, ◌⊎◌, inl, inr, In}
use gwead.Streams.{Polled, ready, stream_eof, StreamInner, new, take_inner}
use gwead.Streams.Excerpt.{Bytes}
use gwead.Streams.Flow.{Live, flowing}
use gwead.Streams.Yields.{starts, Begins, Ends}
use gwead.Streams.Events.{Event, Handle, opened, run}
use gwead.Streams.Known.{Known, run-Known, State-IsDelivered, taken, lost_taken}

module _ {S : Type 0} (W : Type 0) (poll_next : S → Polled S) (empty : S)
    (ends_again : poll_next empty ≡ ready none empty) (s0 : S) where
  after : List Event → Handle S W
  after es = run poll_next empty es (opened poll_next empty s0)

  after-Known : (es : List Event) → Known poll_next empty s0 ends_again (after es)
  unfolding after new
  after-Known es =
      run-Known poll_next empty s0 ends_again es (opened poll_next empty s0)
        (inl (refl, flowing (λ i. i) starts))

  -- Where polling the empty stream gives its end again and again: whatever the guest, the other tasks,
  -- the deadlines and the source do to a stream, and in whatever order, the bytes that its reads have
  -- handed out are the first ones that its source gave, in order, with none lost in between and none
  -- twice; and if a read has returned the end, they are all that the source gave before its end,
  -- unless a read was dropped in flight.
  pub run-IsDelivered :
      (es : List Event)
      → (let h = run {W = W} poll_next empty es (opened poll_next empty s0) in
          Begins poll_next s0 h.handed
          × ((h.dropped ≡ true) ⊎ (In stream_eof h.codes → Ends poll_next s0 h.handed)))
  unfolding after
  run-IsDelivered es =
      let h = after es in
      elim (after-Known es) [
        | inl (e, state) ↦
            let delivered =
              State-IsDelivered poll_next empty s0 ends_again h.reading h.inner.closed
                h.inner.direction h.codes h.handed state in
            (delivered.in_order, inr delivered.at_eof)
        | inr (e, lost) ↦ (lost.0, inl e)
      ]

  -- Where polling the empty stream gives its end again and again: a source that is taken while no read
  -- is in flight and none was ever dropped, with its prefix, goes on exactly where the reads stopped.
  -- One that is taken during a read, or after a read that was dropped in flight, is the empty stream
  -- in its place, and what the source has left is lost to the taker.
  pub run-take_inner :
      (es : List Event) (left : Option Bytes) (source : S) (inner : StreamInner S W)
      → take_inner poll_next empty
          (run {W = W} poll_next empty es (opened poll_next empty s0)).inner
        ≡ some ((left, source), inner)
      → (let h = run {W = W} poll_next empty es (opened poll_next empty s0) in
          ((h.reading ≡ none)
            × (h.dropped ≡ false)
            × Live poll_next empty s0 h.codes h.handed source left)
          ⊎ (((h.reading ≢ none) ⊎ (h.dropped ≡ true)) × (source ≡ empty) × (left ≡ none)))
  unfolding after
  run-take_inner es left source inner e =
      let h = after es in
      elim (after-Known es) [
        | inl (f, state) ↦
            elim (taken poll_next empty s0 ends_again h.reading h.inner.closed h.inner.direction
              h.inner.last_error h.codes h.handed state left source inner e) [
                | inl (idle, live) ↦ inl (idle, f, live)
                | inr (busy, e, f) ↦ inr (inl busy, e, f)
              ]
        | inr (f, lost) ↦
            let (begins, flight, usable) = lost in
            let (e1, e2) =
              lost_taken poll_next empty s0 ends_again h.reading h.inner.closed h.inner.direction
                h.inner.last_error usable left source inner e in
            inr (inr f, e1, e2)
      ]
