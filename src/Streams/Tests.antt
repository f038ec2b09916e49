-- ===== src/Streams/Tests.antt =====
-- Streams over sources that are lists of what their polls will yield, `none` for a wait.
use gwead.Prelude.{
  ℕ, ◌≤◌, ◌≡◌, ◌≢◌, ◌⊎◌, refl, true, false, Option, none, some, List, [], ◌∷◌, ◌++◌, length,
  replicate, All, In, get_elem?, arith,
}
use gwead.Prelude.Outcome.{ok}
use gwead.Text.{chars}
use gwead.Streams.{
  Item, chunk, Polled, pending, ready, Sent, full, count, stream_eof, stream_cancelled, StreamInner,
  readable, writable, new, begin_read, answered, poll_read, poll_rounds, finish_read, read_async,
  kept_text, take_inner, max_last_error_bytes,
}
use gwead.Streams.Writes.{begin_write, send_rounds, write_async}
use gwead.Streams.Excerpt.{
  Bytes, IsExcerpt, truncate_text, back_to_boundary, is_char_boundary, total_suffix, decimal,
}
use gwead.Streams.Events.{Event, read, poll, drop_read, Handle, opened, step, run}
use gwead.Streams.Flow.{Live}
use gwead.Streams.Yields.{Begins, Ends}
use gwead.Streams.Delivery.{run-IsDelivered, run-take_inner}
use gwead.Streams.Finishes.{Finishes, ends, waits, gives, read_to_end, read_to_end-Finishes}
use gwead.Streams.Registry.{
  StreamRegistry, Store, place, new_registry, take_stream, insert, remove, register, adopt,
  next_handle,
}
use gwead.Streams.Tables
use gwead.Streams.Tables.{Op, register_at, transfer, close_at, World, started, put, IsExclusive}
use gwead.Streams.Exclusive.{run-IsExclusive}
use gwead.Streams.Stale.{run-IsGivenUp}
use gwead.Streams.FanOut.{fan_out_readable_shared}
use gwead.Streams.Branches.{handles, Apart, fan_out_readable_shared-Finishes}
use gwead.Streams.Cancel.{IsReleased, read_async-IsReleased}
use gwead.Streams.Kept.{kept_text-IsExcerpt}

abbrev Script : Type 0
Script = List (Option Item)

abbrev poll_next : Script → Polled Script
poll_next [] = ready none []
poll_next (none ∷ later) = pending later
poll_next (some item ∷ later) = ready (some item) later

abbrev prepend : Bytes → Script → Script
prepend bytes later = some (chunk bytes) ∷ later

abbrev iter : List Item → Script
iter [] = []
iter (item ∷ items) = some item ∷ iter items

abbrev sink_poll : ℕ → Bytes → Sent ℕ
sink_poll n bytes = full n

-- a wait, three bytes, an empty chunk, one more byte, the end
abbrev script : Script
script = none ∷ some (chunk (1 ∷ 2 ∷ 3 ∷ [])) ∷ some (chunk []) ∷ some (chunk (4 ∷ [])) ∷ []

abbrev stream : StreamInner Script ℕ
stream = record { direction = readable script none; closed = false; last_error = none }

script-Finishes : Finishes poll_next script (1 ∷ 2 ∷ 3 ∷ 4 ∷ []) 5
script-Finishes = waits refl (gives refl (gives refl (gives refl (ends refl))))

reads :
    (read_async poll_next [] (false ∷ false ∷ []) 2 stream
      ≡ some (
        count 2,
        1 ∷ 2 ∷ [],
        record stream {
          direction = readable (some (chunk []) ∷ some (chunk (4 ∷ [])) ∷ []) (some (3 ∷ []));
        },
      ))
    × (read_async poll_next [] (false ∷ []) 2 stream ≡ none)
unfolding read_async begin_read poll_rounds poll_read answered finish_read
reads = (refl, refl)

parked : StreamInner Script ℕ
parked = stream

-- the token fires while the source has to wait
abbrev released_stream : StreamInner Script ℕ
released_stream = record {
  direction =
      readable (some (chunk (1 ∷ 2 ∷ 3 ∷ [])) ∷ some (chunk []) ∷ some (chunk (4 ∷ [])) ∷ []) none;
  closed = false;
  last_error =
      some (chars "read released by the step's cancellation token; the source was left as it was");
}

released_read :
    read_async poll_next [] (true ∷ []) 2 stream ≡ some (stream_cancelled, [], released_stream)
unfolding read_async begin_read poll_rounds poll_read answered finish_read
released_read = refl

read_async-IsReleased_example : IsReleased poll_next [] (true ∷ []) [] stream released_stream
read_async-IsReleased_example =
    read_async-IsReleased poll_next [] (true ∷ []) 2 [] stream released_stream released_read

abbrev sink_stream : StreamInner Script ℕ
sink_stream = record { direction = writable 0; closed = false; last_error = none }

write_waits : write_async sink_poll (false ∷ []) (1 ∷ []) sink_stream ≡ none
unfolding write_async begin_write send_rounds
write_waits = refl

-- a read that is closed under way, and one that is not
abbrev events : List Event
events = read 2 ∷ poll false ∷ poll false ∷ poll false ∷ read 8 ∷ poll false ∷ []

abbrev now : Handle Script ℕ
now = run poll_next [] events (opened poll_next [] script)

two_bytes : now.handed ≡ 1 ∷ 2 ∷ 3 ∷ []
unfolding run step begin_read poll_read answered finish_read new
two_bytes = refl

run-IsDelivered_example :
    Begins poll_next script now.handed
    × ((now.dropped ≡ true) ⊎ (In stream_eof now.codes → Ends poll_next script now.handed))
run-IsDelivered_example = run-IsDelivered ℕ poll_next [] refl script events

-- After a read that was dropped in flight, the next one returns the end with nothing handed out.
dropped_then_read :
    (run {W = ℕ} poll_next []
      (read 2 ∷ drop_read ∷ read 2 ∷ poll false ∷ poll false ∷ [])
      (opened poll_next [] script)).codes
    ≡ stream_eof ∷ []
unfolding run step begin_read poll_read answered finish_read new
dropped_then_read = refl

-- a source that is taken during a read
abbrev during : List Event
during = read 2 ∷ poll false ∷ []

abbrev then_ : Handle Script ℕ
then_ = run poll_next [] during (opened poll_next [] script)

taken_during :
    take_inner poll_next [] then_.inner
    ≡ some ((none, []), record { direction = readable [] none; closed = true; last_error = none })
unfolding run step begin_read poll_read answered finish_read new take_inner
taken_during = refl

abbrev nothing : Script
nothing = []

abbrev no_prefix : Option Bytes
no_prefix = none

run-take_inner_example :
    ((then_.reading ≡ none)
      × (then_.dropped ≡ false)
      × Live poll_next [] script then_.codes then_.handed nothing no_prefix)
    ⊎ (((then_.reading ≢ none) ⊎ (then_.dropped ≡ true)) × (nothing ≡ []) × (no_prefix ≡ none))
run-take_inner_example =
    run-take_inner ℕ poll_next [] refl script during none []
      (record { direction = readable [] none; closed = true; last_error = none }) taken_during

read_to_end-Finishes_example :
    read_to_end ℕ poll_next [] 5 (replicate 5 false) 2 (new (readable script none))
    ≡ some (1 ∷ 2 ∷ 3 ∷ 4 ∷ [])
read_to_end-Finishes_example =
    read_to_end-Finishes ℕ poll_next [] script (1 ∷ 2 ∷ 3 ∷ 4 ∷ []) 5 2 script-Finishes
      (omega arith)

-- one execution registers two streams, moves the first to another, and closes the second
abbrev operations : List (Op Script ℕ)
operations =
    register_at 1 (readable script none)
    ∷ register_at 1 (writable 0)
    ∷ transfer 1 2 1
    ∷ close_at 1 2
    ∷ []

run-IsExclusive_example :
    (w : World Script ℕ) × (Tables.run poll_next [] operations (started Script ℕ) ≡ ok w)
    × IsExclusive w.tables (length w.store) 4
run-IsExclusive_example = run-IsExclusive poll_next [] operations (omega arith)

-- execution 1 after its first handle was issued
abbrev issued : StreamRegistry
issued = record { streams = (1, 0) ∷ []; next_id = 2 }

abbrev one_stream : World Script ℕ
one_stream = record { store = stream ∷ []; tables = put 1 issued (λ i. new_registry) }

abbrev emptied : StreamRegistry
emptied = record { streams = []; next_id = 2 }

abbrev later : World Script ℕ
later = record {
  store = stream ∷ new (writable 7) ∷ [];
  tables = put 1 (record { streams = (2, 1) ∷ []; next_id = 3 }) (put 1 emptied one_stream.tables);
}

taken : take_stream 1 (one_stream.tables 1) ≡ some (0, emptied)
unfolding take_stream place remove
taken = refl

run-later :
    Tables.run poll_next []
      (register_at 1 (writable 7) ∷ [])
      (record one_stream { tables = put 1 emptied one_stream.tables })
    ≡ ok later
unfolding Tables.run Tables.step register adopt next_handle insert
run-later = refl

run-IsGivenUp_example : place 1 (later.tables 1).streams ≡ none
run-IsGivenUp_example =
    run-IsGivenUp poll_next [] 1 1 0 one_stream emptied (register_at 1 (writable 7) ∷ []) later
      (omega arith) taken (tt, tt) run-later

found : place 1 issued.streams ≡ some 0
unfolding place
found = refl

fan_out_readable_shared-Finishes_example :
    (reg' : StreamRegistry) × (store' : Store Script ℕ) × (fan_out_readable_shared poll_next []
        prepend iter 6 1 2 issued
        (stream ∷ [])
      ≡ ok (handles 2 2, reg', store'))
    × All
        (λ id.
          (at : ℕ) × (inner : StreamInner Script ℕ) × (rounds : ℕ) × (place id reg'.streams
            ≡ some at)
          × (1 ≤ at)
          × (get_elem? store' at ≡ some inner)
          × (read_to_end ℕ poll_next [] 5 (replicate rounds false) 2 inner
              ≡ some (1 ∷ 2 ∷ 3 ∷ 4 ∷ [])))
        (handles 2 2)
    × Apart reg' (handles 2 2)
fan_out_readable_shared-Finishes_example =
    fan_out_readable_shared-Finishes ℕ poll_next [] prepend iter (λ c s. refl) refl
      (λ item items. refl) 0 1 1 6 5 2 issued (stream ∷ []) none none script (1 ∷ 2 ∷ 3 ∷ 4 ∷ [])
      found refl script-Finishes (omega arith) (omega arith) (omega arith)

cut :
    truncate_text (replicate 60 97) 50
    ≡ replicate 30 97 ++ ((0xe2 ∷ 0x80 ∷ 0xa6 ∷ []) ++ chars " (60 bytes total)")
unfolding truncate_text back_to_boundary is_char_boundary total_suffix decimal
cut = refl

kept_text-IsExcerpt_example :
    (1 ≤ length (kept_text []))
    × (length (kept_text []) ≤ max_last_error_bytes)
    × (1 ≤ length (kept_text (chars "down")))
    × (length (kept_text (chars "down")) ≤ max_last_error_bytes)
    × IsExcerpt (chars "down") max_last_error_bytes (kept_text (chars "down"))
kept_text-IsExcerpt_example = kept_text-IsExcerpt b'd' (chars "own")
