-- ===== src/Streams/Known.antt =====
-- What is known of a stream whatever happens to it: what was handed out and what is left.
use gwead.Prelude.{
  ℕ, ◌≡◌, ◌≢◌, refl, sym, subst, Bool, true, false, Option, none, some, List, [], ◌∷◌, ◌++◌,
  append-nil, ◌⊎◌, inl, inr,
}
use gwead.Streams.{
  Polled, ready, Code, StreamDirection, readable, writable, StreamInner, Pull, at_hand, at_end,
  released, broken, Reading, head_of, tail_of, begin_read, poll_read, put_back, finish_read,
  close_inner, take_inner,
}
use gwead.Streams.Excerpt.{Bytes}
use gwead.Streams.Flow.{
  Live, over, FlightOf, Flight, IsDelivered, Live-IsDelivered, Flight-IsDelivered, begin-Flight,
  answered-Flight, head-Live, Live-nothing,
}
use gwead.Streams.Yields.{Ends}
use gwead.Streams.Events.{Event, read, poll, close, take_source, drop_read, Handle, step, run}
use gwead.Streams.Dropped.{IsUsable, Lost, lost_of, inner_of, poll_dropped, step-Lost, step_dropped}

module _ {S W : Type 0} (poll_next : S → Polled S) (empty : S) (s0 : S)
    (ends_again : poll_next empty ≡ ready none empty) where
  abbrev pub StateOf :
      Option (ℕ × Reading S) → Bool → StreamDirection S W → List Code → Bytes → Type 0
  StateOf (some (n, r)) closed d codes handed =
      IsUsable empty closed d × Flight poll_next empty s0 codes handed r
  StateOf none true d codes handed = IsDelivered poll_next empty s0 codes handed
  StateOf none false (readable s left) codes handed = Live poll_next empty s0 codes handed s left
  StateOf none false (writable sink) codes handed = ⊥

  abbrev pub State : Handle S W → Type 0
  State h = StateOf h.reading h.inner.closed h.inner.direction h.codes h.handed

  pub State-IsDelivered :
      (reading : Option (ℕ × Reading S)) (closed : Bool) (d : StreamDirection S W)
      (codes : List Code) (handed : Bytes)
      → StateOf reading closed d codes handed
      → IsDelivered poll_next empty s0 codes handed
  State-IsDelivered (some (n, r)) closed d codes handed (usable, flight) =
      Flight-IsDelivered poll_next empty s0 r.pull codes handed r.source r.leftover flight
  State-IsDelivered none true d codes handed h = h
  State-IsDelivered none false (readable s left) codes handed live =
      Live-IsDelivered poll_next empty s0 codes handed s left live
  State-IsDelivered none false (writable sink) codes handed h = absurd h

  -- a handle by its parts, no read of which was dropped
  abbrev handle_of :
      Option (ℕ × Reading S)
      → Bool
      → StreamDirection S W
      → Option Bytes
      → List Code
      → Bytes
      → Handle S W
  handle_of reading closed d error codes handed = record {
    inner = inner_of poll_next empty s0 ends_again closed d error;
    reading = reading;
    handed = handed;
    codes = codes;
    dropped = false;
  }

  -- the end of a read, on a stream that is open or was closed in the meantime
  settle :
      (closed : Bool) (d : StreamDirection S W) (codes : List Code) (handed : Bytes) (s : S)
      (left : Option Bytes) (error : Option Bytes)
      → IsUsable empty closed d
      → Live poll_next empty s0 codes handed s left
      → StateOf none closed
          (put_back poll_next empty s left
            (inner_of poll_next empty s0 ends_again closed d error)).direction
          codes
          handed
  settle true d codes handed s left error usable live =
      Live-IsDelivered poll_next empty s0 codes handed s left live
  settle false (readable s' left') codes handed s left error usable live = live
  settle false (writable sink) codes handed s left error usable live = absurd usable

  put_back-closed :
      (closed : Bool) (d : StreamDirection S W) (s : S) (left : Option Bytes) (error : Option Bytes)
      → (put_back poll_next empty s left
          (inner_of poll_next empty s0 ends_again closed d error)).closed
        ≡ closed
  put_back-closed true d s left error = refl
  put_back-closed false (readable s' left') s left error = refl
  put_back-closed false (writable sink) s left error = refl

  settle-State :
      (closed : Bool) (d : StreamDirection S W) (codes : List Code) (handed : Bytes) (s : S)
      (left : Option Bytes) (error : Option Bytes)
      → IsUsable empty closed d
      → Live poll_next empty s0 codes handed s left
      → (let inner =
            put_back poll_next empty s left
              (inner_of poll_next empty s0 ends_again closed d error) in
          StateOf none inner.closed inner.direction codes handed)
  settle-State closed d codes handed s left error usable live =
      subst
        (λ c.
          StateOf none c
            (put_back poll_next empty s left
              (inner_of poll_next empty s0 ends_again closed d error)).direction
            codes handed)
        (sym (put_back-closed closed d s left error))
        (settle closed d codes handed s left error usable live)

  poll-State :
      (fired : Bool) (n : ℕ) (p : Option Pull) (s : S) (left : Option Bytes) (closed : Bool)
      (d : StreamDirection S W) (error : Option Bytes) (codes : List Code) (handed : Bytes)
      → IsUsable empty closed d
      → FlightOf poll_next empty s0 p codes handed s left
      → State (
          step poll_next empty (poll fired) (
            handle_of
              (some (n, record { source = s; leftover = left; pull = p }))
              closed
              d
              error
              codes
              handed))
  unfolding step finish_read poll_read
  poll-State fired n none s left closed d error codes handed usable (e, live) = (
    usable,
    answered-Flight poll_next empty s0 ends_again fired codes handed
        (record { source = s; leftover = left; pull = none }) (poll_next s) refl refl e live,
  )
  poll-State fired n (some at_hand) s left closed d error codes handed usable (unended, y) =
      settle-State closed d _ (handed ++ head_of n left) s (tail_of n left) error usable
        (head-Live poll_next empty s0 n codes handed s left unended y)
  poll-State fired n (some at_end) s left closed d error codes handed usable ends =
      settle-State closed d _ (handed ++ []) empty none error usable
        (over (subst (λ b. Ends poll_next s0 b) (sym (append-nil handed)) ends) refl refl)
  poll-State fired n (some (broken raw)) s left closed d error codes handed usable live =
      settle-State closed d _ (handed ++ []) s none _ usable
        (Live-nothing poll_next empty s0 _ codes handed s (λ e. cc e) live)
  poll-State fired n (some released) s left closed d error codes handed usable live =
      settle-State closed d _ (handed ++ []) s none _ usable
        (Live-nothing poll_next empty s0 _ codes handed s (λ e. cc e) live)

  -- what is known of a stream, whether or not a read was dropped
  abbrev pub Known : Handle S W → Type 0
  Known h =
      ((h.dropped ≡ false) × State h) ⊎ ((h.dropped ≡ true) × Lost poll_next empty s0 ends_again h)

  step-State :
      (e : Event) (reading : Option (ℕ × Reading S)) (closed : Bool) (d : StreamDirection S W)
      (error : Option Bytes) (codes : List Code) (handed : Bytes)
      → StateOf reading closed d codes handed
      → Known (step poll_next empty e (handle_of reading closed d error codes handed))
  unfolding step begin_read close_inner take_inner
  step-State (read n) (some r) closed d error codes handed h = inl (refl, h)
  step-State (read n) none true d error codes handed h = inl (
    refl,
    record { in_order = h.in_order; at_eof = λ i. elim i [ inl e ↦ cc e | inr j ↦ h.at_eof j ] },
  )
  step-State (read n) none false (readable s left) error codes handed live =
      inl (refl, ((refl, refl), begin-Flight poll_next empty s0 codes handed s left live))
  step-State (read n) none false (writable sink) error codes handed h = absurd h
  step-State (poll fired) none closed d error codes handed h = inl (refl, h)
  step-State (poll fired) (some (n, r)) closed d error codes handed (usable, flight) = inl (
    poll_dropped poll_next empty s0 ends_again fired
        (handle_of (some (n, r)) closed d error codes handed),
    poll-State fired n r.pull r.source r.leftover closed d error codes handed usable flight,
  )
  step-State close (some (n, r)) closed d error codes handed (usable, flight) =
      inl (refl, (tt, flight))
  step-State close none closed d error codes handed h =
      inl (refl, State-IsDelivered none closed d codes handed h)
  step-State take_source (some (n, r)) true d error codes handed h = inl (refl, h)
  step-State take_source (some (n, r)) false (readable s left) error codes handed (usable, flight) =
      inl (refl, (tt, flight))
  step-State take_source (some (n, r)) false (writable sink) error codes handed (usable, flight) =
      absurd usable
  step-State take_source none true d error codes handed h = inl (refl, h)
  step-State take_source none false (readable s left) error codes handed live =
      inl (refl, Live-IsDelivered poll_next empty s0 codes handed s left live)
  step-State take_source none false (writable sink) error codes handed h = absurd h
  step-State drop_read none closed d error codes handed h = inl (refl, h)
  step-State drop_read (some (n, r)) closed d error codes handed (usable, flight) =
      let delivered =
        Flight-IsDelivered poll_next empty s0 r.pull codes handed r.source r.leftover flight in
      inr (refl, (delivered.in_order, tt, usable))

  step-Known :
      (e : Event) (dropped : Bool) (reading : Option (ℕ × Reading S)) (closed : Bool)
      (d : StreamDirection S W) (error : Option Bytes) (codes : List Code) (handed : Bytes)
      → (let h = record (handle_of reading closed d error codes handed) { dropped = dropped } in
          Known h → Known (step poll_next empty e h))
  step-Known e false reading closed d error codes handed (inl (f, state)) =
      step-State e reading closed d error codes handed state
  step-Known e false reading closed d error codes handed (inr (f, lost)) = cc f
  step-Known e true reading closed d error codes handed (inl (f, state)) = cc f
  step-Known e true reading closed d error codes handed (inr (f, lost)) = inr (
    step_dropped poll_next empty s0 ends_again e
        (lost_of poll_next empty s0 ends_again handed codes reading closed d error) refl,
    step-Lost poll_next empty s0 ends_again e reading closed d error codes handed lost,
  )

  pub taken :
      (reading : Option (ℕ × Reading S)) (closed : Bool) (d : StreamDirection S W)
      (error : Option Bytes) (codes : List Code) (handed : Bytes)
      → StateOf reading closed d codes handed
      → (left : Option Bytes) (source : S) (inner : StreamInner S W)
      → take_inner poll_next empty (inner_of poll_next empty s0 ends_again closed d error)
        ≡ some ((left, source), inner)
      → ((reading ≡ none) × Live poll_next empty s0 codes handed source left)
        ⊎ ((reading ≢ none) × (source ≡ empty) × (left ≡ none))
  unfolding take_inner
  taken reading true d error codes handed state left source inner e = cc e
  taken reading false (writable sink) error codes handed state left source inner e = cc e
  taken none false (readable s l) error codes handed live left source inner e = inl (
    refl,
    subst (λ (x : Option Bytes × S). Live poll_next empty s0 codes handed x.1 x.0) (cc e) live,
  )
  taken (some (n, r)) false (readable s l) error codes handed ((f, g), flight) left source inner e =
      inr (λ x. cc x, cc (e, f), cc (e, g))

  pub lost_taken :
      (reading : Option (ℕ × Reading S)) (closed : Bool) (d : StreamDirection S W)
      (error : Option Bytes)
      → IsUsable empty closed d
      → (left : Option Bytes) (source : S) (inner : StreamInner S W)
      → take_inner poll_next empty (inner_of poll_next empty s0 ends_again closed d error)
        ≡ some ((left, source), inner)
      → (source ≡ empty) × (left ≡ none)
  unfolding take_inner
  lost_taken reading true d error usable left source inner e = cc e
  lost_taken reading false (readable s l) error (f, g) left source inner e = (cc (e, f), cc (e, g))
  lost_taken reading false (writable sink) error usable left source inner e = absurd usable

  pub run-Known : (es : List Event) (h : Handle S W) → Known h → Known (run poll_next empty es h)
  unfolding run
  run-Known [] h known = known
  run-Known (e ∷ es) h known = run-Known es (step poll_next empty e h) (
      step-Known e h.dropped h.reading h.inner.closed h.inner.direction h.inner.last_error h.codes
        h.handed known)
