-- ===== src/Streams/Dropped.antt =====
-- A stream of which a read was dropped in flight: the source went with the read, and what is left in
-- its place is the empty stream.
use gwead.Prelude.{
  ℕ, ◌≡◌, refl, sym, ap, ◌∙◌, subst, Bool, true, false, Option, none, some, List, [], ◌++◌,
  append-nil, arith,
}
use gwead.Streams.{
  Polled, ready, Code, StreamDirection, readable, writable, StreamInner, Pull, at_hand, at_end,
  released, broken, Reading, begin_read, poll_read, put_back, finish_read, close_inner, take_inner,
  answered,
}
use gwead.Streams.Excerpt.{Bytes}
use gwead.Streams.Yields.{Begins}
use gwead.Streams.Events.{Event, read, poll, close, take_source, drop_read, Handle, step}

module _ {S : Type 0} (empty : S) where
  -- A read in flight holds its source itself; a stream that is open stays a readable one.
  abbrev pub IsUsable : {W : Type 0} → Bool → StreamDirection S W → Type 0
  IsUsable true d = Unit
  IsUsable false (readable s left) = (s ≡ empty) × (left ≡ none)
  IsUsable false (writable sink) = ⊥

  -- a read of the empty stream
  abbrev pub LostPull : Option Pull → S → Option Bytes → Type 0
  LostPull none s left = (s ≡ empty) × (left ≡ none)
  LostPull (some at_end) s left = Unit
  LostPull (some at_hand) s left = ⊥
  LostPull (some released) s left = ⊥
  LostPull (some (broken raw)) s left = ⊥

  abbrev pub LostFlight : Option (ℕ × Reading S) → Type 0
  LostFlight none = Unit
  LostFlight (some (n, r)) = LostPull r.pull r.source r.leftover

  answered-LostPull :
      (fired : Bool) (r : Reading S) (a : Polled S)
      → a ≡ ready none empty
      → (let r' = answered fired r a in LostPull r'.pull r'.source r'.leftover)
  unfolding answered
  answered-LostPull fired r a e = rw e tt

module _ {S W : Type 0} (poll_next : S → Polled S) (empty : S) (s0 : S)
    (ends_again : poll_next empty ≡ ready none empty) where
  -- What the guest was handed is what the source gave first, and nothing is left of the source.
  abbrev pub LostOf : Bytes → Option (ℕ × Reading S) → Bool → StreamDirection S W → Type 0
  LostOf handed reading closed d =
      Begins poll_next s0 handed × LostFlight empty reading × IsUsable empty closed d

  abbrev pub Lost : Handle S W → Type 0
  Lost h = LostOf h.handed h.reading h.inner.closed h.inner.direction

  abbrev pub inner_of : Bool → StreamDirection S W → Option Bytes → StreamInner S W
  inner_of closed d error = record { direction = d; closed = closed; last_error = error }

  abbrev pub lost_of :
      Bytes
      → List Code
      → Option (ℕ × Reading S)
      → Bool
      → StreamDirection S W
      → Option Bytes
      → Handle S W
  lost_of handed codes reading closed d error = record {
    inner = inner_of closed d error;
    reading = reading;
    handed = handed;
    codes = codes;
    dropped = true;
  }

  settle-Lost :
      (handed : Bytes) (closed : Bool) (d : StreamDirection S W) (error : Option Bytes)
      → Begins poll_next s0 handed
      → IsUsable empty closed d
      → (let inner = put_back poll_next empty empty none (inner_of closed d error) in
          LostOf (handed ++ []) none inner.closed inner.direction)
  settle-Lost handed true d error b usable =
      (subst (λ x. Begins poll_next s0 x) (sym (append-nil handed)) b, tt, tt)
  settle-Lost handed false (readable s left) error b usable =
      (subst (λ x. Begins poll_next s0 x) (sym (append-nil handed)) b, tt, (refl, refl))
  settle-Lost handed false (writable sink) error b usable = absurd usable

  poll-Lost :
      (fired : Bool) (n : ℕ) (p : Option Pull) (s : S) (left : Option Bytes) (closed : Bool)
      (d : StreamDirection S W) (error : Option Bytes) (codes : List Code) (handed : Bytes)
      → LostOf handed (some (n, record { source = s; leftover = left; pull = p })) closed d
      → Lost (
          step poll_next empty (poll fired) (
            lost_of handed codes
              (some (n, record { source = s; leftover = left; pull = p }))
              closed
              d
              error))
  unfolding step finish_read poll_read
  poll-Lost fired n none s left closed d error codes handed (b, (e, f), usable) = (
    b,
    answered-LostPull empty fired (record { source = s; leftover = left; pull = none })
        (poll_next s) (ap poll_next e ∙ ends_again),
    usable,
  )
  poll-Lost fired n (some at_end) s left closed d error codes handed (b, t, usable) =
      settle-Lost handed closed d error b usable
  poll-Lost fired n (some at_hand) s left closed d error codes handed (b, f, usable) = absurd f
  poll-Lost fired n (some released) s left closed d error codes handed (b, f, usable) = absurd f
  poll-Lost fired n (some (broken raw)) s left closed d error codes handed (b, f, usable) = absurd f

  pub step-Lost :
      (e : Event) (reading : Option (ℕ × Reading S)) (closed : Bool) (d : StreamDirection S W)
      (error : Option Bytes) (codes : List Code) (handed : Bytes)
      → LostOf handed reading closed d
      → Lost (step poll_next empty e (lost_of handed codes reading closed d error))
  unfolding step begin_read close_inner take_inner
  step-Lost (read n) (some r) closed d error codes handed lost = lost
  step-Lost (read n) none true d error codes handed lost = lost
  step-Lost (read n) none false (readable s none) error codes handed (b, t, usable) =
      (b, usable, (refl, refl))
  step-Lost (read n) none false (readable s (some c)) error codes handed (b, t, usable) =
      cc usable.1
  step-Lost (read n) none false (writable sink) error codes handed (b, t, usable) = absurd usable
  step-Lost (poll fired) none closed d error codes handed lost = lost
  step-Lost (poll fired) (some (n, r)) closed d error codes handed lost =
      poll-Lost fired n r.pull r.source r.leftover closed d error codes handed lost
  step-Lost close reading closed d error codes handed (b, flight, usable) = (b, flight, tt)
  step-Lost take_source reading true d error codes handed lost = lost
  step-Lost take_source reading false (readable s left) error codes handed (b, flight, usable) =
      (b, flight, tt)
  step-Lost take_source reading false (writable sink) error codes handed (b, flight, usable) =
      absurd usable
  step-Lost drop_read none closed d error codes handed lost = lost
  step-Lost drop_read (some r) closed d error codes handed (b, flight, usable) = (b, tt, usable)

  pub poll_dropped :
      (fired : Bool) (h : Handle S W) → (step poll_next empty (poll fired) h).dropped ≡ h.dropped
  unfolding step
  poll_dropped fired h = ground arith

  -- a stream whose read was dropped stays so
  pub step_dropped :
      (e : Event) (h : Handle S W) → h.dropped ≡ true → (step poll_next empty e h).dropped ≡ true
  unfolding step
  step_dropped (read n) h e = ground arith
  step_dropped (poll fired) h e = ground arith
  step_dropped close h e = e
  step_dropped take_source h e = ground arith
  step_dropped drop_read h e = ground arith
