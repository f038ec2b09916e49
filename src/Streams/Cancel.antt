-- ===== src/Streams/Cancel.antt =====
-- What a cancelled read leaves behind.
use gwead.Prelude.{
  ◌≢◌, ℕ, ◌≡◌, ◌⊎◌, inl, inr, refl, ap, subst, Bool, true, false, Option, none, some, List, [], ◌∷◌,
  In,
}
use gwead.Streams.Finishes.{rounds_done}
use gwead.Streams.{
  chunk, failed, Polled, pending, ready, stream_cancelled, StreamDirection, readable, writable,
  StreamInner, Pull, at_hand, at_end, released, broken, Reading, answered, poll_read, poll_rounds,
  begin_read, finish_read, finished, read_async, stream_read_cancelled_text,
}
use gwead.Streams.Excerpt.{Bytes}

module _ {S : Type 0} (poll_next : S → Polled S) where
  -- The source was polled and gave nothing: it had to wait, or gave empty chunks.
  pub data Silent (s : S) : S → Type 0 where
    unpolled : Silent s s
    waited : {t u : S} → Silent s t → poll_next t ≡ pending u → Silent s u
    gave_none : {t u : S} → Silent s t → poll_next t ≡ ready (some (chunk [])) u → Silent s u

  -- a read that waits, or was released, has taken nothing from its source
  IsSilent : S → Reading S → Type 0
  IsSilent s r =
      ((r.pull ≡ none) ⊎ (r.pull ≡ some released)) → Silent s r.source × (r.leftover ≡ none)

  answered-IsSilent :
      (fired : Bool) (s : S) (r : Reading S) (a : Polled S)
      → poll_next r.source ≡ a
      → r.pull ≡ none
      → IsSilent s r
      → IsSilent s (answered fired r a)
  unfolding answered IsSilent
  answered-IsSilent fired s r (pending t) e f h = λ which. (waited (h (inl f)).0 e, (h (inl f)).1)
  answered-IsSilent fired s r (ready none t) e f h =
      λ which. elim which [ inl x ↦ cc x | inr x ↦ cc x ]
  answered-IsSilent fired s r (ready (some (failed raw)) t) e f h =
      λ which. elim which [ inl x ↦ cc x | inr x ↦ cc x ]
  answered-IsSilent fired s r (ready (some (chunk [])) t) e f h =
      λ which. (gave_none (h (inl f)).0 e, (h (inl f)).1)
  answered-IsSilent fired s r (ready (some (chunk (b ∷ bs))) t) e f h =
      λ which. elim which [ inl x ↦ cc x | inr x ↦ cc x ]

  poll_read-IsSilent :
      (fired : Bool) (s t : S) (left : Option Bytes) (p : Option Pull)
      → IsSilent s (record { source = t; leftover = left; pull = p })
      → IsSilent s (poll_read poll_next fired (record { source = t; leftover = left; pull = p }))
  unfolding poll_read
  poll_read-IsSilent fired s t left none h = answered-IsSilent fired s _ (poll_next t) refl refl h
  poll_read-IsSilent fired s t left (some p) h = h

  rounds-IsSilent :
      (rounds : List Bool) (s : S) (r : Reading S)
      → IsSilent s r
      → IsSilent s (poll_rounds poll_next rounds r)
  unfolding poll_rounds
  rounds-IsSilent [] s r h = h
  rounds-IsSilent (fired ∷ rounds) s r h =
      rounds-IsSilent rounds s (poll_read poll_next fired r)
        (poll_read-IsSilent fired s r.source r.leftover r.pull h)

  -- only a token that has fired releases a read
  answered-released :
      (r : Reading S) (a : Polled S) → r.pull ≡ none → (answered false r a).pull ≢ some released
  unfolding answered
  answered-released r (pending t) f e = cc e
  answered-released r (ready none t) f e = cc e
  answered-released r (ready (some (failed raw)) t) f e = cc e
  answered-released r (ready (some (chunk [])) t) f e = cc (e, f)
  answered-released r (ready (some (chunk (b ∷ bs))) t) f e = cc e

  poll_read-released :
      (fired : Bool) (t : S) (left : Option Bytes) (p : Option Pull)
      → (poll_read poll_next fired (record { source = t; leftover = left; pull = p })).pull
        ≡ some released
      → (p ≡ some released) ⊎ (true ≡ fired)
  unfolding poll_read
  poll_read-released true t left p e = inr refl
  poll_read-released false t left none e = absurd (answered-released _ (poll_next t) refl e)
  poll_read-released false t left (some p) e = inl e

  rounds-released :
      (rounds : List Bool) (r : Reading S)
      → (poll_rounds poll_next rounds r).pull ≡ some released
      → (r.pull ≡ some released) ⊎ In true rounds
  unfolding poll_rounds
  rounds-released [] r e = inl e
  rounds-released (fired ∷ rounds) r e =
      elim (rounds-released rounds (poll_read poll_next fired r) e) [
        | inl f ↦ elim (poll_read-released fired r.source r.leftover r.pull f) [
          | inl g ↦ inl g
          | inr g ↦ inr (inl g)
        ]
        | inr i ↦ inr (inr i)
      ]

module _ {S W : Type 0} (poll_next : S → Polled S) (empty : S) where
  -- A read was cancelled: nothing was handed out, and the stream is as it was.
  pub record IsReleased (rounds : List Bool) (bytes : Bytes) (inner inner' : StreamInner S W)
      : Type 0 where
    pub source_before : S
    pub source_after : S
    pub fired : In true rounds
    pub nothing : bytes ≡ []
    pub parked : inner.direction ≡ readable source_before none
    pub silent : Silent poll_next source_before source_after
    pub kept : inner' ≡ record {
      direction = readable source_after none;
      closed = inner.closed;
      last_error = some stream_read_cancelled_text;
    }

  cancelled :
      (rounds : List Bool) (n : ℕ) (s t : S) (left left' error : Option Bytes) (p : Option Pull)
      (bytes : Bytes) (inner' : StreamInner S W)
      → ((p ≡ some released) → (left ≡ none) × Silent poll_next s t × In true rounds)
      → finished poll_next empty n
          (record { source = t; leftover = left'; pull = p })
          (record { direction = readable empty none; closed = false; last_error = error })
        ≡ some (stream_cancelled, bytes, inner')
      → IsReleased rounds bytes
          (record { direction = readable s left; closed = false; last_error = error })
          inner'
  unfolding finish_read
  cancelled rounds n s t left left' error none bytes inner' h e = cc e
  cancelled rounds n s t left left' error (some at_hand) bytes inner' h e = cc e
  cancelled rounds n s t left left' error (some at_end) bytes inner' h e = cc e
  cancelled rounds n s t left left' error (some (broken raw)) bytes inner' h e = cc e
  cancelled rounds n s t left left' error (some released) bytes inner' h e =
      let (f, quiet, token) = h refl in
      record {
        source_before = s;
        source_after = t;
        fired = token;
        nothing = cc e;
        parked = ap (readable s) f;
        silent = quiet;
        kept = cc e;
      }

  cancelled-of :
      (rounds : List Bool) (n : ℕ) (closed : Bool) (d : StreamDirection S W) (error : Option Bytes)
      (bytes : Bytes) (inner' : StreamInner S W)
      → read_async poll_next empty rounds n
          (record { direction = d; closed = closed; last_error = error })
        ≡ some (stream_cancelled, bytes, inner')
      → IsReleased rounds bytes
          (record { direction = d; closed = closed; last_error = error })
          inner'
  unfolding read_async begin_read IsSilent
  cancelled-of rounds n true d error bytes inner' e = cc e
  cancelled-of rounds n false (writable sink) error bytes inner' e = cc e
  cancelled-of rounds n false (readable s (some c)) error bytes inner' e =
      cancelled rounds n s s (some c) (some c) error (some at_hand) bytes inner' (λ f. cc f)
        (subst
          (λ r.
            finished poll_next empty n r
              (record { direction = readable empty none; closed = false; last_error = error })
            ≡ some (stream_cancelled, bytes, inner'))
          (rounds_done poll_next rounds s (some c) at_hand) e)
  cancelled-of rounds n false (readable s none) error bytes inner' e =
      let start : Reading S = record { source = s; leftover = none; pull = none } in
      let r = poll_rounds poll_next rounds start in
      cancelled rounds n s r.source none r.leftover error r.pull bytes inner'
        (λ f. (
          refl,
          (rounds-IsSilent poll_next rounds s start (λ which. (unpolled, refl)) (inr f)).0,
          elim (rounds-released poll_next rounds start f) [ inl g ↦ cc g | inr i ↦ i ],
        ))
        e

  -- A read that returns that it was cancelled has handed out nothing, its token had fired, it had no
  -- chunk at hand, and its source gave nothing while it was polled; the source is put back as it then
  -- was, the stream is as open as before, and the reason is recorded.
  pub read_async-IsReleased :
      (rounds : List Bool) (n : ℕ) (bytes : Bytes) (inner inner' : StreamInner S W)
      → read_async poll_next empty rounds n inner ≡ some (stream_cancelled, bytes, inner')
      → IsReleased rounds bytes inner inner'
  read_async-IsReleased rounds n bytes inner inner' e =
      cancelled-of rounds n inner.closed inner.direction inner.last_error bytes inner' e
