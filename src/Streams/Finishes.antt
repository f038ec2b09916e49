-- ===== src/Streams/Finishes.antt =====
-- A guest that reads a stream until its end gets there, if the source does.
use gwead.Prelude.{
  ℕ, zero, suc, ◌≤◌, ◌<◌, ◌≡◌, refl, sym, ap, ◌∙◌, Bool, false, Option, none, some, List, [], ◌∷◌,
  ◌++◌, append_assoc, append-nil, take, take-append-drop, take_all, length, length-drop,
  length-append, ltb, inl, inr, Bool-cases, arith, replicate,
}
use gwead.Streams.{
  chunk, Polled, pending, ready, Code, count, stream_eof, readable, StreamInner, Pull, at_hand,
  at_end, Reading, tail_of, answered, poll_read, poll_rounds, finish_read, begin_read, read_async,
  new, pull_of, finished,
}
use gwead.Streams.Excerpt.{Bytes}
use gwead.Streams.Flow.{held}

module _ {S : Type 0} (poll_next : S → Polled S) where
  -- The source gives these bytes and then ends, all within so many polls, and never fails.
  pub data Finishes : S → Bytes → ℕ → Type 0 where
    ends : {s t : S} {k : ℕ} → poll_next s ≡ ready none t → Finishes s [] (suc k)
    waits :
        {s t : S} {bytes : Bytes} {k : ℕ}
        → poll_next s ≡ pending t
        → Finishes t bytes k
        → Finishes s bytes (suc k)
    gives :
        {s t : S} {more bytes : Bytes} {k : ℕ}
        → poll_next s ≡ ready (some (chunk more)) t
        → Finishes t bytes k
        → Finishes s (more ++ bytes) (suc k)

  abbrev waiting : S → Reading S
  waiting s = record { source = s; leftover = none; pull = none }

  abbrev pulled : S → Option Bytes → Pull → Reading S
  pulled s left p = record { source = s; leftover = left; pull = some p }

  pub rounds_done :
      (rounds : List Bool) (s : S) (left : Option Bytes) (p : Pull)
      → poll_rounds poll_next rounds (pulled s left p) ≡ pulled s left p
  unfolding poll_rounds poll_read
  rounds_done [] s left p = refl
  rounds_done (fired ∷ rounds) s left p = rounds_done rounds s left p

  -- how a pull can end
  data Pulls (bytes : Bytes) (k : ℕ) (r : Reading S) : Type 0 where
    to_end : (t : S) → r ≡ pulled t none at_end → bytes ≡ [] → Pulls bytes k r
    to_chunk :
        (c : Bytes) (t : S) (rest : Bytes) (k' : ℕ)
        → r ≡ pulled t (some c) at_hand
        → 0 < length c
        → bytes ≡ c ++ rest
        → k' ≤ k
        → Finishes t rest k'
        → Pulls bytes k r

  Pulls-more : {bytes : Bytes} {k : ℕ} {r : Reading S} → Pulls bytes k r → Pulls bytes (suc k) r
  Pulls-more (to_end t e f) = to_end t e f
  Pulls-more (to_chunk c t rest k' e some_byte f le fin) =
      to_chunk c t rest k' e some_byte f (omega (arith, le)) fin

  rounds-Pulls :
      (j : ℕ) (s : S) (bytes : Bytes) (k : ℕ)
      → Finishes s bytes k
      → k ≤ j
      → Pulls bytes k (poll_rounds poll_next (replicate j false) (waiting s))
  unfolding poll_rounds poll_read answered
  rounds-Pulls zero s bytes k (ends e) le = absurd (omega (arith, le))
  rounds-Pulls zero s bytes k (waits e fin) le = absurd (omega (arith, le))
  rounds-Pulls zero s bytes k (gives e fin) le = absurd (omega (arith, le))
  rounds-Pulls (suc j) s bytes k (ends {t = t} e) le =
      rw (e, poll_rounds) (to_end t (rounds_done (replicate j false) t none at_end) refl)
  rounds-Pulls (suc j) s bytes k (waits {t = t} {k = k'} e fin) le =
      rw (e, poll_rounds) (Pulls-more (rounds-Pulls j t bytes k' fin (omega (arith, le))))
  rounds-Pulls (suc j) s bytes k (gives {t = t} {more = []} {bytes = rest} {k = k'} e fin) le =
      rw (e, poll_rounds) (Pulls-more (rounds-Pulls j t rest k' fin (omega (arith, le))))
  rounds-Pulls (suc j) s bytes k (gives {t = t} {more = b ∷ bs} {bytes = rest} {k = k'} e fin) le =
      rw (e, poll_rounds)
        (to_chunk (b ∷ bs) t rest k' (rounds_done (replicate j false) t (some (b ∷ bs)) at_hand)
          (omega arith) refl (omega arith) fin)

-- what a guest adds to the bytes that it got before, by the code that it got
abbrev after_read : Code → Bytes → Option Bytes → Option Bytes
after_read (count m) bytes none = none
after_read (count m) bytes (some later) = some (bytes ++ later)
after_read stream_eof bytes later = some []
after_read _ bytes later = none

abbrev Full : Option Bytes → Type 0
Full none = Unit
Full (some c) = 0 < length c

tail-Full : (n : ℕ) (c : Bytes) → Full (tail_of n (some c))
tail-Full n c = elim (Bool-cases (ltb n (length c))) [
  | inl e ↦ rw e (ground (arith, length-drop n c, e))
  | inr e ↦ rw e tt
]

head-tail : (n : ℕ) (c : Bytes) → take n c ++ held (tail_of n (some c)) ≡ c
head-tail n c = elim (Bool-cases (ltb n (length c))) [
  | inl e ↦ rw e (take-append-drop n c)
  | inr e ↦ rw e (append-nil (take n c) ∙ take_all n c (ground (arith, e)))
]

length-head : (n : ℕ) (c : Bytes) → 0 < n → 0 < length c → 0 < length (take n c)
length-head (suc n) (b ∷ c) h k = omega arith
length-head zero c h k = absurd (omega (arith, h))
length-head (suc n) [] h k = absurd (omega (arith, k))

module _ {S : Type 0} (W : Type 0) (poll_next : S → Polled S) (empty : S) where
  -- A guest that reads into a buffer of `n` bytes until it is told the end, at most so many times, and
  -- polls so often in each read.
  unfoldable pub read_to_end : ℕ → List Bool → ℕ → StreamInner S W → Option Bytes
  read_to_end zero rounds n inner = none
  read_to_end (suc reads) rounds n inner = elim (read_async poll_next empty rounds n inner) [
    | none ↦ none
    | some (code, bytes, inner') ↦ after_read code bytes (read_to_end reads rounds n inner')
  ]

  abbrev open_inner : S → Option Bytes → Option Bytes → StreamInner S W
  open_inner s left error = record {
    direction = readable s left;
    closed = false;
    last_error = error;
  }

  abbrev Reads : ℕ → ℕ → ℕ → Type 0
  Reads reads j n =
      (s : S) (left error : Option Bytes) (rest : Bytes) (k : ℕ)
      → Finishes poll_next s rest k
      → Full left
      → k ≤ j
      → length (held left ++ rest) < reads
      → read_to_end reads (replicate j false) n (open_inner s left error) ≡ some (held left ++ rest)

  chunk-Reads :
      (reads j n : ℕ)
      → Reads reads j n
      → 0 < n
      → (c : Bytes) (t : S) (error : Option Bytes) (rest : Bytes) (k : ℕ)
      → Finishes poll_next t rest k
      → 0 < length c
      → k ≤ j
      → length (c ++ rest) < suc reads
      → after_read
          (count (length (take n c)))
          (take n c)
          (read_to_end reads (replicate j false) n (open_inner t (tail_of n (some c)) error))
        ≡ some (c ++ rest)
  chunk-Reads reads j n ih some_room c t error rest k fin some_byte le short =
      let left = held (tail_of n (some c)) in
      rw
        (ih t (tail_of n (some c)) error rest k fin (tail-Full n c) le (
          omega (
            arith,
            length-head n c some_room some_byte,
            length-append (take n c) left,
            ap length (head-tail n c),
            length-append c rest,
            length-append left rest,
            short,
          )))
        (ap some (sym (append_assoc (take n c) left rest) ∙ ap (λ x. x ++ rest) (head-tail n c)))

  -- a read of an open stream whose pull has ended
  read_async-open :
      (rounds : List Bool) (n : ℕ) (s t : S) (left left' error : Option Bytes) (p : Pull)
      → poll_rounds poll_next rounds (record { source = s; leftover = left; pull = pull_of left })
        ≡ pulled poll_next t left' p
      → read_async poll_next empty rounds n (open_inner s left error)
        ≡ some (
            finish_read poll_next empty n p
              (pulled poll_next t left' p)
              (open_inner empty none error))
  unfolding read_async begin_read
  read_async-open rounds n s t left left' error p e =
      ap (λ r. finished poll_next empty n r (open_inner empty none error)) e

  Reads-all : (reads j n : ℕ) → 0 < n → Reads reads j n
  unfolding read_to_end finish_read
  Reads-all zero j n some_room s left error rest k fin full le short = absurd (omega (arith, short))
  Reads-all (suc reads) j n some_room s (some c) error rest k fin full le short =
      rw
        (
          read_async-open (replicate j false) n s s (some c) (some c) error at_hand
              (rounds_done poll_next (replicate j false) s (some c) at_hand),
          read_to_end,
        )
        (chunk-Reads reads j n (Reads-all reads j n some_room) some_room c s error rest k fin full
          le short)
  Reads-all (suc reads) j n some_room s none error rest k fin full le short =
      elim (rounds-Pulls poll_next j s rest k fin le) [
        | to_end t e f ↦
            rw (read_async-open (replicate j false) n s t none none error at_end e, read_to_end)
              (ap some (sym f))
        | to_chunk c t rest' k' e some_byte f le' fin' ↦
            rw
              (read_async-open (replicate j false) n s t none (some c) error at_hand e, read_to_end)
              (chunk-Reads reads j n (Reads-all reads j n some_room) some_room c t error rest' k'
                  fin' some_byte (omega (arith, le', le)) (rw f at short)
                ∙ ap some (sym f))
      ]

  -- If a source gives its bytes and then ends within so many polls, with no failure, and no token
  -- fires, a guest that reads with a buffer that is not empty gets all of them, in order, and then the
  -- end, in at most one read for each byte and one for the end.
  pub read_to_end-Finishes :
      (s : S) (bytes : Bytes) (polls n : ℕ)
      → Finishes poll_next s bytes polls
      → 0 < n
      → read_to_end (suc (length bytes)) (replicate polls false) n (new (readable s none))
        ≡ some bytes
  unfolding new
  read_to_end-Finishes s bytes polls n fin some_room =
      Reads-all (suc (length bytes)) polls n some_room s none none bytes polls fin tt (omega arith)
        (omega arith)
