-- ===== src/Streams/Flow.antt =====
-- What is with a readable stream and with a read in flight, against what the source has given.
use gwead.Prelude.{
  ℕ, ◌≡◌, ◌≢◌, refl, sym, ap, ◌∙◌, subst, Bool, true, false, Option, none, some, List, [], ◌∷◌,
  ◌++◌, append_assoc, append-nil, take, drop, take-append-drop, take_all, length, ltb, inl, inr,
  Bool-cases, arith, In,
}
use gwead.Streams.{
  chunk, failed, Polled, pending, ready, Code, count, stream_eof, Pull, at_hand, at_end, released,
  broken, Reading, pull_of, head_of, tail_of, answered,
}
use gwead.Streams.Excerpt.{Bytes}
use gwead.Streams.Yields.{Yields, waits, gives, fails, Ends, Begins}

abbrev pub held : Option Bytes → Bytes
held none = []
held (some c) = c

module _ {S : Type 0} (poll_next : S → Polled S) (empty : S) (s0 : S) where
  -- What is with the stream: the rest of what the source has given, or, after the end, nothing.
  pub data Live (codes : List Code) (handed : Bytes) (s : S) (left : Option Bytes) : Type 0 where
    flowing :
        ¬ (In stream_eof codes)
        → Yields poll_next s0 (handed ++ held left) s
        → Live codes handed s left
    over : Ends poll_next s0 handed → s ≡ empty → left ≡ none → Live codes handed s left

  abbrev pub FlightOf : Option Pull → List Code → Bytes → S → Option Bytes → Type 0
  FlightOf none codes handed s left = (left ≡ none) × Live codes handed s none
  FlightOf (some at_hand) codes handed s left =
      (¬ (In stream_eof codes)) × Yields poll_next s0 (handed ++ held left) s
  FlightOf (some at_end) codes handed s left = Ends poll_next s0 handed
  FlightOf (some released) codes handed s left = Live codes handed s none
  FlightOf (some (broken raw)) codes handed s left = Live codes handed s none

  abbrev pub Flight : List Code → Bytes → Reading S → Type 0
  Flight codes handed r = FlightOf r.pull codes handed r.source r.leftover

  -- What was handed out is what the source gave first, and after an end all that it gave.
  pub record IsDelivered (codes : List Code) (handed : Bytes) : Type 0 where
    pub in_order : Begins poll_next s0 handed
    pub at_eof : In stream_eof codes → Ends poll_next s0 handed

  pub Ends-Begins : (handed : Bytes) → Ends poll_next s0 handed → Begins poll_next s0 handed
  Ends-Begins handed (t, u, y, e) =
      ([], t, subst (λ b. Yields poll_next s0 b t) (sym (append-nil handed)) y)

  pub Live-IsDelivered :
      (codes : List Code) (handed : Bytes) (s : S) (left : Option Bytes)
      → Live codes handed s left
      → IsDelivered codes handed
  Live-IsDelivered codes handed s left (flowing unended y) = record {
    in_order = (held left, s, y);
    at_eof = λ i. absurd (unended i);
  }
  Live-IsDelivered codes handed s left (over ends e f) = record {
    in_order = Ends-Begins handed ends;
    at_eof = λ i. ends;
  }

  pub Flight-IsDelivered :
      (p : Option Pull) (codes : List Code) (handed : Bytes) (s : S) (left : Option Bytes)
      → FlightOf p codes handed s left
      → IsDelivered codes handed
  Flight-IsDelivered none codes handed s left (e, live) = Live-IsDelivered codes handed s none live
  Flight-IsDelivered (some at_hand) codes handed s left (unended, y) = record {
    in_order = (held left, s, y);
    at_eof = λ i. absurd (unended i);
  }
  Flight-IsDelivered (some at_end) codes handed s left ends = record {
    in_order = Ends-Begins handed ends;
    at_eof = λ i. ends;
  }
  Flight-IsDelivered (some released) codes handed s left live =
      Live-IsDelivered codes handed s none live
  Flight-IsDelivered (some (broken raw)) codes handed s left live =
      Live-IsDelivered codes handed s none live

  -- a code other than the end, with unended bytes
  pub Live-code :
      (code : Code) (codes : List Code) (handed : Bytes) (s : S) (left : Option Bytes)
      → code ≢ stream_eof
      → Live codes handed s left
      → Live (code ∷ codes) handed s left
  Live-code code codes handed s left other (flowing unended y) =
      flowing (λ i. elim i [ inl e ↦ other (sym e) | inr j ↦ unended j ]) y
  Live-code code codes handed s left other (over ends e f) = over ends e f

  pub begin-Flight :
      (codes : List Code) (handed : Bytes) (s : S) (left : Option Bytes)
      → Live codes handed s left
      → FlightOf (pull_of left) codes handed s left
  begin-Flight codes handed s none live = (refl, live)
  begin-Flight codes handed s (some c) (flowing unended y) = (unended, y)
  begin-Flight codes handed s (some c) (over ends e f) = cc f

  -- a code other than the end, and no bytes
  pub Live-nothing :
      (code : Code) (codes : List Code) (handed : Bytes) (s : S)
      → code ≢ stream_eof
      → Live codes handed s none
      → Live (code ∷ codes) (handed ++ []) s none
  Live-nothing code codes handed s other live =
      Live-code code codes (handed ++ []) s none other
        (subst (λ b. Live codes b s none) (sym (append-nil handed)) live)

  -- where all was given, the read ends at the first poll
  module _ (ends_again : poll_next empty ≡ ready none empty) where
    pub answered-Flight :
        (fired : Bool) (codes : List Code) (handed : Bytes) (r : Reading S) (a : Polled S)
        → poll_next r.source ≡ a
        → r.pull ≡ none
        → r.leftover ≡ none
        → Live codes handed r.source none
        → Flight codes handed (answered fired r a)
    unfolding answered
    answered-Flight fired codes handed r (ready none s) e f g (flowing unended y) =
        (r.source, s, subst (λ b. Yields poll_next s0 b r.source) (append-nil handed) y, e)
    answered-Flight fired codes handed r (ready none s) e f g (over ends h k) = ends
    answered-Flight true codes handed r (pending s) e f g (over ends h k) = cc (e, h, ends_again)
    answered-Flight false codes handed r (pending s) e f g (over ends h k) = cc (e, h, ends_again)
    answered-Flight fired codes handed r (ready (some (failed raw)) s) e f g (over ends h k) =
        cc (e, h, ends_again)
    answered-Flight fired codes handed r (ready (some (chunk [])) s) e f g (over ends h k) =
        cc (e, h, ends_again)
    answered-Flight fired codes handed r (ready (some (chunk (b ∷ bs))) s) e f g (over ends h k) =
        cc (e, h, ends_again)
    answered-Flight true codes handed r (pending s) e f g (flowing unended y) =
        flowing unended (waits y e)
    answered-Flight false codes handed r (pending s) e f g (flowing unended y) =
        (g, flowing unended (waits y e))
    answered-Flight fired codes handed r (ready (some (failed raw)) s) e f g (flowing unended y) =
        flowing unended (fails y e)
    answered-Flight fired codes handed r (ready (some (chunk [])) s) e f g (flowing unended y) =
        rw f (
          g,
          flowing unended
              (subst (λ b. Yields poll_next s0 b s) (append-nil (handed ++ [])) (gives y e)),
        )
    answered-Flight fired codes handed r (ready (some (chunk (b ∷ bs))) s) e f g
          (flowing unended y) =
        (unended, subst (λ x. Yields poll_next s0 (x ++ b ∷ bs) s) (append-nil handed) (gives y e))

  -- Handing out the head of a chunk keeps the rest of it.
  pub head-Live :
      (n : ℕ) (codes : List Code) (handed : Bytes) (s : S) (left : Option Bytes)
      → ¬ (In stream_eof codes)
      → Yields poll_next s0 (handed ++ held left) s
      → Live (count (length (head_of n left)) ∷ codes) (handed ++ head_of n left) s (tail_of n left)
  head-Live n codes handed s none unended y =
      flowing (λ i. elim i [ inl e ↦ cc e | inr j ↦ unended j ])
        (subst (λ b. Yields poll_next s0 b s) (sym (append-nil (handed ++ []))) y)
  head-Live n codes handed s (some c) unended y = elim (Bool-cases (ltb n (length c))) [
    | inl e ↦
        flowing (λ i. elim i [ inl f ↦ cc f | inr j ↦ unended j ])
          (rw e (
            subst (λ b. Yields poll_next s0 b s)
              (ap (λ b. handed ++ b) (sym (take-append-drop n c))
                ∙ sym (append_assoc handed (take n c) (drop n c)))
              y))
    | inr e ↦
        flowing (λ i. elim i [ inl f ↦ cc f | inr j ↦ unended j ])
          (rw e (
            subst (λ b. Yields poll_next s0 b s)
              (ap (λ b. handed ++ b) (sym (take_all n c (ground (arith, e))))
                ∙ sym (append-nil (handed ++ take n c)))
              y))
  ]
