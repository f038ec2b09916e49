-- ===== src/Streams/Branches.antt =====
-- The eager fan-out: each branch gives the bytes of the producer, from where its reads had stopped.
use gwead.Prelude.{
  ℕ, zero, suc, ◌+◌, ◌≤◌, ◌<◌, ◌≡◌, ◌≢◌, inl, inr, refl, sym, ap, ◌∙◌, subst, true, false, Option,
  none, some, List, [], ◌∷◌, ◌++◌, length, length-append, get_elem?, set, replicate, In, All, arith,
  ◌==◌,
}
use gwead.Prelude.Outcome.{ok}
use gwead.Streams.{Item, chunk, Polled, ready, readable, StreamInner, new, take_inner}
use gwead.Streams.Excerpt.{Bytes}
use gwead.Streams.Flow.{held}
use gwead.Streams.Finishes.{Finishes, ends, waits, gives, read_to_end, read_to_end-Finishes}
use gwead.Streams.Registry.{max_stream_handle, StreamRegistry, Store, place, get_stream, register}
use gwead.Streams.FanOut.{joined, drain_source, branches, take_readable, fan_out_readable_shared}
use gwead.Streams.Moves.{adopted, adopt-ok}
use gwead.Streams.Entries.{place-insert_same, place-insert_other}

get_elem?-append :
    {A : Type 0} (xs ys : List A) (i : ℕ) → i < length xs → get_elem? (xs ++ ys) i ≡ get_elem? xs i
get_elem?-append [] ys i lt = absurd (omega (arith, lt))
get_elem?-append (x ∷ xs) ys zero lt = refl
get_elem?-append (x ∷ xs) ys (suc i) lt = get_elem?-append xs ys i (omega (arith, lt))

get_elem?-last : {A : Type 0} (xs : List A) (x : A) → get_elem? (xs ++ x ∷ []) (length xs) ≡ some x
get_elem?-last [] x = refl
get_elem?-last (y ∷ xs) x = get_elem?-last xs x

In-All : {A : Type 0} {P : A → Type 0} (xs : List A) → ((a : A) → In a xs → P a) → All P xs
In-All [] f = tt
In-All (x ∷ xs) f = (f x (inl refl), In-All xs (λ a i. f a (inr i)))

length-set : {A : Type 0} (xs : List A) (i : ℕ) (x : A) → length (set xs i x) ≡ length xs
length-set [] i x = refl
length-set (y ∷ ys) zero x = refl
length-set (y ∷ ys) (suc i) x = ap suc (length-set ys i x)

stream_at :
    {S W : Type 0} (id at : ℕ) (reg : StreamRegistry) (store : Store S W)
    (o : Option (StreamInner S W))
    → place id reg.streams ≡ some at
    → get_stream id reg store ≡ o
    → get_elem? store at ≡ o
unfolding get_stream
stream_at id at reg store o e f = rw (e, get_stream) at f

-- so many handles in a row
abbrev pub handles : ℕ → ℕ → List ℕ
handles next zero = []
handles next (suc n) = next ∷ handles (next + 1) n

handles-ge : (next n id : ℕ) → In id (handles next n) → next ≤ id
handles-ge next zero id i = absurd i
handles-ge next (suc n) id (inl e) = omega (arith, e)
handles-ge next (suc n) id (inr i) = omega (arith, handles-ge (next + 1) n id i)

-- no two of the handles name the same place
abbrev pub Apart : StreamRegistry → List ℕ → Type 0
Apart reg [] = Unit
Apart reg (id ∷ ids) = All (λ j. place id reg.streams ≢ place j reg.streams) ids × Apart reg ids

some_same : (a b : ℕ) (x y : Option ℕ) → x ≡ some a → y ≡ some b → x ≡ y → a ≡ b
some_same a b x y e f g = cc (e, f, g)

handles-Apart :
    (next n c d : ℕ) (reg : StreamRegistry)
    → ((id : ℕ)
        → In id (handles next n)
        → (at : ℕ) × (place id reg.streams ≡ some at) × (at + c ≡ d + id))
    → Apart reg (handles next n)
handles-Apart next zero c d reg placed = tt
handles-Apart next (suc n) c d reg placed = (
  In-All (handles (next + 1) n) λ j i e.
      let (a, ea, fa) = placed next (inl refl) in
      let (b, eb, fb) = placed j (inr i) in
      let same = some_same a b (place next reg.streams) (place j reg.streams) ea eb e in
      omega (arith, same, fa, fb, handles-ge (next + 1) n j i),
  handles-Apart (next + 1) n c d reg (λ id i. placed id (inr i)),
)

module _ {S W : Type 0} (iter : List Item → S) (items : List Item) where
  abbrev branch : StreamInner S W
  branch = new (readable (iter items) none)

  -- what the loop of the branches leaves behind
  record Made (next n : ℕ) (reg : StreamRegistry) (store : Store S W) (reg' : StreamRegistry)
      (store' : Store S W) : Type 0 where
    made : (id : ℕ) → In id (handles next n) → get_stream id reg' store' ≡ some branch
    placed :
        (id : ℕ)
        → In id (handles next n)
        → (at : ℕ) × (place id reg'.streams ≡ some at) × (at + next ≡ length store + id)
    kept :
        (id at : ℕ) → id < next → place id reg.streams ≡ some at → place id reg'.streams ≡ some at
    grown : (at : ℕ) → at < length store → get_elem? store' at ≡ get_elem? store at

  branches-Made :
      (n : ℕ) (reg : StreamRegistry) (store : Store S W)
      → reg.next_id + n ≤ max_stream_handle + 1
      → (reg' : StreamRegistry) × (store' : Store S W) × (branches {S = S} {W = W} iter n items reg
            store
          ≡ ok (handles reg.next_id n, reg', store'))
        × Made reg.next_id n reg store reg' store'
  unfolding branches register get_stream
  branches-Made zero reg store room = (
    reg,
    store,
    refl,
    record {
      made = λ id i. absurd i;
      placed = λ id i. absurd i;
      kept = λ id at lt e. e;
      grown = λ at lt. refl;
    },
  )
  branches-Made (suc n) reg store room =
      let at = length store in
      let store1 = store ++ branch ∷ [] in
      let (reg', store', e, h) = branches-Made n (adopted at reg) store1 (omega (arith, room)) in
      (
        reg',
        store',
        rw (adopt-ok at reg (omega (arith, room)), branches, register) (rw e refl),
        record {
          made = λ id i. elim i [
            | inl f ↦
                rw
                  (
                    h.kept id at (omega (arith, f)) (
                        subst (λ k. place k (adopted at reg).streams ≡ some at) (sym f)
                          (place-insert_same reg.next_id at reg.streams)),
                    get_stream,
                  )
                  (h.grown at (omega (arith, length-append store (branch ∷ [])))
                    ∙ get_elem?-last store branch)
            | inr j ↦ h.made id j
          ];
          placed = λ id i. elim i [
            | inl f ↦ (
              at,
              h.kept id at (omega (arith, f)) (
                  subst (λ k. place k (adopted at reg).streams ≡ some at) (sym f)
                    (place-insert_same reg.next_id at reg.streams)),
              omega (arith, f),
            )
            | inr j ↦
                let (a, f, g) = h.placed id j in
                (a, f, omega (arith, g, length-append store (branch ∷ [])))
          ];
          kept = λ id a lt f.
              h.kept id a (omega (arith, lt))
                (place-insert_other reg.next_id at id reg.streams (λ g. omega (arith, g, lt)) ∙ f);
          grown = λ a lt.
              h.grown a (omega (arith, lt, length-append store (branch ∷ [])))
              ∙ get_elem?-append store (branch ∷ []) a lt;
        },
      )

-- the bytes of chunks that end with no error
abbrev Gives : List Item → Bytes → Type 0
Gives [] bytes = bytes ≡ []
Gives (chunk c ∷ items) bytes = (rest : Bytes) × (bytes ≡ c ++ rest) × Gives items rest
Gives (Item.failed raw ∷ items) bytes = ⊥

module _ {S : Type 0} (poll_next : S → Polled S) where
  drain_source-Gives :
      (polls : ℕ) (s : S) (bytes : Bytes) (k : ℕ)
      → Finishes poll_next s bytes k
      → k ≤ polls
      → (items : List Item) × (drain_source poll_next polls s ≡ some items) × Gives items bytes
  unfolding drain_source
  drain_source-Gives zero s bytes k (ends e) le = absurd (omega (arith, le))
  drain_source-Gives zero s bytes k (waits e fin) le = absurd (omega (arith, le))
  drain_source-Gives zero s bytes k (gives e fin) le = absurd (omega (arith, le))
  drain_source-Gives (suc polls) s bytes k (ends e) le = ([], rw (e, drain_source) refl, refl)
  drain_source-Gives (suc polls) s bytes k (waits {t = t} {k = k'} e fin) le =
      let (items, f, g) = drain_source-Gives polls t bytes k' fin (omega (arith, le)) in
      (items, rw (e, drain_source) f, g)
  drain_source-Gives (suc polls) s bytes k
        (gives {t = t} {more = more} {bytes = rest} {k = k'} e fin) le =
      let (items, f, g) = drain_source-Gives polls t rest k' fin (omega (arith, le)) in
      (chunk more ∷ items, rw (e, drain_source) (rw f refl), (rest, refl, g))

  iter-Finishes :
      (iter : List Item → S)
      → (poll_next (iter []) ≡ ready none (iter []))
      → ((item : Item) (items : List Item)
          → poll_next (iter (item ∷ items)) ≡ ready (some item) (iter items))
      → (items : List Item) (bytes : Bytes) → Gives items bytes
      → Finishes poll_next (iter items) bytes (suc (length items))
  iter-Finishes iter over next [] bytes e =
      subst (λ b. Finishes poll_next (iter []) b 1) (sym e) (ends over)
  iter-Finishes iter over next (chunk c ∷ items) bytes (rest, e, g) =
      subst (λ b. Finishes poll_next (iter (chunk c ∷ items)) b (suc (suc (length items)))) (sym e)
        (gives (next (chunk c) items) (iter-Finishes iter over next items rest g))
  iter-Finishes iter over next (Item.failed raw ∷ items) bytes g = absurd g

  joined-Finishes :
      (prepend : Bytes → S → S)
      → ((c : Bytes) (s : S) → poll_next (prepend c s) ≡ ready (some (chunk c)) s)
      → (left : Option Bytes) (s : S) (bytes : Bytes) (k : ℕ) → Finishes poll_next s bytes k
      → (k' : ℕ) × (k' ≤ suc k)
        × Finishes poll_next (joined prepend (left, s)) (held left ++ bytes) k'
  joined-Finishes prepend first none s bytes k fin = (k, omega arith, fin)
  joined-Finishes prepend first (some c) s bytes k fin = (suc k, omega arith, gives (first c s) fin)

module _ {S : Type 0} (W : Type 0) (poll_next : S → Polled S) (empty : S) (prepend : Bytes → S → S)
    (iter : List Item → S) where
  -- Where `prepend` and `iter` yield what they are made of, in order, and the producer is an open
  -- readable whose source gives its bytes and ends with no failure: with handles left, the fan-out
  -- returns as many new handles as asked for, in a row, each of a new stream and no two of the same
  -- one, and a guest that reads any of them to the end gets what was left of the producer's chunk and
  -- all of its bytes.
  pub fan_out_readable_shared-Finishes :
      ((c : Bytes) (s : S) → poll_next (prepend c s) ≡ ready (some (chunk c)) s)
      → (poll_next (iter []) ≡ ready none (iter []))
      → ((item : Item) (items : List Item)
          → poll_next (iter (item ∷ items)) ≡ ready (some item) (iter items))
      → (at producer n polls k size : ℕ) (reg : StreamRegistry) (store : Store S W)
        (error left : Option Bytes) (source : S) (bytes : Bytes)
      → place producer reg.streams ≡ some at
      → get_elem? store at
        ≡ some (record { direction = readable source left; closed = false; last_error = error })
      → Finishes poll_next source bytes k
      → k < polls
      → 0 < size
      → reg.next_id + suc n ≤ max_stream_handle + 1
      → (reg' : StreamRegistry) × (store' : Store S W) × (fan_out_readable_shared poll_next empty
            prepend iter polls producer
            (suc n)
            reg
            store
          ≡ ok (handles reg.next_id (suc n), reg', store'))
        × All
            (λ id.
              (at' : ℕ) × (inner : StreamInner S W) × (rounds : ℕ) × (place id reg'.streams
                ≡ some at')
              × (length store ≤ at')
              × (get_elem? store' at' ≡ some inner)
              × (read_to_end W poll_next empty
                    (suc (length (held left ++ bytes)))
                    (replicate rounds false)
                    size
                    inner
                  ≡ some (held left ++ bytes)))
            (handles reg.next_id (suc n))
        × Apart reg' (handles reg.next_id (suc n))
  unfolding fan_out_readable_shared take_readable take_inner
  fan_out_readable_shared-Finishes first over next at producer n polls k size reg store error left
        source bytes e f fin enough some_room room =
      let (k', le, fin') = joined-Finishes poll_next prepend first left source bytes k fin in
      let (items, g, gave) =
        drain_source-Gives poll_next polls (joined prepend (left, source)) (held left ++ bytes) k'
          fin' (omega (arith, le, enough)) in
      let nonzero : (suc n == 0) ≡ false = ground arith in
      let taken : StreamInner S W = record {
        direction = readable empty none;
        closed = true;
        last_error = error;
      } in
      let (reg', store', h, made) =
        branches-Made iter items (suc n) reg (set store at taken) room in
      (
        reg',
        store',
        rw (e, fan_out_readable_shared, take_readable) (rw f (rw g (rw nonzero h))),
        In-All (handles reg.next_id (suc n)) λ id i.
            let (at', placed, e') = made.placed id i in
            (
              at',
              new (readable (iter items) none),
              suc (length items),
              placed,
              omega (arith, e', handles-ge reg.next_id (suc n) id i, length-set store at taken),
              stream_at id at' reg' store' _ placed (made.made id i),
              read_to_end-Finishes W poll_next empty (iter items) (held left ++ bytes)
                  (suc (length items)) size
                  (iter-Finishes poll_next iter over next items (held left ++ bytes) gave)
                  some_room,
            ),
        handles-Apart reg.next_id (suc n) reg.next_id (length (set store at taken)) reg'
            made.placed,
      )
