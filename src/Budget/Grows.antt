-- ===== src/Budget/Grows.antt =====
-- The budget against the store that it accounts for: any sequence of grow requests, on any memory
-- or table of the store or on a new one.
use gwead.Prelude.{
  ℕ, zero, suc, ◌+◌, ◌≤◌, ◌<◌, ◌≡◌, Bool, ltb, leb, true, false, List, [], ◌∷◌, arith,
  if◌then◌else◌, get_or,
}
use gwead.Budget.{RuntimeLimits, ResourceBudget, new, memory_growing, table_growing, usize_mod}

-- What each kind of object holds now: the sizes of the memories, in bytes, and of the tables.
pub record Sizes : Type 0 where
  pub memories : List ℕ
  pub tables : List ℕ

-- A request of wasmtime: grow the object with this index by so much, and whether it is grown once the
-- limiter allows it, which the object's own maximum or the host's memory may prevent. An index past
-- the end is the allocation of a new object, whose present size is 0.
pub data Request : Type 0 where
  memory : ℕ → ℕ → Bool → Request
  table : ℕ → ℕ → Bool → Request

-- A store, with what was allowed in it and then not grown.
pub record Store : Type 0 where
  pub budget : ResourceBudget
  pub sizes : Sizes
  pub memory_lost : ℕ
  pub table_lost : ℕ

abbrev pub resize : List ℕ → ℕ → ℕ → List ℕ
resize [] i v = v ∷ []
resize (x ∷ xs) zero v = v ∷ xs
resize (x ∷ xs) (suc i) v = x ∷ resize xs i v

abbrev pub sum : List ℕ → ℕ
sum [] = 0
sum (x ∷ xs) = x + sum xs

sum-resize : (xs : List ℕ) (i v : ℕ) → sum (resize xs i v) + get_or xs i 0 ≡ sum xs + v
sum-resize [] i v = omega arith
sum-resize (x ∷ xs) zero v = omega arith
sum-resize (x ∷ xs) (suc i) v = omega (arith, sum-resize xs i v)

get_or-le-sum : (xs : List ℕ) (i : ℕ) → get_or xs i 0 ≤ sum xs
get_or-le-sum [] i = omega arith
get_or-le-sum (x ∷ xs) zero = omega arith
get_or-le-sum (x ∷ xs) (suc i) = omega (arith, get_or-le-sum xs i)

-- what became of an object that the limiter allowed to grow
abbrev pub grow_memory : Store → ℕ → ℕ → Bool → Store
grow_memory st i by true = record st {
  sizes = record st.sizes {
    memories = resize st.sizes.memories i (get_or st.sizes.memories i 0 + by);
  };
}
grow_memory st i by false = record st { memory_lost = st.memory_lost + by }

abbrev pub grow_table : Store → ℕ → ℕ → Bool → Store
grow_table st i by true = record st {
  sizes = record st.sizes { tables = resize st.sizes.tables i (get_or st.sizes.tables i 0 + by) };
}
grow_table st i by false = record st { table_lost = st.table_lost + by }

-- wasmtime asks the limiter, also where the object's own maximum does not let it grow so far, and the
-- object is grown only if it is allowed to. The hooks by which wasmtime tells that a grow has failed
-- are the defaults, which change nothing.
unfoldable pub grow : Store → Request → Store
grow st (memory i by grown) =
    let current = get_or st.sizes.memories i 0 in
    let (b, allowed) = memory_growing st.budget current (current + by) in
    if allowed then grow_memory (record st { budget = b }) i by grown else record st { budget = b }
grow st (table i by grown) =
    let current = get_or st.sizes.tables i 0 in
    let (b, allowed) = table_growing st.budget current (current + by) in
    if allowed then grow_table (record st { budget = b }) i by grown else record st { budget = b }

unfoldable pub run : Store → List Request → Store
run st [] = st
run st (r ∷ rs) = run (grow st r) rs

abbrev pub empty_store : RuntimeLimits → Store
empty_store limits = record {
  budget = new limits;
  sizes = record { memories = []; tables = [] };
  memory_lost = 0;
  table_lost = 0;
}

-- The totals are the sizes of the store and what was allowed and not grown, and within the caps.
pub record IsCharged (limits : RuntimeLimits) (st : Store) : Type 0 where
  pub memory_cap : st.budget.max_memory_bytes ≡ limits.max_memory_bytes
  pub table_cap : st.budget.max_table_elements ≡ limits.max_table_elements
  pub memory_total : st.budget.committed_memory_bytes ≡ sum st.sizes.memories + st.memory_lost
  pub table_total : st.budget.committed_table_elements ≡ sum st.sizes.tables + st.table_lost
  pub memory_fits : sum st.sizes.memories + st.memory_lost ≤ limits.max_memory_bytes
  pub table_fits : sum st.sizes.tables + st.table_lost ≤ limits.max_table_elements

-- The accounting has not drifted, and the store is within its caps.
pub record IsAccounted (limits : RuntimeLimits) (st : ResourceBudget × Sizes) : Type 0 where
  pub memory_cap : st.0.max_memory_bytes ≡ limits.max_memory_bytes
  pub table_cap : st.0.max_table_elements ≡ limits.max_table_elements
  pub memory_total : st.0.committed_memory_bytes ≡ sum st.1.memories
  pub table_total : st.0.committed_table_elements ≡ sum st.1.tables
  pub memory_fits : sum st.1.memories ≤ limits.max_memory_bytes
  pub table_fits : sum st.1.tables ≤ limits.max_table_elements

new-IsCharged : (limits : RuntimeLimits) → IsCharged limits (empty_store limits)
unfolding new
new-IsCharged limits = ground arith

grow-IsCharged :
    (limits : RuntimeLimits) (st : Store) (r : Request)
    → IsCharged limits st
    → IsCharged limits (grow st r)
unfolding grow memory_growing table_growing
grow-IsCharged limits st (memory i by true) h =
    let current = get_or st.sizes.memories i 0 in
    ground (arith, sum-resize st.sizes.memories i (current + by), get_or-le-sum st.sizes.memories i)
grow-IsCharged limits st (memory i by false) h = ground (arith, get_or-le-sum st.sizes.memories i)
grow-IsCharged limits st (table i by true) h =
    let current = get_or st.sizes.tables i 0 in
    ground (arith, sum-resize st.sizes.tables i (current + by), get_or-le-sum st.sizes.tables i)
grow-IsCharged limits st (table i by false) h = ground (arith, get_or-le-sum st.sizes.tables i)

run-IsCharged_from :
    (limits : RuntimeLimits) (rs : List Request) (st : Store)
    → IsCharged limits st
    → IsCharged limits (run st rs)
unfolding run
run-IsCharged_from limits [] st h = h
run-IsCharged_from limits (r ∷ rs) st h =
    run-IsCharged_from limits rs (grow st r) (grow-IsCharged limits st r h)

-- Whatever sequence of grow requests a module makes, over however many memories and tables, and
-- whichever of the grows that are allowed then fail: the store as a whole stays within both caps, and
-- the budget's totals are the sizes of the store and all that was allowed and not grown.
pub run-IsCharged :
    (limits : RuntimeLimits) (rs : List Request) → IsCharged limits (run (empty_store limits) rs)
run-IsCharged limits rs = run-IsCharged_from limits rs (empty_store limits) (new-IsCharged limits)

-- The grow does not fail once it is allowed.
abbrev pub Succeeds : Request → Type 0
Succeeds (memory i by grown) = grown ≡ true
Succeeds (table i by grown) = grown ≡ true

-- The size that the memories would have in all after the request.
abbrev pub wanted : Sizes → ℕ → ℕ → ℕ
wanted s i desired = sum (resize s.memories i desired)

-- The decision on a request, by the total that it would bring the memories to.
abbrev pub decided : ResourceBudget → ℕ → ResourceBudget × Bool
decided b total =
    if leb total b.max_memory_bytes
    then (record b { committed_memory_bytes = total }, true)
    else if ltb total usize_mod
    then (record b { memory_denied = true }, false)
    else (b, false)

-- In a store that the budget accounts for, a memory may grow exactly if the memories then fit the
-- cap in all, and the budget then holds their new total. A refusal leaves the total as it was, and
-- is recorded as the cap's unless the requested total does not fit a `usize`. The cap does.
pub memory_growing_exact :
    (limits : RuntimeLimits) (b : ResourceBudget) (s : Sizes) (i desired : ℕ)
    → IsAccounted limits (b, s)
    → limits.max_memory_bytes < usize_mod
    → memory_growing b (get_or s.memories i 0) desired ≡ decided b (wanted s i desired)
unfolding memory_growing
memory_growing_exact limits b s i desired h small = ground (
  arith,
  h.memory_cap,
  h.memory_total,
  sum-resize s.memories i desired,
  get_or-le-sum s.memories i,
)
