-- ===== src/Budget/Tests.antt =====
-- Runs of the budget on small inputs.
use gwead.Prelude.{List, ◌≡◌, refl, true, false, [], ◌∷◌, arith}
use gwead.Budget.{RuntimeLimits, ResourceBudget, new, memory_growing, table_growing}
use gwead.Budget.Grows.{
  Sizes, IsCharged, Request, grow, memory, table, empty_store, run, decided, run-IsCharged,
  memory_growing_exact,
}

abbrev small : RuntimeLimits
small = record {
  max_memory_bytes = 300;
  max_table_elements = 64;
  max_instances = 10;
  max_tables = 10;
  max_memories = 10;
}

-- One memory that fills the cap leaves no room for another.
many_share : (memory_growing (memory_growing (new small) 0 300).0 0 1).1 ≡ false
unfolding memory_growing new
many_share = refl

-- The first memory does not grow past its own maximum, and the bytes stay charged.
abbrev requests : List Request
requests =
    memory 0 100 true
    ∷ memory 0 150 false
    ∷ memory 1 50 true
    ∷ memory 1 1 true
    ∷ table 0 64 true
    ∷ []

run_final : (run (empty_store small) requests).sizes.memories ≡ 100 ∷ 50 ∷ []
unfolding run grow memory_growing table_growing new
run_final = refl

run_lost_bytes : (run (empty_store small) requests).memory_lost ≡ 150
unfolding run grow memory_growing table_growing new
run_lost_bytes = refl

run-IsCharged_example : IsCharged small (run (empty_store small) requests)
run-IsCharged_example = run-IsCharged small requests

abbrev grown : List Request
grown = memory 0 200 true ∷ memory 1 100 true ∷ memory 1 1 true ∷ table 0 64 true ∷ []

abbrev half_full : ResourceBudget × Sizes
half_full = (
  record {
    max_memory_bytes = 300;
    max_table_elements = 64;
    max_instances = 10;
    max_tables = 10;
    max_memories = 10;
    committed_memory_bytes = 200;
    committed_table_elements = 0;
    memory_denied = false;
  },
  record { memories = 200 ∷ []; tables = [] },
)

memory_growing_exact_example : memory_growing half_full.0 0 101 ≡ decided half_full.0 301
memory_growing_exact_example =
    memory_growing_exact small half_full.0 half_full.1 1 101 (omega arith) (omega arith)
