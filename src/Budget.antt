-- ===== src/Budget.antt =====
-- src/kernel/resource_budget.rs: store-wide accounting of wasm memories and tables.
pub mod Grows
pub mod Tests
use gwead.Prelude.{ℕ, ◌+◌, ◌-◌, ◌^◌, Bool, true, false, Option, none, some, ltb, leb, if◌then◌else◌}

-- `usize` on the 64-bit hosts that the kernel runs on
abbrev pub usize_mod : ℕ
usize_mod = 2 ^ 64

-- The fields of `RuntimeLimits` that the budget reads.
pub record RuntimeLimits : Type 0 where
  pub max_memory_bytes : ℕ
  pub max_table_elements : ℕ
  pub max_instances : ℕ
  pub max_tables : ℕ
  pub max_memories : ℕ

pub record ResourceBudget : Type 0 where
  pub max_memory_bytes : ℕ
  pub max_table_elements : ℕ
  pub max_instances : ℕ
  pub max_tables : ℕ
  pub max_memories : ℕ
  pub committed_memory_bytes : ℕ
  pub committed_table_elements : ℕ
  pub memory_denied : Bool

-- ResourceBudget::new
unfoldable pub new : RuntimeLimits → ResourceBudget
new limits = record {
  max_memory_bytes = limits.max_memory_bytes;
  max_table_elements = limits.max_table_elements;
  max_instances = limits.max_instances;
  max_tables = limits.max_tables;
  max_memories = limits.max_memories;
  committed_memory_bytes = 0;
  committed_table_elements = 0;
  memory_denied = false;
}

-- usize::checked_sub and usize::checked_add
unfoldable pub checked_sub : ℕ → ℕ → Option ℕ
checked_sub a b = if leb b a then some (a - b) else none

unfoldable pub checked_add : ℕ → ℕ → Option ℕ
checked_add a b = if ltb (a + b) usize_mod then some (a + b) else none

-- committed.checked_sub(current).and_then(|rest| rest.checked_add(desired))
unfoldable pub recharge : ℕ → ℕ → ℕ → Option ℕ
unfolding checked_sub checked_add
recharge committed current desired = elim (checked_sub committed current) [
  | none ↦ none
  | some rest ↦ checked_add rest desired
]

charge_memory : ResourceBudget → Option ℕ → ResourceBudget × Bool
charge_memory b none = (b, false)
charge_memory b (some new_total) =
    if ltb b.max_memory_bytes new_total
    then (record b { memory_denied = true }, false)
    else (record b { committed_memory_bytes = new_total }, true)

-- ResourceBudget::memory_growing; the `None` branch also logs an error, which keeps no state.
unfoldable pub memory_growing : ResourceBudget → ℕ → ℕ → ResourceBudget × Bool
unfolding recharge charge_memory
memory_growing b current desired =
    charge_memory b (recharge b.committed_memory_bytes current desired)

charge_table : ResourceBudget → Option ℕ → ResourceBudget × Bool
charge_table b none = (b, false)
charge_table b (some new_total) =
    if ltb b.max_table_elements new_total
    then (b, false)
    else (record b { committed_table_elements = new_total }, true)

-- ResourceBudget::table_growing
unfoldable pub table_growing : ResourceBudget → ℕ → ℕ → ResourceBudget × Bool
unfolding recharge charge_table
table_growing b current desired =
    charge_table b (recharge b.committed_table_elements current desired)
