-- ===== src/Lib.antt =====
-- gwead, a kernel that runs plugins: their actions are graphs of steps whose parameters refer to
-- each other in a small language. This library models the parts that decide, and leaves out the
-- parts that only perform.
--
-- The parts, and how they interact.
-- - Identity (src/kernel/identity.rs): names, namespaces and their ancestor chains, step type
--   names, implRefs, and the identity of a plugin. Functions keep their names; an error value keeps
--   the fields that its message prints.
-- - Dsl (src/dsl/): the language of references and expressions. Dsl/Ast.antt is ast.rs,
--   Dsl/Lexer.antt lexer.rs, Dsl/Parser.antt parser.rs and Dsl/Eval.antt eval.rs. The lexer's state
--   is the text left and the position; the parser's is the tokens left and its two counters,
--   threaded through a monad of results. Step ids that Identity validates are what the parser reads
--   behind `$steps.`: Dsl/Steps.antt puts the two together.
-- - Dag (src/kernel/dag.rs): the plan of an action. Dag/Scan.antt collects the ids that the
--   parameters of a step refer to, Dag.antt resolves them to edges and layers the graph into waves;
--   Dag/Inner.antt, Dag/Deps.antt and Dag/Build.antt describe both on their own terms.
-- - Budget (src/kernel/resource_budget.rs): the accounting that wasmtime asks before it grows a
--   memory or a table. Budget/Grows.antt has the store that it accounts for, in which a grow that was
--   allowed may fail.
-- - Permissions (src/kernel/permissions.rs): the grants of a manifest. Permissions.antt has the
--   grants and the checks, Permissions/Grammar.antt the parser of an entry, which validates names by
--   Identity, and Permissions/Categories.antt the categories of an embedder.
-- - Invoke (src/kernel/invoke.rs): the graph of the invocations that actions declare, and its
--   check for cycles when a plugin is registered. Invoke.antt has the search; Invoke/Walks.antt
--   describes cycles by themselves. Invoke/Edges.antt collects the edges from the steps of an action
--   and the bodies inside them, which Invoke/Bodies.antt describes by themselves,
--   Invoke/References.antt from the references that step types declare, which Invoke/Literal.antt
--   reads by themselves.
-- - Streams (src/kernel/streams.rs): the streams of an execution. Streams.antt has the reads and
--   writes of one stream, each cut into the parts between two points at which other tasks may run;
--   Streams/Events.antt puts them together with closes, takes and reads dropped in flight, in any
--   order. Streams/Registry.antt
--   has the handle tables, Streams/FanOut.antt the eager fan-out, and Streams/Tables.antt the tables
--   of any number of executions over one store of streams, since a stream is shared by reference.
-- - Registry (src/kernel/registry.rs): what the kernel keeps of its registered plugins.
--   Registry.antt has the tables and what adds to them, Registry/Lookup.antt the lookups and the
--   removal of a plugin; Registry/Acyclic.antt puts the check of Invoke in front of the edges that a
--   registration commits, as src/kernel/mod.rs does.
-- - Prelude, Fault, Text and Json are shared: lists and results, the ways a run can end, the
--   functions of Rust's `str`, and the values of serde_json.
--
-- What comes from outside. A `f64` and a number of serde_json are abstract: what the code does
-- with them are the fields of the record Dsl.Float.F64, which the definitions take. The two
-- regular expressions of dag.rs are functions that the definitions take. The validator of an
-- embedder's category of permissions is a function in its record. The source of a stream and the
-- sender of a channel are types of which only the answers to a poll are known, by a function that
-- the definitions take; what serde derives for a step is a function with the text of its error.
-- `empty`, `prepend` and `iter` stand for the combinators of the crate futures. The order in which
-- a hash map yields its keys is a function too. Strings are lists of Unicode scalar values in
-- Identity and Permissions, and lists of bytes in Dsl; a map of serde_json is the list of its
-- members in the order in which it is iterated over.
--
-- Loops and fuel. A loop that is not structural has fuel, and running out is a value of its own,
-- told from the errors of the code; so is a panic on an index. The lexer has one round for each
-- byte and one for the end, since each token takes a byte. The segments of a path have one round
-- for each token and one for the end. A level of precedence has 257 rounds, since the count of
-- operators fails past 256; the nesting of `!` and `(` has 129 levels, since the count of levels
-- fails past 128. The search for a cycle has one round for each edge and each node of the graph.
-- The collection of edges goes as deep as the parameters have values, since a step's parameters
-- are smaller than the value that it is parsed from. A read has one round for each poll, with
-- whether the token has then fired, and is still parked when they are used up. The walk up the
-- namespaces has one round for each character and one for the root, and the layering one for each
-- step. A `usize` has 64 bits.
--
-- Not modelled: the execution of steps, the task behind the streaming fan-out, the script runtime
-- and the host interface, which are asynchronous I/O around wasmtime and tokio; the kernel's other
-- checks on a registration, dispatch, secrets, templates, and the validation of plugin
-- definitions; the texts of messages.
pub mod Prelude
pub mod Fault
pub mod Text
pub mod Json
pub mod Budget
pub mod Identity
pub mod Dsl
pub mod Dag
pub mod Invoke
pub mod Permissions
pub mod Streams
pub mod Registry
