-- ===== src/Lib.antt =====
-- A model of the contract SDK and its runtime, with the theorems that make them correct.
--
-- A contract is a WebAssembly module. Its author writes callbacks over typed states and events; the
-- SDK (src/lib.rs) reads their arguments out of host memory, runs them, and stores the result
-- there. The host (src/runtime) compiles and validates modules, stages the arguments as
-- length-framed payloads in a `MemoryManager`, serves the module's four imports from it, and reads
-- the result.
--
-- Base: what the modules share: lists of bytes over native numbers, results, stateful and fallible
--   code (`Exec`: a function of the state that returns a result and the state after), casts between
--   machine integers with their wrap-around, bits, and text.
-- Sdk: src/lib.rs, src/error.rs and src/externf.rs. Context has the types of the callbacks and
--   `require_owner`; Transfer has `get_from_context`, `read_and_parse` and `store`; Contract has
--   `check_init_data` and `execute_contract`; Extern is the interface of the imports, whose calls
--   may trap, and Mock is the host of the unit tests behind it; Wire holds the crates borsh,
--   serde_json and ave_common as records of operations and laws. Traced is a host that records a
--   contract's calls: Runs and Protocol follow them through the steps of the entry points, Erased
--   forgets the record, and Safe puts the two together. Steady says what the entry points keep of a
--   host.
-- Runtime: src/runtime. Memory is `MemoryManager` of host.rs with its invariant (Inv), the blocks
--   that it holds (Blocks, BlockStore), the refinement (Refine) and the types (Typed); Linker is
--   `generate_linker` of host.rs, Linker.Setup what it defines, Linker.Guest a contract's calls through
--   it, Linker.Safe what any guest can do with it, and Linker.Live what the host can still do after
--   it; Config and Wasm are
--   config.rs, with the binary form that Wasm reads in Wasm.Uleb and Wasm.Encoded; Staging,
--   Imports, Compile, Validate, Execute and Fingerprint are the parts of contract_runtime.rs,
--   Execute.Session a sequence of events that share their metrics, which InStep compares,
--   Independent the results without them, Execute.Concurrent events that run at the same time, over the updates
--   of Metrics.Updates, and Execute.Hostile and Validate.Hostile a module that does whatever it
--   can, and Validate.Executable what a validation promises; Failures, with Execute.Failures,
--   Validate.Failures and Imports.Blame, says what an error tells; Engine holds the wasmtime
--   operations that they call; Metrics is metrics.rs; Error is error.rs.
-- Bridge: a contract on its host. Service says what the SDK needs of a host, and Entry follows
--   `execute_contract` and `check_init_data` over any host that provides it; Linked and Mocked
--   provide it by the runtime's imports and by the mock host. Verdict says what an event is meant
--   to give, Read and Store follow a value across the boundary, Guest an entry point on the
--   runtime, Event `execute`, Init `validate`, Agree and Agree.Validation two machines, NoMemory a
--   host with no room for a report, and Refusals how a contract can be stopped.
-- Example: example/src/lib.rs, example2/src/lib.rs and example-malicious/src/lib.rs, with what the
--   first two report (Reports), and the first executed by the runtime (Executed).
-- UnitTests: the unit tests of src/error.rs, example/src/lib.rs, example2/src/lib.rs, src/tests.rs
--   and src/runtime/tests.rs that need no library, as Boolean runs of the model.
-- Checks: runs at small inputs.
--
-- Numbers are unbounded, with `% 2 ^ w` written out where the code casts, and with checks where it
-- checks. `usize` has 64 bits on the host and 32 in a contract. A `&mut` argument is a state passed
-- on: a callback maps the result before to the result after, and an import maps the host's manager
-- and the guest's linear memory. The guest's own allocator puts a vector at an
-- address of the linear memory, or traps where the memory cannot grow; it has room for every vector
-- up to a capacity, which may be 0. The theorems on a contract's run to its end ask for a capacity
-- of the manager's largest allocation, which is 8 MiB at most. The loop of `declared_min_memory_bytes` is given a round for each byte of the
-- module, and takes a byte at least in each; the reader of numbers has its five rounds. A run of
-- compiled code is an operation of the engine: the theorems on `execute` and `validate` name as
-- hypothesis that the engine runs the module to the end that the SDK's entry point gives it, with
-- fuel and linear memory enough, and the theorem on any module at all that wasmtime lets it reach the host's data by
-- the imports only.
--
-- Each update of one family of metrics is taken to be atomic, as prometheus_client makes it; what
-- executions share besides is the engine, which they do not change.
--
-- Not modelled: the tests over serde_json, borsh, wat and wasmtime; the accessors of a runtime and
-- of a compiled module, which return a field; the failure of the build of example-malicious, which
-- is the compiler's. The order in which a hash set gives up the names of missing imports is a
-- parameter, a permutation. `read_bytes` of the manager is no call of the store of blocks, since it
-- reads across them. What wasmtime's compatibility hash takes from the platform is an argument. Of
-- the store's limits, that on the linear memory is seen as the trap of the guest's allocator, and
-- those on tables and instances are not modelled. The thread-local statics of the mock host are one
-- state, and its map a function.
pub mod Base
pub mod Runtime
pub mod Sdk
pub mod Bridge
pub mod Example
pub mod UnitTests
pub mod Checks
