-- ===== src/Lib.antt =====
-- SelCal calibrates the selection of a candidate lag: a statistic is evaluated for a family of
-- candidate lags, the best candidate is selected, and the selection is repeated on transformed data
-- to find out how often a null model does as well. This library models the numerical core of
-- src/selcal and what its records promise.
--
-- The parts and how they interact. A caller's candidates go through `canonical_candidates`
-- (src/selcal/contracts.py) to a sorted family; src/selcal/support.py aligns the two series for
-- all lags. A statistic adapter returns one raw result for each candidate, and `select_family_v2`
-- (src/selcal/selection_v2.py) scores the family and selects. A null model
-- (src/selcal/nulls/*_v2.py) is bound to the observed pair; for each replicate it samples a token with
-- the uniform source of src/selcal/randomness.py and applies it to the pair. The outcomes go into
-- the records of src/selcal/contracts_v2.py, whose constructors refuse whatever does not follow
-- from the stored outcomes. src/selcal/exact_oracle_v0.py enumerates the states instead.
-- A stored result is checked again by the leaves of src/selcal/_verifier_primitives_v2.py. The adapters
-- are built by name from a registry (src/selcal/registry.py) with parameters that
-- src/selcal/parameters.py has frozen, and the series come out of an archive that
-- src/selcal/npz_safe.py has checked.
--
-- Files:
--   Prelude.antt      shared names, Boolean tests, lists, indices, signed integers, and the tally of the
--                     elements of a list that have a property
--   Errors.antt       exceptions by class; `Result` with its bind (`>>=`) and `raise_if`
--   Arrays.antt       reads of tuples and vectors by position, `%` of a difference
--   Floats.antt       binary64 floats as a parameter, with the laws of IEEE 754 that are used
--   Candidates.antt   `canonical_candidates`
--   Contracts.antt    `SeriesPair`, `StatisticResult`, `SelectionResult` and their validators
--   Selection.antt    steps of the selection; Selection/Family.antt is `select_family_v2` and
--                     Selection/Candidate.antt `select_candidate`, the first selector
--   Support.antt      `CommonSupport`, `LaggedTriplet`, `common_support`
--   Random.antt       `_uniform_randbelow_from_next`; Random/Attempts.antt one attempt by the words that it
--                     reads, Random/Seed.antt the framed seed preimage
--   Nulls.antt        Nulls/Token.antt the token contracts, Nulls/Owned.antt owned_transform_v2.py,
--                     Nulls/Circular.antt, Nulls/Block.antt and Nulls/Block/Bound.antt the two
--                     v2 nulls
--   Results.antt      vector checks; Results/Outcome.antt `ReplicateOutcome`, Results/Run.antt and
--                     Results/Calibration.antt `CalibrationResult`, Results/Budget.antt the budget
--   Oracle.antt       the exact oracle; Oracle/Orders.antt its enumeration of block orders
--   Verifier.antt     src/selcal/_verifier_primitives_v2.py: vectors; Verifier/Terminal.antt the terminal
--                     states, Verifier/Replicate.antt one replicate, Verifier/Run.antt
--                     `verify_calibration_result` of contracts_v2.py
--   Parameters.antt   src/selcal/parameters.py: the freezing of a caller's JSON mapping, on a heap;
--                     Parameters/Copies.antt what a frozen value is, Parameters/Finite.antt that all
--                     finite trees are accepted, Parameters/Exact.antt the parameters of the nulls
--   Registry.antt     src/selcal/identifiers.py and src/selcal/registry.py: names and the registry
--   Npz.antt          src/selcal/npz_safe.py: extra fields; Npz/Archive.antt the preflight of an archive,
--                     Npz/Extract.antt the extraction of a member
--
-- A record of the source is a record with the source's field names. A constructor call is a function
-- that takes the record and does what `__post_init__` does. An exception is the `err` of a `Result`;
-- its message is left out. A random source is a state with a step.
--
-- Bounds and fuel. The `while True` loop of the sampler runs on fuel, and the model says for every
-- stream when enough fuel is given. The loop that inflates a member runs on fuel above the compressed
-- bytes and the size limit together, which is shown to be enough. The room of 65 in the freezing of
-- parameters is the nesting limit of the code. All other loops are structural. Python ints are
-- unbounded; those that a guard has shown not to be negative are numbers, the others are signed
-- integers. The operands of the budget, the counts of a calibration result and a selected index are
-- numbers from the start, so the checks that refuse a negative one have no case here.
--
-- Not modelled: the tests of a field's Python type, which a typed model does not need; the guards
-- against replaced functions and descriptors; SHA-256 and PCG64, which are parameters; the statistic
-- adapters; zlib, whose decompressor is a parameter; numpy, whose `empty_like` is a parameter; the
-- resolution of plans; the JSON, SQLite and command line parts, which are input and output.
pub mod Prelude
pub mod Errors
pub mod Arrays
pub mod Floats
pub mod Candidates
pub mod Contracts
pub mod Selection
pub mod Support
pub mod Parameters
pub mod Npz
pub mod Verifier
pub mod Random
pub mod Registry
pub mod Nulls
pub mod Results
pub mod Oracle
