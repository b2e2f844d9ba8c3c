-- ===== src/Lib.antt =====
-- hammerhead-bench scores two network simulators, Batfish and Hammerhead, against the forwarding
-- tables of real routers and against each other. Adapters wait until the routers of a topology have
-- converged and read their tables; converters turn the JSON of each tool into one canonical FIB; the
-- diff engine compares the FIBs cell by cell, a cell being a node, a VRF and a prefix; metrics and
-- scores reduce the records to rates. This library models that path.
--
-- Prelude: text, integers, dictionaries, sets, stable sorting and fractions, as Python has them. A
--   `str` is a list of code points, a `dict` a list of items with distinct keys, a rate the fraction
--   whose quotient the program computes.
-- Json: the values of `json.loads`, Python's builtins on them, exceptions as values (Result), and
--   pydantic's field validation as an interface (Validation), with the law that values of the
--   declared type are taken as they are (IsTyped).
-- Fib: harness/extract/fib.py, the schema and its canonical form, and the loopback policy of
--   harness/aggregate.py.
-- Convert: harness/extract/fib.py (Frr, Eos, Bgp) and harness/tools/hammerhead_transform.py
--   (Hammerhead). Labels has what the two parsers of routing tables share; Scope says which entries count.
--   Flatten is `_flatten_eos_bgp` and the route count of harness/adapters/ceos.py.
-- Diff: harness/diff/engine.py (Key, Engine) and harness/diff/metrics.py (Metrics).
-- Pipeline: of harness/pipeline.py, the reconciliation of loopback hosts (Loopback), the pairwise
--   comparison (Pairwise), the routing part of `_compute_sim_only_agreement` (SimOnly) and its times
--   and ratios (Means, Timing), the loop over trials and the end of `run_topology_sim_only` (Trials,
--   SimOnlyRun), `aggregate_sim_only` (Corpus), the verdicts of coverage (Coverage, and Sidecar for
--   how they are read), `run_topology` from its driver to its `finally` block (Run), and the runs with FRR as the only vendor
--   with their three-way scores (ThreeWay, TruthRun). Times are numbers of microseconds.
-- Drivers: `run_hammerhead` of harness/tools/hammerhead.py (Hammerhead), on the exit code and the
--   output of its subprocess.
-- PeakRss: the sampler of docker stats and the readings of rusage of harness/peak_rss.py.
-- Topologies: the eligibility of harness/topology.py and the selection of harness/cli.py.
-- Bench: of harness/cli.py, the loops of `bench` in its three modes with their summaries, and the
--   command from its options to its exit code (Command).
-- Aggregate: the summary of ratios of harness/aggregate.py, on ratios in whole units.
-- Batfish: of harness/tools/batfish.py, the life cycle of `BatfishService` (Service) and the transform
--   of its answers into FIBs (Transform), whose rows are JSON objects.
-- Adapters: `wait_for_convergence` of harness/adapters/frr.py and ceos.py (Convergence), and what it
--   reads from the JSON of a poll (Sessions).
-- Memory: the guards of harness/memory.py.
-- Tests: runs on small inputs.
--
-- The loops of `wait_for_convergence` and `assert_recovered_to_baseline` are functions of the list
-- of what they read and when, and return nothing if the list ends first. Each pass sleeps for a
-- second at least, so as many passes as the timeout has seconds, and one more, are enough.
-- All other loops are structural.
--
-- Not modelled: rounding to doubles, JSON numbers with a fraction, `lower` and `strip` beyond ASCII,
-- files and subprocesses, the geometric mean, the driver of Batfish around its service and
-- transform, reports and rendering. Most of these are input and output.
pub mod Prelude
pub mod Fib
pub mod Diff
pub mod Json
pub mod Convert
pub mod Adapters
pub mod Aggregate
pub mod Memory
pub mod Batfish
pub mod PeakRss
pub mod Drivers
pub mod Topologies
pub mod Pipeline
pub mod Bench
pub mod Tests
