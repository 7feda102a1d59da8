-- ===== src/Benchmark.antt =====
-- src/actioncloud/benchmark: the grading of answers, and the runs of the experiment harness.
pub mod Verifier
pub mod Harness
pub mod Simulator
pub mod Experiment
