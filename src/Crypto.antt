-- ===== src/Crypto.antt =====
-- LKM/crypto_challenge/crypto_challenge.c: sampling, scoring, the end of the benchmark
-- and the life of a worker.
pub mod Sampling
pub mod Score
pub mod Control
pub mod Clock
pub mod Threads
pub mod Stats
pub mod Load
pub mod Worker
