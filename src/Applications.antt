-- ===== src/Applications.antt =====
-- Kernel/Applications: the prime sieve. The other programs draw on the screen.
pub mod Primes
