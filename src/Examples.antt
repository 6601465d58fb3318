-- ===== src/Examples.antt =====
-- Concrete data, and the theorems applied to it.
mod Toy
mod Witnesses
mod Hashes
mod Random
mod Keys
mod Transforms
