-- ===== src/Optimizer.antt =====
-- src/optimizer.c: the peephole optimizer. `Equality` compares operands, `Passes` and `Moves` hold
-- the rewriting functions, `Loop` the driver; the other children prove.
pub mod Tests
pub mod Equality
pub mod Passes
pub mod Moves
pub mod Arithmetic
pub mod Loop
pub mod Weight
pub mod Lawful
pub mod LawfulMore
pub mod Window
pub mod InPlace
pub mod Compact
pub mod Progress
pub mod PowersOfTwo
pub mod Meaning
pub mod Machine
pub mod Sums
pub mod Jumps
pub mod Division
