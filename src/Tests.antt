-- ===== src/Tests.antt =====
-- Concrete frames, contexts and library results, and what the theorems say of them.
pub mod Data
mod User
mod Loop
mod Card
mod Kernel
mod Air
mod Wire
mod Rounds
mod Program
mod Machine
mod Stays
