-- ===== src/Matrix.antt =====
-- internal/matrix: the swap matrix DSL and its solver.
pub mod Bits
pub mod Mask
pub mod Registry
pub mod Node
pub mod Evaluate
pub mod Frontier
pub mod Dsl
pub mod Projection
pub mod Program
pub mod Compile
pub mod Solve
pub mod Tests
