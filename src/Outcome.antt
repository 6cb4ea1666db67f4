-- ===== src/Outcome.antt =====
-- How a Go function that changes the store ends, the `do` blocks of the models, and the rules to
-- reason about them.
mod Monad
mod Rules
pub use Monad.*
pub use Rules.*
