-- ===== src/Heel.antt =====
-- heel, which generates the interface of an application from its description: the validation of the
-- description.
pub mod Names
pub mod States
pub mod Trees
pub mod Models
pub mod Composers
pub mod Parsers
pub mod RoundTrip
pub mod StateTrees
mod TreeTests
mod Tests
