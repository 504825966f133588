-- ===== src/Tests.antt =====
-- Runs of the model on concrete inputs, and each theorem's instance at one of them.
pub mod Sample
pub mod Runs
pub mod Signed
mod Trees
mod Stores
mod Guards
mod Reads
mod Tokens
mod Verified
mod Federation
mod Rotation
