-- ===== src/Tests.antt =====
-- The program on concrete inputs, and each theorem applied to one of them.
pub mod Wire
mod Peers
mod Sample
mod Base
pub mod Buffer
pub mod Outbox
pub mod Listeners
pub mod Session
pub mod Steps
pub mod Events
pub mod Advice
pub mod Response
pub mod Libs
pub mod Transfers
