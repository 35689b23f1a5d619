-- ===== src/Socket/Machine.antt =====
-- src/GWSocket.cpp: the transition system of a socket, and what follows from it alone.
mod Defs
mod Handling
mod Sound
pub mod Calls
pub mod Reports
pub mod Frame
pub mod Histories
pub mod Protocol
pub mod Delivery
pub mod Order
pub mod Waiting
pub mod Safety
pub mod Ended
pub mod Streams
pub mod Total
pub mod Buffer
pub mod Intact
pub use Defs.*
pub use Sound.{delivered, written, step-Advances}
