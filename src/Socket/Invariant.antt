-- ===== src/Socket/Invariant.antt =====
-- src/GWSocket.cpp: the invariant of a socket, and its preservation.
mod Defs
mod Waiting
mod Count
mod Closing
mod Writing
mod Handlers
mod Steps
pub use Defs.*
pub use Count.{
  tally-empty, tally-launch, tally-next, tally_complete, tally-stale, all-idle, all-past,
}
pub use Closing.*
pub use Handlers.{Post-if, Post-exchange, Post-kind, Completing}
pub use Steps.{
  new_socket-Inv, step-Inv, open_socket_cases, verify_certificate_cases, complete_cases,
  guard_generation_cases, Completing-cases, receive-generation, receive-keeps, arrival-keeps,
  arrival-Completing, receive-Fits, note_reason-Fits,
}
pub use Writing.{
  MayWrite, async_write_cases, async_close_socket_cases, send-disconnect_cases, check_writing_cases,
  close_cases,
}
pub use Waiting.*
