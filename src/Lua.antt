-- ===== src/Lua.antt =====
-- src/GLua.cpp: the functions that the module gives to Lua, and the sockets that it holds. `none` is a
-- use of an object that was deleted, or of a null pointer.
mod Registry
pub mod Functions
pub mod Think
pub mod Addresses
pub mod Creation
pub mod System
pub mod Holding
pub mod Staying
pub mod Reached
pub mod Soundness
pub mod Keeping
pub mod Sweep
pub mod Swept
pub mod Rounds
pub mod Requests
pub mod Total
pub mod Shutdown
pub mod Lives
pub mod Collected
pub mod Biography
pub mod Lifelike
pub mod Histories
pub mod Deletion
mod Tests
unfoldable pub use Registry.{
  find, with_socket, create_web_socket, create_web_socket_from_url, is_member,
}
pub use Registry.{
  UrlParts, Web, Module, empty_module, update, erase, Reply, replies_nothing, raises, prints_error,
  replies, replies_socket, delete_socket, insert,
}
