-- ===== src/Stack.antt =====
-- src/GLua.cpp and src/UpdateChecker.h: the calls of the interface of Lua that work on its stack.
pub mod Api
pub mod Calls
pub mod Balance
pub mod Callbacks
pub mod Timer
pub mod Arguments
pub mod Methods
pub mod Requests
pub mod Agreement
pub mod Answers
pub mod Declining
pub mod Creation
pub mod Printing
pub mod Lifetime
pub mod Safety
pub mod Registration
pub mod Opening
mod Quiet
mod Tests
