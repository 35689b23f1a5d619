-- ===== src/Lib.antt =====
-- GWSockets: WebSocket clients for the scripts of a Garry's Mod server.
--
-- A script creates a socket, opens it, writes to it and closes it; a timer of the game polls one
-- io_context, which calls the completion handlers of the operations that the sockets started, and then
-- hands the reports of each socket to the script's callbacks. Everything runs in the thread of the game,
-- so a history of a socket is a list of calls and completions.
--
-- Prelude: Boolean tests and lists over the native numbers, byte strings, and `Post P m`, which says
--   that P holds of the result of `m` if there is one.
-- Platform: what Boost and OpenSSL decide, as one record that the definitions take as an argument:
--   descriptions and codes of errors, the character classes of HTTP, two setters of OpenSSL.
-- Queue: src/BlockingQueue.h. Each method locks for its whole length, so it is one function on the
--   backing deque; a `take` that would block has no result.
-- Socket: src/GWSocket.h, src/GWSocket.cpp and the two classes that derive from it.
--   Socket.State: the fields of the three classes as one record; `kind` tells the class. Two fields
--     are of the model: `operations` are the handlers that the io_context has yet to call, each with
--     the generation that `guardGeneration` captured, and `sent` is what was handed to the streams.
--   Socket.Stream: src/WebSocket.cpp, src/WebSocket.h, src/SSLWebSocket.cpp, src/SSLWebSocket.h. A member
--     access through a null `getWS()` has no result (`none`), and neither has what calls it.
--   Socket.Close: clearQueue, doClose, setDisconnectingCAS, closeNow, errorConnection, onDisconnected.
--   Socket.Write: checkWriting, write, close, onWrite. `compare_exchange_weak` may fail without a
--     reason; a Boolean argument says whether it does.
--   Socket.Connect: open and the handlers up to the first read, onRead, the decorator of the request,
--     and the verification of certificates.
--   Socket.Config: setCookie, setHeader and the options of compression.
--   Socket.Loop: `handle` gives the handler of each operation, `guard_generation` is the lambda of
--     `guardGeneration`, `step` one call of the interface or one completion, `run` a history of them.
--     An operation completes at any time, in any order, with any error code and any bytes.
--   Socket.Invariant: the operations of the current generation in flight, against state, flag and stream.
--   Socket.Machine: the transition system of a socket, that the code implements it, and what histories
--     keep: the order of the reports, the order of the messages, the bytes of a write, and what a socket
--     waits for. Socket.Machine.Calls says for each call what it may do; Socket.Machine.Reports counts
--     the reports that a socket is disconnected.
--   Socket.NullStream, Socket.Endings, Socket.Cookies, Socket.Headers: null streams, ends of connections,
--     cookies, headers.
-- Update: src/UpdateChecker.h. The comparison of versions, with `strtol` written out for a `long` of any
--   width, and what is printed and scheduled when the latest version was fetched.
-- Lua: src/GLua.cpp. An address is a number, and the module holds the objects by their addresses.
--   Lua.Registry: the collections of sockets, their creation and deletion. A deleted socket leaves its
--     operations in flight as `orphans`, whose handlers would use it; such a use has no result.
--   Lua.Functions: the methods of the table of a socket, and the finalizer.
--   Lua.Think: `webSocketThink` and `GMOD_MODULE_CLOSE`. The handlers that the io_context calls are a
--     list of events; what the timer does with Lua is the record `Scripts`, in which a callback leaves a
--     list of requests. Both are arguments.
--   Lua.Creation: what `createWebSocket` makes. Lua.Deletion: what a deleted socket leaves behind.
--   Lua.System: the module as a transition system. Lua.Keeping, Lua.Sweep, Lua.Rounds: the scripts,
--     the timer and the finalizer make steps of it. Lua.Holding, Lua.Staying, Lua.Soundness: what its
--     steps keep. Lua.Swept, Lua.Collected: what the timer deletes. Lua.Biography: the calls to one
--     object, as a history of a socket. Lua.Lifelike: that such histories are those of Socket.Machine.
--     Lua.Lives: sequences of whatever happens to the module. Lua.Histories: its life as turns of
--     scripts, the timer and the finalizer. Lua.Requests, Lua.Total, Lua.Shutdown: what has a result.
--   The class Url, a copy of a library, and the addresses that `new` gives, of which those of deleted
--     objects may come again, are the record `Web`, an argument.
-- Stack: src/GLua.cpp and src/UpdateChecker.h, the calls that work on the stack of Lua. The game
--   implements the interface of Lua, so `LuaBase` in Stack.Api is a record of its operations with what is
--   documented of their effect on the stack, which each definition takes as an argument.
--   Stack.Calls: luaPrint, throwErrorNoHalt, pcall, the callbacks of webSocketThink for the messages of one
--     socket, addVerifyPath, runInTimer, printMessage, checkVersion, doVersionCheck. A run logs the calls
--     that it makes and the fields that it sets. An error that leaves the C function has no result.
--   Stack.Registration: GMOD_MODULE_OPEN. Stack.Opening: what it gives to Lua. Stack.Balance,
--     Stack.Callbacks: what is left on the stack, and which callbacks are called. Stack.Timer gives the
--     timer of Lua.Think these callbacks, so it is `webSocketThink` as a whole.
--   Stack.Arguments: `getCppObject`, and how a C function reads its arguments: it goes on, throws, or is
--     refused by the interface. Stack.Methods: the methods of the table of a socket as C functions.
--     Stack.Requests: what their arguments ask of the module. Stack.Agreement, Stack.Answers: that they do
--     it. Stack.Declining: arguments that they do not want. Stack.Safety: what uses no null pointer.
--     Stack.Creation: createWebSocket, `__tostring` and the finalizer as C functions. Stack.Printing: how
--     `__tostring` ends. Stack.Lifetime: the life of the module as calls of C functions.
--
-- Fuel: the digits of a number, ten of which are enough for 32 bits, and the rounds of the loop of
-- `compareVersions`, as many as the longer version has numbers. All else is structural. The generation
-- is a 32-bit number that wraps; the invariants are about histories of fewer than 2 ^ 32 calls and
-- completions, in which it does not. That a history has a result does not depend on it.
--
-- Not modelled: the Boost and OpenSSL libraries beyond the parameters of Platform; mutexes, since
-- every method holds its own for its whole length; the resolver's `cancel`, which only makes an
-- operation complete earlier; the order in which an unordered map is walked, which is that of a list
-- here; the finalizers that the collector of Lua runs while a callback does, since a finalizer is an
-- event between two calls here; the memory of streams; the SSL context and the root certificates,
-- which `initialize` takes from the system; how a pointer is printed, which is an argument of
-- `__tostring`; the stand-alone test driver at the end of src/GLua.cpp.
mod Prelude
pub mod Queue
pub mod Platform
pub mod Socket
pub mod Update
pub mod Lua
pub mod Stack
