-- ===== src/Lua/System.antt =====
-- src/GLua.cpp: the module as a transition system. A step is one call that reaches an object, or one
-- change of the collections.
use gwsockets.Prelude.{ℕ, ◌+◌, ◌≡◌, Bool, true, false, Bytes, some, [], ◌∷◌, ◌++◌}
use gwsockets.Platform.{Platform}
use gwsockets.Socket.State.{Socket, disconnected, no_reason}
use gwsockets.Socket.Close.{close_now}
use gwsockets.Socket.Loop.{Call, step}
use gwsockets.Socket.Machine.Ended.{is_open}
use gwsockets.Lua.Registry.{
  Web, Module, find, update, erase, is_member, insert, create_web_socket_from_url, delete_socket,
}
use gwsockets.Lua.Functions.{store, refer}
use gwsockets.Lua.Think.{remove}
use gwsockets.Lua.Addresses.{present}

-- `createWebSocket`: a new object at an address.
abbrev pub created_at : ℕ → Socket → Module → Module
created_at p s m = record m { all_sockets = m.all_sockets ++ (p, s) ∷ []; created = m.created + 1 }

-- `socketGCFunction`, where there is the object `s`.
abbrev pub finalized : ℕ → Socket → Module → Module
finalized p s m = record m {
  socket_table_references = erase p m.socket_table_references;
  gced_sockets = insert p m.gced_sockets;
  all_sockets = update p (close_now no_reason s).0 m.all_sockets;
}

-- The deletion of a finalized object.
abbrev pub deleted : ℕ → Socket → Module → Module
deleted p s m = record (delete_socket p s m) { gced_sockets = remove p m.gced_sockets }

abbrev pub unreferred : ℕ → Module → Module
unreferred p m = record m { socket_table_references = erase p m.socket_table_references }

module _ (platform : Platform) (web : Web) where
  -- Only an object that is referenced is opened, and only one that is disconnected loses its
  -- reference or is deleted.
  pub data Step (m m' : Module) : Type 0 where
    calls :
        (p : ℕ) (call : Call) (s t : Socket)
        → find p m.all_sockets ≡ some s
        → (is_open call ≡ true → present (find p m.socket_table_references) ≡ true)
        → step platform call s ≡ some t
        → m' ≡ store p t m
        → Step m m'
    refers :
        (p reference : ℕ) (s : Socket)
        → find p m.all_sockets ≡ some s
        → is_member p m.gced_sockets ≡ false
        → m' ≡ refer p reference m
        → Step m m'
    creates :
        (url : Bytes) (verify : Bool) (s : Socket)
        → create_web_socket_from_url web url verify ≡ some s
        → m' ≡ created_at (web.new_address m.created m.all_sockets) s m
        → Step m m'
    finalizes :
        (p : ℕ) (s : Socket) → find p m.all_sockets ≡ some s → m' ≡ finalized p s m → Step m m'
    deletes :
        (p : ℕ) (s : Socket)
        → find p m.all_sockets ≡ some s
        → s.state ≡ disconnected
        → is_member p m.gced_sockets ≡ true
        → m' ≡ deleted p s m
        → Step m m'
    unrefers :
        (p : ℕ) (s : Socket)
        → find p m.all_sockets ≡ some s
        → s.state ≡ disconnected
        → m' ≡ unreferred p m
        → Step m m'

  -- The steps from a module, with their number.
  pub data Steps (m : Module) : ℕ → Module → Type 0 where
    start : Steps m 0 m
    onward : (n : ℕ) (m' m'' : Module) → Steps m n m' → Step m' m'' → Steps m (n + 1) m''

  -- What every step keeps, a path keeps.
  pub Steps-keeps :
      (P : Module → Type 0)
      → ((m m' : Module) → Step m m' → P m → P m')
      → (m m' : Module) (n : ℕ) → Steps m n m'
      → P m
      → P m'
  Steps-keeps P keeps m _ _ Steps.start h = h
  Steps-keeps P keeps m _ _ (Steps.onward n m' m'' path s) h =
      keeps m' m'' s (Steps-keeps P keeps m m' n path h)
