-- ===== src/Lua/Deletion.antt =====
-- src/GLua.cpp: what the deletion of a finalized socket leaves in the io_context, and the end of the
-- module.
use gwsockets.Prelude.{
  ℕ, suc, ◌+◌, ◌≡◌, refl, ap, ◌∙◌, Bool, false, List, [], ◌∷◌, ◌++◌, none, some, arith, Post,
  Post-bind, Post->>=, get_elem?, length,
}
use gwsockets.Platform.{Platform}
use gwsockets.Socket.State.{Socket, Operation, disconnected}
use gwsockets.Socket.Write.{close}
use gwsockets.Socket.Loop.{complete}
use gwsockets.Lua.Registry.{Module, find, delete_socket}
use gwsockets.Lua.Functions.{store, socket_gc_function}
use gwsockets.Lua.Think.{
  Event, at_socket, at_orphan, call_handler, poll, delete_gced, close_referenced, delete_all,
  module_close,
}
use gwsockets.Lua.Addresses.{Post-option}

get_elem?-behind :
    (xs ys : List Operation) (i : ℕ) → get_elem? (xs ++ ys) (length xs + i) ≡ get_elem? ys i
get_elem?-behind [] ys i = ap (get_elem? ys) (omega arith)
get_elem?-behind (x ∷ xs) ys i =
    ap (get_elem? (x ∷ (xs ++ ys))) (suc_add (length xs) i) ∙ get_elem?-behind xs ys i
  where
    suc_add : (m n : ℕ) → suc m + n ≡ suc (m + n)
    suc_add m n = omega arith

-- A finalized socket that is disconnected is deleted even if one of its operations is still in
-- flight; the handler of the operation then uses the deleted object.
pub delete_gced_orphan :
    (platform : Platform) (p : ℕ) (s : Socket) (i : ℕ) (op : Operation) (m : Module)
    → find p m.all_sockets ≡ some s
    → s.state ≡ disconnected
    → get_elem? s.operations i ≡ some op
    → (m' : Module) × (delete_gced platform (p ∷ []) m ≡ some m')
      × (j : ℕ) × (call_handler platform (at_orphan j) m' ≡ none)
unfolding delete_gced delete_socket call_handler
delete_gced_orphan platform p s i op m at down in_flight =
    rw (at, down)
      (
        _,
        refl,
        length m.orphans + i,
        rw (get_elem?-behind m.orphans s.operations i, in_flight, call_handler) refl,
      )

-- The module is closed.
abbrev Closed : Module → Type 0
Closed m = m.module_open ≡ false

call_handler-Closed :
    (platform : Platform) (event : Event) (m : Module)
    → Closed m
    → Post Closed (call_handler platform event m)
unfolding call_handler
call_handler-Closed platform (at_socket p spurious i c) m k =
    Post-option Closed (find p m.all_sockets) _ _ k
      (λ s e. Post->>= Closed (complete platform spurious i c s) _ (λ t at. k))
call_handler-Closed platform (at_orphan j) m k =
    Post-option Closed (get_elem? m.orphans j) _ _ k (λ op e. tt)

poll-Closed :
    (platform : Platform) (events : List Event) (m : Module)
    → Closed m
    → Post Closed (poll platform events m)
unfolding poll
poll-Closed platform [] m k = k
poll-Closed platform (event ∷ events) m k =
    Post-bind Closed Closed (call_handler platform event m) _
      (call_handler-Closed platform event m k) (λ m' k'. poll-Closed platform events m' k')

close_referenced-Closed :
    (platform : Platform) (spurious : Bool) (references : List (ℕ × ℕ)) (m : Module)
    → Closed m
    → Post Closed (close_referenced platform spurious references m)
unfolding close_referenced
close_referenced-Closed platform spurious [] m k = k
close_referenced-Closed platform spurious ((p, reference) ∷ rest) m k =
    Post->>= Closed (find p m.all_sockets) _ (λ s at.
      Post->>= Closed (close spurious s) _
        (λ r e. close_referenced-Closed platform spurious rest (store p r.0 m) k))

delete_all-module_open :
    (platform : Platform) (l : List (ℕ × Socket)) (m : Module)
    → (delete_all platform l m).module_open ≡ m.module_open
unfolding delete_all delete_socket
delete_all-module_open platform [] m = refl
delete_all-module_open platform ((p, s) ∷ l) m = delete_all-module_open platform l _

finalize_nothing : (p : ℕ) (m : Module) → Closed m → socket_gc_function p m ≡ some m
unfolding socket_gc_function
finalize_nothing p m k = ground arith

-- After `GMOD_MODULE_CLOSE` a finalizer does nothing, whatever address it is called with: it does not
-- touch the objects, which are deleted.
pub module_close-finalizers :
    (platform : Platform) (spurious : Bool) (events : List Event) (m : Module)
    → Post
        (λ m'. (p : ℕ) → socket_gc_function p m' ≡ some m')
        (module_close platform spurious events m)
unfolding module_close socket_gc_function
module_close-finalizers platform spurious events m =
    Post-bind Closed _ (close_referenced platform spurious _ _) _
      (close_referenced-Closed platform spurious m.socket_table_references
        (record m { module_open = false }) refl)
      (λ closing k.
        Post-bind Closed _ (poll platform events closing) _ (poll-Closed platform events closing k)
          (λ polled k' p.
            finalize_nothing p _ (delete_all-module_open platform polled.all_sockets polled ∙ k')))
