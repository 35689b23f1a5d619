-- ===== src/Lua/Holding.antt =====
-- src/GLua.cpp: the addresses in `gcedSockets` and `socketTableReferences` are those of live objects.
use gwsockets.Prelude.{
  ℕ, ◌+◌, ◌≡◌, refl, subst, ◌∙◌, true, false, not, ◌==◌, [], ◌∷◌, ◌++◌, Option, none, some, arith,
  Post, Post->>=, Bool-cases, Option-cases, inl, inr, ==_iff, ==_refl,
}
use gwsockets.Socket.Close.{close_now}
use gwsockets.Socket.State.{Socket, no_reason}
use gwsockets.Lua.Registry.{
  Module, find, update, erase, is_member, insert, Reply, with_socket, delete_socket,
}
use gwsockets.Lua.Functions.{store, refer, socket_gc_function}
use gwsockets.Lua.Think.{remove}
use gwsockets.Lua.Addresses.{
  Post-branch, present, present-update, present-erase, present-snoc, is_member-remove,
  is_member-insert, distinct, distinct-insert, distinct-remove,
}

-- What is referenced or finalized is an object, and nothing is both.
pub record Held (m : Module) : Type 0 where
  pub referenced :
      (q : ℕ)
      → present (find q m.socket_table_references) ≡ true
      → present (find q m.all_sockets) ≡ true
  pub finalized :
      (q : ℕ) → is_member q m.gced_sockets ≡ true → present (find q m.all_sockets) ≡ true
  pub apart :
      (q : ℕ)
      → is_member q m.gced_sockets ≡ true
      → present (find q m.socket_table_references) ≡ false
  pub once : distinct m.gced_sockets ≡ true

pub store-Held : (p : ℕ) (s : Socket) (m : Module) → Held m → Held (store p s m)
store-Held p s m h = record {
  referenced = λ q r. present-update p q s m.all_sockets ∙ h.referenced q r;
  finalized = λ q r. present-update p q s m.all_sockets ∙ h.finalized q r;
  apart = h.apart;
  once = h.once;
}

-- A new object.
pub create-Held :
    (p : ℕ) (s : Socket) (m : Module)
    → Held m
    → Held (record m { all_sockets = m.all_sockets ++ (p, s) ∷ []; created = m.created + 1 })
create-Held p s m h = record {
  referenced = λ q r. ground (arith, present-snoc p q s m.all_sockets, h.referenced q);
  finalized = λ q r. ground (arith, present-snoc p q s m.all_sockets, h.finalized q);
  apart = h.apart;
  once = h.once;
}

-- A method that changes nothing but the object.
with_socket-Held :
    (this : Option ℕ) (f : ℕ → Socket → Option (Module × Reply)) (m : Module)
    → Held m
    → ((p : ℕ) (s : Socket)
        → this ≡ some p
        → find p m.all_sockets ≡ some s
        → Post (λ r. Held r.0) (f p s))
    → Post (λ r. Held r.0) (with_socket this f m)
unfolding with_socket
with_socket-Held none f m h k = h
with_socket-Held (some p) f m h k = Post->>= _ (find p m.all_sockets) _ (λ s e. k p s refl e)

-- The finalizer moves an object from the references to the finalized ones.
pub finalize-Held :
    (p : ℕ) (s t : Socket) (m : Module)
    → Held m
    → find p m.all_sockets ≡ some s
    → Held (record m {
      socket_table_references = erase p m.socket_table_references;
      gced_sockets = insert p m.gced_sockets;
      all_sockets = update p t m.all_sockets;
    })
finalize-Held p s t m h at = record {
  referenced = λ q r. ground (
    arith,
    present-update p q t m.all_sockets,
    present-erase p q m.socket_table_references,
    h.referenced q,
  );
  finalized = λ q r. elim (Bool-cases (p == q)) [
    | inl same ↦
        present-update p q t m.all_sockets
        ∙ subst (λ k. present (find k m.all_sockets) ≡ true) ((==_iff p q).0 same) (rw at refl)
    | inr other ↦ ground (
      arith,
      present-update p q t m.all_sockets,
      is_member-insert p q m.gced_sockets,
      h.finalized q,
    )
  ];
  apart = λ q r. elim (Bool-cases (p == q)) [
    | inl same ↦ ground (arith, present-erase p q m.socket_table_references)
    | inr other ↦ ground (
      arith,
      present-erase p q m.socket_table_references,
      is_member-insert p q m.gced_sockets,
      h.apart q,
    )
  ];
  once = distinct-insert p m.gced_sockets h.once;
}

-- The finalizer keeps the addresses in the collections those of live objects.
pub socket_gc_function-Held : (p : ℕ) (m : Module) → Held m → Post Held (socket_gc_function p m)
unfolding socket_gc_function
socket_gc_function-Held p m h = Post-branch Held (not m.module_open) _ _ h (
    Post->>= Held (find p m.all_sockets) _
      (λ s at. finalize-Held p s (close_now no_reason s).0 m h at))

pub delete_socket-Held :
    (p : ℕ) (s : Socket) (m : Module)
    → Held m
    → is_member p m.gced_sockets ≡ true
    → Held (record (delete_socket p s m) { gced_sockets = remove p m.gced_sockets })
unfolding delete_socket
delete_socket-Held p s m h g = record {
  referenced = λ q r. elim (Bool-cases (q == p)) [
    | inl same ↦ absurd (ground (arith, h.apart q, (==_iff q p).0 same))
    | inr other ↦ ground (arith, present-erase p q m.all_sockets, h.referenced q)
  ];
  finalized = λ q r.
      ground (
        arith,
        present-erase p q m.all_sockets,
        is_member-remove p q m.gced_sockets,
        h.finalized q,
      );
  apart = λ q r. ground (arith, is_member-remove p q m.gced_sockets, h.apart q);
  once = distinct-remove p m.gced_sockets h.once;
}

-- The finalized objects of a module are some of another's.
abbrev pub Fewer : Module → Module → Type 0
Fewer m' m = (q : ℕ) → is_member q m'.gced_sockets ≡ true → is_member q m.gced_sockets ≡ true

-- `open` adds the reference.
referring-Held :
    (p reference : ℕ) (s : Socket) (m : Module)
    → Held m
    → find p m.all_sockets ≡ some s
    → is_member p m.gced_sockets ≡ false
    → Held (record m { socket_table_references = m.socket_table_references ++ (p, reference) ∷ [] })
referring-Held p reference s m h at g = record {
  referenced = λ q r. elim (Bool-cases (p == q)) [
    | inl same ↦
        subst (λ k. present (find k m.all_sockets) ≡ true) ((==_iff p q).0 same) (rw at refl)
    | inr other ↦
        ground (arith, present-snoc p q reference m.socket_table_references, h.referenced q)
  ];
  finalized = h.finalized;
  apart = λ q r. elim (Bool-cases (p == q)) [
    | inl same ↦
        absurd
          (ground (arith, subst (λ k. is_member k m.gced_sockets ≡ false) ((==_iff p q).0 same) g))
    | inr other ↦ ground (arith, present-snoc p q reference m.socket_table_references, h.apart q)
  ];
  once = h.once;
}

pub refer-Held :
    (p reference : ℕ) (s : Socket) (m : Module)
    → Held m
    → find p m.all_sockets ≡ some s
    → is_member p m.gced_sockets ≡ false
    → Held (refer p reference m)
unfolding refer
refer-Held p reference s m h at g = elim (Option-cases (find p m.socket_table_references)) [
  | inl e ↦ rw (e, refer) (referring-Held p reference s m h at g)
  | inr (r, e) ↦ rw (e, refer) h
]

-- What a reference leaves alone, and that it is there then.
pub refer_lem :
    (p reference : ℕ) (m : Module)
    → ((refer p reference m).all_sockets ≡ m.all_sockets)
      × ((refer p reference m).gced_sockets ≡ m.gced_sockets)
      × (present (find p (refer p reference m).socket_table_references) ≡ true)
unfolding refer
refer_lem p reference m = elim (Option-cases (find p m.socket_table_references)) [
  | inl e ↦
      rw (e, refer)
        (
          refl,
          refl,
          ground (arith, present-snoc p p reference m.socket_table_references, ==_refl p),
        )
  | inr (r, e) ↦ rw (e, refer) (refl, refl, rw e refl)
]

pub unreferring-Held :
    (p : ℕ) (m : Module)
    → Held m
    → Held (record m { socket_table_references = erase p m.socket_table_references })
unreferring-Held p m h = record {
  referenced = λ q r. ground (arith, present-erase p q m.socket_table_references, h.referenced q);
  finalized = h.finalized;
  apart = λ q r. ground (arith, present-erase p q m.socket_table_references, h.apart q);
  once = h.once;
}
