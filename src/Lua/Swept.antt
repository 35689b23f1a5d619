-- ===== src/Lua/Swept.antt =====
-- src/GLua.cpp: what the loop of the timer over the finalized sockets deletes.
use gwsockets.Prelude.{
  ℕ, ◌≡◌, refl, sym, ap, subst, ◌∙◌, Bool, true, false, not, ◌&&◌, ◌==◌, List, [], ◌∷◌, none, some,
  arith, Post, Post->>=, Post-map, Bool-cases, inl, inr, if◌then◌else◌, ==_iff,
}
use gwsockets.Platform.{Platform}
use gwsockets.Socket.State.{Socket, disconnected, same_state}
use gwsockets.Lua.Registry.{Module, find, erase, is_member, delete_socket}
use gwsockets.Lua.Think.{delete_gced}
use gwsockets.Lua.Addresses.{Post-test, is_member-remove, distinct}
use gwsockets.Lua.Holding.{Held}
use gwsockets.Lua.Sweep.{delete_gced-Held}
use gwsockets.Lua.System.{deleted}

module _ {ℓ} {A : Type ℓ} (p q : ℕ) where
  find_erased : (l : List (ℕ × A)) → find q (erase p l) ≡ (if q == p then none else find q l)
  unfolding find erase
  find_erased [] = ground arith
  find_erased ((r, b) ∷ l) = ground (arith, find_erased l)

-- The object at an address is disconnected.
abbrev pub is_down : ℕ → Module → Bool
is_down q m = elim (find q m.all_sockets) [
  | none ↦ false
  | some s ↦ same_state s.state disconnected
]

-- The disconnected objects of a list of addresses are deleted, and nothing else changes.
pub record Swept (ps : List ℕ) (m m' : Module) : Type 0 where
  pub objects :
      (q : ℕ)
      → find q m'.all_sockets
        ≡ (if is_member q ps && is_down q m then none else find q m.all_sockets)
  pub addresses :
      (q : ℕ)
      → is_member q m'.gced_sockets
        ≡ (is_member q m.gced_sockets && not (is_member q ps && is_down q m))
  pub references : m'.socket_table_references ≡ m.socket_table_references

module _ (p : ℕ) (s : Socket) (ps : List ℕ) (m m' : Module)
    (at : find p m.all_sockets ≡ some s) where
  -- Whether the object itself is disconnected, under any name of its address.
  down_here : (q : ℕ) → (q == p) ≡ true → is_down q m ≡ same_state s.state disconnected
  down_here q e =
      ap (λ o. elim o [ none ↦ false | some t ↦ same_state t.state disconnected ])
        (subst (λ k. find k m.all_sockets ≡ some s) (sym ((==_iff q p).0 e)) at)

  -- The object is gone after its deletion, and no other is.
  down_after : (q : ℕ) → is_down q (deleted p s m) ≡ (not (q == p) && is_down q m)
  unfolding delete_socket
  down_after q =
      ap (λ o. elim o [ none ↦ false | some t ↦ same_state t.state disconnected ])
        (find_erased p q m.all_sockets)
      ∙ elim (Bool-cases (q == p)) [ inl e ↦ rw e refl | inr e ↦ rw e refl ]

  one_deleted :
      same_state s.state disconnected ≡ true → Swept ps (deleted p s m) m' → Swept (p ∷ ps) m m'
  unfolding delete_socket is_member
  one_deleted down swept = record {
    objects = λ q.
        swept.objects q
        ∙ rw (down_after q, find_erased p q m.all_sockets)
            (elim (Bool-cases (q == p)) [
              | inl e ↦ rw (e, down_here q e, down) (ground arith)
              | inr e ↦ rw e (ground arith)
            ]);
    addresses = λ q.
        swept.addresses q
        ∙ rw (down_after q, is_member-remove p q m.gced_sockets)
            (elim (Bool-cases (q == p)) [
              | inl e ↦ rw (e, down_here q e, down) (ground arith)
              | inr e ↦ rw e (ground arith)
            ]);
    references = swept.references;
  }

  one_left : same_state s.state disconnected ≡ false → Swept ps m m' → Swept (p ∷ ps) m m'
  unfolding is_member
  one_left up swept = record {
    objects = λ q. swept.objects q ∙ elim (Bool-cases (q == p)) [
      | inl e ↦ rw (down_here q e, up) (ground arith)
      | inr e ↦ ground arith
    ];
    addresses = λ q. swept.addresses q ∙ elim (Bool-cases (q == p)) [
      | inl e ↦ rw (down_here q e, up) (ground arith)
      | inr e ↦ ground arith
    ];
    references = swept.references;
  }

pub delete_gced_from :
    (platform : Platform) (ps : List ℕ) (m : Module)
    → distinct ps ≡ true
    → Post (Swept ps m) (delete_gced platform ps m)
unfolding delete_gced is_member delete_socket
delete_gced_from platform [] m d = record {
  objects = λ q. refl;
  addresses = λ q. ground arith;
  references = refl;
}
delete_gced_from platform (p ∷ ps) m d = Post->>= _ (find p m.all_sockets) _ (λ s at.
    Post-test _ (same_state s.state disconnected) _ _
      (λ down.
        Post-map (delete_gced platform ps (deleted p s m))
          (λ m' swept. one_deleted p s ps m m' at down swept)
          (delete_gced_from platform ps (deleted p s m) (ground arith)))
      (λ up.
        Post-map (delete_gced platform ps m) (λ m' swept. one_left p s ps m m' at up swept)
          (delete_gced_from platform ps m (ground arith))))

-- If the addresses in the collections are those of live objects, no finalized one twice or referenced,
-- the loop of the timer over the finalized sockets has a result: the finalized ones that are disconnected
-- are gone, from the objects and from the finalized ones; the other objects, the other finalized ones and
-- the references are as they were; and the addresses in the collections are again those of live objects,
-- no finalized one twice or referenced.
pub delete_gced-Swept :
    (platform : Platform) (m : Module)
    → Held m
    → (m' : Module) × (delete_gced platform m.gced_sockets m ≡ some m')
      × Held m'
      × Swept m.gced_sockets m m'
delete_gced-Swept platform m h =
    let (m', done, h', fewer) = delete_gced-Held platform m h in
    (
      m',
      done,
      h',
      subst (Post (Swept m.gced_sockets m)) done
          (delete_gced_from platform m.gced_sockets m h.once),
    )
