-- ===== src/Lua/Sweep.antt =====
-- src/GLua.cpp: the loop of the timer over the finalized sockets is a sequence of deletions.
use gwsockets.Prelude.{
  ℕ, ◌≡◌, refl, true, List, [], ◌∷◌, none, some, arith, Bool-cases, Option-cases, inl, inr,
}
use gwsockets.Platform.{Platform}
use gwsockets.Socket.State.{disconnected, same_state}
use gwsockets.Lua.Registry.{Web, Module, find, is_member}
use gwsockets.Lua.Think.{delete_gced}
use gwsockets.Lua.Addresses.{above, find-above, is_member-remove, distinct, not_among}
use gwsockets.Lua.Holding.{Held, Fewer}
use gwsockets.Lua.System.{Step, deleted}
use gwsockets.Lua.Reached.{Reached, Reached-Held, extend, here}

module _ (platform : Platform) (web : Web) where
  delete_some-Reached :
      (ps : List ℕ) (from m : Module)
      → Reached platform web from m
      → distinct ps ≡ true
      → ((q : ℕ) → is_member q ps ≡ true → is_member q m.gced_sockets ≡ true)
      → (m' : Module) × (delete_gced platform ps m ≡ some m') × Reached platform web from m'
  unfolding delete_gced is_member
  delete_some-Reached [] from m r d k = (m, refl, r)
  delete_some-Reached (p ∷ ps) from m r d k = elim (Option-cases (find p m.all_sockets)) [
    | inl e ↦ absurd (ground (arith, (Reached-Held platform web r).finalized p, k p))
    | inr (s, e) ↦ elim (Bool-cases (same_state s.state disconnected)) [
      | inl down ↦
          let (m', done, r') =
            delete_some-Reached ps from (deleted p s m)
              (extend platform web r (deleted p s m)
                (Step.deletes p s e (ground arith) (k p (ground arith)) refl)
                (λ q g. ground (arith, is_member-remove p q m.gced_sockets)))
              (ground arith)
              (λ q g. ground (arith, is_member-remove p q m.gced_sockets, k q, not_among p q ps)) in
          (m', rw (e, down) done, r')
      | inr up ↦
          let (m', done, r') =
            delete_some-Reached ps from m r (ground arith) (λ q g. ground (arith, k q)) in
          (m', rw (e, up) done, r')
    ]
  ]

  -- The loop meets no address of a deleted object.
  pub delete_gced-Reached :
      (from m : Module)
      → Reached platform web from m
      → (m' : Module) × (delete_gced platform m.gced_sockets m ≡ some m')
        × Reached platform web from m'
  delete_gced-Reached from m r =
      delete_some-Reached m.gced_sockets from m r (Reached-Held platform web r).once (λ q g. g)

-- A web without URLs, where `new` gives an address above those of the objects that are there.
abbrev pub no_web : Web
no_web = record {
  parse = λ text. none;
  stoi = λ text. none;
  new_address = λ n objects. above objects;
  new_address_free = λ n objects. find-above (above objects) objects (omega arith);
}

-- The loop of the timer over the finalized sockets has a result: it meets no address of a deleted
-- object, it finalizes nothing more, and the addresses in the collections stay those of live objects.
pub delete_gced-Held :
    (platform : Platform) (m : Module)
    → Held m
    → (m' : Module) × (delete_gced platform m.gced_sockets m ≡ some m') × Held m' × Fewer m' m
delete_gced-Held platform m h =
    let (m', done, r) = delete_gced-Reached platform no_web m m (here platform no_web m h) in
    (m', done, Reached-Held platform no_web r, r.no_more)
