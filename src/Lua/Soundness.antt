-- ===== src/Lua/Soundness.antt =====
-- src/GLua.cpp: what every step of the module keeps.
use gwsockets.Prelude.{
  ℕ, ◌+◌, ◌^◌, ◌≤◌, ◌<◌, ◌≡◌, refl, subst, ◌⊎◌, inl, inr, Bool, true, false, ◌||◌, ◌==◌, some,
  arith, Post, Post-map, Bytes, Option-cases, Bool-cases, ==_iff, ==_refl,
}
use gwsockets.Platform.{Platform}
use gwsockets.Socket.State.{Socket, SocketKind, new_socket, disconnected, no_reason}
use gwsockets.Socket.Close.{close_now}
use gwsockets.Socket.Loop.{Call, closes_now, step}
use gwsockets.Socket.Invariant.{Inv}
use gwsockets.Socket.Machine.Ended.{is_open, step-disconnected}
use gwsockets.Socket.Machine.Frame.{Frame, step-Frame}
use gwsockets.Socket.Machine.Streams.{Backed, Keeps, step-Keeps}
use gwsockets.Socket.Invariant.{step-Inv, new_socket-Inv}
use gwsockets.Lua.Registry.{Web, Module, delete_socket, create_web_socket_from_url, find, is_member}
use gwsockets.Lua.Creation.{IsNew, create_web_socket_from_url-IsNew}
use gwsockets.Lua.Functions.{store, refer}
use gwsockets.Lua.System.{Step, Steps, created_at, finalized, deleted, unreferred}
use gwsockets.Lua.Addresses.{
  present, present-erase, present-snoc, is_member-insert, is_member-remove, find-update, find-erase,
  find-snoc,
}
use gwsockets.Lua.Holding.{
  Held, store-Held, refer-Held, refer_lem, create-Held, finalize-Held, delete_socket-Held,
  unreferring-Held,
}

-- An object of a generation up to a bound; it is disconnected, unless it is kept.
pub record Right (g : ℕ) (kept : Bool) (s : Socket) : Type 0 where
  pub inv : Inv s
  pub backed : Backed s
  pub young : s.generation ≤ g
  pub alive : (s.state ≡ disconnected) ⊎ (kept ≡ true)

-- An object is kept by its reference, or until it is deleted after its finalizer.
abbrev pub is_kept : ℕ → Module → Bool
is_kept p m = present (find p m.socket_table_references) || is_member p m.gced_sockets

-- The collections hold addresses of objects, every object satisfies its invariants, and one that is
-- not disconnected is referenced or finalized.
pub record Sound (g : ℕ) (m : Module) : Type 0 where
  pub held : Held m
  pub every : (p : ℕ) (s : Socket) → find p m.all_sockets ≡ some s → Right g (is_kept p m) s

step-Right :
    (platform : Platform) (call : Call) (g : ℕ) (kept : Bool) (s t : Socket)
    → g + 1 < 2 ^ 32
    → Right g kept s
    → (is_open call ≡ true → kept ≡ true)
    → step platform call s ≡ some t
    → Right (g + 1) kept t
step-Right platform call g kept s t h right opening e = record {
  inv = subst (Post Inv) e (step-Inv platform call s right.inv (omega (arith, right.young)));
  backed = (subst (Post (Keeps s)) e (step-Keeps platform call s)).backed right.backed;
  young =
      omega (
        arith,
        right.young,
        (subst (Post (Frame s)) e (step-Frame platform call s)).next_generation,
      );
  alive = elim right.alive [
    | inr k ↦ inr k
    | inl down ↦ elim (Bool-cases (is_open call)) [
      | inl o ↦ inr (opening o)
      | inr o ↦ inl (
          subst (Post (λ u. u.state ≡ disconnected)) e
            (step-disconnected platform call s right.inv down o))
    ]
  ];
}

older : {g : ℕ} {kept : Bool} {s : Socket} → Right g kept s → Right (g + 1) kept s
older r = record { inv = r.inv; backed = r.backed; young = omega (arith, r.young); alive = r.alive }

kept_too :
    {g : ℕ} {kept kept' : Bool} {s : Socket}
    → ((s.state ≡ disconnected) ⊎ (kept ≡ true) → (s.state ≡ disconnected) ⊎ (kept' ≡ true))
    → Right g kept s
    → Right g kept' s
kept_too k r = record { inv = r.inv; backed = r.backed; young = r.young; alive = k r.alive }

store-Sound :
    (platform : Platform) (call : Call) (p g : ℕ) (s t : Socket) (m : Module)
    → g + 1 < 2 ^ 32
    → Sound g m
    → find p m.all_sockets ≡ some s
    → (is_open call ≡ true → present (find p m.socket_table_references) ≡ true)
    → step platform call s ≡ some t
    → Sound (g + 1) (store p t m)
store-Sound platform call p g s t m h sound at opening e = record {
  held = store-Held p t m sound.held;
  every = λ q u found. elim (find-update p q u t m.all_sockets found) [
    | inl (same, it) ↦
        rw (same, it)
          (step-Right platform call g (is_kept p m) s t h (sound.every p s at)
            (λ o. ground (arith, opening o)) e)
    | inr old ↦ older (sound.every q u old)
  ];
}

refer-Sound :
    (p reference g : ℕ) (s : Socket) (m : Module)
    → Sound g m
    → find p m.all_sockets ≡ some s
    → is_member p m.gced_sockets ≡ false
    → Sound (g + 1) (refer p reference m)
unfolding refer
refer-Sound p reference g s m sound at fresh = record {
  held = refer-Held p reference s m sound.held at fresh;
  every = λ q u found. older (
      kept_too (λ a. ground (arith, kept_after q))
        (sound.every q u (subst (λ l. find q l ≡ some u) (refer_lem p reference m).0 found)));
}
  where
    kept_after : (q : ℕ) → is_kept q m ≡ true → is_kept q (refer p reference m) ≡ true
    kept_after q k = elim (Option-cases (find p m.socket_table_references)) [
      | inl e ↦ rw (e, refer) (ground (arith, present-snoc p q reference m.socket_table_references))
      | inr (r, e) ↦ rw (e, refer) k
    ]

finalize-Sound :
    (platform : Platform) (p g : ℕ) (s : Socket) (m : Module)
    → g + 1 < 2 ^ 32
    → Sound g m
    → find p m.all_sockets ≡ some s
    → Sound (g + 1) (finalized p s m)
unfolding step
finalize-Sound platform p g s m h sound at = record {
  held = finalize-Held p s (close_now no_reason s).0 m sound.held at;
  every = λ q u found. elim (find-update p q u _ m.all_sockets found) [
    | inl (same, it) ↦ rw it (
        step-Right platform closes_now g (is_kept q (finalized p s m)) s _ h
          (kept_too (λ a. inr (ground (arith, is_member-insert p q m.gced_sockets, ==_refl p)))
            (sound.every p s at))
          (λ o. absurd (ground arith)) refl)
    | inr old ↦ older (
        kept_too
          (λ a. ground (
            arith,
            present-erase p q m.socket_table_references,
            is_member-insert p q m.gced_sockets,
          ))
          (sound.every q u old))
  ];
}

delete-Sound :
    (p g : ℕ) (s : Socket) (m : Module)
    → Sound g m
    → is_member p m.gced_sockets ≡ true
    → Sound (g + 1) (deleted p s m)
unfolding delete_socket
delete-Sound p g s m sound gced = record {
  held = delete_socket-Held p s m sound.held gced;
  every = λ q u found.
      let (other, old) = find-erase p q u m.all_sockets found in
      older
        (kept_too (λ a. ground (arith, is_member-remove p q m.gced_sockets)) (sound.every q u old));
}

unrefer-Sound :
    (p g : ℕ) (s : Socket) (m : Module)
    → Sound g m
    → find p m.all_sockets ≡ some s
    → s.state ≡ disconnected
    → Sound (g + 1) (unreferred p m)
unrefer-Sound p g s m sound at down = record {
  held = unreferring-Held p m sound.held;
  every = λ q u found. older (elim (Bool-cases (q == p)) [
    | inl same ↦
        kept_too
          (λ a. inl (
            ground (arith, subst (λ k. find k m.all_sockets ≡ some u) ((==_iff q p).0 same) found)))
          (sound.every q u found)
    | inr other ↦
        kept_too (λ a. ground (arith, present-erase p q m.socket_table_references))
          (sound.every q u found)
  ]);
}

-- The object of a URL.
at_rest :
    (kind : SocketKind) (host : Bytes) (port : ℕ) (path : Bytes) (b : Bool) (g : ℕ) (kept : Bool)
    → Right g kept (record (new_socket kind host port path) { should_verify_certificate = b })
unfolding new_socket
at_rest kind host port path b g kept = record {
  inv = new_socket-Inv kind host port path;
  backed = λ w. (refl, λ c. absurd (ground arith));
  young = omega arith;
  alive = inl refl;
}

new_Right :
    (web : Web) (url : Bytes) (verify : Bool) (g : ℕ) (kept : Bool)
    → Post (Right g kept) (create_web_socket_from_url web url verify)
new_Right web url verify g kept =
    Post-map (create_web_socket_from_url web url verify) (λ s new. is_right s new)
      (create_web_socket_from_url-IsNew web url verify)
  where
    is_right : (s : Socket) → IsNew s → Right g kept s
    is_right s (kind, host, port, path, b, e) = rw e (at_rest kind host port path b g kept)

create-Sound :
    (web : Web) (url : Bytes) (verify : Bool) (g : ℕ) (s : Socket) (m : Module)
    → Sound g m
    → create_web_socket_from_url web url verify ≡ some s
    → Sound (g + 1) (created_at (web.new_address m.created m.all_sockets) s m)
create-Sound web url verify g s m sound e = record {
  held = create-Held (web.new_address m.created m.all_sockets) s m sound.held;
  every = λ q u found.
      elim (find-snoc (web.new_address m.created m.all_sockets) q u s m.all_sockets found) [
        | inl (_, it) ↦ rw it (
            subst (Post (Right (g + 1) (is_kept q m))) e
              (new_Right web url verify (g + 1) (is_kept q m)))
        | inr old ↦ older (sound.every q u old)
      ];
}

module _ (platform : Platform) (web : Web) where
  Step-Sound :
      (g : ℕ) (m m' : Module)
      → g + 1 < 2 ^ 32
      → Step platform web m m'
      → Sound g m
      → Sound (g + 1) m'
  Step-Sound g m m' h (Step.calls p call s t at opening e to) sound =
      rw to (store-Sound platform call p g s t m h sound at opening e)
  Step-Sound g m m' h (Step.refers p reference s at fresh to) sound =
      rw to (refer-Sound p reference g s m sound at fresh)
  Step-Sound g m m' h (Step.creates url verify s e to) sound =
      rw to (create-Sound web url verify g s m sound e)
  Step-Sound g m m' h (Step.finalizes p s at to) sound =
      rw to (finalize-Sound platform p g s m h sound at)
  Step-Sound g m m' h (Step.deletes p s at down gced to) sound =
      rw to (delete-Sound p g s m sound gced)
  Step-Sound g m m' h (Step.unrefers p s at down to) sound =
      rw to (unrefer-Sound p g s m sound at down)

  -- Along every sequence of steps of the module, as long as no generation can wrap: the collections
  -- hold addresses of live objects, no finalized one twice or referenced; every object satisfies the
  -- invariant of a socket; and an object that is not disconnected is referenced, or finalized and not deleted yet.
  pub Steps-Sound :
      (g : ℕ) (m : Module) (n : ℕ) (m' : Module)
      → Sound g m
      → Steps platform web m n m'
      → g + n < 2 ^ 32
      → Sound (g + n) m'
  Steps-Sound g m _ _ sound Steps.start h = subst (λ k. Sound k m) (omega arith) sound
  Steps-Sound g m _ _ sound (Steps.onward n m' m'' path s) h =
      subst (λ k. Sound k m'') (omega arith)
        (Step-Sound (g + n) m' m'' (omega arith) s (Steps-Sound g m n m' sound path (omega arith)))
