-- ===== src/Lua/Reached.antt =====
-- src/GLua.cpp: the modules that can be reached from another without a finalizer.
use gwsockets.Prelude.{ℕ, ◌+◌, ◌≡◌, refl, subst, Bool, true, false, subst, some, arith}
use gwsockets.Platform.{Platform}
use gwsockets.Socket.State.{Socket}
use gwsockets.Socket.Loop.{Call, opens, step}
use gwsockets.Socket.Connect.{open_socket}
use gwsockets.Socket.Machine.Ended.{is_open}
use gwsockets.Lua.Registry.{Web, Module, find, is_member}
use gwsockets.Lua.Functions.{store, refer}
use gwsockets.Lua.Staying.{Stays, Step-Stays, Stays-trans, AllBacked, Step-AllBacked}
use gwsockets.Lua.System.{Step, Steps, Steps-keeps}
use gwsockets.Lua.Holding.{
  Held, Fewer, store-Held, refer-Held, refer_lem, create-Held, finalize-Held, delete_socket-Held,
  unreferring-Held,
}

module _ (platform : Platform) (web : Web) where
  Step-Held : (m m' : Module) → Step platform web m m' → Held m → Held m'
  Step-Held m m' (Step.calls p call s t at opening e to) h = rw to (store-Held p t m h)
  Step-Held m m' (Step.refers p reference s at fresh to) h =
      rw to (refer-Held p reference s m h at fresh)
  Step-Held m m' (Step.creates url verify s e to) h =
      rw to (create-Held (web.new_address m.created m.all_sockets) s m h)
  Step-Held m m' (Step.finalizes p s at to) h = rw to (finalize-Held p s _ m h at)
  Step-Held m m' (Step.deletes p s at down gced to) h = rw to (delete_socket-Held p s m h gced)
  Step-Held m m' (Step.unrefers p s at down to) h = rw to (unreferring-Held p m h)

  -- A sequence of steps keeps the addresses in the collections those of live objects.
  pub Steps-Held : (m : Module) (n : ℕ) (m' : Module) → Steps platform web m n m' → Held m → Held m'
  Steps-Held m n m' path h = Steps-keeps platform web Held Step-Held m m' n path h

  -- A module that steps lead to from one whose addresses are those of live objects, in which nothing
  -- more is finalized.
  pub record Reached (from to : Module) : Type 0 where
    pub before : Held from
    pub length : ℕ
    pub path : Steps platform web from length to
    pub no_more : Fewer to from
    pub stays : (q : ℕ) → is_member q from.gced_sockets ≡ false → Stays q from to
    pub backed : AllBacked from → AllBacked to

  module _ {from m : Module} (r : Reached from m) where
    pub Reached-Held : Held m
    Reached-Held = Steps-Held from r.length m r.path r.before

    pub extend : (m' : Module) → Step platform web m m' → Fewer m' m → Reached from m'
    extend m' s fewer = record {
      before = r.before;
      length = r.length + 1;
      path = Steps.onward r.length m m' r.path s;
      no_more = λ q g. r.no_more q (fewer q g);
      stays = λ q new.
          Stays-trans q from m m' (r.stays q new)
            (Step-Stays platform web q m m' s (ground (arith, r.no_more q)));
      backed = λ b. Step-AllBacked platform web m m' s (r.backed b);
    }

    pub reach_call :
        (p : ℕ) (call : Call) (s t : Socket)
        → find p m.all_sockets ≡ some s
        → is_open call ≡ false
        → step platform call s ≡ some t
        → Reached from (store p t m)
    reach_call p call s t at shut e =
        extend (store p t m) (Step.calls p call s t at (λ o. absurd (ground arith)) e refl)
          (λ q g. g)

  -- `open` refers to the object first.
  pub reach_open :
      (p reference : ℕ) (clear : Bool) (s : Socket) (from m : Module)
      → Reached from m
      → find p m.all_sockets ≡ some s
      → is_member p m.gced_sockets ≡ false
      → Reached from (store p (open_socket clear s) (refer p reference m))
  unfolding step
  reach_open p reference clear s from m r at fresh =
      extend
        (extend r (refer p reference m) (Step.refers p reference s at fresh refl)
          (λ q g. subst (λ l. is_member q l ≡ true) (refer_lem p reference m).1 g))
        (store p (open_socket clear s) (refer p reference m))
        (Step.calls p (opens clear) s (open_socket clear s) (rw (refer_lem p reference m).0 at)
          (λ o. (refer_lem p reference m).2) refl refl)
        (λ q g. g)

  pub here : (m : Module) → Held m → Reached m m
  here m h = record {
    before = h;
    length = 0;
    path = Steps.start;
    no_more = λ q g. g;
    stays = λ q new s found. (s, found, λ w. w);
    backed = λ b. b;
  }
