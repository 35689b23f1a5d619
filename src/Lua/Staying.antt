-- ===== src/Lua/Staying.antt =====
-- src/GLua.cpp: an object that is not finalized stays, with its stream.
use gwsockets.Prelude.{
  ℕ, ◌≡◌, refl, subst, false, ◌==◌, none, some, arith, Post, inl, inr, Bool-cases, ==_iff,
}
use gwsockets.Platform.{Platform}
use gwsockets.Socket.State.{Socket, new_socket, no_reason}
use gwsockets.Socket.Close.{close_now}
use gwsockets.Socket.Loop.{Call, closes_now, step}
use gwsockets.Socket.Machine.Streams.{Backed, Keeps, step-Keeps}
use gwsockets.Lua.Registry.{Web, Module, find, is_member, delete_socket}
use gwsockets.Lua.Creation.{IsNew, create_web_socket_from_url-IsNew}
use gwsockets.Lua.Functions.{store}
use gwsockets.Lua.Addresses.{
  not_among, find-update, find-erase, find-snoc, find_updated, find_kept, find_before,
}
use gwsockets.Lua.Holding.{refer_lem}
use gwsockets.Lua.System.{Step}

-- The object at an address is there later; if it had a stream, it has one.
abbrev pub Stays : ℕ → Module → Module → Type 0
Stays q from to =
    (s : Socket)
    → find q from.all_sockets ≡ some s
    → (t : Socket) × (find q to.all_sockets ≡ some t) × (t.ws ≡ none → s.ws ≡ none)

store-Stays :
    (platform : Platform) (call : Call) (p q : ℕ) (s t : Socket) (m : Module)
    → find p m.all_sockets ≡ some s
    → step platform call s ≡ some t
    → Stays q m (store p t m)
store-Stays platform call p q s t m at e u found = elim (Bool-cases (q == p)) [
  | inl same ↦ (
    t,
    ground (arith, find_updated p q u t m.all_sockets),
    λ w. ground (
      arith,
      subst (λ k. find k m.all_sockets ≡ some u) ((==_iff q p).0 same) found,
      (subst (Post (Keeps s)) e (step-Keeps platform call s)).stream w,
    ),
  )
  | inr other ↦ (u, ground (arith, find_updated p q u t m.all_sockets), λ w. w)
]

pub Step-Stays :
    (platform : Platform) (web : Web) (q : ℕ) (m m' : Module)
    → Step platform web m m'
    → is_member q m.gced_sockets ≡ false
    → Stays q m m'
unfolding step delete_socket
Step-Stays platform web q m m' (Step.calls p call s t at opening e to) new =
    rw to (store-Stays platform call p q s t m at e)
Step-Stays platform web q m m' (Step.refers p reference s at fresh to) new =
    rw to (λ u found. (u, rw (refer_lem p reference m).0 found, λ w. w))
Step-Stays platform web q m m' (Step.creates url verify s e to) new = rw to (λ u found.
    (u, find_before (web.new_address m.created m.all_sockets) q u s m.all_sockets found, λ w. w))
Step-Stays platform web q m m' (Step.finalizes p s at to) new =
    rw to (store-Stays platform closes_now p q s (close_now no_reason s).0 m at refl)
Step-Stays platform web q m m' (Step.deletes p s at down gced to) new = rw to (λ u found. (
  u,
  find_kept p q u m.all_sockets found (ground (arith, not_among q p m.gced_sockets new gced)),
  λ w. w,
))
Step-Stays platform web q m m' (Step.unrefers p s at down to) new =
    rw to (λ u found. (u, found, λ w. w))

-- Every object is backed by its stream.
abbrev pub AllBacked : Module → Type 0
AllBacked m = (p : ℕ) (s : Socket) → find p m.all_sockets ≡ some s → Backed s

store-AllBacked :
    (platform : Platform) (call : Call) (p : ℕ) (s t : Socket) (m : Module)
    → find p m.all_sockets ≡ some s
    → step platform call s ≡ some t
    → AllBacked m
    → AllBacked (store p t m)
store-AllBacked platform call p s t m at e backed q u found =
    elim (find-update p q u t m.all_sockets found) [
      | inl (_, it) ↦
          rw it ((subst (Post (Keeps s)) e (step-Keeps platform call s)).backed (backed p s at))
      | inr old ↦ backed q u old
    ]

new_Backed : (s : Socket) → IsNew s → Backed s
unfolding new_socket
new_Backed s (kind, host, port, path, b, e) = rw e (λ w. (refl, λ c. absurd (ground arith)))

pub Step-AllBacked :
    (platform : Platform) (web : Web) (m m' : Module)
    → Step platform web m m'
    → AllBacked m
    → AllBacked m'
unfolding step delete_socket
Step-AllBacked platform web m m' (Step.calls p call s t at opening e to) backed =
    rw to (store-AllBacked platform call p s t m at e backed)
Step-AllBacked platform web m m' (Step.refers p reference s at fresh to) backed =
    rw to
      (λ q u found. backed q u (subst (λ l. find q l ≡ some u) (refer_lem p reference m).0 found))
Step-AllBacked platform web m m' (Step.creates url verify s e to) backed = rw to (λ q u found.
    elim (find-snoc (web.new_address m.created m.all_sockets) q u s m.all_sockets found) [
      | inl (_, it) ↦
          rw it
            (new_Backed s (subst (Post IsNew) e (create_web_socket_from_url-IsNew web url verify)))
      | inr old ↦ backed q u old
    ])
Step-AllBacked platform web m m' (Step.finalizes p s at to) backed =
    rw to (store-AllBacked platform closes_now p s (close_now no_reason s).0 m at refl backed)
Step-AllBacked platform web m m' (Step.deletes p s at down gced to) backed =
    rw to (λ q u found. backed q u (find-erase p q u m.all_sockets found).1)
Step-AllBacked platform web m m' (Step.unrefers p s at down to) backed = rw to backed

-- From one module to the next, and on.
pub Stays-trans : (q : ℕ) (from m m' : Module) → Stays q from m → Stays q m m' → Stays q from m'
Stays-trans q from m m' h k s found =
    let (t, at, stream) = h s found in
    let (u, at', stream') = k t at in (u, at', λ w. stream (stream' w))
