-- ===== src/Lua/Shutdown.antt =====
-- src/GLua.cpp: the end of the module has a result.
use gwsockets.Prelude.{
  ℕ, ap, ◌≡◌, ◌≢◌, refl, Bool, true, false, List, [], ◌∷◌, none, some, ◌>>=◌, arith, all,
  Option-cases, inl, inr, bind-ne-none, ==_refl,
}
use gwsockets.Platform.{Platform}
use gwsockets.Socket.Loop.{closes, step}
use gwsockets.Socket.Write.{close}
use gwsockets.Socket.NullStream.{close-ne-none}
use gwsockets.Lua.Registry.{Web, Module, find}
use gwsockets.Lua.Functions.{store}
use gwsockets.Lua.Think.{Event, poll, close_referenced, module_close}
use gwsockets.Lua.Addresses.{present}
use gwsockets.Lua.Holding.{Held}
use gwsockets.Lua.Staying.{AllBacked}
use gwsockets.Lua.Reached.{Reached, reach_call, here}
use gwsockets.Lua.Sweep.{no_web}
use gwsockets.Lua.Rounds.{poll-Reached}
use gwsockets.Lua.Requests.{usable, usable-found}
use gwsockets.Lua.Total.{calls_no_orphan, poll-ne-none}

module _ (platform : Platform) (web : Web) (from : Module) (backed : AllBacked from) where
  close_referenced-Reached :
      (spurious : Bool) (references : List (ℕ × ℕ)) (m : Module)
      → ((p : ℕ) → present (find p references) ≡ true → usable from (some p) ≡ true)
      → Reached platform web from m
      → (m' : Module) × (close_referenced platform spurious references m ≡ some m')
        × Reached platform web from m'
        × (m'.orphans ≡ m.orphans)
  unfolding close_referenced find step
  close_referenced-Reached spurious [] m u k = (m, refl, k, refl)
  close_referenced-Reached spurious ((p, reference) ∷ rest) m u k =
      let (s, at) = usable-found platform web from m k p (u p (ground (arith, ==_refl p))) in
      elim (Option-cases (close spurious s)) [
        | inl e ↦ absurd (close-ne-none spurious s (λ w. (k.backed backed p s at w).1) e)
        | inr (r, e) ↦
            let (m', done, k', same) =
              close_referenced-Reached spurious rest (store p r.0 m) (λ q h. u q (ground arith))
                (reach_call platform web k p (closes spurious) s r.0 at refl
                  (ap (λ o. o >>= λ q. some q.0) e)) in
            (m', rw (at, e) done, k', same)
      ]

-- `GMOD_MODULE_CLOSE` has a result if the addresses in the collections are those of live objects, no
-- finalized one twice or referenced, each of them that is connected or has an operation on a stream has
-- its stream, and no handler of a deleted socket is called: every referenced object is there and can be
-- closed.
pub module_close-ne-none :
    (platform : Platform) (spurious : Bool) (events : List Event) (m : Module)
    → Held m
    → AllBacked m
    → all (calls_no_orphan m.orphans) events ≡ true
    → module_close platform spurious events m ≢ none
unfolding module_close
module_close-ne-none platform spurious events m h backed quiet =
    let (closed, done, k, same) =
      close_referenced-Reached platform no_web shut backed spurious m.socket_table_references shut
        (λ p r. ground (arith, h.referenced p, h.apart p)) (here platform no_web shut still) in
    rw done (
      bind-ne-none (Reached platform no_web shut) (poll platform events closed) _
        (poll-Reached platform no_web shut events closed k)
        (poll-ne-none platform no_web shut backed events closed k (rw same quiet))
        (λ polled e k' q. absurd (ground arith)))
  where
    shut : Module
    shut = record m { module_open = false }

    still : Held shut
    still = record {
      referenced = h.referenced;
      finalized = h.finalized;
      apart = h.apart;
      once = h.once;
    }
