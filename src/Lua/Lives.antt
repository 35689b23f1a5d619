-- ===== src/Lua/Lives.antt =====
-- src/GLua.cpp: sequences of what happens to the module, whatever that is, from its opening on.
use gwsockets.Prelude.{
  ℕ, ◌+◌, ◌^◌, ◌<◌, ◌≡◌, refl, subst, List, [], ◌∷◌, Option, some, ◌>>=◌, arith, Post, Post->>=,
  Post-map,
}
use gwsockets.Platform.{Platform}
use gwsockets.Socket.State.{Socket}
use gwsockets.Lua.Biography.{history}
use gwsockets.Lua.Lifelike.{Lifelike, Steps-AllLifelike}
use gwsockets.Lua.Registry.{Web, Module, empty_module, find, is_member}
use gwsockets.Lua.Holding.{Held}
use gwsockets.Lua.System.{Steps}
use gwsockets.Lua.Reached.{Steps-Held}
use gwsockets.Lua.Soundness.{Sound, Steps-Sound}

module _ {E : Type 0} (take : E → Module → Option Module) where
  unfoldable pub take_all : List E → Module → Option Module
  take_all [] m = some m
  take_all (e ∷ rest) m = (take e m >>= λ m'. take_all rest m')

  -- Each is allowed in the module in which it happens.
  pub data AllAllowed (Allowed : E → Module → Type 0) : List E → Module → Type 0 where
    rests : (m : Module) → AllAllowed Allowed [] m
    goes_on :
        (e : E) (rest : List E) (m : Module)
        → Allowed e m
        → ((m' : Module) → take e m ≡ some m' → AllAllowed Allowed rest m')
        → AllAllowed Allowed (e ∷ rest) m

pub Steps_append :
    (platform : Platform) (web : Web) (m m' m'' : Module) (n k : ℕ)
    → Steps platform web m n m'
    → Steps platform web m' k m''
    → (l : ℕ) × Steps platform web m l m''
Steps_append platform web m m' _ n _ first Steps.start = (n, first)
Steps_append platform web m m' _ n _ first (Steps.onward k u v more s) =
    let (l, path) = Steps_append platform web m m' u n k first more in
    (l + 1, Steps.onward l u v path s)

pub empty-Sound : Sound 0 empty_module
unfolding find is_member
empty-Sound = record {
  held = record {
    referenced = λ q r. absurd (ground arith);
    finalized = λ q r. absurd (ground arith);
    apart = λ q r. absurd (ground arith);
    once = refl;
  };
  every = λ p s e. absurd (ground arith);
}

-- What was reached by steps is sound, if they are few, and its objects are as their histories leave them.
abbrev pub Lived : Platform → Web → Module → Type 0
Lived platform web m =
    (n : ℕ) × (path : Steps platform web empty_module n m) × (n < 2 ^ 32
      → Sound n m
        × ((p : ℕ) (s : Socket)
            → find p m.all_sockets ≡ some s
            → Lifelike platform (history platform web p empty_module n m path) s))

module _ (platform : Platform) (web : Web) {E : Type 0} (take : E → Module → Option Module)
    (Allowed : E → Module → Type 0)
    (each : (e : E) (m : Module)
      → Held m
      → Allowed e m
      → Post (λ m'. (n : ℕ) × Steps platform web m n m') (take e m)) where
  all-Steps :
      (es : List E) (m : Module)
      → Held m
      → AllAllowed take Allowed es m
      → Post (λ m'. (n : ℕ) × Steps platform web m n m') (take_all take es m)
  unfolding take_all
  all-Steps _ _ h (AllAllowed.rests m) = (0, Steps.start)
  all-Steps _ _ h (AllAllowed.goes_on e rest m allowed next) = Post->>= _ (take e m) _ (λ m' q.
      let (n, path) =
        subst (Post (λ m''. (n : ℕ) × Steps platform web m n m'')) q (each e m h allowed) in
      Post-map (take_all take rest m')
        (λ m'' (k, more). Steps_append platform web m m' m'' n k path more)
        (all-Steps rest m' (Steps-Held platform web m n m' path h) (next m' q)))

  pub all-Lived :
      (es : List E)
      → AllAllowed take Allowed es empty_module
      → Post (Lived platform web) (take_all take es empty_module)
  all-Lived es allowed =
      Post-map (take_all take es empty_module)
        (λ m (n, path). (
          n,
          path,
          λ few. (
            subst (λ k. Sound k m) (omega arith)
                (Steps-Sound platform web 0 empty_module n m empty-Sound path (omega arith)),
            λ p s found. Steps-AllLifelike platform web n m path p s few found,
          ),
        ))
        (all-Steps es empty_module empty-Sound.held allowed)
