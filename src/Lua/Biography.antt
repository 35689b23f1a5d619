-- ===== src/Lua/Biography.antt =====
-- src/GLua.cpp: the life of one object in the module, as a history of a socket.
use gwsockets.Prelude.{
  ℕ, ◌+◌, ◌≤◌, ◌≡◌, refl, subst, inl, inr, Bool, true, none, sym, ◌==◌, List, [], ◌∷◌, ◌++◌, some,
  arith, Post, Option-cases, Bool-cases, ==_iff, length, length-append, if◌then◌else◌,
}
use gwsockets.Platform.{Platform}
use gwsockets.Socket.State.{Socket, no_reason}
use gwsockets.Socket.Close.{close_now}
use gwsockets.Socket.Loop.{Call, closes_now, step, run}
use gwsockets.Lua.Registry.{
  Web, Module, empty_module, find, delete_socket, create_web_socket_from_url,
}
use gwsockets.Lua.Creation.{IsNew, create_web_socket_from_url-IsNew}
use gwsockets.Lua.Functions.{store}
use gwsockets.Lua.System.{Step, Steps, created_at, deleted}
use gwsockets.Lua.Addresses.{find-update, find-erase, find-snoc, find_updated}
use gwsockets.Lua.Holding.{refer_lem}

run-snoc :
    (platform : Platform) (calls : List Call) (call : Call) (s t u : Socket)
    → run platform calls s ≡ some t
    → step platform call t ≡ some u
    → run platform (calls ++ call ∷ []) s ≡ some u
unfolding run
run-snoc platform [] call s t u e e' = ground arith
run-snoc platform (first ∷ calls) call s t u e e' = elim (Option-cases (step platform first s)) [
  | inl none_ ↦ absurd (ground arith)
  | inr (s', at) ↦ rw at (run-snoc platform calls call s' t u (ground arith) e')
]

-- A call to the object at `p`, in the history of the one at `q`.
abbrev pub added : ℕ → ℕ → Call → List Call → List Call
added q p call before = if q == p then before ++ call ∷ [] else before

-- A history of a new socket leads to `s`.
abbrev pub Leads : Platform → List Call → Socket → Type 0
Leads platform calls s = (new : Socket) × IsNew new × (run platform calls new ≡ some s)

module _ (platform : Platform) (web : Web) where
  -- What a step makes of the history of the object at an address: a call is added, and a new object has
  -- no history.
  abbrev pub with_step : (q : ℕ) (m m' : Module) → Step platform web m m' → List Call → List Call
  with_step q m m' (Step.calls p call s t at opening e to) before = added q p call before
  with_step q m m' (Step.finalizes p s at to) before = added q p closes_now before
  with_step q m m' (Step.creates url verify s e to) before =
      if q == web.new_address m.created m.all_sockets then [] else before
  with_step q m m' _ before = before

  -- The calls to the object at an address, along a path.
  unfoldable pub history :
      (q : ℕ) (m : Module) (n : ℕ) (m' : Module) → Steps platform web m n m' → List Call
  history q m _ _ Steps.start = []
  history q m _ _ (Steps.onward n m' m'' path s) = with_step q m' m'' s (history q m n m' path)

  pub record Biography (q : ℕ) (calls : List Call) (m : Module) : Type 0 where
    pub alive : (s : Socket) → find q m.all_sockets ≡ some s → Leads platform calls s

  store-Biography :
      (call : Call) (p q : ℕ) (s t : Socket) (m : Module) (before : List Call)
      → find p m.all_sockets ≡ some s
      → step platform call s ≡ some t
      → Biography q before m
      → Biography q (added q p call before) (store p t m)
  store-Biography call p q s t m before at e b = elim (Bool-cases (q == p)) [
    | inl same ↦
        let here : find q m.all_sockets ≡ some s = ground (arith, ==_iff q p) in
        rw same (record {
          alive = λ u found.
              let (new, is_new, lived) = b.alive s here in
              (
                new,
                is_new,
                subst (λ v. run platform (before ++ call ∷ []) new ≡ some v)
                    (ground (arith, find_updated p q s t m.all_sockets here))
                    (run-snoc platform before call new s t lived e),
              );
        })
    | inr other ↦ rw other (record {
      alive = λ u found. elim (find-update p q u t m.all_sockets found) [
        | inl (same, it) ↦ absurd (ground (arith, ==_iff q p))
        | inr old ↦ b.alive u old
      ];
    })
  ]

  abbrev new_place : Module → ℕ
  new_place m = web.new_address m.created m.all_sockets

  not_there :
      (q : ℕ) (u : Socket) (m : Module)
      → (q == new_place m) ≡ true
      → find q m.all_sockets ≡ some u
      → ⊥
  not_there q u m same old =
      let free : find q m.all_sockets ≡ none =
        subst (λ k. find k m.all_sockets ≡ none) (sym ((==_iff q (new_place m)).0 same))
          (web.new_address_free m.created m.all_sockets) in
      absurd (ground arith)

  create-Biography :
      (url : List ℕ) (verify : Bool) (q : ℕ) (s : Socket) (m : Module) (before : List Call)
      → create_web_socket_from_url web url verify ≡ some s
      → Biography q before m
      → Biography q (if q == new_place m then [] else before) (created_at (new_place m) s m)
  unfolding run
  create-Biography url verify q s m before e b = elim (Bool-cases (q == new_place m)) [
    | inl same ↦ rw same (record {
      alive = λ u found. elim (find-snoc (new_place m) q u s m.all_sockets found) [
        | inl (_, it) ↦
            rw it (s, subst (Post IsNew) e (create_web_socket_from_url-IsNew web url verify), refl)
        | inr old ↦ absurd (not_there q u m same old)
      ];
    })
    | inr other ↦ rw other (record {
      alive = λ u found. elim (find-snoc (new_place m) q u s m.all_sockets found) [
        | inl (same, it) ↦ absurd (ground (arith, ==_iff q (new_place m)))
        | inr old ↦ b.alive u old
      ];
    })
  ]

  delete-Biography :
      (p q : ℕ) (s : Socket) (m : Module) (before : List Call)
      → Biography q before m
      → Biography q before (deleted p s m)
  unfolding delete_socket
  delete-Biography p q s m before b = record {
    alive = λ u found. b.alive u (find-erase p q u m.all_sockets found).1;
  }

  Step-Biography :
      (q : ℕ) (before : List Call) (m m' : Module) (s : Step platform web m m')
      → Biography q before m
      → Biography q (with_step q m m' s before) m'
  unfolding step
  Step-Biography q before m m' (Step.calls p call s t at opening e to) b =
      rw to (store-Biography call p q s t m before at e b)
  Step-Biography q before m m' (Step.refers p reference s at fresh to) b = rw to (record {
    alive = λ u found. b.alive u (subst (λ l. find q l ≡ some u) (refer_lem p reference m).0 found);
  })
  Step-Biography q before m m' (Step.creates url verify s e to) b =
      rw to (create-Biography url verify q s m before e b)
  Step-Biography q before m m' (Step.finalizes p s at to) b =
      let b' = store-Biography closes_now p q s (close_now no_reason s).0 m before at refl b in
      rw to (record { alive = b'.alive })
  Step-Biography q before m m' (Step.deletes p s at down gced to) b =
      rw to (delete-Biography p q s m before b)
  Step-Biography q before m m' (Step.unrefers p s at down to) b = rw to (record { alive = b.alive })

  pub Steps-Biography :
      (q : ℕ) (n : ℕ) (m : Module) (path : Steps platform web empty_module n m)
      → Biography q (history q empty_module n m path) m
  unfolding history find
  Steps-Biography q _ _ Steps.start = record { alive = λ s found. absurd (ground arith) }
  Steps-Biography q _ _ (Steps.onward n m' m'' path s) =
      Step-Biography q (history q empty_module n m' path) m' m'' s (Steps-Biography q n m' path)

  added_length :
      (q p : ℕ) (call : Call) (before : List Call)
      → length (added q p call before) ≤ length before + 1
  added_length q p call before = ground (arith, length-append before (call ∷ []))

  with_step_length :
      (q : ℕ) (m m' : Module) (s : Step platform web m m') (before : List Call)
      → length (with_step q m m' s before) ≤ length before + 1
  with_step_length q m m' (Step.calls p call s t at opening e to) before =
      added_length q p call before
  with_step_length q m m' (Step.finalizes p s at to) before = added_length q p closes_now before
  with_step_length q m m' (Step.creates url verify s e to) before = ground arith
  with_step_length q m m' _ before = omega arith

  pub history_length :
      (q : ℕ) (m : Module) (n : ℕ) (m' : Module) (path : Steps platform web m n m')
      → length (history q m n m' path) ≤ n
  unfolding history
  history_length q m _ _ Steps.start = omega arith
  history_length q m _ _ (Steps.onward n m' m'' path s) =
      omega
        (arith, with_step_length q m' m'' s (history q m n m' path), history_length q m n m' path)
