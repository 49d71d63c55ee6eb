-- ===== src/Aop/ModuleRouter.antt =====
-- The handlers of messages by their module: aop/module_router. A handler that is nil is `none`.
mod Tests
use greatestworks.Base.{
  Option, Option-cases, Outcome, [], ap, arith, if_neg, if_pos, if◌then◌else◌, inl, inr, none,
  panics, returns, some, ℕ, ℕ_discrete, ◌&&◌, ◌==◌, ◌∙◌, ◌≡◌,
}
use greatestworks.Base.SyncMap.{SyncMap, load, load-store, store}
use greatestworks.Card.Handlers.{found}

-- Module2MessageId2Handler; a map that is nil is empty.
abbrev pub Handlers : Type 0 → Type 0
Handlers H = SyncMap ℕ (SyncMap ℕ (Option H))

module _ {H : Type 0} where
  -- The handlers of a module, made where there are none.
  abbrev pub of_module : ℕ → Handlers H → SyncMap ℕ (Option H)
  of_module module_id t = elim (load ℕ_discrete module_id t) [ none ↦ [] | some m ↦ m ]

  unfoldable pub register_module_message_handler :
      ℕ → ℕ → Option H → Handlers H → Outcome (Handlers H)
  register_module_message_handler module_id msg_id handler t =
      let m = of_module module_id t in
      elim (load ℕ_discrete msg_id m) [
        | some (some h) ↦ panics
        | _ ↦ returns (store ℕ_discrete module_id (store ℕ_discrete msg_id handler m) t)
      ]

  unfoldable pub get_module_handler : ℕ → ℕ → Handlers H → Option H
  get_module_handler module_id msg_id t = elim (load ℕ_discrete module_id t) [
    | none ↦ none
    | some m ↦ elim (load ℕ_discrete msg_id m) [ none ↦ none | some h ↦ h ]
  ]

  stored :
      (a b i j : ℕ) (h : Option H) (t : Handlers H)
      → get_module_handler b j (store ℕ_discrete a (store ℕ_discrete i h (of_module a t)) t)
        ≡ (if a == b && i == j then h else get_module_handler b j t)
  unfolding get_module_handler
  stored a b i j h t =
      let m = of_module a t in
      let m' = store ℕ_discrete i h m in
      let outer = load-store ℕ_discrete a b m' t in
      let inner = load-store ℕ_discrete i j h m in
      elim (ℕ_discrete a b) [
        | no n ↦
            ground (arith, n, outer ∙ if_neg (ℕ_discrete a b) n (some m') (load ℕ_discrete b t))
        | yes e ↦
            let found = outer ∙ if_pos (ℕ_discrete a b) e (some m') (load ℕ_discrete b t) in
            elim (ℕ_discrete i j) [
              | yes f ↦ ground (
                arith,
                e,
                f,
                found,
                inner ∙ if_pos (ℕ_discrete i j) f (some h) (load ℕ_discrete j m),
              )
              | no n ↦
                  let other = inner ∙ if_neg (ℕ_discrete i j) n (some h) (load ℕ_discrete j m) in
                  elim (Option-cases (load ℕ_discrete b t)) [
                    | inl x ↦
                        let y : load ℕ_discrete a t ≡ none = ap (λ c. load ℕ_discrete c t) e ∙ x in
                        ground (arith, e, n, found, other, x, y)
                    | inr (k, x) ↦
                        let y : load ℕ_discrete a t ≡ some k =
                          ap (λ c. load ℕ_discrete c t) e ∙ x in
                        ground (arith, e, n, found, other, x, y)
                  ]
            ]
      ]

  -- A handler is registered exactly where there is none, and a second one panics. Afterwards it is
  -- the handler of its module and message, and all others are as before.
  pub get_module_handler-register :
      (a i : ℕ) (h : Option H) (t : Handlers H)
      → ((old : H)
          → get_module_handler a i t ≡ some old
          → register_module_message_handler a i h t ≡ panics)
        × (get_module_handler a i t ≡ none
            → (t' : Handlers H) × (register_module_message_handler a i h t ≡ returns t')
              × ((b j : ℕ)
                  → get_module_handler b j t'
                    ≡ (if a == b && i == j then h else get_module_handler b j t)))
  unfolding register_module_message_handler get_module_handler
  get_module_handler-register a i h t = elim (Option-cases (load ℕ_discrete a t)) [
    | inl x ↦ (
      (λ old e. absurd (ground (arith, e, x))),
      λ e. (
        store ℕ_discrete a (store ℕ_discrete i h (of_module a t)) t,
        ground (arith, x),
        λ b j. stored a b i j h t,
      ),
    )
    | inr (m, x) ↦ elim (Option-cases (load ℕ_discrete i m)) [
      | inl y ↦ (
        (λ old e. absurd (ground (arith, e, x, y))),
        λ e. (
          store ℕ_discrete a (store ℕ_discrete i h (of_module a t)) t,
          ground (arith, x, y),
          λ b j. stored a b i j h t,
        ),
      )
      | inr (o, y) ↦ (
        (λ old e. ground (arith, e, x, y)),
        λ e. (
          store ℕ_discrete a (store ℕ_discrete i h (of_module a t)) t,
          ground (arith, x, y, e),
          λ b j. stored a b i j h t,
        ),
      )
    ]
  ]
