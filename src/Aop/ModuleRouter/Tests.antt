-- ===== src/Aop/ModuleRouter/Tests.antt =====
-- Tests of the registered handlers, and their theorem at a concrete handler.
use greatestworks.Aop.ModuleRouter.{
  Handlers, get_module_handler, get_module_handler-register, register_module_message_handler,
}
use greatestworks.Base.{
  [], if◌then◌else◌, none, panics, refl, returns, some, ℕ, ℕ_discrete, ◌&&◌, ◌==◌, ◌∷◌, ◌≡◌,
}

abbrev empty : Handlers ℕ
empty = []

registered_twice :
    register_module_message_handler {H = ℕ} 1 5 (some 8) ((1, (5, some 7) ∷ []) ∷ []) ≡ panics
unfolding register_module_message_handler ℕ_discrete
registered_twice = refl

-- Registering nil again and again is no error, and what every module does.
nil_twice :
    register_module_message_handler {H = ℕ} 1 0 none ((1, (0, none) ∷ []) ∷ [])
    ≡ returns ((1, (0, none) ∷ []) ∷ [])
unfolding register_module_message_handler ℕ_discrete
nil_twice = refl

get_module_handler-register_example :
    ((old : ℕ)
      → get_module_handler 1 5 empty ≡ some old
      → register_module_message_handler 1 5 (some 7) empty ≡ panics)
    × (get_module_handler 1 5 empty ≡ none
        → (t' : Handlers ℕ) × (register_module_message_handler 1 5 (some 7) empty ≡ returns t')
          × ((b j : ℕ)
              → get_module_handler b j t'
                ≡ (if 1 == b && 5 == j then some 7 else get_module_handler b j empty)))
get_module_handler-register_example = get_module_handler-register 1 5 (some 7) empty
