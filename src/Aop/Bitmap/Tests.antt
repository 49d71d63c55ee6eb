-- ===== src/Aop/Bitmap/Tests.antt =====
-- Tests of the bit maps, and their theorem at concrete calls.
use greatestworks.Aop.Bitmap.{BitMap, and_byte, del_bit, is_exist, new_bit_map, or_byte, set_bit}
use greatestworks.Aop.Bitmap.Refines.{Call, after_all, del_call, run_all, run_all_refines, set_call}
use greatestworks.Base.{List, [], arith, false, panics, refl, returns, true, ℕ, ◌∷◌, ◌≡◌, ◌≤◌}

-- Taking 3 out takes 5 with it, and not 9.
abbrev calls : List Call
calls = set_call 5 ∷ set_call 9 ∷ set_call 3 ∷ del_call 3 ∷ []

five_gone : after_all calls (λ x. false) 5 ≡ false
five_gone = refl

nine_left : after_all calls (λ x. false) 9 ≡ true
nine_left = refl

map_runs : run_all calls (new_bit_map 10) ≡ returns (0 ∷ 2 ∷ [])
unfolding new_bit_map set_bit del_bit or_byte and_byte
map_runs = refl

-- The number one byte beyond the end passes the test.
one_beyond : set_bit 16 (0 ∷ 0 ∷ []) ≡ panics
unfolding set_bit
one_beyond = refl

run_all_refines_example :
    (bt : BitMap) × (run_all calls (new_bit_map 10) ≡ returns bt)
    × ((m : ℕ) → m ≤ 10 → is_exist m bt ≡ returns (after_all calls (λ x. false) m))
run_all_refines_example =
    run_all_refines 10 calls (omega arith, (omega arith, (omega arith, (omega arith, tt))))
