-- ===== src/World/CloseList/Tests.antt =====
-- Tests of the list of closed systems, and its theorem at concrete calls.
use greatestworks.Base.{In, List, [], false, refl, true, ℕ, ℕ_discrete, ◌↔◌, ◌∷◌, ◌≡◌}
use greatestworks.Base.Text.{Text, codes, parse_uint, split, text_eq}
use greatestworks.World.CloseList.{
  get_system_close_list, get_system_in_close_list, is_one_of, load_from_redis, loaded, parse_bool,
  system_close_list, system_of,
}
use greatestworks.World.CloseList.Refines.{
  Nodup, Op, close_list_refines, del_op, load_op, meanings, run_ops, set_op,
}

abbrev entries : List (Text × Text)
entries =
    (codes "sys:7", codes "true")
    ∷ (codes "sys:8", codes "0")
    ∷ (codes "9", codes "1")
    ∷ (codes "a:b:7", codes "t")
    ∷ []

abbrev calls : List Op
calls = load_op entries ∷ set_op 12 true ∷ set_op 13 true ∷ del_op 13 ∷ set_op 12 true ∷ []

load_runs : (load_from_redis entries system_close_list).close_list ≡ (7, true) ∷ []
unfolding load_from_redis loaded parse_bool is_one_of system_of text_eq split parse_uint ℕ_discrete
load_runs = refl

close_list_refines_example :
    ((k : ℕ)
      → get_system_in_close_list k (run_ops calls system_close_list)
        ≡ meanings calls (λ k. false) k)
    × ((k : ℕ)
        → In k (get_system_close_list (run_ops calls system_close_list))
          ↔ (meanings calls (λ k. false) k ≡ true))
    × Nodup (get_system_close_list (run_ops calls system_close_list))
close_list_refines_example = close_list_refines calls
