-- ===== src/Friend/Tests.antt =====
-- Tests of the friends, and their theorem at concrete handlers.
use greatestworks.Base.{
  List, [], arith, false, if◌then◌else◌, leb, length, ltb, none, panics, refl, returns, some, ℕ,
  ℕ_discrete, ◌-◌, ◌==◌, ◌∷◌, ◌≡◌,
}
use greatestworks.Base.Int.{negsuc, pos}
use greatestworks.Friend.{
  Sugar, System, add_friend, add_request, del_friend, del_request, get_request, is_friend,
  new_system, sc_add_friend, sc_del_friend, send_msg, set_owner,
}
use greatestworks.Friend.Lists.{
  Call, IsSugar, add_call, answers, del_call, friends_refine, is_friend_after, occurrences,
  run_calls,
}

del_one : ℕ → List ℕ → List ℕ
del_one u [] = []
del_one u (v ∷ vs) = if u == v then vs else v ∷ del_one u vs

occurrences-del_one :
    (u v : ℕ) (l : List ℕ)
    → occurrences v (del_one u l) ≡ occurrences v l - (if v == u then 1 else 0)
unfolding del_one
occurrences-del_one u v [] = omega arith
occurrences-del_one u v (w ∷ l) = elim (ℕ_discrete v u) [
  | yes e ↦ ground (arith, e, occurrences-del_one u v l)
  | no n ↦ ground (arith, n, occurrences-del_one u v l)
]

sugar : Sugar
sugar = record { check_in_slice = λ u l. ltb 0 (occurrences u l); del_one_in_slice = del_one }

sugar-IsSugar : IsSugar sugar
unfolding sugar
sugar-IsSugar = record { check_in_slice_lem = λ u l. refl; occurrences-del = occurrences-del_one }

-- The third message does not decode.
abbrev calls : List Call
calls =
    add_call (some 3)
    ∷ add_call (some 3)
    ∷ add_call none
    ∷ add_call (some 4)
    ∷ del_call (some 4)
    ∷ []

abbrev three : System
three = record new_system {
  friend_list = 3 ∷ [];
  player = some (sc_add_friend ∷ sc_add_friend ∷ sc_add_friend ∷ sc_del_friend ∷ []);
}

friends_run : run_calls sugar calls (set_owner new_system) ≡ returns three
unfolding add_friend del_friend send_msg set_owner sugar del_one
friends_run = refl

-- A friend who was added is not found by isFriend, which looks at another list.
not_found : is_friend 3 three ≡ (false, negsuc 0)
unfolding is_friend
not_found = refl

abbrev two_requests : System
two_requests = add_request (pos 9) 6 (pos 1) (add_request (pos 8) 5 (pos 1) new_system)

request_gone :
    (del_request 5 two_requests).requests
    ≡ record { userid = 6; op_time = pos 9; add_type = pos 1 } ∷ []
unfolding del_request get_request add_request
request_gone = refl

friends_refine_example :
    ((s : System) × (run_calls sugar calls (set_owner new_system) ≡ returns s)
      × (occurrences 3 s.friend_list ≡ (if is_friend_after 3 false calls then 1 else 0))
      × (s.player ≡ some (answers calls)))
    × (run_calls sugar calls new_system
        ≡ (if leb (length (answers calls)) 0 then returns new_system else panics))
friends_refine_example = friends_refine sugar sugar-IsSugar calls 3
