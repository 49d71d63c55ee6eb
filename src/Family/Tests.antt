-- ===== src/Family/Tests.antt =====
-- Tests of the families, and their theorem at concrete actions.
use greatestworks.Base.{In, List, [], none, refl, returns, true, ℕ, ℕ_discrete, ◌∷◌, ◌≡◌, ◌⊎◌}
use greatestworks.Base.Int.{pos, ℤ, ℤ_discrete}
use greatestworks.Family.{
  Family, Member, MemberActionParam, add_member, del_member, del_members, get_member,
  handle_member_action, handle_remove, is_leader, remove_info, remove_member,
}
use greatestworks.Family.Leaders.{IsRemoved, members_stay, run_actions}

abbrev member : ℤ → ℕ → Member
member position id = record {
  position = position;
  id = id;
  nick = "";
  lv = 1;
  join_time = pos 0;
  off_line_time = pos 0;
}

abbrev two : Family
two = record {
  family_id = 1;
  name = "a";
  desc = "";
  members = (1, member (pos 1) 1) ∷ (2, member (pos 2) 2) ∷ [];
  sent = 0;
}

abbrev remove : ℕ → ℕ → MemberActionParam
remove op u = record { action = pos 1; info = remove_info op (u ∷ []) }

-- Who is no leader removes nobody.
refused : handle_member_action (remove 2 1) two ≡ returns two
unfolding handle_member_action handle_remove ℤ_discrete ℕ_discrete
refused = refl

added :
    add_member (member (pos 2) 2) (add_member (member (pos 1) 1) (record two { members = [] }))
    ≡ two
unfolding add_member ℕ_discrete
added = refl

abbrev actions : List MemberActionParam
actions = remove 2 1 ∷ remove 1 2 ∷ []

abbrev one_left : Family
one_left = record two { members = (1, member (pos 1) 1) ∷ []; sent = 1 }

actions_run : run_actions actions two ≡ returns one_left
unfolding handle_member_action handle_remove del_member del_members ℤ_discrete ℕ_discrete
actions_run = refl

members_stay_example :
    ((get_member 2 one_left ≡ get_member 2 two) ⊎ IsRemoved 2 two actions)
    × ((p : MemberActionParam) (qs : List MemberActionParam) (op : ℕ) (ids : List ℕ)
        → actions ≡ p ∷ qs
        → p.action ≡ remove_member
        → p.info ≡ remove_info op ids
        → In 2 ids
        → is_leader (get_member op two) ≡ true
        → get_member 2 one_left ≡ none)
members_stay_example = members_stay 2 actions two one_left actions_run
