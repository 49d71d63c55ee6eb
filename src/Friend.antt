-- ===== src/Friend.antt =====
-- The friends of a player: internal/communicate/friend. The helpers of the library phuhao00/sugar are
-- parameters; a message that does not decode is `none`, and the other handlers are empty.
pub mod Lists
mod Tests
use greatestworks.Base.{
  Bool, List, Option, Outcome, String, [], drop, false, if◌then◌else◌, none, not, panics, returns,
  some, suc, take, true, ℕ, ◌++◌, ◌==◌, ◌∷◌,
}
use greatestworks.Base.Int.{negsuc, pos, pos_part, ℤ}

pub record Info : Type 0 where
  pub u_id : ℕ
  pub chat_time : ℤ
  pub add_time : ℤ
  pub tag : String

pub record Request : Type 0 where
  pub userid : ℕ
  pub op_time : ℤ
  pub add_type : ℤ

-- The answers that a player is sent: SendMsg of the player, which takes every message.
pub data Answer : Type 0 where
  sc_add_friend sc_del_friend : Answer

pub record System : Type 0 where
  pub friend_list : List ℕ
  pub friends : List Info
  pub black_list : List ℕ
  pub requests : List Request
  -- IPlayer, `none` for nil, by what it was sent
  pub player : Option (List Answer)

abbrev pub new_system : System
new_system = record {
  friend_list = [];
  friends = [];
  black_list = [];
  requests = [];
  player = none;
}

-- SetOwner, with a player who was sent nothing.
unfoldable pub set_owner : System → System
set_owner s = record s { player = some [] }

-- s.IPlayer.SendMsg, which panics for nil.
unfoldable pub send_msg : Answer → System → Outcome System
send_msg answer s = elim s.player [
  | none ↦ panics
  | some sent ↦ returns (record s { player = some (sent ++ answer ∷ []) })
]

-- sugar.CheckInSlice and sugar.DelOneInSlice
pub record Sugar : Type 0 where
  pub check_in_slice : ℕ → List ℕ → Bool
  pub del_one_in_slice : ℕ → List ℕ → List ℕ

-- The loops over the three lists: whether there is an entry, and its index, -1 without one.
index_from : {A : Type 0} → (A → ℕ) → ℕ → ℕ → List A → Bool × ℤ
index_from key i u [] = (false, negsuc 0)
index_from key i u (x ∷ xs) =
    let rest = index_from key (suc i) u xs in if key x == u then (true, pos i) else rest

unfoldable pub is_friend : ℕ → System → Bool × ℤ
unfolding index_from
is_friend u s = index_from (λ (x : Info). x.u_id) 0 u s.friends

unfoldable pub is_black_list : ℕ → System → Bool × ℤ
unfolding index_from
is_black_list u s = index_from (λ x. x) 0 u s.black_list

unfoldable pub get_request : ℕ → System → Bool × ℤ
unfolding index_from
get_request u s = index_from (λ (x : Request). x.userid) 0 u s.requests

unfoldable pub del_request : ℕ → System → System
del_request u s =
    let (ok, index) = get_request u s in
    if ok
    then record s {
      requests = take (pos_part index) s.requests ++ drop (suc (pos_part index)) s.requests;
    }
    else s

unfoldable pub add_request : ℤ → ℕ → ℤ → System → System
add_request now u add_type s = record s {
  requests = s.requests ++ record { userid = u; op_time = now; add_type = add_type } ∷ [];
}

module _ (sugar : Sugar) where
  unfoldable pub add_friend : Option ℕ → System → Outcome System
  add_friend none s = returns s
  add_friend (some u) s =
      let list =
        if not (sugar.check_in_slice u s.friend_list)
        then s.friend_list ++ u ∷ []
        else s.friend_list in
      send_msg sc_add_friend (record s { friend_list = list })

  unfoldable pub del_friend : Option ℕ → System → Outcome System
  del_friend none s = returns s
  del_friend (some u) s =
      send_msg sc_del_friend (record s { friend_list = sugar.del_one_in_slice u s.friend_list })
