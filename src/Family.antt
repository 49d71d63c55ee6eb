-- ===== src/Family.antt =====
-- The members of a family: internal/communicate/family. A send on the channel ChOut, which waits
-- while the channel is full, is an entry of a count.
pub mod Leaders
mod Tests
use greatestworks.Base.{
  Bool, List, Option, Outcome, String, [], false, if◌then◌else◌, ite, none, panics, returns, some,
  suc, true, ℕ, ℕ_discrete, ◌∷◌,
}
use greatestworks.Base.Int.{pos, ℤ, ℤ_discrete}
use greatestworks.Base.SyncMap.{SyncMap, delete, load, store}

-- Leader and Normal are 1 and 2.
abbrev pub leader : ℤ
leader = pos 1

abbrev pub remove_member : ℤ
remove_member = pos 1

pub record Member : Type 0 where
  pub position : ℤ
  pub id : ℕ
  pub nick : String
  pub lv : ℕ
  pub join_time : ℤ
  pub off_line_time : ℤ

-- What stands in the field Info, of any type.
pub data ActionInfo : Type 0 where
  -- the operator and the ids to remove
  remove_info : ℕ → List ℕ → ActionInfo
  other_info : ActionInfo

pub record MemberActionParam : Type 0 where
  pub action : ℤ
  pub info : ActionInfo

pub record Family : Type 0 where
  pub family_id : ℕ
  pub name : String
  pub desc : String
  pub members : SyncMap ℕ Member
  pub sent : ℕ

-- AddMember, and UpdateMember, which is the same.
unfoldable pub add_member : Member → Family → Family
add_member m f = record f { members = store ℕ_discrete m.id m f.members }

unfoldable pub del_members : List ℕ → SyncMap ℕ Member → SyncMap ℕ Member
del_members [] m = m
del_members (id ∷ ids) m = del_members ids (delete ℕ_discrete id m)

unfoldable pub del_member : List ℕ → Family → Family
del_member ids f = record f { members = del_members ids f.members }

abbrev pub get_member : ℕ → Family → Option Member
get_member id f = load ℕ_discrete id f.members

abbrev pub is_leader : Option Member → Bool
is_leader none = false
is_leader (some m) = ite (ℤ_discrete m.position leader) true false

-- Another type of Info panics.
unfoldable pub handle_remove : ActionInfo → Family → Outcome Family
handle_remove other_info f = panics
handle_remove (remove_info op ids) f =
    let removed = del_member ids f in
    returns (if is_leader (get_member op f) then record removed { sent = suc removed.sent } else f)

unfoldable pub handle_member_action : MemberActionParam → Family → Outcome Family
handle_member_action param f =
    ite (ℤ_discrete param.action remove_member) (handle_remove param.info f) (returns f)
