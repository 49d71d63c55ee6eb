-- ===== src/World/Mail.antt =====
-- The mails of a player in a world: server/world/mail/mail.go, on the container of
-- aop/container/mail.go. The methods that are empty are left out.
pub mod News
mod Tests
use greatestworks.Base.{
  Bool, List, Option, Outcome, [], false, if◌then◌else◌, panics, returns, some, true, ℕ, ◌*◌, ◌++◌,
  ◌==◌, ◌∷◌,
}
use greatestworks.Base.Int.{ltb_ℤ, pos, wrap_int, ℤ, ◌+ℤ◌}
use greatestworks.Mail.{
  MailInfo, MailSystem, Value, empty_mail, get, ids_value, mails_value, new_mail_container, set,
}
use greatestworks.Rank.{collect}
use greatestworks.World.CloseList.{loaded}

-- sendCnt is a count of its own, beside the container's.
pub record System : Type 0 where
  pub send_count : ℤ
  pub container : MailSystem

abbrev pub empty_data : MailSystem
empty_data = record {
  owner_id = 0;
  send_cnt = pos 0;
  normal = [];
  collect = [];
  recycle = [];
  history = [];
}

-- loadFromMgo, of which the result of FindOne is not decoded: a document of zeros is set.
unfoldable pub load_from_mgo : System → System
load_from_mgo e =
    let loaded = empty_data in
    let c1 = set "normal" (mails_value loaded.normal) e.container in
    let c2 = set "collect" (mails_value loaded.collect) c1 in
    let c3 = set "recycle" (mails_value loaded.recycle) c2 in
    record { send_count = loaded.send_cnt; container = set "history" (ids_value loaded.history) c3 }

unfoldable pub new_mail_system : ℕ → System
new_mail_system player_id =
    load_from_mgo (record { send_count = pos 0; container = new_mail_container player_id })

-- updateSendCnt and clearSendCnt; what they write to the database is an empty method.
unfoldable pub update_send_cnt : ℤ → System → System
update_send_cnt val e = record e { send_count = val }

abbrev pub clear_send_cnt : System → System
clear_send_cnt e = update_send_cnt (pos 0) e

-- The type assertion of the answer of Get, which panics for another type.
abbrev pub as_mails : Option Value → Outcome (List MailInfo)
as_mails (some (mails_value l)) = returns l
as_mails _ = panics

abbrev pub as_ids : Option Value → Outcome (List ℕ)
as_ids (some (ids_value l)) = returns l
as_ids _ = panics

-- The mails of the recycle box that have expired, with their ids and their box alone; nothing is
-- done with them.
expired_of : ℤ → ℤ → List MailInfo → List MailInfo
expired_of recycle_type now [] = []
expired_of recycle_type now (m ∷ ms) =
    let rest = expired_of recycle_type now ms in
    if ltb_ℤ (wrap_int (m.m_time +ℤ pos (7 * 24 * 60 * 60))) now
    then record empty_mail { m_uuid = m.m_uuid; m_type = recycle_type } ∷ rest
    else rest

unfoldable pub expired : ℤ → ℤ → System → Outcome (List MailInfo)
unfolding expired_of
expired recycle_type now e = elim (as_mails (get "recycle" e.container)) [
  | panics ↦ panics
  | returns l ↦ returns (expired_of recycle_type now l)
]

has_id : ℕ → List ℕ → Bool
has_id u [] = false
has_id u (i ∷ is) = if i == u then true else has_id u is

unfoldable pub check_in_history : ℕ → System → Outcome Bool
unfolding has_id
check_in_history euuid e = elim (as_ids (get "history" e.container)) [
  | panics ↦ panics
  | returns l ↦ returns (has_id euuid l)
]

no_mail : ℕ → List MailInfo → Bool
no_mail u [] = true
no_mail u (m ∷ ms) = if m.m_uuid == u then false else no_mail u ms

unfoldable pub can_add : ℕ → System → Outcome Bool
unfolding no_mail
can_add euuid e = elim (check_in_history euuid e) [
  | panics ↦ panics
  | returns true ↦ returns false
  | returns false ↦ elim (as_mails (get "normal" e.container)) [
    | panics ↦ panics
    | returns n ↦ elim (as_mails (get "collect" e.container)) [
      | panics ↦ panics
      | returns c ↦ elim (as_mails (get "recycle" e.container)) [
        | panics ↦ panics
        | returns r ↦ returns (no_mail euuid ((n ++ c) ++ r))
      ]
    ]
  ]
]
