-- ===== src/Mail.antt =====
-- The mails of a player: aop/container/mail.go, with the data of aop/mongo/mail.go. The database and
-- the values of the types of mail, which a generated file declares, are parameters.
pub mod Boxes
pub mod Saved
pub mod Kept
pub mod RoundTrip
mod Tests
use greatestworks.Base.{
  List, Option, String, String_discrete, [], false, if◌then◌else◌, ite, none, some, true, ℕ, ◌==◌,
  ◌∷◌,
}
use greatestworks.Base.Int.{pos, ℤ}

pub record MailItem : Type 0 where
  pub item_id : ℕ
  pub num : ℤ

-- A colour's components are kept by their bits.
pub record MailInfo : Type 0 where
  pub m_uuid : ℕ
  pub mail_id : ℕ
  pub m_type : ℤ
  pub m_sender : ℕ
  pub m_s_nick : String
  pub m_s_head : ℕ
  pub m_status : ℕ
  pub m_items : List MailItem
  pub m_content : String
  pub m_time : ℤ
  pub template : ℕ
  pub topic : String
  pub paster : List ℕ
  pub decorator : List String
  pub color : List ℕ
  pub validity : List ℤ
  pub reg_tm : List ℤ
  pub chan : List String
  pub version : String

-- mongo.MailInfo{}
abbrev pub empty_mail : MailInfo
empty_mail = record {
  m_uuid = 0;
  mail_id = 0;
  m_type = pos 0;
  m_sender = 0;
  m_s_nick = "";
  m_s_head = 0;
  m_status = 0;
  m_items = [];
  m_content = "";
  m_time = pos 0;
  template = 0;
  topic = "";
  paster = [];
  decorator = [];
  color = [];
  validity = [];
  reg_tm = [];
  chan = [];
  version = "";
}

pub record MailSystem : Type 0 where
  pub owner_id : ℕ
  pub send_cnt : ℤ
  pub normal : List MailInfo
  pub collect : List MailInfo
  pub recycle : List MailInfo
  pub history : List ℕ

unfoldable pub new_mail_container : ℕ → MailSystem
new_mail_container userid = record {
  owner_id = userid;
  send_cnt = pos 0;
  normal = [];
  collect = [];
  recycle = [];
  history = [];
}

-- What Set takes: a value of one of the types of the fields, or of another.
pub data Value : Type 0 where
  uid_value : ℕ → Value
  count_value : ℤ → Value
  mails_value : List MailInfo → Value
  ids_value : List ℕ → Value
  other_value : Value

-- Set by the bson tag of a field: nothing happens unless the types agree.
unfoldable pub set : String → Value → MailSystem → MailSystem
set tag v c =
    let is = λ (t : String). ite (String_discrete tag t) true false in
    elim v [
      | uid_value n ↦ if is "uid" then record c { owner_id = n } else c
      | count_value n ↦ if is "scnt" then record c { send_cnt = n } else c
      | mails_value l ↦
          if is "normal"
          then record c { normal = l }
          else if is "collect"
          then record c { collect = l }
          else if is "recycle"
          then record c { recycle = l }
          else c
      | ids_value l ↦ if is "history" then record c { history = l } else c
      | other_value ↦ c
    ]

-- Get by the bson tag: `none` for nil.
unfoldable pub get : String → MailSystem → Option Value
get tag c =
    let is = λ (t : String). ite (String_discrete tag t) true false in
    if is "uid"
    then some (uid_value c.owner_id)
    else if is "scnt"
    then some (count_value c.send_cnt)
    else if is "normal"
    then some (mails_value c.normal)
    else if is "collect"
    then some (mails_value c.collect)
    else if is "recycle"
    then some (mails_value c.recycle)
    else if is "history"
    then some (ids_value c.history)
    else none

-- getNormal, getCollect and getRecycle on the list of each.
unfoldable pub find : ℕ → List MailInfo → Option MailInfo
find uuid [] = none
find uuid (m ∷ ms) = if m.m_uuid == uuid then some m else find uuid ms

-- delNormal, delCollect and delRecycle on the list of each: the first mail with the id goes.
unfoldable pub del_first : ℕ → List MailInfo → List MailInfo
del_first uuid [] = []
del_first uuid (m ∷ ms) = if m.m_uuid == uuid then ms else m ∷ del_first uuid ms

-- The assignment of SetItem to the first mail with the id.
unfoldable pub mark_first : ℕ → ℕ → List MailInfo → List MailInfo
mark_first status uuid [] = []
mark_first status uuid (m ∷ ms) =
    if m.m_uuid == uuid then record m { m_status = status } ∷ ms else m ∷ mark_first status uuid ms
