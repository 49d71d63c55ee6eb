-- ===== src/Mail/Boxes.antt =====
-- The three boxes of a player's mails, and the calls on them: aop/container/mail.go.
use greatestworks.Base.{
  List, Option, Outcome, String, [], get_elem?, ite, none, panics, returns, some, ℕ, ◌++◌, ◌∷◌,
}
use greatestworks.Base.Int.{negsuc, pos, ℤ, ℤ_discrete}
use greatestworks.Mail.{MailInfo, MailSystem, del_first, empty_mail, find, mark_first}

-- The values of mail.EmailType.
pub record EmailTypes : Type 0 where
  pub normal : ℤ
  pub collect : ℤ
  pub recycle : ℤ

pub data Box : Type 0 where
  normal_box collect_box recycle_box : Box

-- The chain of tests of a mail's type, in the order of the source; `none` for another type.
unfoldable pub box_of : EmailTypes → ℤ → Option Box
box_of types t = ite (ℤ_discrete t types.collect) (some collect_box) (
    ite (ℤ_discrete t types.normal) (some normal_box)
      (ite (ℤ_discrete t types.recycle) (some recycle_box) none))

abbrev pub keys : List String
keys = "normal" ∷ "collect" ∷ "recycle" ∷ []

abbrev pub type_of : EmailTypes → Box → ℤ
type_of types normal_box = types.normal
type_of types collect_box = types.collect
type_of types recycle_box = types.recycle

-- getKey: an index out of range panics.
unfoldable pub get_key : ℤ → Outcome String
get_key (negsuc n) = panics
get_key (pos n) = elim (get_elem? keys n) [ none ↦ panics | some key ↦ returns key ]

abbrev pub mails_in : Box → MailSystem → List MailInfo
mails_in normal_box c = c.normal
mails_in collect_box c = c.collect
mails_in recycle_box c = c.recycle

abbrev pub with_mails : Box → List MailInfo → MailSystem → MailSystem
with_mails normal_box l c = record c { normal = l }
with_mails collect_box l c = record c { collect = l }
with_mails recycle_box l c = record c { recycle = l }

-- addNormal, addCollect and addRecycle.
unfoldable pub add_to : Option Box → MailInfo → MailSystem → MailSystem
add_to none m c = c
add_to (some b) m c = with_mails b (mails_in b c ++ m ∷ []) c

unfoldable pub del_from : Option Box → ℕ → MailSystem → MailSystem
del_from none uuid c = c
del_from (some b) uuid c = with_mails b (del_first uuid (mails_in b c)) c

unfoldable pub mark_in : Option Box → ℕ → ℕ → MailSystem → MailSystem
mark_in none status uuid c = c
mark_in (some b) status uuid c = with_mails b (mark_first status uuid (mails_in b c)) c

module _ (types : EmailTypes) where
  -- `GetItem`: a copy of the mail, and an empty mail where there is none.
  unfoldable pub get_item : MailInfo → MailSystem → MailInfo
  get_item msg c = elim (box_of types msg.m_type) [
    | none ↦ empty_mail
    | some b ↦ elim (find msg.m_uuid (mails_in b c)) [ none ↦ empty_mail | some m ↦ m ]
  ]

  -- The loop of SetItem over the mails. The write to the database is commented out.
  unfoldable pub set_item : ℕ → List MailInfo → MailSystem → MailSystem
  set_item status [] c = c
  set_item status (m ∷ ms) c =
      set_item status ms (mark_in (box_of types m.m_type) status m.m_uuid c)
