-- ===== src/Mail/Tests.antt =====
-- Tests of the mails, and their theorem at concrete mails and a database of lists.
use greatestworks.Base.{
  List, String, String_discrete, [], ite, none, panics, refl, returns, some, ℕ, ℕ_discrete, ◌++◌,
  ◌∷◌, ◌≡◌,
}
use greatestworks.Base.Int.{pos, ℤ, ℤ_discrete}
use greatestworks.Mail.{MailInfo, MailSystem, empty_mail, find, get, mails_value, mark_first, set}
use greatestworks.Mail.Boxes.{
  Box, EmailTypes, box_of, collect_box, get_item, get_key, keys, mails_in, mark_in, normal_box,
  recycle_box, set_item,
}
use greatestworks.Mail.Kept.{AreNew, mails_for}
use greatestworks.Mail.RoundTrip.{IsEmailTypes, IsOrder, add-del, tag_of}
use greatestworks.Mail.Saved.{IsMailDb, MailDb, add, del}

abbrev types : EmailTypes
types = record { normal = pos 0; collect = pos 1; recycle = pos 2 }

abbrev mail : ℕ → ℤ → MailInfo
mail uuid t = record empty_mail { m_uuid = uuid; m_type = t }

abbrev start : MailSystem
start = record {
  owner_id = 5;
  send_cnt = pos 0;
  normal = mail 1 (pos 0) ∷ [];
  collect = [];
  recycle = [];
  history = [];
}

types-IsEmailTypes : IsEmailTypes types
types-IsEmailTypes = record { normal_eq = refl; collect_eq = refl; recycle_eq = refl }

-- A document is a list of mails for each field.
abbrev lists : MailDb
lists = record {
  Db = String → List MailInfo;
  mails = λ key d. d key;
  push = λ key l d x. ite (String_discrete key x) (d x ++ l) (d x);
  pull = λ key field uuids d. d;
}

lists-IsMailDb : IsMailDb lists
lists-IsMailDb = record {
  mails-push = λ key key' l d. refl;
  mails-pull = λ key key' field uuids d h. refl;
}

abbrev document : String → List MailInfo
document key = ite (String_discrete key "normal") (mail 1 (pos 0) ∷ []) []

keys-IsOrder : IsOrder keys
unfolding String_discrete
keys-IsOrder normal_box = refl
keys-IsOrder collect_box = refl
keys-IsOrder recycle_box = refl

-- A type that is no index of the tags panics.
no_key : get_key (pos 3) ≡ panics
unfolding get_key
no_key = refl

abbrev two : List MailInfo
two = mail 2 (pos 1) ∷ mail 3 (pos 0) ∷ []

two_new : (b : Box) → find 2 (mails_in b start) ≡ none
unfolding find
two_new normal_box = refl
two_new collect_box = refl
two_new recycle_box = refl

three_new : (b : Box) → find 3 (mails_in b start) ≡ none
unfolding find
three_new normal_box = refl
three_new collect_box = refl
three_new recycle_box = refl

two-AreNew : AreNew (λ b. mails_in b start) two
two-AreNew = (two_new, (three_new, tt))

get-set_runs : get "recycle" (set "recycle" (mails_value two) start) ≡ some (mails_value two)
unfolding get set String_discrete
get-set_runs = refl

marks :
    get_item types (mail 1 (pos 0)) (set_item types 7 (mail 1 (pos 0) ∷ []) start)
    ≡ record (mail 1 (pos 0)) { m_status = 7 }
unfolding get_item set_item box_of find mark_in mark_first ℤ_discrete ℕ_discrete
marks = refl

add-del_example :
    (c1 : MailSystem) × (d1 : String → List MailInfo) × (c2 : MailSystem) × (d2 : String
      → List MailInfo)
    × (add lists types keys two (start, document) ≡ returns (c1, d1))
    × (del lists types keys two (c1, d1) ≡ returns (c2, d2))
    × ((b : Box)
        → (mails_in b c1 ≡ mails_in b start ++ mails_for types b two)
          × (d1 (tag_of b) ≡ document (tag_of b) ++ mails_for types b two)
          × (mails_in b c2 ≡ mails_in b start)
          × (d2 (tag_of b) ≡ d1 (tag_of b)))
add-del_example =
    add-del types types-IsEmailTypes lists lists-IsMailDb keys keys two start document keys-IsOrder
      two-AreNew
