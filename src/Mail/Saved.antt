-- ===== src/Mail/Saved.antt =====
-- Add and Del of aop/container/mail.go, with what they write to the database, which is a parameter.
use greatestworks.Base.{
  In, List, Outcome, String, String_discrete, [], ite, none, panics, returns, some, ℕ, ◌++◌, ◌∷◌,
  ◌≡◌,
}
use greatestworks.Base.SyncMap.{SyncMap, load, store}
use greatestworks.Mail.{MailInfo, MailSystem}
use greatestworks.Mail.Boxes.{EmailTypes, add_to, box_of, del_from, get_key, type_of}

-- The bson tags of a mail, in aop/mongo/mail.go.
abbrev pub mail_tags : List String
mail_tags =
    "uid" ∷ "mid" ∷ "type" ∷ "send" ∷ "nick" ∷ "head" ∷ "stat" ∷ "items" ∷ "con" ∷ "time" ∷ "tpl"
    ∷ "topic" ∷ "past" ∷ "deco" ∷ "color" ∷ "validity" ∷ "reg" ∷ "chan" ∷ "ver" ∷ []

-- The updates of a player's document, by the name of the field with the mails: $push with $each,
-- and $pull of the mails of which a field is $in a list.
pub record MailDb : Type 1 where
  pub Db : Type 0
  pub mails : String → Db → List MailInfo
  pub push : String → List MailInfo → Db → Db
  pub pull : String → String → List ℕ → Db → Db

-- What MongoDB promises: $push appends, and $pull by a field that no stored mail has finds nothing.
pub record IsMailDb (db : MailDb) : Type 0 where
  pub mails-push :
      (key key' : String) (l : List MailInfo) (d : db.Db)
      → db.mails key (db.push key' l d)
        ≡ ite (String_discrete key' key) (db.mails key d ++ l) (db.mails key d)
  pub mails-pull :
      (key key' field : String) (uuids : List ℕ) (d : db.Db)
      → ¬ In field mail_tags
      → db.mails key (db.pull key' field uuids d) ≡ db.mails key d

-- addMail[key] and delMail[key], nil without an entry, and the append to it.
abbrev pub held : {A : Type 0} → String → SyncMap String (List A) → List A
held key m = elim (load String_discrete key m) [ none ↦ [] | some l ↦ l ]

unfoldable pub append_at :
    {A : Type 0} → String → A → SyncMap String (List A) → SyncMap String (List A)
append_at key x m = store String_discrete key (held key m ++ x ∷ []) m

module _ (types : EmailTypes) where
  -- The loop of Add over the mails, with the container and addMail.
  unfoldable pub add_loop :
      List MailInfo
      → MailSystem
      → SyncMap String (List MailInfo)
      → Outcome (MailSystem × SyncMap String (List MailInfo))
  unfolding append_at
  add_loop [] c added = returns (c, added)
  add_loop (m ∷ ms) c added = elim (box_of types m.m_type) [
    | none ↦ add_loop ms c added
    | some b ↦ elim (get_key (type_of types b)) [
      | panics ↦ panics
      | returns key ↦ add_loop ms (add_to (some b) m c) (append_at key m added)
    ]
  ]

  -- The loop of Del, with delMail.
  unfoldable pub del_loop :
      List MailInfo
      → MailSystem
      → SyncMap String (List ℕ)
      → Outcome (MailSystem × SyncMap String (List ℕ))
  unfolding append_at
  del_loop [] c deleted = returns (c, deleted)
  del_loop (m ∷ ms) c deleted = elim (box_of types m.m_type) [
    | none ↦ del_loop ms c deleted
    | some b ↦ elim (get_key (type_of types b)) [
      | panics ↦ panics
      | returns key ↦ del_loop ms (del_from (some b) m.m_uuid c) (append_at key m.m_uuid deleted)
    ]
  ]

module _ (db : MailDb) where
  -- The loops over addMail and delMail, in the order in which Go visits the keys; a key that is not
  -- there is not visited.
  unfoldable pub save_added : List String → SyncMap String (List MailInfo) → db.Db → db.Db
  save_added [] added d = d
  save_added (key ∷ order) added d =
      save_added order added
        (elim (load String_discrete key added) [ none ↦ d | some l ↦ db.push key l d ])

  unfoldable pub save_deleted : List String → SyncMap String (List ℕ) → db.Db → db.Db
  save_deleted [] deleted d = d
  save_deleted (key ∷ order) deleted d =
      save_deleted order deleted
        (elim (load String_discrete key deleted) [ none ↦ d | some l ↦ db.pull key "muid" l d ])

  -- Add and Del, on the container and the database.
  unfoldable pub add :
      EmailTypes → List String → List MailInfo → MailSystem × db.Db → Outcome (MailSystem × db.Db)
  add types order ms (c, d) = elim (add_loop types ms c []) [
    | panics ↦ panics
    | returns (c', added) ↦ returns (c', save_added order added d)
  ]

  unfoldable pub del :
      EmailTypes → List String → List MailInfo → MailSystem × db.Db → Outcome (MailSystem × db.Db)
  del types order ms (c, d) = elim (del_loop types ms c []) [
    | panics ↦ panics
    | returns (c', deleted) ↦ returns (c', save_deleted order deleted d)
  ]
