-- ===== src/Mail/RoundTrip.antt =====
-- Mails that are added and deleted again: aop/container/mail.go.
use greatestworks.Base.{
  Bool, In, List, Option, Option-cases, String, String_discrete, [], ap, append-nil, append-snoc,
  arith, false, if◌then◌else◌, inl, inr, ite, none, refl, returns, some, suc, sym, true, ℕ, ◌++◌,
  ◌∙◌, ◌∷◌, ◌≡◌,
}
use greatestworks.Base.Int.{pos}
use greatestworks.Base.SyncMap.{SyncMap, load, load-store}
use greatestworks.Mail.{MailInfo, MailSystem}
use greatestworks.Mail.Boxes.{
  Box, EmailTypes, add_to, box_of, collect_box, del_from, get_key, mails_in, normal_box,
  recycle_box, type_of,
}
use greatestworks.Mail.Kept.{
  AreNew, add_all, del_all, is_box-none, mails_for, mails_in-add_all, mails_in-del_all, same_box,
}
use greatestworks.Mail.Saved.{
  IsMailDb, MailDb, add, add_loop, append_at, del, del_loop, held, mail_tags, save_added,
  save_deleted,
}

-- The values of the types, in the order in which getKey lists the boxes.
pub record IsEmailTypes (types : EmailTypes) : Type 0 where
  pub normal_eq : types.normal ≡ pos 0
  pub collect_eq : types.collect ≡ pos 1
  pub recycle_eq : types.recycle ≡ pos 2

-- The bson tag of a box, in aop/mongo/mail.go.
abbrev pub tag_of : Box → String
tag_of normal_box = "normal"
tag_of collect_box = "collect"
tag_of recycle_box = "recycle"

abbrev pub times : String → List String → ℕ
times key [] = 0
times key (key' ∷ order) = ite (String_discrete key' key) (suc (times key order)) (times key order)

-- An order in which Go visits the keys: the tag of each box once.
abbrev pub IsOrder : List String → Type 0
IsOrder order = (b : Box) → times (tag_of b) order ≡ 1

get_key_lem :
    (types : EmailTypes)
    → IsEmailTypes types
    → (b : Box) → get_key (type_of types b) ≡ returns (tag_of b)
unfolding get_key
get_key_lem types h normal_box = ground (arith, h.normal_eq)
get_key_lem types h collect_box = ground (arith, h.collect_eq)
get_key_lem types h recycle_box = ground (arith, h.recycle_eq)

-- The tags tell the boxes apart.
tags_differ :
    {A : Type 0} (b b' : Box) (x y : A)
    → ite (String_discrete (tag_of b') (tag_of b)) x y ≡ (if same_box b b' then x else y)
unfolding String_discrete
tags_differ normal_box normal_box x y = refl
tags_differ normal_box collect_box x y = refl
tags_differ normal_box recycle_box x y = refl
tags_differ collect_box normal_box x y = refl
tags_differ collect_box collect_box x y = refl
tags_differ collect_box recycle_box x y = refl
tags_differ recycle_box normal_box x y = refl
tags_differ recycle_box collect_box x y = refl
tags_differ recycle_box recycle_box x y = refl

held-append_at :
    {A : Type 0} (key key' : String) (x : A) (m : SyncMap String (List A))
    → held key (append_at key' x m)
      ≡ ite (String_discrete key' key) (held key m ++ x ∷ []) (held key m)
unfolding append_at
held-append_at key key' x m =
    elim (String_discrete key' key)
        as (λ q.
          ite q (some (held key' m ++ x ∷ [])) (load String_discrete key m)
            ≡ load String_discrete key (append_at key' x m)
          → held key (append_at key' x m) ≡ ite q (held key m ++ x ∷ []) (held key m)) [
            | yes e ↦ λ h.
                ap (λ o. elim o [ none ↦ [] | some l ↦ l ]) (sym h) ∙ ap (λ k. held k m ++ x ∷ []) e
            | no n ↦ λ h. ap (λ o. elim o [ none ↦ [] | some l ↦ l ]) (sym h)
          ]
      (sym (load-store String_discrete key' key (held key' m ++ x ∷ []) m))

module _ (types : EmailTypes) (h : IsEmailTypes types) where
  add_loop_lem :
      (ms : List MailInfo) (c : MailSystem) (added : SyncMap String (List MailInfo))
      → (added' : SyncMap String (List MailInfo)) × (add_loop types ms c added
          ≡ returns (add_all types ms c, added'))
        × ((b : Box) → held (tag_of b) added' ≡ held (tag_of b) added ++ mails_for types b ms)
  unfolding add_loop add_all mails_for add_to
  add_loop_lem [] c added = (added, refl, λ b. sym (append-nil (held (tag_of b) added)))
  add_loop_lem (m ∷ ms) c added = elim (Option-cases (box_of types m.m_type)) [
    | inl e ↦
        let (added', run, at) = add_loop_lem ms c added in
        (added', ground (arith, e, run), λ b. ground (arith, e, at b, is_box-none b))
    | inr (b', e) ↦
        let key = tag_of b' in
        let (added', run, at) = add_loop_lem ms (add_to (some b') m c) (append_at key m added) in
        (
          added',
          ground (arith, e, get_key_lem types h b', run),
          λ b.
              let one =
                held-append_at (tag_of b) key m added
                ∙ tags_differ b b' (held (tag_of b) added ++ m ∷ []) (held (tag_of b) added) in
              ground
                (arith, e, at b, one, append-snoc (held (tag_of b) added) m (mails_for types b ms)),
        )
  ]

  del_loop_lem :
      (ms : List MailInfo) (c : MailSystem) (deleted : SyncMap String (List ℕ))
      → (deleted' : SyncMap String (List ℕ)) × (del_loop types ms c deleted
          ≡ returns (del_all types ms c, deleted'))
  unfolding del_loop del_all del_from
  del_loop_lem [] c deleted = (deleted, refl)
  del_loop_lem (m ∷ ms) c deleted = elim (Option-cases (box_of types m.m_type)) [
    | inl e ↦ let (deleted', run) = del_loop_lem ms c deleted in (deleted', ground (arith, e, run))
    | inr (b, e) ↦
        let key = tag_of b in
        let (deleted', run) =
          del_loop_lem ms (del_from (some b) m.m_uuid c) (append_at key m.m_uuid deleted) in
        (deleted', ground (arith, e, get_key_lem types h b, run))
  ]

is_absent : String → List String → Bool
is_absent s [] = true
is_absent s (t ∷ ts) = ite (String_discrete s t) false (is_absent s ts)

is_absent_lem : (s : String) (ts : List String) → is_absent s ts ≡ true → ¬ In s ts
unfolding is_absent
is_absent_lem s [] h i = i
is_absent_lem s (t ∷ ts) h i = ground (arith, is_absent_lem s ts)

muid_absent : is_absent "muid" mail_tags ≡ true
unfolding is_absent String_discrete
muid_absent = refl

module _ (db : MailDb) (law : IsMailDb db) where
  pushed :
      (key key' : String) (added : SyncMap String (List MailInfo)) (d : db.Db)
      → db.mails key
          (elim (load String_discrete key' added) [ none ↦ d | some l ↦ db.push key' l d ])
        ≡ ite (String_discrete key' key) (db.mails key d ++ held key' added) (db.mails key d)
  pushed key key' added d = elim (Option-cases (load String_discrete key' added)) [
    | inl e ↦ ground (arith, e, append-nil (db.mails key d))
    | inr (l, e) ↦ ground (arith, e, law.mails-push key key' l d)
  ]

  save_added_lem :
      (key : String) (order : List String) (added : SyncMap String (List MailInfo)) (d : db.Db)
      → (times key order ≡ 0 → db.mails key (save_added db order added d) ≡ db.mails key d)
        × (times key order ≡ 1
            → db.mails key (save_added db order added d) ≡ db.mails key d ++ held key added)
  unfolding save_added
  save_added_lem key [] added d = (λ z. refl, λ z. absurd (omega (arith, z)))
  save_added_lem key (key' ∷ order) added d =
      let l = held key' added in
      let d' : db.Db = elim (load String_discrete key' added) [
        | none ↦ d
        | some l ↦ db.push key' l d
      ] in
      let (zero_times, once) = save_added_lem key order added d' in
      let step = pushed key key' added d in
      elim (String_discrete key' key)
          as (λ q.
            db.mails key d' ≡ ite q (db.mails key d ++ l) (db.mails key d)
            → (ite q (suc (times key order)) (times key order) ≡ 0
                → db.mails key (save_added db order added d') ≡ db.mails key d)
              × (ite q (suc (times key order)) (times key order) ≡ 1
                  → db.mails key (save_added db order added d')
                    ≡ db.mails key d ++ held key added)) [
                      | yes e ↦ λ st. (
                        (λ z. absurd (omega (arith, z))),
                        λ z.
                            zero_times (omega (arith, z))
                            ∙ st
                            ∙ ap (λ k. db.mails key d ++ held k added) e,
                      )
                      | no n ↦ λ st.
                          ((λ z. zero_times z ∙ st), λ z. once z ∙ ap (λ x. x ++ held key added) st)
                    ]
        step

  save_deleted_lem :
      (key : String) (order : List String) (deleted : SyncMap String (List ℕ)) (d : db.Db)
      → db.mails key (save_deleted db order deleted d) ≡ db.mails key d
  unfolding save_deleted
  save_deleted_lem key [] deleted d = refl
  save_deleted_lem key (key' ∷ order) deleted d =
      save_deleted_lem key order deleted _ ∙ kept (load String_discrete key' deleted)
    where
      kept :
          (l : Option (List ℕ))
          → db.mails key (elim l [ none ↦ d | some l ↦ db.pull key' "muid" l d ]) ≡ db.mails key d
      kept none = refl
      kept (some l) =
          law.mails-pull key key' "muid" l d (is_absent_lem "muid" mail_tags muid_absent)

-- Mails with ids that their boxes do not hold, added and then deleted again, where the types of mail
-- have the values by which getKey finds the tags of the boxes: neither call panics. `Add` appends
-- each mail to the box of its type, in the container and in the database alike, in whatever order Go
-- visits the keys, so long as it visits each once; `Del` leaves the container as it was before, box
-- for box, but every mail stays in the database, since the update names a field that mails do not
-- have.
pub add-del :
    (types : EmailTypes) (values : IsEmailTypes types) (db : MailDb) (law : IsMailDb db)
    (order order' : List String) (ms : List MailInfo) (c : MailSystem) (d : db.Db)
    → IsOrder order
    → AreNew (λ b. mails_in b c) ms
    → (c1 : MailSystem) × (d1 : db.Db) × (c2 : MailSystem) × (d2 : db.Db) × (add db types order ms
          (c, d)
        ≡ returns (c1, d1))
      × (del db types order' ms (c1, d1) ≡ returns (c2, d2))
      × ((b : Box)
          → (mails_in b c1 ≡ mails_in b c ++ mails_for types b ms)
            × (db.mails (tag_of b) d1 ≡ db.mails (tag_of b) d ++ mails_for types b ms)
            × (mails_in b c2 ≡ mails_in b c)
            × (db.mails (tag_of b) d2 ≡ db.mails (tag_of b) d1))
unfolding add del
add-del types values db law order order' ms c d visited new =
    let (added, run, at) = add_loop_lem types values ms c [] in
    let c1 = add_all types ms c in
    let d1 = save_added db order added d in
    let (deleted, run') = del_loop_lem types values ms c1 [] in
    (
      c1,
      d1,
      del_all types ms c1,
      save_deleted db order' deleted d1,
      ground (arith, run),
      ground (arith, run'),
      λ b. (
        mails_in-add_all types b ms c,
        (save_added_lem db law (tag_of b) order added d).1 (visited b)
            ∙ ap (λ l. db.mails (tag_of b) d ++ l) (at b),
        mails_in-del_all types (λ x. mails_in x c) b ms c1 new (λ x. mails_in-add_all types x ms c),
        save_deleted_lem db law (tag_of b) order' deleted d1,
      ),
    )
