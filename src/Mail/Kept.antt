-- ===== src/Mail/Kept.antt =====
-- What adding and deleting mails leaves of the boxes: aop/container/mail.go.
use greatestworks.Base.{
  Bool, Bool-cases, List, Option, [], ap, append-nil, append-snoc, arith, false, if◌then◌else◌, inl,
  inr, none, refl, some, sym, true, ℕ, ◌++◌, ◌∙◌, ◌∷◌, ◌≡◌,
}
use greatestworks.Mail.{MailInfo, MailSystem, del_first, find}
use greatestworks.Mail.Boxes.{
  Box, EmailTypes, add_to, box_of, collect_box, del_from, mails_in, normal_box, recycle_box,
  with_mails,
}

abbrev pub is_box : Box → Option Box → Bool
is_box normal_box (some normal_box) = true
is_box collect_box (some collect_box) = true
is_box recycle_box (some recycle_box) = true
is_box b o = false

abbrev pub same_box : Box → Box → Bool
same_box b b' = is_box b (some b')

pub is_box-none : (b : Box) → is_box b none ≡ false
is_box-none normal_box = refl
is_box-none collect_box = refl
is_box-none recycle_box = refl

same_box_eq : (b b' : Box) → same_box b b' ≡ true → b ≡ b'
same_box_eq normal_box normal_box h = refl
same_box_eq normal_box collect_box h = absurd (cc)
same_box_eq normal_box recycle_box h = absurd (cc)
same_box_eq collect_box normal_box h = absurd (cc)
same_box_eq collect_box collect_box h = refl
same_box_eq collect_box recycle_box h = absurd (cc)
same_box_eq recycle_box normal_box h = absurd (cc)
same_box_eq recycle_box collect_box h = absurd (cc)
same_box_eq recycle_box recycle_box h = refl

mails_in-with_mails :
    (b b' : Box) (l : List MailInfo) (c : MailSystem)
    → mails_in b (with_mails b' l c) ≡ (if same_box b b' then l else mails_in b c)
mails_in-with_mails normal_box normal_box l c = refl
mails_in-with_mails normal_box collect_box l c = refl
mails_in-with_mails normal_box recycle_box l c = refl
mails_in-with_mails collect_box normal_box l c = refl
mails_in-with_mails collect_box collect_box l c = refl
mails_in-with_mails collect_box recycle_box l c = refl
mails_in-with_mails recycle_box normal_box l c = refl
mails_in-with_mails recycle_box collect_box l c = refl
mails_in-with_mails recycle_box recycle_box l c = refl

-- A change of one box, as each box sees it.
changed :
    (b b' : Box) (f : List MailInfo → List MailInfo) (c : MailSystem)
    → mails_in b (with_mails b' (f (mails_in b' c)) c)
      ≡ (if same_box b b' then f (mails_in b c) else mails_in b c)
changed b b' f c = elim (Bool-cases (same_box b b')) [
  | inl e ↦
      let p : b ≡ b' = same_box_eq b b' e in
      mails_in-with_mails b b' (f (mails_in b' c)) c
      ∙ ground (arith, e, ap (λ x. f (mails_in x c)) p)
  | inr e ↦ mails_in-with_mails b b' (f (mails_in b' c)) c ∙ ground (arith, e)
]

-- `find` finds nothing by the ids of the mails.
abbrev pub AreNew : (Box → List MailInfo) → List MailInfo → Type 0
AreNew base [] = Unit
AreNew base (m ∷ ms) = ((b : Box) → find m.m_uuid (base b) ≡ none) × AreNew base ms

del_first-append :
    (u : ℕ) (base l : List MailInfo) (m : MailInfo)
    → find u base ≡ none
    → m.m_uuid ≡ u
    → del_first u (base ++ m ∷ l) ≡ base ++ l
unfolding del_first find
del_first-append u [] l m h e = ground (arith, e)
del_first-append u (x ∷ base) l m h e = ground (arith, h, del_first-append u base l m)

module _ (types : EmailTypes) where
  -- What the loops of Add and Del leave of the container.
  unfoldable pub add_all : List MailInfo → MailSystem → MailSystem
  add_all [] c = c
  add_all (m ∷ ms) c = add_all ms (add_to (box_of types m.m_type) m c)

  unfoldable pub del_all : List MailInfo → MailSystem → MailSystem
  del_all [] c = c
  del_all (m ∷ ms) c = del_all ms (del_from (box_of types m.m_type) m.m_uuid c)

  -- The mails for each box, in their order.
  unfoldable pub mails_for : Box → List MailInfo → List MailInfo
  mails_for b [] = []
  mails_for b (m ∷ ms) =
      let rest = mails_for b ms in if is_box b (box_of types m.m_type) then m ∷ rest else rest

module _ (types : EmailTypes) where
  mails_in-add_to :
      (b : Box) (o : Option Box) (m : MailInfo) (c : MailSystem)
      → mails_in b (add_to o m c) ≡ (if is_box b o then mails_in b c ++ m ∷ [] else mails_in b c)
  unfolding add_to
  mails_in-add_to normal_box none m c = refl
  mails_in-add_to collect_box none m c = refl
  mails_in-add_to recycle_box none m c = refl
  mails_in-add_to b (some b') m c = changed b b' (λ l. l ++ m ∷ []) c

  mails_in-del_from :
      (b : Box) (o : Option Box) (u : ℕ) (c : MailSystem)
      → mails_in b (del_from o u c)
        ≡ (if is_box b o then del_first u (mails_in b c) else mails_in b c)
  unfolding del_from
  mails_in-del_from normal_box none u c = refl
  mails_in-del_from collect_box none u c = refl
  mails_in-del_from recycle_box none u c = refl
  mails_in-del_from b (some b') u c = changed b b' (del_first u) c

  pub mails_in-add_all :
      (b : Box) (ms : List MailInfo) (c : MailSystem)
      → mails_in b (add_all types ms c) ≡ mails_in b c ++ mails_for types b ms
  unfolding add_all mails_for
  mails_in-add_all b [] c = sym (append-nil (mails_in b c))
  mails_in-add_all b (m ∷ ms) c =
      let o = box_of types m.m_type in
      ground (
        arith,
        mails_in-add_all b ms (add_to o m c),
        mails_in-add_to b o m c,
        append-snoc (mails_in b c) m (mails_for types b ms),
      )

  pub mails_in-del_all :
      (base : Box → List MailInfo) (b : Box) (ms : List MailInfo) (c : MailSystem)
      → AreNew base ms
      → ((x : Box) → mails_in x c ≡ base x ++ mails_for types x ms)
      → mails_in b (del_all types ms c) ≡ base b
  unfolding del_all mails_for
  mails_in-del_all base b [] c new at = at b ∙ append-nil (base b)
  mails_in-del_all base b (m ∷ ms) c (n, new) at =
      mails_in-del_all base b ms (del_from (box_of types m.m_type) m.m_uuid c) new λ x.
        let o = box_of types m.m_type in
        elim (Bool-cases (is_box x o)) [
          | inl e ↦ ground (
            arith,
            e,
            at x,
            mails_in-del_from x o m.m_uuid c,
            del_first-append m.m_uuid (base x) (mails_for types x ms) m (n x) refl,
          )
          | inr e ↦ ground (arith, e, at x, mails_in-del_from x o m.m_uuid c)
        ]
