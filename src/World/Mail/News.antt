-- ===== src/World/Mail/News.antt =====
-- Which mails canAdd lets through: server/world/mail/mail.go.
use greatestworks.Base.{
  Bool, Bool-cases, In, List, String_discrete, [], arith, false, inl, inr, none, not, refl, returns,
  some, true, ℕ, ℕ_discrete, ◌&&◌, ◌++◌, ◌∷◌, ◌≡◌,
}
use greatestworks.Mail.{MailInfo, MailSystem, find, get, ids_value, mails_value}
use greatestworks.Mail.Boxes.{Box, collect_box, mails_in, normal_box, recycle_box}
use greatestworks.World.Mail.{no_mail, has_id, System, can_add, check_in_history}

get_runs :
    (c : MailSystem)
    → (get "normal" c ≡ some (mails_value c.normal))
      × (get "collect" c ≡ some (mails_value c.collect))
      × (get "recycle" c ≡ some (mails_value c.recycle))
      × (get "history" c ≡ some (ids_value c.history))
unfolding get String_discrete
get_runs c = (refl, refl, refl, refl)

has_id-In :
    (u : ℕ) (is : List ℕ) → (has_id u is ≡ false → ¬ In u is) × (¬ In u is → has_id u is ≡ false)
unfolding has_id
has_id-In u [] = (λ h i. i, λ h. refl)
has_id-In u (i ∷ is) =
    let (p, q) = has_id-In u is in
    elim (ℕ_discrete u i) [
      | yes e ↦ (λ h. absurd (ground (arith, e, h)), λ h. absurd (h (inl e)))
      | no n ↦ (
        (λ h k. elim k [ inl e ↦ n e | inr j ↦ p (ground (arith, n, h)) j ]),
        λ h. let rest = q (λ j. h (inr j)) in ground (arith, n, rest),
      )
    ]

no_mail-find :
    (u : ℕ) (ms : List MailInfo)
    → (no_mail u ms ≡ true → find u ms ≡ none) × (find u ms ≡ none → no_mail u ms ≡ true)
unfolding no_mail find
no_mail-find u [] = (λ h. refl, λ h. refl)
no_mail-find u (m ∷ ms) =
    let (p, q) = no_mail-find u ms in (λ h. ground (arith, p, h), λ h. ground (arith, q, h))

no_mail-append :
    (u : ℕ) (xs ys : List MailInfo) → no_mail u (xs ++ ys) ≡ no_mail u xs && no_mail u ys
unfolding no_mail
no_mail-append u [] ys = refl
no_mail-append u (m ∷ xs) ys = ground (arith, no_mail-append u xs ys)

-- A mail is new if its id is not in the history, and no box has a mail with it.
abbrev pub IsNew : ℕ → System → Type 0
IsNew u e = (¬ In u e.container.history) × ((b : Box) → find u (mails_in b e.container) ≡ none)

can_add-runs :
    (u : ℕ) (e : System)
    → can_add u e
      ≡ returns (
          not (has_id u e.container.history)
          && (no_mail u e.container.normal && no_mail u e.container.collect)
          && no_mail u e.container.recycle)
unfolding can_add check_in_history
can_add-runs u e =
    let (n, c, r, h) = get_runs e.container in
    elim (Bool-cases (has_id u e.container.history)) [
      | inl old ↦ ground (arith, h, old)
      | inr new ↦
          let all =
            no_mail-append u (e.container.normal ++ e.container.collect) e.container.recycle in
          let two = no_mail-append u e.container.normal e.container.collect in
          ground (arith, h, n, c, r, new, all, two)
    ]

in_boxes :
    (u : ℕ) (e : System)
    → find u e.container.normal ≡ none
    → find u e.container.collect ≡ none
    → find u e.container.recycle ≡ none
    → (b : Box) → find u (mails_in b e.container) ≡ none
in_boxes u e n c r normal_box = n
in_boxes u e n c r collect_box = c
in_boxes u e n c r recycle_box = r

-- `canAdd` never panics, and lets a mail through exactly if it is new.
pub can_add_lem :
    (u : ℕ) (e : System)
    → (ok : Bool) × (can_add u e ≡ returns ok) × (ok ≡ true → IsNew u e) × (IsNew u e → ok ≡ true)
can_add_lem u e =
    let (p, q) = has_id-In u e.container.history in
    let (n, n') = no_mail-find u e.container.normal in
    let (c, c') = no_mail-find u e.container.collect in
    let (r, r') = no_mail-find u e.container.recycle in
    (
      _,
      can_add-runs u e,
      (λ ok. (
        p (ground (arith, ok)),
        in_boxes u e (n (ground (arith, ok))) (c (ground (arith, ok))) (r (ground (arith, ok))),
      )),
      λ (old, boxes).
          let a = q old in
          let b = n' (boxes normal_box) in
          let d = c' (boxes collect_box) in
          let f = r' (boxes recycle_box) in ground (arith, a, b, d, f),
    )
