-- ===== src/Family/Leaders.antt =====
-- Only a leader removes members: internal/communicate/family.
use greatestworks.Base.{
  Bool-cases, In, List, Outcome, Outcome-cases, [], ap, arith, if_neg, if_pos, inl, inr, none,
  panics, refl, returns, suc, sym, true, ℕ, ℕ_discrete, ◌∙◌, ◌∷◌, ◌≡◌, ◌⊎◌,
}
use greatestworks.Base.Int.{ℤ, ℤ_discrete}
use greatestworks.Base.SyncMap.{SyncMap, delete, load, load-delete}
use greatestworks.Family.{
  ActionInfo, Family, Member, MemberActionParam, del_member, del_members, get_member,
  handle_member_action, handle_remove, is_leader, other_info, remove_info, remove_member,
}

load-del_members :
    (ids : List ℕ) (u : ℕ) (m : SyncMap ℕ Member)
    → (load ℕ_discrete u (del_members ids m) ≡ load ℕ_discrete u m)
      ⊎ (In u ids × (load ℕ_discrete u (del_members ids m) ≡ none))
unfolding del_members
load-del_members [] u m = inl refl
load-del_members (id ∷ ids) u m = elim (load-del_members ids u (delete ℕ_discrete id m)) [
  | inr (i, e) ↦ inr (inr i, e)
  | inl e ↦ elim (ℕ_discrete id u) [
    | yes same ↦ inr (
      inl (sym same),
      e ∙ load-delete ℕ_discrete id u m ∙ if_pos (ℕ_discrete id u) same none (load ℕ_discrete u m),
    )
    | no other ↦ inl (
        e
        ∙ load-delete ℕ_discrete id u m
        ∙ if_neg (ℕ_discrete id u) other none (load ℕ_discrete u m))
  ]
]

-- Actions, one after the other.
abbrev pub run_actions : List MemberActionParam → Family → Outcome Family
run_actions [] f = returns f
run_actions (p ∷ ps) f = elim (handle_member_action p f) [
  | panics ↦ panics
  | returns f' ↦ run_actions ps f'
]

-- One of the actions is to remove members, the user is one of them, and its operator is a leader of
-- the family.
abbrev pub IsRemoved : ℕ → Family → List MemberActionParam → Type 0
IsRemoved u f ps =
    (p : MemberActionParam) × (op : ℕ) × (ids : List ℕ) × In p ps
    × (p.action ≡ remove_member)
    × (p.info ≡ remove_info op ids)
    × In u ids
    × (is_leader (get_member op f) ≡ true)

-- What one action leaves of a member.
abbrev Step : ℕ → Family → MemberActionParam → Family → Type 0
Step u f p f' =
    (get_member u f' ≡ get_member u f)
    ⊎ ((op : ℕ) × (ids : List ℕ) × (p.action ≡ remove_member)
        × (p.info ≡ remove_info op ids)
        × In u ids
        × (is_leader (get_member op f) ≡ true)
        × (get_member u f' ≡ none))

removed_step :
    (u : ℕ) (f f' : Family) (action : ℤ) (info : ActionInfo)
    → action ≡ remove_member
    → handle_remove info f ≡ returns f'
    → Step u f (record { action = action; info = info }) f'
unfolding handle_remove del_member
removed_step u f f' action other_info y h = absurd (ground (arith, h))
removed_step u f f' action (remove_info op ids) y h =
    elim (Bool-cases (is_leader (get_member op f))) [
      | inr no_leader ↦
          let same : f' ≡ f = ground (arith, no_leader, h) in inl (ap (get_member u) same)
      | inl is ↦
          let members : f'.members ≡ del_members ids f.members = ground (arith, is, h) in
          elim (load-del_members ids u f.members) [
            | inl e ↦ inl (ap (load ℕ_discrete u) members ∙ e)
            | inr (i, e) ↦ inr (op, ids, y, refl, i, is, ap (load ℕ_discrete u) members ∙ e)
          ]
    ]

step_lem :
    (u : ℕ) (f f' : Family) (p : MemberActionParam)
    → handle_member_action p f ≡ returns f'
    → Step u f p f'
unfolding handle_member_action
step_lem u f f' p h = elim (ℤ_discrete p.action remove_member) [
  | yes y ↦
      removed_step u f f' p.action p.info y (
        sym (if_pos (ℤ_discrete p.action remove_member) y (handle_remove p.info f) (returns f)) ∙ h)
  | no n ↦
      let kept : returns f ≡ returns f' =
        sym (if_neg (ℤ_discrete p.action remove_member) n (handle_remove p.info f) (returns f))
        ∙ h in
      let same : f' ≡ f = ground (arith, kept) in inl (ap (get_member u) same)
]

-- A leader after an action was one before it.
leader_before :
    (op : ℕ) (f f' : Family) (p : MemberActionParam)
    → Step op f p f'
    → is_leader (get_member op f') ≡ true
    → is_leader (get_member op f) ≡ true
leader_before op f f' p (inl e) h = ap is_leader (sym e) ∙ h
leader_before op f f' p (inr (o, ids, _, _, _, _, e)) h = absurd (ground (arith, e, h))

kept_or_gone :
    (u : ℕ) (ps : List MemberActionParam) (f f' : Family)
    → run_actions ps f ≡ returns f'
    → (get_member u f' ≡ get_member u f) ⊎ IsRemoved u f ps
kept_or_gone u [] f f' h = inl (let same : f' ≡ f = ground (arith, h) in ap (get_member u) same)
kept_or_gone u (p ∷ ps) f f' h = elim (Outcome-cases (handle_member_action p f)) [
  | inl e ↦ absurd (ground (arith, e, h))
  | inr (f1, e) ↦ elim (step_lem u f f1 p e) [
    | inr (op, ids, a, i, j, l, _) ↦ inr (p, op, ids, inl refl, a, i, j, l)
    | inl same ↦ elim (kept_or_gone u ps f1 f' (ground (arith, e, h))) [
      | inl k ↦ inl (k ∙ same)
      | inr (q, op, ids, m, a, i, j, l) ↦
          inr (q, op, ids, inr m, a, i, j, leader_before op f f1 p (step_lem op f f1 p e) l)
    ]
  ]
]

-- Who is deleted is gone, and who is gone stays gone.
del_members-gone :
    (ids : List ℕ) (u : ℕ) (m : SyncMap ℕ Member)
    → In u ids
    → load ℕ_discrete u (del_members ids m) ≡ none
unfolding del_members
del_members-gone [] u m i = absurd i
del_members-gone (id ∷ ids) u m (inr i) = del_members-gone ids u (delete ℕ_discrete id m) i
del_members-gone (id ∷ ids) u m (inl e) =
    let gone : load ℕ_discrete u (delete ℕ_discrete id m) ≡ none =
      load-delete ℕ_discrete id u m ∙ if_pos (ℕ_discrete id u) (sym e) none (load ℕ_discrete u m) in
    elim (load-del_members ids u (delete ℕ_discrete id m)) [
      | inl same ↦ same ∙ gone
      | inr (_, none_left) ↦ none_left
    ]

run_actions-gone :
    (u : ℕ) (ps : List MemberActionParam) (f f' : Family)
    → get_member u f ≡ none
    → run_actions ps f ≡ returns f'
    → get_member u f' ≡ none
run_actions-gone u [] f f' g h = let same : f' ≡ f = ground (arith, h) in ap (get_member u) same ∙ g
run_actions-gone u (p ∷ ps) f f' g h = elim (Outcome-cases (handle_member_action p f)) [
  | inl e ↦ absurd (ground (arith, e, h))
  | inr (f1, e) ↦
      let rest : run_actions ps f1 ≡ returns f' = ground (arith, e, h) in
      elim (step_lem u f f1 p e) [
        | inl same ↦ run_actions-gone u ps f1 f' (same ∙ g) rest
        | inr (_, _, _, _, _, _, gone) ↦ run_actions-gone u ps f1 f' gone rest
      ]
]

removal :
    (u op : ℕ) (ids : List ℕ) (f : Family) (p : MemberActionParam)
    → p.action ≡ remove_member
    → p.info ≡ remove_info op ids
    → In u ids
    → is_leader (get_member op f) ≡ true
    → (f1 : Family) × (handle_member_action p f ≡ returns f1) × (get_member u f1 ≡ none)
unfolding handle_member_action handle_remove del_member
removal u op ids f p a e i l =
    let removed = record f { members = del_members ids f.members; sent = suc f.sent } in
    (
      removed,
      if_pos (ℤ_discrete p.action remove_member) a (handle_remove p.info f) (returns f)
          ∙ ap (λ x. handle_remove x f) e
          ∙ ground (arith, l),
      del_members-gone ids u f.members i,
    )

-- After any actions that do not panic, a member is still there as before, unless one of the actions is
-- to remove members, names them, and was asked for by a leader of the family; the family is the one
-- before all of them, since actions make nobody a leader. And if the first action is such a one, the
-- member is gone.
pub members_stay :
    (u : ℕ) (ps : List MemberActionParam) (f f' : Family)
    → run_actions ps f ≡ returns f'
    → ((get_member u f' ≡ get_member u f) ⊎ IsRemoved u f ps)
      × ((p : MemberActionParam) (qs : List MemberActionParam) (op : ℕ) (ids : List ℕ)
          → ps ≡ p ∷ qs
          → p.action ≡ remove_member
          → p.info ≡ remove_info op ids
          → In u ids
          → is_leader (get_member op f) ≡ true
          → get_member u f' ≡ none)
members_stay u ps f f' h = (
  kept_or_gone u ps f f' h,
  λ p qs op ids e a b i l.
      let (f1, run, gone) = removal u op ids f p a b i l in
      let first : run_actions (p ∷ qs) f ≡ returns f' = ap (λ x. run_actions x f) (sym e) ∙ h in
      run_actions-gone u qs f1 f' gone (ground (arith, run, first)),
)
