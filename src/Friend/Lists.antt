-- ===== src/Friend/Lists.antt =====
-- The list of friends after any handlers, and the requests: internal/communicate/friend.
use greatestworks.Base.{
  Bool, Bool-cases, List, Option, Outcome, [], ap, append-nil, append-snoc, arith, false,
  if◌then◌else◌, inl, inr, leb, length, ltb, none, not, panics, refl, returns, some, subst, suc,
  sym, true, ℕ, ℕ_discrete, ◌&&◌, ◌++◌, ◌+◌, ◌-◌, ◌==◌, ◌||◌, ◌∙◌, ◌∷◌, ◌≡◌,
}
use greatestworks.Friend.{
  Answer, Sugar, System, add_friend, del_friend, new_system, sc_add_friend, sc_del_friend, send_msg,
  set_owner,
}

abbrev pub occurrences : ℕ → List ℕ → ℕ
occurrences u [] = 0
occurrences u (v ∷ vs) = if u == v then suc (occurrences u vs) else occurrences u vs

-- What the library promises: a test of membership, and the removal of one occurrence.
pub record IsSugar (sugar : Sugar) : Type 0 where
  pub check_in_slice_lem : (u : ℕ) (l : List ℕ) → sugar.check_in_slice u l ≡ ltb 0 (occurrences u l)
  pub occurrences-del :
      (u v : ℕ) (l : List ℕ)
      → occurrences v (sugar.del_one_in_slice u l) ≡ occurrences v l - (if v == u then 1 else 0)

-- A call of AddFriend or DelFriend, with the user that its message decodes to, if it does.
pub data Call : Type 0 where
  add_call del_call : Option ℕ → Call

-- Whether a user is a friend after the calls: whether the last call about them adds them.
abbrev pub is_friend_after : ℕ → Bool → List Call → Bool
is_friend_after u b [] = b
is_friend_after u b (add_call none ∷ calls) = is_friend_after u b calls
is_friend_after u b (del_call none ∷ calls) = is_friend_after u b calls
is_friend_after u b (add_call (some v) ∷ calls) = is_friend_after u ((u == v) || b) calls
is_friend_after u b (del_call (some v) ∷ calls) = is_friend_after u (not (u == v) && b) calls

-- The answers to the calls whose messages decode.
abbrev pub answers : List Call → List Answer
answers [] = []
answers (add_call none ∷ calls) = answers calls
answers (del_call none ∷ calls) = answers calls
answers (add_call (some v) ∷ calls) = sc_add_friend ∷ answers calls
answers (del_call (some v) ∷ calls) = sc_del_friend ∷ answers calls

occurrences-append :
    (u : ℕ) (l m : List ℕ) → occurrences u (l ++ m) ≡ occurrences u l + occurrences u m
occurrences-append u [] m = omega arith
occurrences-append u (v ∷ l) m = ground (arith, occurrences-append u l m)

module _ (sugar : Sugar) where
  abbrev pub run_call : Call → System → Outcome System
  run_call (add_call m) s = add_friend sugar m s
  run_call (del_call m) s = del_friend sugar m s

  abbrev pub run_calls : List Call → System → Outcome System
  run_calls [] s = returns s
  run_calls (call ∷ calls) s = elim (run_call call s) [
    | panics ↦ panics
    | returns s' ↦ run_calls calls s'
  ]

module _ (sugar : Sugar) (law : IsSugar sugar) where
  added :
      (u v : ℕ) (b : Bool) (l : List ℕ)
      → occurrences u l ≡ (if b then 1 else 0)
      → occurrences u (if not (sugar.check_in_slice v l) then l ++ v ∷ [] else l)
        ≡ (if (u == v) || b then 1 else 0)
  added u v b l h = elim (ℕ_discrete u v) [
    | yes e ↦
        let known : sugar.check_in_slice u l ≡ ltb 0 (occurrences u l) =
          law.check_in_slice_lem u l in
        let once =
          subst (λ x. occurrences u (if not (sugar.check_in_slice x l) then l ++ x ∷ [] else l) ≡ 1)
            e (same u b l h known) in
        ground (arith, e, once)
    | no n ↦ elim (Bool-cases (sugar.check_in_slice v l)) [
      | inl t ↦ ground (arith, n, t, h)
      | inr f ↦ ground (arith, n, f, h, occurrences-append u l (v ∷ []))
    ]
  ]
    where
      same :
          (u : ℕ) (b : Bool) (l : List ℕ)
          → occurrences u l ≡ (if b then 1 else 0)
          → sugar.check_in_slice u l ≡ ltb 0 (occurrences u l)
          → occurrences u (if not (sugar.check_in_slice u l) then l ++ u ∷ [] else l) ≡ 1
      same u true l h k = ground (arith, h, k)
      same u false l h k = ground (arith, h, k, occurrences-append u l (u ∷ []))

  deleted :
      (u v : ℕ) (b : Bool) (l : List ℕ)
      → occurrences u l ≡ (if b then 1 else 0)
      → occurrences u (sugar.del_one_in_slice v l) ≡ (if not (u == v) && b then 1 else 0)
  deleted u v true l h = ground (arith, h, law.occurrences-del v u l)
  deleted u v false l h = ground (arith, h, law.occurrences-del v u l)

  run_calls_lem :
      (calls : List Call) (u : ℕ) (b : Bool) (s : System) (sent : List Answer)
      → s.player ≡ some sent
      → occurrences u s.friend_list ≡ (if b then 1 else 0)
      → (s' : System) × (run_calls sugar calls s ≡ returns s')
        × (occurrences u s'.friend_list ≡ (if is_friend_after u b calls then 1 else 0))
        × (s'.player ≡ some (sent ++ answers calls))
  unfolding add_friend del_friend send_msg
  run_calls_lem [] u b s sent p h = (s, refl, h, p ∙ ap some (sym (append-nil sent)))
  run_calls_lem (add_call none ∷ calls) u b s sent p h = run_calls_lem calls u b s sent p h
  run_calls_lem (del_call none ∷ calls) u b s sent p h = run_calls_lem calls u b s sent p h
  run_calls_lem (add_call (some v) ∷ calls) u b s sent p h =
      let sent' = sent ++ sc_add_friend ∷ [] in
      let t = record s {
        friend_list =
            (if not (sugar.check_in_slice v s.friend_list)
              then s.friend_list ++ v ∷ []
              else s.friend_list);
        player = some sent';
      } in
      let (s', run, o, q) =
        run_calls_lem calls u ((u == v) || b) t sent' refl (added u v b s.friend_list h) in
      (s', ground (arith, p, run), o, q ∙ ap some (append-snoc sent sc_add_friend (answers calls)))
  run_calls_lem (del_call (some v) ∷ calls) u b s sent p h =
      let sent' = sent ++ sc_del_friend ∷ [] in
      let t = record s {
        friend_list = (sugar.del_one_in_slice v s.friend_list);
        player = some sent';
      } in
      let (s', run, o, q) =
        run_calls_lem calls u (not (u == v) && b) t sent' refl (deleted u v b s.friend_list h) in
      (s', ground (arith, p, run), o, q ∙ ap some (append-snoc sent sc_del_friend (answers calls)))

-- The same where the system has no player.
without_player :
    (sugar : Sugar) (calls : List Call) (s : System)
    → s.player ≡ none
    → run_calls sugar calls s ≡ (if leb (length (answers calls)) 0 then returns s else panics)
unfolding add_friend del_friend send_msg
without_player sugar [] s p = refl
without_player sugar (add_call none ∷ calls) s p = without_player sugar calls s p
without_player sugar (del_call none ∷ calls) s p = without_player sugar calls s p
without_player sugar (add_call (some v) ∷ calls) s p = ground (arith, p)
without_player sugar (del_call (some v) ∷ calls) s p = ground (arith, p)

-- After any calls of the handlers on a new system that has got an owner, nothing has panicked, and
-- a user is in the list of friends once if the last call about them is AddFriend, and not at all
-- otherwise; each call whose message decodes is answered once, in order. On a new system without an
-- owner, the calls panic if the message of one of them decodes, and change nothing otherwise.
pub friends_refine :
    (sugar : Sugar) (law : IsSugar sugar) (calls : List Call) (u : ℕ)
    → ((s : System) × (run_calls sugar calls (set_owner new_system) ≡ returns s)
        × (occurrences u s.friend_list ≡ (if is_friend_after u false calls then 1 else 0))
        × (s.player ≡ some (answers calls)))
      × (run_calls sugar calls new_system
          ≡ (if leb (length (answers calls)) 0 then returns new_system else panics))
unfolding set_owner
friends_refine sugar law calls u = (
  run_calls_lem sugar law calls u false (record new_system { player = some [] }) [] refl refl,
  without_player sugar calls new_system refl,
)
