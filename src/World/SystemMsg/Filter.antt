-- ===== src/World/SystemMsg/Filter.antt =====
-- Which worlds take a message of the system: server/world/chat/system_msg.go.
use greatestworks.Base.{
  In, List, String, [], arith, false, if_neg, if_pos, if_rule, inl, inr, ite, refl, sym, true, ℕ,
  ◌&&◌, ◌∙◌, ◌∷◌, ◌≡◌, ◌⊎◌,
}
use greatestworks.Base.Int.{leb_ℤ, ltb_ℤ, negsuc, pos, wrap_int32, ℤ, ℤ_discrete}
use greatestworks.Base.Text.{Text, codes, split_string_to_int32_slice, text_eq, to_lower}
use greatestworks.World.SystemMsg.{
  Oasis, SysMessage, forward_first, forward_for, forward_sys_msg, handle_message, new_sys_msg,
}

-- A text names a world if it is empty, or is all, or has the world's id, which is not negative.
abbrev pub IsNamed : Text → Oasis → Type 0
IsNamed text w =
    (text ≡ [])
    ⊎ ((text_eq (to_lower text) (codes "all") ≡ true)
        ⊎ ((n : ℕ) × (wrap_int32 w.pid ≡ pos n) × In (pos n) (split_string_to_int32_slice text)))

abbrev pub IsFor : SysMessage → Oasis → Type 0
IsFor msg w = IsNamed msg.modules w

forward_first-In :
    (msg : SysMessage) (pids : List ℤ) (w : Oasis) (n : ℕ)
    → wrap_int32 w.pid ≡ pos n
    → In (pos n) pids
    → forward_first msg pids w ≡ forward_sys_msg msg w
unfolding forward_first
forward_first-In msg [] w n e i = absurd i
forward_first-In msg (pid ∷ pids) w n e (inl same) =
    let here : ite (ℤ_discrete pid (wrap_int32 w.pid)) true false ≡ true =
      if_pos (ℤ_discrete pid (wrap_int32 w.pid)) (sym same ∙ sym e) true false in
    let up : leb_ℤ (pos 0) pid ≡ true = ground (arith, same) in ground (arith, here, up)
forward_first-In msg (pid ∷ pids) w n e (inr i) =
    if_rule (λ x. x ≡ forward_sys_msg msg w)
      (leb_ℤ (pos 0) pid && ite (ℤ_discrete pid (wrap_int32 w.pid)) true false) (λ h. refl)
      (λ h. forward_first-In msg pids w n e i)

named :
    (pid own : ℤ)
    → leb_ℤ (pos 0) pid && ite (ℤ_discrete pid own) true false ≡ true
    → (n : ℕ) × (own ≡ pos n) × (pid ≡ pos n)
named (negsuc k) own t = absurd (ground (arith, t))
named (pos k) own t = elim (ℤ_discrete (pos k) own) [
  | yes e ↦ (k, sym e, refl)
  | no n ↦ absurd (ground (arith, t, if_neg (ℤ_discrete (pos k) own) n true false))
]

forward_first-none :
    (msg : SysMessage) (pids : List ℤ) (w : Oasis)
    → ((n : ℕ) → wrap_int32 w.pid ≡ pos n → ¬ In (pos n) pids)
    → forward_first msg pids w ≡ w
unfolding forward_first
forward_first-none msg [] w h = refl
forward_first-none msg (pid ∷ pids) w h =
    if_rule (λ x. x ≡ w) (leb_ℤ (pos 0) pid && ite (ℤ_discrete pid (wrap_int32 w.pid)) true false)
      (λ t. let (n, e, f) = named pid (wrap_int32 w.pid) t in absurd (h n e (inl (sym f))))
      (λ f. forward_first-none msg pids w (λ n e i. h n e (inr i)))

named-Forwarded :
    (text : Text) (msg : SysMessage) (w : Oasis)
    → IsNamed text w
    → forward_for text msg w ≡ forward_sys_msg msg w
unfolding forward_for
named-Forwarded [] msg w h = refl
named-Forwarded (c ∷ cs) msg w (inl e) = absurd (cc)
named-Forwarded (c ∷ cs) msg w (inr (inl e)) = ground (arith, e)
named-Forwarded (c ∷ cs) msg w (inr (inr (n, e, i))) =
    if_rule (λ x. x ≡ forward_sys_msg msg w) (text_eq (to_lower (c ∷ cs)) (codes "all")) (λ h. refl)
      (λ h. forward_first-In msg (split_string_to_int32_slice (c ∷ cs)) w n e i)

unnamed-Kept :
    (text : Text) (msg : SysMessage) (w : Oasis) → ¬ IsNamed text w → forward_for text msg w ≡ w
unfolding forward_for
unnamed-Kept [] msg w h = absurd (h (inl refl))
unnamed-Kept (c ∷ cs) msg w h =
    if_rule (λ x. x ≡ w) (text_eq (to_lower (c ∷ cs)) (codes "all")) (λ t. absurd (h (inr (inl t))))
      (λ f.
        forward_first-none msg (split_string_to_int32_slice (c ∷ cs)) w
          (λ n e i. h (inr (inr (n, e, i)))))

-- A message that is older than the world is ignored. Any other is forwarded once if it is for the
-- world, however often it names the world, and not at all otherwise.
pub handle_message_lem :
    (msg : SysMessage) (w : Oasis)
    → (ltb_ℤ msg.send_time w.start_tm ≡ true → handle_message msg w ≡ w)
      × (ltb_ℤ msg.send_time w.start_tm ≡ false
          → IsFor msg w
          → handle_message msg w ≡ forward_sys_msg msg w)
      × (¬ IsFor msg w → handle_message msg w ≡ w)
unfolding handle_message
handle_message_lem msg w = (
  (λ old. ground (arith, old)),
  (λ new h. ground (arith, new, named-Forwarded msg.modules msg w h)),
  λ h.
      if_rule (λ x. x ≡ w) (ltb_ℤ msg.send_time w.start_tm) (λ old. refl)
        (λ new. unnamed-Kept msg.modules msg w h),
)

-- A message that `sendSysMsg` publishes is ignored by every world, since it has no time of sending:
-- the world must have started after 1970 began.
pub sent-Ignored :
    (msg_type : ℕ) (content : String) (w : Oasis)
    → ltb_ℤ (pos 0) w.start_tm ≡ true
    → handle_message (new_sys_msg msg_type content) w ≡ w
sent-Ignored msg_type content w h = (handle_message_lem (new_sys_msg msg_type content) w).0 h
