-- ===== src/World/Chat/Waits.antt =====
-- Who waits in a chat queue, and who is let through: server/world/chat.
use greatestworks.Base.{
  Bool, String, String_discrete, arith, false, if_rule, if◌then◌else◌, inl, inr, ite, subst, sym,
  true, ℕ, ◌==◌, ◌≡◌, ◌⊎◌,
}
use greatestworks.Base.Int.{leb_ℤ, ltb_ℤ, pos, wrap_int, ℤ, ◌*ℤ◌, ◌+ℤ◌, ◌≤ℤ◌}
use greatestworks.Base.Reply.{Reply-cases, failed, nil_reply, value}
use greatestworks.World.Chat.{
  ChatRedis, Sizes, cfg_time_slice, check_send_chat, get_n_time_slice, get_queue_rank,
  get_window_size, max_int64, occupying_a_window_seat, queue_dequeue, queue_enqueue,
  retry_check_send_chat, take_seat,
}

-- What Redis promises of the sorted set of waiting users, apart from its order, and of the counters
-- of the windows, which are keys of their own.
pub record IsChatQueue (r : ChatRedis) : Type 0 where
  pub waits : String → r.Store → Bool
  pub waits-z_add :
      (n : ℤ) (u v : String) (s : r.Store)
      → waits v (r.z_add n u s) ≡ ite (String_discrete u v) true (waits v s)
  pub waits-z_rem :
      (u v : String) (s : r.Store)
      → waits v (r.z_rem u s) ≡ ite (String_discrete u v) false (waits v s)
  pub waits-incr : (k : ℤ) (v : String) (s : r.Store) → waits v (r.incr_window k s).0 ≡ waits v s
  pub waits-expire :
      (k secs : ℤ) (v : String) (s : r.Store) → waits v (r.expire_window k secs s) ≡ waits v s
  pub ranked : (u : String) (s : r.Store) {i : ℤ} → r.z_rank u s ≡ value i → waits u s ≡ true

module _ (r : ChatRedis) (law : IsChatQueue r) (cfg : Sizes) (now : ℤ) (u : String) where
  open law use {waits}

  -- A seat of the window of this time slice, within its size.
  abbrev pub IsSeated : r.Store → Type 0
  IsSeated s =
      (n : ℤ) × ((r.incr_window (get_n_time_slice now) s).1 ≡ value n) × (n ≤ℤ cfg.window_size)

  occupying_lem :
      (s : r.Store)
      → let (s', seated) = occupying_a_window_seat r cfg (get_n_time_slice now) s in
        ((v : String) → waits v s' ≡ waits v s) × (seated ≡ true → IsSeated s)
  unfolding occupying_a_window_seat
  occupying_lem s = elim (Reply-cases (r.incr_window (get_n_time_slice now) s).1) [
    | inl (n, e) ↦ (
      (λ v. ground (
        arith,
        e,
        law.waits-incr (get_n_time_slice now) v s,
        law.waits-expire (get_n_time_slice now) (wrap_int (pos 2 *ℤ cfg_time_slice)) v
            (r.incr_window (get_n_time_slice now) s).0,
      )),
      λ h. (n, e, ground (arith, e, h)),
    )
    | inr (inl e) ↦ (
      (λ v. ground (arith, e, law.waits-incr (get_n_time_slice now) v s)),
      λ h. absurd (ground (arith, e, h)),
    )
    | inr (inr e) ↦ (
      (λ v. ground (arith, e, law.waits-incr (get_n_time_slice now) v s)),
      λ h. absurd (ground (arith, e, h)),
    )
  ]

  -- What a call of checkSend…Chat or retryCheckSend…Chat by `u` leaves behind, where it answered a
  -- user who is in the queue of `s`: `u` waits on exactly if the answer is 1, the others as before,
  -- and the answer is 0 only with a seat.
  abbrev Settles : r.Store → r.Store × ℕ → Type 0
  Settles s (s', answer) =
      ((v : String) → waits v s' ≡ ite (String_discrete u v) (answer == 1) (waits v s))
      × (answer ≡ 0 → IsSeated s)

  take_seat-Settles :
      (cur_rank : ℤ) (s : r.Store) → waits u s ≡ true → Settles s (take_seat r cfg now u cur_rank s)
  unfolding take_seat queue_dequeue
  take_seat-Settles cur_rank s w =
      let (keep, seat) = occupying_lem s in
      let s' = (occupying_a_window_seat r cfg (get_n_time_slice now) s).0 in
      let same : (v : String) → u ≡ v → waits v s ≡ true =
        λ v p. subst (λ x. waits x s ≡ true) p w in
      if_rule (Settles s) (leb_ℤ cur_rank (get_window_size r cfg (get_n_time_slice now) s))
        (λ _.
          if_rule (Settles s) (occupying_a_window_seat r cfg (get_n_time_slice now) s).1
            (λ e. ((λ v. ground (arith, keep v, law.waits-z_rem u v s')), λ _. seat e))
            (λ e. ((λ v. ground (arith, keep v, same v)), λ h. absurd (omega (arith, h)))))
        (λ _. ((λ v. ground (arith, same v)), λ h. absurd (omega (arith, h))))

  -- The same for a user who was put into the queue just before.
  abbrev Enters : r.Store → r.Store × ℕ → Type 0
  Enters s (s', answer) =
      ((v : String) → waits v s' ≡ ite (String_discrete u v) (answer == 1) (waits v s))
      × (answer ≡ 0 → IsSeated (r.z_add now u s))

  entered :
      (cur_rank : ℤ) (s : r.Store)
      → Enters s (
          if ltb_ℤ cfg.queue_size cur_rank
          then (r.z_rem u (r.z_add now u s), 2)
          else take_seat r cfg now u cur_rank (r.z_add now u s))
  entered cur_rank s =
      let s' = r.z_add now u s in
      let self : waits u s' ≡ true = ground (arith, law.waits-z_add now u u s) in
      if_rule (Enters s) (ltb_ℤ cfg.queue_size cur_rank)
        (λ _. (
          (λ v. ground (arith, law.waits-z_rem u v s', law.waits-z_add now u v s)),
          λ h. absurd (omega (arith, h)),
        ))
        λ _.
          let (w, seat) = take_seat-Settles cur_rank s' self in
          ((λ v. ground (arith, w v, law.waits-z_add now u v s)), seat)

  check_send_chat-Enters : (s : r.Store) → Enters s (check_send_chat r cfg now u s)
  unfolding check_send_chat queue_enqueue queue_dequeue
  check_send_chat-Enters s =
      let s' = r.z_add now u s in
      let after = λ (k : ℤ).
        if ltb_ℤ cfg.queue_size k then (r.z_rem u s', 2) else take_seat r cfg now u k s' in
      elim (Reply-cases (r.z_rank u s')) [
        | inl (i, e) ↦
            let k = wrap_int (i +ℤ pos 1) in
            let o : check_send_chat r cfg now u s ≡ after k = ground (arith, e) in
            subst (Enters s) (sym o) (entered k s)
        | inr (inl e) ↦
            let o : check_send_chat r cfg now u s ≡ after max_int64 = ground (arith, e) in
            subst (Enters s) (sym o) (entered max_int64 s)
        | inr (inr e) ↦
            let o : check_send_chat r cfg now u s ≡ after max_int64 = ground (arith, e) in
            subst (Enters s) (sym o) (entered max_int64 s)
      ]

  -- A user who asks to chat is let through, waits, or is turned away, with the answers 0, 1 and 2:
  -- afterwards the user waits in the queue exactly if the answer is 1, and every other user as
  -- before. The answer is 0 only if this call was given a seat of the window of the time slice, one
  -- of at most the window's size. A retry does the same for a user with a rank, and answers 2 and
  -- changes nothing for one without.
  pub check_send_chat_lem :
      (s : r.Store)
      → let (s1, answer) = check_send_chat r cfg now u s in
        let (s2, again) = retry_check_send_chat r cfg now u s in
        ((v : String) → waits v s1 ≡ ite (String_discrete u v) (answer == 1) (waits v s))
        × (answer ≡ 0 → IsSeated (r.z_add now u s))
        × ((i : ℤ)
            → r.z_rank u s ≡ value i
            → ((v : String) → waits v s2 ≡ ite (String_discrete u v) (again == 1) (waits v s))
              × (again ≡ 0 → IsSeated s))
        × ((r.z_rank u s ≡ nil_reply) ⊎ (r.z_rank u s ≡ failed) → (s2 ≡ s) × (again ≡ 2))
  unfolding check_send_chat retry_check_send_chat get_queue_rank queue_enqueue queue_dequeue
  check_send_chat_lem s =
      let (w, seat) = check_send_chat-Enters s in
      (
        w,
        seat,
        (λ i e.
            let k = wrap_int (i +ℤ pos 1) in
            let (w', seat') = take_seat-Settles k s (law.ranked u s e) in
            let same : retry_check_send_chat r cfg now u s ≡ take_seat r cfg now u k s =
              ground (arith, e) in
            subst (Settles s) (sym same) (w', seat')),
        λ h. ground (arith, h),
      )
