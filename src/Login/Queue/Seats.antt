-- ===== src/Login/Queue/Seats.antt =====
-- The seats of a window, and what a waiting level says.
use native.Mathlib.Nat.{div-le_self, le-div_iff_mul-le}
use greatestworks.Base.{
  Bool-cases, Outcome, String, ap, arith, false, if◌then◌else◌, inl, inr, ite_rule, ltb, not,
  panics, refl, returns, some, suc, sym, true, zero, ℕ, ◌&&◌, ◌*◌, ◌+◌, ◌-◌, ◌/◌, ◌<◌, ◌^◌, ◌↔◌,
  ◌∙◌, ◌≡◌, ◌≤◌, ◌⊎◌,
}
use greatestworks.Base.Int.{ltb_ℤ, pos, quot, wrap, wrap_int, ℤ, ℤ_discrete, ◌*ℤ◌, ◌+ℤ◌}
use greatestworks.Base.Reply.{Reply-cases, value}
use greatestworks.Login.Queue.{
  Float64, QueueConfig, QueueRedis, check_wait_level, dequeue, get_queue_rank, get_window_size,
  level_of, login_time_stamp, occupy_window_seat, seated, settled, time_slice, wait, wait_time_of,
}

-- What Redis promises of INCR: the reply is the new count, which only grows; an expiry that is not
-- over leaves it alone.
pub record IsCounter (r : QueueRedis) : Type 0 where
  pub count : ℤ → r.Store → ℕ
  pub incr_value :
      (k : ℤ) (s : r.Store) (v : ℤ)
      → (r.incr_window k s).1 ≡ value v
      → (v ≡ pos (suc (count k s))) × (count k (r.incr_window k s).0 ≡ suc (count k s))
  pub incr_grows : (k : ℤ) (s : r.Store) → count k s ≤ count k (r.incr_window k s).0
  pub count-expire : (k secs : ℤ) (s : r.Store) → count k (r.expire_window k secs s) ≡ count k s

wrap_int-suc : (q : ℕ) → q < 2 ^ 63 - 1 → wrap_int (pos q +ℤ pos 1) ≡ pos (suc q)
unfolding wrap_int wrap ◌+ℤ◌
wrap_int-suc q h = ground (arith, h)

whole_ratio : (n : ℕ) → suc n ≤ 60 → (m : ℕ) × (quot (pos 60) (pos (suc n)) ≡ pos (suc m))
whole_ratio n h =
    let k : (1 ≤ 60 / suc n) ↔ (1 * suc n ≤ 60) = le-div_iff_mul-le (omega arith) in
    let le : 1 ≤ 60 / suc n = k.1 (omega (arith, h)) in (60 / suc n - 1, ground (arith, le))

module _ (fl : Float64) (r : QueueRedis) where
  -- How many of `m` calls of `occupyWindowSeat` are given a seat, one after the other.
  unfoldable pub granted : QueueConfig fl → ℤ → ℕ → r.Store → ℕ
  unfolding occupy_window_seat
  granted cfg k zero s = 0
  granted cfg k (suc m) s =
      let (s', ok) = occupy_window_seat fl r cfg k s in
      let rest = granted cfg k m s' in if ok then suc rest else rest

  occupied :
      (law : IsCounter r) (cfg : QueueConfig fl) (k : ℤ) (s : r.Store)
      → let (s', ok) = occupy_window_seat fl r cfg k s in
        (law.count k s ≤ law.count k s')
        × ((ok ≡ false) ⊎ (law.count k s' ≡ suc (law.count k s)) × (law.count k s < 100))
  unfolding occupy_window_seat
  occupied law cfg k s = elim (Reply-cases (r.incr_window k s).1) [
    | inl (v, e) ↦
        let (a, b) = law.incr_value k s v e in
        let c =
          law.count-expire k (wrap_int (pos 2 *ℤ time_slice fl r cfg)) (r.incr_window k s).0 in
        rw (e, a, occupy_window_seat) (ground (arith, b, c))
    | inr (inl e) ↦ rw (e, occupy_window_seat) (law.incr_grows k s, inl refl)
    | inr (inr e) ↦ rw (e, occupy_window_seat) (law.incr_grows k s, inl refl)
  ]

  granted_lem :
      (law : IsCounter r) (cfg : QueueConfig fl) (k : ℤ) (m : ℕ) (s : r.Store)
      → (granted cfg k m s ≡ 0) ⊎ (granted cfg k m s + law.count k s ≤ 100)
  unfolding granted
  granted_lem law cfg k zero s = inl refl
  granted_lem law cfg k (suc m) s =
      let (s', ok) = occupy_window_seat fl r cfg k s in
      ground (arith, occupied law cfg k s, granted_lem law cfg k m s')

  -- However many accounts try for a seat of a window that nobody has tried before, at most 100 are
  -- given one.
  pub granted-bounded :
      (law : IsCounter r) (cfg : QueueConfig fl) (k : ℤ) (m : ℕ) (s : r.Store)
      → law.count k s ≡ 0
      → granted cfg k m s ≤ 100
  granted-bounded law cfg k m s e = ground (arith, e, granted_lem law cfg k m s)

  level_of_lem :
      (i m : ℕ)
      → suc i < 2 ^ 63
      → (k : ℕ) × (level_of fl r (pos (suc i)) (pos (suc m)) ≡ returns (pos (suc k)))
  unfolding ℤ_discrete
  level_of_lem i m h =
      let q : ℕ = ((suc i + 0) / 100 + 0) / (suc m + 0) in
      let p : ℕ = (suc i + 0) / 100 in
      let half : p + p ≤ suc i + 0 = omega arith in
      let le : q < 2 ^ 63 - 1 = omega (arith, h, div-le_self (p + 0) (suc m + 0), half) in
      (
        q,
        ite_rule (λ o. o ≡ returns (pos (suc q))) (ℤ_discrete (pos (suc m)) (pos 0))
            (λ p. absurd (ground (arith, p))) (λ _. ap returns (wrap_int-suc q le)),
      )

  seated_admits :
      (cfg : QueueConfig fl) (k cur_rank ratio : ℤ) (n : ℕ) (s t : r.Store)
      → level_of fl r cur_rank ratio ≡ returns (pos (suc n))
      → seated fl r cfg k cur_rank ratio s ≡ returns (t, pos 0)
      → ((occupy_window_seat fl r cfg k s).1 ≡ true) × (t ≡ (occupy_window_seat fl r cfg k s).0)
  seated_admits cfg k cur_rank ratio n s t p e =
      let (u, ok) = occupy_window_seat fl r cfg k s in
      let w = get_window_size fl r k s in
      elim (Bool-cases (ltb_ℤ (pos 0) w && not (ltb_ℤ w cur_rank))) [
        | inr b ↦ absurd (ground (arith, b, p, e))
        | inl b ↦ elim (Bool-cases ok) [
          | inr o ↦ absurd (ground (arith, b, o, p, e))
          | inl o ↦ (o, ground (arith, b, o, e))
        ]
      ]

  settled_zero :
      (now : ℤ) (account : String) (score last secs secs' level : ℤ) (u t : r.Store)
      → settled fl r now account score last secs (u, level) ≡ (t, pos 0, secs')
      → (level ≡ pos 0) × (t ≡ dequeue fl r account u)
  settled_zero now account score last secs secs' level u t e = ground (arith, e)

  finished :
      (now : ℤ) (account : String) (score last secs : ℤ) (o : Outcome (r.Store × ℤ))
      (x : r.Store × ℤ × ℤ)
      → (elim o [
        | panics ↦ panics
        | returns t ↦ returns (settled fl r now account score last secs t)
      ])
        ≡ returns x
      → (t : r.Store × ℤ) × (o ≡ returns t) × (settled fl r now account score last secs t ≡ x)
  finished now account score last secs panics x e = absurd (cc)
  finished now account score last secs (returns t) x e = (t, refl, cc)

  wait_admits :
      (cfg : QueueConfig fl) (now k : ℤ) (i m : ℕ) (account : String) (score last : ℤ)
      (s t : r.Store) (secs : ℤ)
      → suc i < 2 ^ 63
      → wait fl r cfg now k (pos (suc m)) account (pos (suc i), score, last) s
        ≡ returns (t, pos 0, secs)
      → ((occupy_window_seat fl r cfg k s).1 ≡ true)
        × (t ≡ dequeue fl r account (occupy_window_seat fl r cfg k s).0)
  unfolding wait
  wait_admits cfg now k i m account score last s t secs h e =
      let (n, p) = level_of_lem i m h in
      let secs' = wait_time_of fl r cfg (pos (suc i)) (pos (suc m)) in
      let ((u, level), o, x) =
        finished now account score last secs' (seated fl r cfg k (pos (suc i)) (pos (suc m)) s)
          (t, pos 0, secs) e in
      let (z, d) = settled_zero now account score last secs' secs level u t x in
      let (a, b) =
        seated_admits cfg k (pos (suc i)) (pos (suc m)) n s u p (o ∙ ap (λ y. returns (u, y)) z) in
      (a, d ∙ ap (λ y. dequeue fl r account y) b)

  slice_lem :
      (cfg : QueueConfig fl) (j : ℕ)
      → cfg.time_stamp ≡ pos (suc j)
      → (n : ℕ) × (time_slice fl r cfg ≡ pos (suc n)) × (suc n ≤ 60)
  slice_lem cfg j e = elim (Bool-cases (ltb 60 (suc j))) [
    | inl b ↦ (59, ground (arith, b, e), omega arith)
    | inr b ↦ (j, ground (arith, b, e), ground (arith, b))
  ]

  ratio_lem :
      (cfg : QueueConfig fl) (j : ℕ)
      → cfg.time_stamp ≡ pos (suc j)
      → (m : ℕ) × (quot (pos 60) (time_slice fl r cfg) ≡ pos (suc m))
  ratio_lem cfg j e =
      let (n, p, q) = slice_lem cfg j e in
      let (m, o) = whole_ratio n q in (m, ap (λ x. quot (pos 60) x) p ∙ o)

  checked :
      (cfg : QueueConfig fl) (now k : ℤ) (account : String) (ranked : ℤ × ℤ × ℤ) (s : r.Store)
      → cfg.enable_login_queue ≡ true
      → login_time_stamp fl r cfg now ≡ returns k
      → get_queue_rank fl r account s ≡ some ranked
      → check_wait_level fl r cfg now account s
        ≡ wait fl r cfg now k (quot (pos 60) (time_slice fl r cfg)) account ranked s
  unfolding check_wait_level
  checked cfg now k account ranked s q l g = ground (arith, q, l, g)

  -- With the queue in use and a time slice of at least a second, an account that has a rank in the
  -- queue, below 2^63, is answered waiting level 0 only if it has just been given a seat of the
  -- window of this time slice, and it has then left the queue.
  pub check_wait_level_admits :
      (cfg : QueueConfig fl) (now k : ℤ) (i j : ℕ) (account : String) (score last : ℤ)
      (s t : r.Store) (secs : ℤ)
      → cfg.enable_login_queue ≡ true
      → cfg.time_stamp ≡ pos (suc j)
      → login_time_stamp fl r cfg now ≡ returns k
      → get_queue_rank fl r account s ≡ some (pos (suc i), score, last)
      → suc i < 2 ^ 63
      → check_wait_level fl r cfg now account s ≡ returns (t, pos 0, secs)
      → ((occupy_window_seat fl r cfg k s).1 ≡ true)
        × (t ≡ dequeue fl r account (occupy_window_seat fl r cfg k s).0)
  unfolding check_wait_level
  check_wait_level_admits cfg now k i j account score last s t secs q e l g h w =
      let (m, p) = ratio_lem cfg j e in
      wait_admits cfg now k i m account score last s t secs h (
        ap (λ x. wait fl r cfg now k x account (pos (suc i), score, last) s) (sym p)
        ∙ sym (checked cfg now k account (pos (suc i), score, last) s q l g)
        ∙ w)
