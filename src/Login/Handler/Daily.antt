-- ===== src/Login/Handler/Daily.antt =====
-- How many registrations a day's limit lets through: server/login/ctrl.go.
use Prim.Native.Nat.{min}
use greatestworks.Base.{
  arith, if◌then◌else◌, inl, inr, leb, refl, subst, suc, sym, zero, ℕ, ◌-◌, ◌∙◌, ◌≡◌,
}
use greatestworks.Base.Int.{pos, ℤ}
use greatestworks.Base.Reply.{Reply, Reply-cases, failed, nil_reply, value}
use greatestworks.Login.Handler.{AccountRedis, check_daily_reg_cnt_limit, increase_daily_reg_cnt}

-- The count that a reply stands for: a key that is not there counts as 0.
abbrev pub Counts : ℕ → Reply ℤ → Type 0
Counts n (value v) = v ≡ pos n
Counts n nil_reply = n ≡ 0
Counts n failed = ⊥

-- What Redis promises of HINCRBY: it adds to the count of its key, and leaves the limit alone.
pub record IsDailyCounter {Store : Type 0} (a : AccountRedis Store) : Type 0 where
  pub limit_kept : (c : ℤ) (s : Store) → a.daily_limit (a.add_daily c s) ≡ a.daily_limit s
  pub counts_on :
      (n : ℕ) (s : Store)
      → Counts n (a.daily_count s)
      → a.daily_count (a.add_daily (pos 1) s) ≡ value (pos (suc n))

module _ {Store : Type 0} (a : AccountRedis Store) where
  -- How many of `m` registrations, one after the other, pass the check and are counted.
  unfoldable pub registered : ℕ → Store → ℕ
  registered zero s = 0
  registered (suc m) s =
      let rest = registered m (increase_daily_reg_cnt a (pos 1) s) in
      let rest' = registered m s in if check_daily_reg_cnt_limit a s then suc rest else rest'

  check_lem :
      (l n : ℕ) (s : Store)
      → a.daily_limit s ≡ value (pos (suc l))
      → Counts n (a.daily_count s)
      → check_daily_reg_cnt_limit a s ≡ leb n (suc l)
  unfolding check_daily_reg_cnt_limit
  check_lem l n s e h = elim (Reply-cases (a.daily_count s)) [
    | inl (v, c) ↦ let k : v ≡ pos n = subst (Counts n) c h in ground (arith, e, c, k)
    | inr (inl c) ↦ let k : n ≡ 0 = subst (Counts n) c h in ground (arith, e, c, k)
    | inr (inr c) ↦ absurd (subst (Counts n) c h)
  ]

  -- With a limit above 0, and Redis as it promises to be, the day lets through one registration
  -- more than the limit: of m registrations after n, those up to the count limit + 1.
  pub registered_lem :
      (law : IsDailyCounter a) (l n m : ℕ) (s : Store)
      → a.daily_limit s ≡ value (pos (suc l))
      → Counts n (a.daily_count s)
      → registered m s ≡ min m (suc (suc l) - n)
  unfolding registered increase_daily_reg_cnt
  registered_lem law l n zero s e h = omega arith
  registered_lem law l n (suc m) s e h =
      let pos_limit : increase_daily_reg_cnt a (pos 1) s ≡ a.add_daily (pos 1) s =
        ground (arith, e) in
      let more =
        registered_lem law l (suc n) m (a.add_daily (pos 1) s) (law.limit_kept (pos 1) s ∙ e)
          (subst (Counts (suc n)) (sym (law.counts_on n s h)) refl) in
      ground (arith, check_lem l n s e h, pos_limit, more, registered_lem law l n m s e h)
