-- ===== src/Login/Queue/Score.antt =====
-- The score of a member of the queue: the time it came in the upper digits, its waiting time in the
-- lower ones.
use native.Mathlib.Nat.{mod-eq_of_lt}
use greatestworks.Base.{ap, arith, ite, true, ℕ, ◌%◌, ◌*◌, ◌+◌, ◌-◌, ◌/◌, ◌<◌, ◌^◌, ◌∙◌, ◌≡◌}
use greatestworks.Base.Bits.{
  and_bits, and_bits_mask, and_int, or_bits, or_bits_shifted, or_int, shift_left,
}
use greatestworks.Base.Int.{ltb_ℤ, pos, wrap, wrap_int, ℤ, ℤ_discrete, ◌*ℤ◌, ◌+ℤ◌, ◌-ℤ◌}
use greatestworks.Login.Queue.{gen_score, get_queue_score}

-- The waiting time that `genScore` writes down.
abbrev pub written_wait : ℤ → ℤ → ℤ → ℤ → ℤ
written_wait now score last wait_time =
    ite (ℤ_discrete last (pos 0)) last (wrap_int (now -ℤ score)) +ℤ wait_time

wrap_int-pos : (k : ℕ) → k < 2 ^ 63 → wrap_int (pos k) ≡ pos k
unfolding wrap_int wrap
wrap_int-pos k h = ground (arith, h)

pos-mul : (a b : ℕ) → pos a *ℤ pos b ≡ pos (a * b)
unfolding ◌*ℤ◌
pos-mul a b = ground arith

shifted : (a : ℕ) → a < 2 ^ 43 → shift_left (pos a) 20 ≡ pos (a * 2 ^ 20)
unfolding shift_left
shifted a h = ap wrap_int (pos-mul a (2 ^ 20)) ∙ wrap_int-pos (a * 2 ^ 20) (omega (arith, h))

joined_digits : (a w : ℕ) → a < 2 ^ 43 → w < 2 ^ 20 → or_bits 64 (a * 2 ^ 20) w ≡ a * 2 ^ 20 + w
joined_digits a w ha hw =
    let small : a % 2 ^ 44 ≡ a = mod-eq_of_lt (omega (arith, ha)) in
    or_bits_shifted 20 44 a w hw ∙ ap (λ x. x * 2 ^ 20 + w) small

packed :
    (a w : ℕ)
    → a < 2 ^ 43
    → w < 2 ^ 20
    → or_int (shift_left (pos a) 20) (pos w) ≡ pos (a * 2 ^ 20 + w)
unfolding or_int
packed a w ha hw =
    let x : (a * 2 ^ 20) % 2 ^ 64 ≡ a * 2 ^ 20 = mod-eq_of_lt (omega (arith, ha)) in
    let y : w % 2 ^ 64 ≡ w = mod-eq_of_lt (omega (arith, hw)) in
    rw (shifted a ha, or_int, x, y, joined_digits a w ha hw)
      (wrap_int-pos (a * 2 ^ 20 + w) (omega (arith, ha, hw)))

unpacked :
    (a w : ℕ) → a < 2 ^ 43 → w < 2 ^ 20 → get_queue_score (pos (a * 2 ^ 20 + w)) ≡ (pos a, pos w)
unfolding get_queue_score and_int
unpacked a w ha hw =
    let n : ℕ = a * 2 ^ 20 + w in
    let time : n / 2 ^ 20 ≡ a = omega (arith, hw) in
    let low : n % 2 ^ 20 ≡ w = omega (arith, hw) in
    let whole : n % 2 ^ 64 ≡ n = mod-eq_of_lt (omega (arith, ha, hw)) in
    let mask : and_bits 64 (n % 2 ^ 64) (2 ^ 20 - 1) ≡ w =
      ap (λ x. and_bits 64 x (2 ^ 20 - 1)) whole ∙ and_bits_mask 20 44 n ∙ low in
    ap (λ x. (pos x, and_int (pos n) (pos (2 ^ 20 - 1)))) time
    ∙ ap (λ x. (pos a, wrap_int (pos x))) mask
    ∙ ap (λ x. (pos a, x)) (wrap_int-pos w (omega (arith, hw)))

gen_score_lem :
    (now last wait_time : ℤ) (a w : ℕ)
    → 0 < a
    → a < 2 ^ 43
    → w < 2 ^ 20
    → written_wait now (pos a) last wait_time ≡ pos w
    → gen_score now (pos a) last wait_time ≡ pos (a * 2 ^ 20 + w)
unfolding gen_score
gen_score_lem now last wait_time a w h ha hw e =
    let p : ite (ℤ_discrete (pos a) (pos 0)) now (pos a) ≡ pos a = ground (arith, h) in
    let q : wrap_int (written_wait now (pos a) last wait_time) ≡ pos w =
      ap wrap_int e ∙ wrap_int-pos w (omega (arith, hw)) in
    ap (λ x. or_int (shift_left x 20) (wrap_int (written_wait now x last wait_time))) p
    ∙ ap (λ y. or_int (shift_left (pos a) 20) y) q
    ∙ packed a w ha hw

-- `getQueueScore` reads from a score what `genScore` wrote: the time, for a time from 1 up to 2^43
-- seconds, and the waiting time, for one from 0 up to 2^20 seconds.
pub get_queue_score-gen_score :
    (now last wait_time : ℤ) (a w : ℕ)
    → 0 < a
    → a < 2 ^ 43
    → w < 2 ^ 20
    → written_wait now (pos a) last wait_time ≡ pos w
    → get_queue_score (gen_score now (pos a) last wait_time) ≡ (pos a, pos w)
get_queue_score-gen_score now last wait_time a w h ha hw e =
    ap get_queue_score (gen_score_lem now last wait_time a w h ha hw e) ∙ unpacked a w ha hw

-- Whoever came earlier has the lower score, and so the lower rank in Redis, whatever the waiting
-- times are, within the same bounds.
pub gen_score_mono :
    (now now' last last' wait_time wait_time' : ℤ) (a b w v : ℕ)
    → 0 < a
    → a < b
    → b < 2 ^ 43
    → w < 2 ^ 20
    → v < 2 ^ 20
    → written_wait now (pos a) last wait_time ≡ pos w
    → written_wait now' (pos b) last' wait_time' ≡ pos v
    → ltb_ℤ (gen_score now (pos a) last wait_time) (gen_score now' (pos b) last' wait_time') ≡ true
gen_score_mono now now' last last' wait_time wait_time' a b w v ha hab hb hw hv e f = ground (
  arith,
  gen_score_lem now last wait_time a w ha (omega (arith, hab, hb)) hw e,
  gen_score_lem now' last' wait_time' b v (omega (arith, ha, hab)) hb hv f,
  ha,
  hab,
  hw,
  hv,
)
