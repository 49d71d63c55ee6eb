-- ===== src/Gateway/Server/Timers.antt =====
-- The timer that tells Consul how many clients there are: server/gateway/server/server.go.
use Prim.Native.Nat.{max}
use greatestworks.Base.{
  List, [], ap, arith, if_rule, if◌then◌else◌, leb, refl, suc, sym, true, zero, ℕ, ◌+◌, ◌/◌, ◌<◌,
  ◌==◌, ◌^◌, ◌∙◌, ◌∷◌, ◌≡◌, ◌≤◌,
}
use greatestworks.Base.Int.{
  leb_ℤ, ltb_ℤ, negsuc, pos, quot, wrap_int, wrap_int-add, wrap_int32, wrap_int32-pos, ℤ, ◌+ℤ◌,
}
use greatestworks.Gateway.Server.{
  Service, register_timer, service_update_time, service_update_timer,
}

abbrev pub IsRandInt : (ℤ → ℤ) → Type 0
IsRandInt rand = (n : ℕ) → 0 < n → (m : ℕ) × (rand (pos n) ≡ pos m) × (m < n)

service_update_time_lem :
    (configured : ℤ)
    → ltb_ℤ configured (pos (2 ^ 62)) ≡ true
    → (least : ℕ) × (service_update_time configured ≡ pos least) × (0 < least) × (least < 2 ^ 62)
unfolding service_update_time
service_update_time_lem (pos zero) h = (2, refl, omega arith, omega arith)
service_update_time_lem (pos (suc n)) h = (suc n, ground arith, omega arith, ground (arith, h))
service_update_time_lem (negsuc n) h = (2, ground arith, omega arith, omega arith)

range_of :
    (least : ℕ)
    → least < 2 ^ 62
    → (if leb_ℤ (pos 5) (pos least) then wrap_int (quot (pos least) (pos 2) +ℤ pos 1) else pos 3)
      ≡ pos (if leb 5 least then least / 2 + 1 else 3)
range_of least h = ground (arith, wrap_int-add (least / 2) 1 (omega (arith, h)))

-- Whatever interval is configured, below 2 ^ 62, the service is updated every so many seconds: at
-- least what is configured, or two where that is not above 0, and at most half of it more, or two
-- seconds more where it is below 5.
pub register_timer_lem :
    (rand : ℤ → ℤ) (law : IsRandInt rand) (configured : ℤ)
    → ltb_ℤ configured (pos (2 ^ 62)) ≡ true
    → (seconds : ℕ) × (least : ℕ) × (service_update_time configured ≡ pos least)
      × (register_timer rand configured ≡ pos seconds)
      × (0 < least)
      × (least ≤ seconds)
      × (seconds ≤ least + max 2 (least / 2))
unfolding register_timer
register_timer_lem rand law configured h =
    let (least, e, p, b) = service_update_time_lem configured h in
    let range = if leb 5 least then least / 2 + 1 else 3 in
    let (m, r, l) = law range (ground arith) in
    let sum = wrap_int-add m least (ground (arith, l, b)) in
    (
      m + least,
      least,
      e,
      ground (arith, e, range_of least b, r, sum),
      p,
      omega arith,
      ground (arith, l),
    )

-- The ticks of the timer, each at the number of clients at that time.
abbrev pub run_timer : List ℕ → Service → Service
run_timer [] s = s
run_timer (n ∷ ns) s = run_timer ns (service_update_timer n s)

-- What Consul was told last, 0 if nothing.
abbrev pub shown : Service → ℤ
shown s = elim s.updates [ [] ↦ pos 0 | z ∷ zs ↦ z ]

abbrev pub no_updates : Service
no_updates = record { last_update_count = 0; updates = [] }

tick_shows :
    (n : ℕ) (s : Service)
    → shown s ≡ wrap_int32 (pos s.last_update_count)
    → (shown (service_update_timer n s) ≡ wrap_int32 (pos n))
      × ((service_update_timer n s).last_update_count ≡ n)
unfolding service_update_timer
tick_shows n s h =
    if_rule (λ (x : Service). (shown x ≡ wrap_int32 (pos n)) × (x.last_update_count ≡ n))
      (n == s.last_update_count)
      (λ e.
        let same : s.last_update_count ≡ n = ground (arith, e) in
        (h ∙ ap (λ x. wrap_int32 (pos x)) same, same))
      (λ e. (refl, refl))

run_shows :
    (ns : List ℕ) (s : Service)
    → shown s ≡ wrap_int32 (pos s.last_update_count)
    → shown (run_timer ns s) ≡ wrap_int32 (pos (run_timer ns s).last_update_count)
run_shows [] s h = h
run_shows (n ∷ ns) s h =
    let (now, count) = tick_shows n s h in
    run_shows ns (service_update_timer n s) (now ∙ ap (λ x. wrap_int32 (pos x)) (sym count))

-- After every tick, what Consul was told last is the number of clients at that tick, as an int32,
-- though nothing is sent while the number stays as it is.
pub run_timer-shown :
    (ns : List ℕ) (n : ℕ)
    → shown (service_update_timer n (run_timer ns no_updates)) ≡ wrap_int32 (pos n)
run_timer-shown ns n =
    (tick_shows n (run_timer ns no_updates)
      (run_shows ns no_updates (sym (wrap_int32-pos 0 (omega arith))))).0
