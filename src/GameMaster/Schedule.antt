-- ===== src/GameMaster/Schedule.antt =====
-- When the door of a gateway is open after an order to close it: server/gateway/gm/gm.go.
use greatestworks.Base.{
  Bool, Bool-cases, List, [], arith, dec_le, false, if_rule, if◌then◌else◌, inl, inr, ite, leb,
  length, ltb, suc, true, ℕ, ◌&&◌, ◌+◌, ◌<◌, ◌^◌, ◌||◌, ◌∷◌, ◌≡◌,
}
use greatestworks.Base.Int.{pos, ℤ, ℤ_discrete}
use greatestworks.Base.Text.{text_eq}
use greatestworks.GameMaster.{Gm, Tick, close_door, open_door}
use greatestworks.GameMaster.CountDown.{
  close_door_count_down, count_down_update, on_timer, open_door_count_down,
}
use greatestworks.GameMaster.Door.{
  Door, IsQuiet, close_eq, due-closes, due-opens, early-counts, early-waits, kicks, open_eq,
  open_ne, ticked,
}
use greatestworks.Gateway.Clients.{close}

-- The game master after ticks.
unfoldable pub run_ticks : List Tick → Gm → Gm
run_ticks [] g = g
run_ticks (t ∷ ts) g = run_ticks ts (on_timer t g)

-- Quiet ticks at the times of a list.
abbrev pub AreQuiet : ℕ → List Tick → List ℕ → Type 0
AreQuiet o [] [] = Unit
AreQuiet o [] (now ∷ nows) = ⊥
AreQuiet o (t ∷ ts) [] = ⊥
AreQuiet o (t ∷ ts) (now ∷ nows) = IsQuiet o t now × AreQuiet o ts nows

-- Whether some tick is at the time `due` or later.
abbrev pub reached : ℕ → List ℕ → Bool
reached due [] = false
reached due (now ∷ nows) = leb due now || reached due nows

-- The schedule: open up to the first tick from `close` on, then shut, and open again from the next
-- tick that is `p` seconds after `close` or later, if `p` is not 0.
abbrev pub is_scheduled : ℕ → ℕ → List ℕ → Bool
is_scheduled close p [] = true
is_scheduled close p (now ∷ nows) =
    if leb close now then ltb 0 p && reached (close + p) nows else is_scheduled close p nows

-- Whether the door is open, and the number of kicks that were sent.
abbrev pub Ends : Bool → ℕ → Gm → Type 0
Ends b n g = (g.is_open_now ≡ b) × (kicks g.sent ≡ n)

-- The kicks that a count-down adds: one, if the order asks for it and the time is reached.
abbrev pub kicks_due : ℤ → ℕ → List ℕ → ℕ
kicks_due k close nows = ite (ℤ_discrete k (pos 0)) 0 (if reached close nows then 1 else 0)

module _ {o : ℕ} where
  settled_tick :
      {b : Bool} {a p : ℕ} {k : ℤ} {n now : ℕ} (t : Tick) {g : Gm}
      → IsQuiet o t now
      → Door b [] o a p k n g
      → Door b [] o a p k n (on_timer t g)
  settled_tick {b} {a} {p} {k} {n} t q d = ticked t (Door b [] o a p k n) q.old d λ g' d'.
      if_rule (Door b [] o a p k n) (ltb 0 (length g'.opt))
        (λ h. absurd (ground (arith, d'.order, h))) (λ _. d')

  waiting_tick :
      {a p : ℕ} {k : ℤ} {n now : ℕ} (t : Tick) {g : Gm} (Q : Gm → Type 0)
      → IsQuiet o t now
      → Door false open_door o a p k n g
      → ((g' : Gm) → Door false open_door o a p k n g' → Q (open_door_count_down (pos now) g'))
      → Q (on_timer t g)
  unfolding count_down_update
  waiting_tick {a} {p} {k} {n} {now} t Q q d f = ticked t Q q.old d λ g' d'.
      let e : text_eq g'.opt open_door ≡ true = rw d'.order open_eq in
      let c : text_eq g'.opt close_door ≡ false = rw d'.order open_ne in
      if_rule Q (ltb 0 (length g'.opt)) (λ _. rw (c, e, q.clock) (f g' d'))
        (λ h. absurd (ground (arith, d'.order, h)))

  counting_tick :
      {a p : ℕ} {k : ℤ} {n now : ℕ} (t : Tick) {g : Gm} (Q : Gm → Type 0)
      → IsQuiet o t now
      → Door true close_door o a p k n g
      → ((g' : Gm) → Door true close_door o a p k n g' → Q (close_door_count_down (pos now) g'))
      → Q (on_timer t g)
  unfolding count_down_update
  counting_tick {a} {p} {k} {n} {now} t Q q d f = ticked t Q q.old d λ g' d'.
      let c : text_eq g'.opt close_door ≡ true = rw d'.order close_eq in
      if_rule Q (ltb 0 (length g'.opt)) (λ _. rw (c, q.clock) (f g' d'))
        (λ h. absurd (ground (arith, d'.order, h)))

  settled-Ends :
      {b : Bool} {a p : ℕ} {k : ℤ} {n : ℕ} (ts : List Tick) (nows : List ℕ) {g : Gm}
      → AreQuiet o ts nows
      → Door b [] o a p k n g
      → Ends b n (run_ticks ts g)
  unfolding run_ticks
  settled-Ends [] [] q d = (d.is_open, d.kicked)
  settled-Ends [] (now ∷ nows) q d = absurd q
  settled-Ends (t ∷ ts) [] q d = absurd q
  settled-Ends (t ∷ ts) (now ∷ nows) q d = settled-Ends ts nows q.1 (settled_tick t q.0 d)

  module _ {a p : ℕ} {k : ℤ} (ho : o < 2 ^ 61) (ha : a < 2 ^ 61) (hp : p < 2 ^ 61) where
    waiting-Ends :
        {n : ℕ} (ts : List Tick) (nows : List ℕ) {g : Gm}
        → AreQuiet o ts nows
        → Door false open_door o a p k n g
        → Ends (reached (o + a + p) nows) n (run_ticks ts g)
    unfolding run_ticks
    waiting-Ends [] [] q d = (d.is_open, d.kicked)
    waiting-Ends [] (now ∷ nows) q d = absurd q
    waiting-Ends (t ∷ ts) [] q d = absurd q
    waiting-Ends {n} (t ∷ ts) (now ∷ nows) {g} q d = elim (dec_le (o + a + p) now) [
      | yes l ↦
          let r : leb (o + a + p) now ≡ true = ground (arith, l) in
          rw r (
            settled-Ends ts nows q.1 (
              waiting_tick t (Door true [] o 0 0 (pos 0) n) q.0 d
                λ g' d'. due-opens now ho ha hp q.0.fits l d'))
      | no l ↦
          let r : leb (o + a + p) now ≡ false = ground (arith, l) in
          rw r (
            waiting-Ends ts nows q.1 (
              waiting_tick t (Door false open_door o a p k n) q.0 d
                λ g' d'. early-waits now ho ha hp q.0.fits (omega arith) d'))
    ]

    closed-Ends :
        {n : ℕ} (ts : List Tick) (nows : List ℕ) {g : Gm}
        → AreQuiet o ts nows
        → Door false (if ltb 0 p then open_door else []) o a p k n g
        → Ends (ltb 0 p && reached (o + a + p) nows) n (run_ticks ts g)
    closed-Ends ts nows q d = elim (Bool-cases (ltb 0 p)) [
      | inl e ↦ rw e (waiting-Ends ts nows q (rw e at d))
      | inr e ↦ rw e (settled-Ends ts nows q (rw e at d))
    ]

-- After an order to close, of time o and due after a seconds, with p seconds of maintenance, ticks
-- at any times that bring no newer order leave the door as the schedule says: open up to the first
-- tick at o + a or later; shut from then on; and open again from the first later tick at o + a + p
-- or later, if p is not 0. A kick is sent to all players exactly once, at the closing tick, if the
-- order asks for it, and never otherwise. The times are assumed below 2 ^ 61.
pub run_ticks-scheduled :
    (o a p : ℕ) (k : ℤ) (n : ℕ) (ts : List Tick) (nows : List ℕ) (g : Gm)
    → o < 2 ^ 61
    → a < 2 ^ 61
    → p < 2 ^ 61
    → AreQuiet o ts nows
    → Door true close_door o a p k n g
    → Ends (is_scheduled (o + a) p nows) (n + kicks_due k (o + a) nows) (run_ticks ts g)
unfolding run_ticks
run_ticks-scheduled o a p k n [] [] g ho ha hp q d = (d.is_open, ground (arith, d.kicked))
run_ticks-scheduled o a p k n [] (now ∷ nows) g ho ha hp q d = absurd q
run_ticks-scheduled o a p k n (t ∷ ts) [] g ho ha hp q d = absurd q
run_ticks-scheduled o a p k n (t ∷ ts) (now ∷ nows) g ho ha hp q d = elim (dec_le (o + a) now) [
  | yes l ↦
      let r : leb (o + a) now ≡ true = ground (arith, l) in
      let n' = ite (ℤ_discrete k (pos 0)) n (suc n) in
      let (x, y) = closed-Ends ho ha hp ts nows q.1 (
        counting_tick t (Door false (if ltb 0 p then open_door else []) o a p k n') q.0 d
          λ g' d'. due-closes now ho ha q.0.fits l d') in
      (ground (arith, r, x), ground (arith, r, y))
  | no l ↦
      let r : leb (o + a) now ≡ false = ground (arith, l) in
      rw r (
        run_ticks-scheduled o a p k n ts nows _ ho ha hp q.1 (
          counting_tick t (Door true close_door o a p k n) q.0 d
            λ g' d'. early-counts now ho ha q.0.fits (omega arith) d'))
]
