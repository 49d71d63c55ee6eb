-- ===== src/GameMaster/Order.antt =====
-- What an order to close the door comes to while another one runs: server/gateway/gm/gm.go.
use greatestworks.Base.{
  List, ap, arith, none, some, suc, true, ℕ, ◌*◌, ◌+◌, ◌<◌, ◌^◌, ◌∙◌, ◌≡◌, ◌⊎◌,
}
use greatestworks.Base.Int.{pos, wrap_int, wrap_int-add, wrap_int-pos, ℤ, ◌*ℤ◌, ◌+ℤ◌}
use greatestworks.Base.Text.{parse_int, to_lower}
use greatestworks.GameMaster.{Command, Gm, Tick, close_door, update_close_door_info}
use greatestworks.GameMaster.Door.{Door}
use greatestworks.GameMaster.Schedule.{
  AreQuiet, Ends, is_scheduled, kicks_due, run_ticks, run_ticks-scheduled,
}

minutes : (m : ℕ) → m < 2 ^ 52 → wrap_int (pos m *ℤ pos 60) ≡ pos (m * 60)
unfolding ◌*ℤ◌
minutes m h = ground (arith, wrap_int-pos (m * 60) (omega (arith, h)))

-- The seconds up to the closing, from the minutes of an order and the random number.
abbrev pub seconds_after : ℕ → ℕ → ℕ
seconds_after m rand = m * 60 + suc rand

after_minutes :
    (m rand : ℕ)
    → m < 2 ^ 52
    → rand < 60
    → wrap_int (wrap_int (pos m *ℤ pos 60) +ℤ pos (suc rand)) ≡ pos (seconds_after m rand)
after_minutes m rand h k =
    ap (λ x. wrap_int (x +ℤ pos (suc rand))) (minutes m h)
    ∙ wrap_int-add (m * 60) (suc rand) (omega (arith, h, k))

module _ (t : Tick) (info : Command) (o a p m : ℕ) (k : ℤ) (n : ℕ) (g : Gm) (fits : m < 2 ^ 52)
    (random : t.rand < 60) (after : parse_int 64 info.after_min ≡ some (pos m))
    (d : Door true close_door o a p k n g) where
  accepted-Door :
      (q o' : ℕ) (k' : ℤ)
      → q < 2 ^ 52
      → parse_int 64 info.ops_min ≡ some (pos q)
      → parse_int 64 info.kickoff_user ≡ some k'
      → to_lower info.opt ≡ close_door
      → info.opt_time ≡ pos o'
      → Door true close_door o'
          (seconds_after m t.rand)
          (q * 60)
          k'
          n
          (update_close_door_info t info g)
  unfolding update_close_door_info
  accepted-Door q o' k' f h h' e e' = record {
    is_open = ground (arith, after, h, h', d.is_open);
    order = ground (arith, after, h, h', e);
    time = ground (arith, after, h, h', e');
    after = ground (arith, after, h, h', after_minutes m t.rand fits random);
    ops = ground (arith, after, h, h', minutes q f);
    kickoff = ground (arith, after, h, h', d.kickoff);
    kicked = ground (arith, after, h, h', d.kicked);
  }

-- The minutes of maintenance after an order that is refused: those of the order that runs, or, where
-- only the kick of the refused order does not parse, its own.
abbrev pub IsRefused : Command → ℕ → ℕ → Type 0
IsRefused info p p' =
    ((parse_int 64 info.ops_min ≡ none) × (p' ≡ p))
    ⊎ ((q : ℕ) × (q < 2 ^ 52)
        × (parse_int 64 info.ops_min ≡ some (pos q))
        × (parse_int 64 info.kickoff_user ≡ none)
        × (p' ≡ q * 60))

-- The same of an order that is carried out: it is the one that runs then.
pub accepted_order-Ends :
    (t : Tick) (info : Command) (o o' a p q m : ℕ) (k k' : ℤ) (n : ℕ) (g : Gm) (ts : List Tick)
    (nows : List ℕ)
    → o' < 2 ^ 61
    → q < 2 ^ 52
    → m < 2 ^ 52
    → t.rand < 60
    → parse_int 64 info.after_min ≡ some (pos m)
    → parse_int 64 info.ops_min ≡ some (pos q)
    → parse_int 64 info.kickoff_user ≡ some k'
    → to_lower info.opt ≡ close_door
    → info.opt_time ≡ pos o'
    → Door true close_door o a p k n g
    → AreQuiet o' ts nows
    → let due = o' + seconds_after m t.rand in
      Ends
        (is_scheduled due (q * 60) nows)
        (n + kicks_due k' due nows)
        (run_ticks ts (update_close_door_info t info g))
accepted_order-Ends t info o o' a p q m k k' n g ts nows ho hq f r e e' e'' x y d quiet =
    run_ticks-scheduled o' (seconds_after m t.rand) (q * 60) k' n ts nows
      (update_close_door_info t info g) ho (omega (arith, f, r)) (omega (arith, hq)) quiet
      (accepted-Door t info o a p m k n g f r e d q o' k' hq e' e'' x y)
