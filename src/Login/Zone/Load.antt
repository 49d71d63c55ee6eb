-- ===== src/Login/Zone/Load.antt =====
-- The load status of a world.
use greatestworks.Base.{Option, arith, false, none, refl, some, true, ℕ, ◌<◌, ◌≡◌, ◌≤◌}
use greatestworks.Base.Float32.{Float32, IsMonotone}
use greatestworks.Base.Int.{ltb_ℤ, pos, ℤ, ◌≤ℤ◌}
use greatestworks.Login.Config.{Me, Status, close_status, empty_status, full_status, ok_status}
use greatestworks.Login.World.{WorldEndpoint, age, fake_period}
use greatestworks.Login.Zone.Status.{is_faking, measured, process_online_stat, rated, world_metrics}

-- The two copies of the load computation agree, on every world and at every time.
pub world_metrics-eq-process_online_stat :
    (fl : Float32) (me : Me) (now : ℤ) (e : Option WorldEndpoint)
    → world_metrics fl me now e ≡ process_online_stat fl me now e
unfolding world_metrics process_online_stat
world_metrics-eq-process_online_stat fl me now none = refl
world_metrics-eq-process_online_stat fl me now (some e) = ground arith

-- How full a world is, as a number.
abbrev pub rank : Status → ℕ
rank close_status = 0
rank empty_status = 1
rank ok_status = 2
rank full_status = 3

rank-rated :
    (fl : Float32) (me : Me) (now : ℤ) (p q : ℤ) (m : ℕ)
    → IsMonotone fl
    → p ≤ℤ q
    → 0 < m
    → rank (rated fl me now p m) ≤ rank (rated fl me now q m)
rank-rated fl me now p q m mono h k = ground (
  arith,
  mono.div_mono p q m (fl.tenths 2) h k,
  mono.div_mono p q m (fl.tenths 7) h k,
  mono.below_busy (fl.div (fl.of_int p) (fl.of_int (pos m))),
  mono.below_busy (fl.div (fl.of_int q) (fl.of_int (pos m))),
)

-- With more players a world never looks emptier, where the two differ in their player numbers
-- alone and show their real players.
pub rank-measured :
    (fl : Float32) (me : Me) (now : ℤ) (e : WorldEndpoint) (q : ℤ)
    → IsMonotone fl
    → e.player_num ≤ℤ q
    → is_faking fl me now e ≡ false
    → rank (measured fl me now e).1 ≤ rank (measured fl me now (record e { player_num = q })).1
unfolding measured
rank-measured fl me now e q mono h f =
    ground (arith, rank-rated fl me now e.player_num q e.max mono h)

-- A world whose players are made up keeps its own number of players, and once the period is over
-- the made-up number is reset, so that from then on its status is that of its real players.
pub measured-after_period :
    (fl : Float32) (me : Me) (now : ℤ) (e : WorldEndpoint)
    → 0 < e.max
    → ltb_ℤ (fake_period fl me now) (age fl me now e) ≡ true
    → pos 0 ≤ℤ e.player_num
    → (is_faking fl me now (measured fl me now e).0 ≡ false)
      × ((measured fl me now e).0.player_num ≡ e.player_num)
      × ((measured fl me now e).1 ≡ rated fl me now e.player_num e.max)
unfolding measured
measured-after_period fl me now e m o p = ground arith
