-- ===== src/GameMaster/Door.antt =====
-- One tick of the game master's timer, for each state of the door: server/gateway/gm/gm.go.
use greatestworks.Base.{
  Bool, Bool-cases, List, [], arith, dec_lt, false, if◌then◌else◌, inl, inr, ite, length, ltb, refl,
  suc, true, ℕ, ◌+◌, ◌-◌, ◌<◌, ◌^◌, ◌∷◌, ◌≡◌, ◌≤◌,
}
use greatestworks.Base.Int.{
  leb_ℤ, negsuc, pos, wrap_int, wrap_int-add, wrap_int-sub, wrap_int-sub_below, ℤ, ℤ_discrete, ◌+ℤ◌,
  ◌-ℤ◌, ◌≤ℤ◌,
}
use greatestworks.Base.Text.{Text, text_eq}
use greatestworks.GameMaster.{
  Gm, Notice, Notify, Tick, absent, broken, close_door, command, fetch_info_from_redis,
  fetch_ip_white_list, fetch_open_close_door_info, fetch_userid_white_list, is_addressed, kick,
  open_door, system_message,
}
use greatestworks.GameMaster.CountDown.{
  close_door_count_down, close_now, count_down_update, kick_off_online_player,
  notify_all_online_player, on_timer, open_door_count_down, remind, update_notify_tip,
}

abbrev pub kicks : List Notice → ℕ
kicks [] = 0
kicks (kick ∷ l) = suc (kicks l)
kicks (system_message tip ∷ l) = kicks l

-- The door's part of a game master: whether it is open, the order that runs, its times and its
-- kick, and the number of kicks that were sent.
pub record Door (b : Bool) (opt : Text) (o a p : ℕ) (k : ℤ) (n : ℕ) (g : Gm) : Type 0 where
  pub is_open : g.is_open_now ≡ b
  pub order : g.opt ≡ opt
  pub time : g.opt_time ≡ pos o
  pub after : g.after_sec ≡ pos a
  pub ops : g.opt_sec ≡ pos p
  pub kickoff : g.kickoff_user ≡ k
  pub kicked : kicks g.sent ≡ n

-- Redis holds no newer order than that of time `o`.
abbrev pub IsOld : ℕ → Notify → Type 0
IsOld o absent = Unit
IsOld o broken = Unit
IsOld o (command req) = req.opt_time ≤ℤ pos o

-- A tick at a time that fits, with no newer order.
pub record IsQuiet (o : ℕ) (t : Tick) (now : ℕ) : Type 0 where
  pub clock : t.now ≡ pos now
  pub fits : now < 2 ^ 61
  pub old : IsOld o t.notify

door_info :
    (o : ℕ) (t : Tick) (g : Gm) (m : Notify)
    → t.notify ≡ m
    → g.opt_time ≡ pos o
    → IsOld o m
    → fetch_open_close_door_info t g ≡ g
unfolding fetch_open_close_door_info is_addressed
door_info o t g absent e h q = ground (arith, e)
door_info o t g broken e h q = ground (arith, e)
door_info o t g (command req) e h q = ground (arith, e, h, q)

-- The texts of the two orders are told apart.
pub open_eq : text_eq open_door open_door ≡ true
unfolding text_eq
open_eq = refl

pub open_ne : text_eq open_door close_door ≡ false
unfolding text_eq
open_ne = refl

pub close_eq : text_eq close_door close_door ≡ true
unfolding text_eq
close_eq = refl

module _ {b : Bool} {opt : Text} {o a p : ℕ} {k : ℤ} {n : ℕ} where
  fetch-Door :
      (t : Tick) {g : Gm}
      → IsOld o t.notify
      → Door b opt o a p k n g
      → Door b opt o a p k n (fetch_info_from_redis t g)
  unfolding fetch_info_from_redis fetch_userid_white_list fetch_ip_white_list
  fetch-Door t {g} q d =
      let e : fetch_open_close_door_info t g ≡ g = door_info o t g t.notify refl d.time q in
      rw e (record {
        is_open = d.is_open;
        order = d.order;
        time = d.time;
        after = d.after;
        ops = d.ops;
        kickoff = d.kickoff;
        kicked = d.kicked;
      })

  -- What is left of a tick after the white lists and the orders are fetched.
  pub ticked :
      (t : Tick) {g : Gm} (Q : Gm → Type 0)
      → IsOld o t.notify
      → Door b opt o a p k n g
      → ((g' : Gm)
          → Door b opt o a p k n g'
          → Q (if ltb 0 (length g'.opt) then count_down_update t.now g' else g'))
      → Q (on_timer t g)
  unfolding on_timer
  ticked t {g} Q q d f =
      elim (Bool-cases (leb_ℤ g.fetch_interval (wrap_int (t.now -ℤ g.last_fetch_time)))) [
        | inl e ↦ rw e (
            f _ (
              fetch-Door t q (record {
                is_open = d.is_open;
                order = d.order;
                time = d.time;
                after = d.after;
                ops = d.ops;
                kickoff = d.kickoff;
                kicked = d.kicked;
              })))
        | inr e ↦ rw e (f g d)
      ]

module _ {o a p : ℕ} {k : ℤ} {n : ℕ} where
  pub due-opens :
      (now : ℕ) {g : Gm}
      → o < 2 ^ 61
      → a < 2 ^ 61
      → p < 2 ^ 61
      → now < 2 ^ 61
      → o + a + p ≤ now
      → Door false open_door o a p k n g
      → Door true [] o 0 0 (pos 0) n (open_door_count_down (pos now) g)
  unfolding open_door_count_down
  due-opens now {g} ho ha hp hn le d =
      let x : wrap_int (g.opt_time +ℤ g.after_sec) ≡ pos (o + a) =
        rw (d.time, d.after) (wrap_int-add o a (omega arith)) in
      let y : wrap_int (wrap_int (g.opt_time +ℤ g.after_sec) +ℤ g.opt_sec) ≡ pos (o + a + p) =
        rw (x, d.ops) (wrap_int-add (o + a) p (omega arith)) in
      let e : text_eq g.opt open_door ≡ true = rw d.order open_eq in
      elim (dec_lt (o + a + p) now) [
        | yes l ↦
            let z : wrap_int (pos (o + a + p) -ℤ pos now) ≡ negsuc (now - (o + a + p) - 1) =
              wrap_int-sub_below (o + a + p) now l (omega arith) in
            ground
              (arith, e, y, z, d.is_open, d.order, d.time, d.after, d.ops, d.kickoff, d.kicked, l)
        | no l ↦
            let z : wrap_int (pos (o + a + p) -ℤ pos now) ≡ pos (o + a + p - now) =
              wrap_int-sub (o + a + p) now (omega arith) (omega arith) in
            ground
              (arith, y, z, d.is_open, d.order, d.time, d.after, d.ops, d.kickoff, d.kicked, l, le)
      ]

  pub early-waits :
      (now : ℕ) {g : Gm}
      → o < 2 ^ 61
      → a < 2 ^ 61
      → p < 2 ^ 61
      → now < 2 ^ 61
      → now < o + a + p
      → Door false open_door o a p k n g
      → Door false open_door o a p k n (open_door_count_down (pos now) g)
  unfolding open_door_count_down update_notify_tip
  early-waits now {g} ho ha hp hn lt d =
      let x : wrap_int (g.opt_time +ℤ g.after_sec) ≡ pos (o + a) =
        rw (d.time, d.after) (wrap_int-add o a (omega arith)) in
      let y : wrap_int (wrap_int (g.opt_time +ℤ g.after_sec) +ℤ g.opt_sec) ≡ pos (o + a + p) =
        rw (x, d.ops) (wrap_int-add (o + a) p (omega arith)) in
      let z : wrap_int (pos (o + a + p) -ℤ pos now) ≡ pos (o + a + p - now) =
        wrap_int-sub (o + a + p) now (omega arith) (omega arith) in
      let e : text_eq g.opt open_door ≡ true = rw d.order open_eq in
      ground (arith, e, y, z, d.is_open, d.order, d.time, d.after, d.ops, d.kickoff, d.kicked, lt)

  -- Closing: the reopening is ordered where a time for maintenance is known.
  pub due-closes :
      (now : ℕ) {g : Gm}
      → o < 2 ^ 61
      → a < 2 ^ 61
      → now < 2 ^ 61
      → o + a ≤ now
      → Door true close_door o a p k n g
      → Door false
          (if ltb 0 p then open_door else [])
          o
          a
          p
          k
          (ite (ℤ_discrete k (pos 0)) n (suc n))
          (close_door_count_down (pos now) g)
  unfolding close_door_count_down close_now kick_off_online_player
  due-closes now {g} ho ha hn le d =
      let x : wrap_int (g.opt_time +ℤ g.after_sec) ≡ pos (o + a) =
        rw (d.time, d.after) (wrap_int-add o a (omega arith)) in
      let e : text_eq g.opt close_door ≡ true = rw d.order close_eq in
      elim (dec_lt (o + a) now) [
        | yes l ↦
            let z : wrap_int (pos (o + a) -ℤ pos now) ≡ negsuc (now - (o + a) - 1) =
              wrap_int-sub_below (o + a) now l (omega arith) in
            ground
              (arith, e, x, z, d.is_open, d.order, d.time, d.after, d.ops, d.kickoff, d.kicked, l)
        | no l ↦
            let z : wrap_int (pos (o + a) -ℤ pos now) ≡ pos (o + a - now) =
              wrap_int-sub (o + a) now (omega arith) (omega arith) in
            ground (
              arith, e, x, z, d.is_open, d.order, d.time, d.after, d.ops, d.kickoff, d.kicked, l,
              le,
            )
      ]

  pub early-counts :
      (now : ℕ) {g : Gm}
      → o < 2 ^ 61
      → a < 2 ^ 61
      → now < 2 ^ 61
      → now < o + a
      → Door true close_door o a p k n g
      → Door true close_door o a p k n (close_door_count_down (pos now) g)
  unfolding close_door_count_down remind notify_all_online_player update_notify_tip
  early-counts now {g} ho ha hn lt d =
      let x : wrap_int (g.opt_time +ℤ g.after_sec) ≡ pos (o + a) =
        rw (d.time, d.after) (wrap_int-add o a (omega arith)) in
      let z : wrap_int (wrap_int (g.opt_time +ℤ g.after_sec) -ℤ pos now) ≡ pos (o + a - now) =
        rw x (wrap_int-sub (o + a) now (omega arith) (omega arith)) in
      ground (arith, z, lt, d.is_open, d.order, d.time, d.after, d.ops, d.kickoff, d.kicked)
