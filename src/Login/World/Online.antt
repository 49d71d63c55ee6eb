-- ===== src/Login/World/Online.antt =====
-- What `updateOnline` and `clearInvalid` do to the worlds of a zone.
use greatestworks.Base.{
  Option, Option-cases, String, String_discrete, arith, if◌then◌else◌, inl, inr, ite, none, some,
  ◌≡◌,
}
use greatestworks.Base.Float32.{Float32}
use greatestworks.Base.Int.{ltb_ℤ, pos, ℤ, ℤ_discrete}
use greatestworks.Base.SyncMap.{load, load-store}
use greatestworks.Login.Config.{Me}
use greatestworks.Login.World.{World, WorldEndpoint, fake_players, update_online}

module _ (fl : Float32) (me : Me) (now : ℤ) where
  -- What `updateOnline` leaves under the id of its argument.
  abbrev pub refreshed : Option WorldEndpoint → WorldEndpoint → WorldEndpoint
  refreshed (some old) e = record old { player_num = e.player_num; max = e.max }
  refreshed none e =
      if ltb_ℤ (pos e.p_idx) e.fake_server_cnt
      then record e { init_fake_player_num = fake_players fl me now e.max }
      else e

  -- For a world of the zone, `updateOnline` stores it if it is new, with a made-up player number
  -- where the index asks for one; of a known world it changes the player number and the maximum
  -- alone. It leaves every other world as it was, and a world of another zone changes nothing.
  pub load-update_online :
      (w : World) (e : WorldEndpoint) (j : String)
      → load String_discrete j (update_online fl me now w e).0.end_points
        ≡ ite
            (ℤ_discrete e.zone_id w.zone_id)
            (ite
              (String_discrete e.id j)
              (some (refreshed (load String_discrete e.id w.end_points) e))
              (load String_discrete j w.end_points))
            (load String_discrete j w.end_points)
  unfolding update_online
  load-update_online w e j = elim (Option-cases (load String_discrete e.id w.end_points)) [
    | inl n ↦ ground (arith, load-store String_discrete e.id j (refreshed none e) w.end_points)
    | inr (old, o) ↦
        ground (arith, load-store String_discrete e.id j (refreshed (some old) e) w.end_points)
  ]

  -- `updateOnline` writes the made-up player number of a known world into its argument and not
  -- into the stored world, whose number stays as it was.
  pub update_online_keeps_fake :
      (w : World) (e old : WorldEndpoint)
      → load String_discrete e.id w.end_points ≡ some old
      → (new : WorldEndpoint)
      → load String_discrete e.id (update_online fl me now w e).0.end_points ≡ some new
      → new.init_fake_player_num ≡ old.init_fake_player_num
  unfolding update_online
  update_online_keeps_fake w e old h new k = ground (arith, load-update_online w e e.id)
