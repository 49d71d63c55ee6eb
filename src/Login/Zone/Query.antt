-- ===== src/Login/Zone/Query.antt =====
-- The queries for single worlds: getWorldByPIdx, getQueryWorld and getRecentlyWorlds.
use greatestworks.Base.{
  List, Option, String, String_discrete, [], if◌then◌else◌, ite, none, some, ℕ, ◌==◌, ◌∷◌,
}
use greatestworks.Base.Float32.{Float32}
use greatestworks.Base.Int.{ℤ, ℤ_discrete}
use greatestworks.Base.SyncMap.{SyncMap, store}
use greatestworks.Login.Config.{Me}
use greatestworks.Login.World.{World, WorldEndpoint}
use greatestworks.Login.Zone.Manager.{ZoneManager}
use greatestworks.Login.Zone.Recommend.{WorldEndPointInfo, full_info}
use greatestworks.Login.Zone.Status.{measured}

-- The first world of a zone with the index, and its key.
abbrev pub first_match : ℕ → SyncMap String WorldEndpoint → Option (String × WorldEndpoint)
first_match p_idx [] = none
first_match p_idx ((key, e) ∷ m) = if e.p_idx == p_idx then some (key, e) else first_match p_idx m

abbrev pub in_zone : ℤ → Option (String × WorldEndpoint) → Option (ℤ × String × WorldEndpoint)
in_zone zone none = none
in_zone zone (some (key, e)) = some (zone, key, e)

abbrev pub or_else {ℓ} : {A : Type ℓ} → Option A → Option A → Option A
or_else none o = o
or_else (some a) o = some a

-- The outer `Range` never stops, so a match in a later zone replaces an earlier one. The keys say
-- where the pointer that is returned points to.
unfoldable pub get_world_by_p_idx : SyncMap ℤ World → ℕ → Option (ℤ × String × WorldEndpoint)
get_world_by_p_idx [] p_idx = none
get_world_by_p_idx ((zone, w) ∷ m) p_idx =
    or_else (get_world_by_p_idx m p_idx) (in_zone zone (first_match p_idx w.end_points))

-- A write through the pointer.
abbrev pub put_end_point : ℤ → String → WorldEndpoint → SyncMap ℤ World → SyncMap ℤ World
put_end_point zone key e [] = []
put_end_point zone key e ((k, w) ∷ m) =
    ite (ℤ_discrete k zone)
      ((k, record w { end_points = store String_discrete key e w.end_points }) ∷ m)
      ((k, w) ∷ put_end_point zone key e m)

module _ (fl : Float32) (me : Me) (now : ℤ) where
  -- `none` stands for the result (w, false).
  unfoldable pub get_query_world : ZoneManager → ℕ → ZoneManager × Option WorldEndPointInfo
  unfolding get_world_by_p_idx
  get_query_world z p_idx = elim (get_world_by_p_idx z.worlds p_idx) [
    | none ↦ (z, none)
    | some (zone, key, e) ↦
        (let (e', stat) = measured fl me now e in
          (
            record z { worlds = put_end_point zone key e' z.worlds },
            some (full_info fl me now e stat),
          ))
  ]

  abbrev pub with_info : Option WorldEndPointInfo → List WorldEndPointInfo → List WorldEndPointInfo
  with_info none worlds = worlds
  with_info (some w) worlds = w ∷ worlds

  -- The loop of `getRecentlyWorlds` does what `getQueryWorld` does for each index.
  unfoldable pub get_recently_worlds : ZoneManager → List ℕ → ZoneManager × List WorldEndPointInfo
  unfolding get_query_world
  get_recently_worlds z [] = (z, [])
  get_recently_worlds z (p_idx ∷ onlines) =
      let (z', w) = get_query_world z p_idx in
      let (z'', worlds) = get_recently_worlds z' onlines in (z'', with_info w worlds)
