-- ===== src/Login/Handler/Assign.antt =====
-- server/login/ctrl.go: the gateway that recommendGatewayForPlayer finds for a player.
use greatestworks.Base.{
  Bool, Option, Outcome, String, false, if◌then◌else◌, is_empty_str, ite, none, panics, returns,
  some, true, ℕ, ◌&&◌,
}
use greatestworks.Base.Int.{ltb_ℤ, pos, ℤ, ℤ_discrete}
use greatestworks.Login.Config.{EndPoint}
use greatestworks.Login.Handler.{AccountRedis, Server, Texts, settle_zone}
use greatestworks.Login.Zone.{
  ZoneManager, get_gate_way, is_exist_gateway, recommend_gateway, update_gateway_local_weight,
}

-- `discover n` is what the discovery of the request's n-th call of GetZoneManager does. `inner` and
-- the random number are arguments.
module _ {Store : Type 0} (a : AccountRedis Store) (texts : Texts)
    (discover : ℕ → ZoneManager → ZoneManager) (rand : ℕ) where
  -- `RecommendGateway`, with the state after the discovery; `none` for an error.
  unfoldable pub recommended : ℕ → ℤ → Server Store → Outcome (Server Store × Option EndPoint)
  recommended n zone s =
      let s' = record s { zones = discover n s.zones } in
      elim (recommend_gateway s'.zones zone rand) [ panics ↦ panics | returns e ↦ returns (s', e) ]

  -- The gateway of the account before, if it is still there, and else a recommended one. An end
  -- point that is said to exist and is nil is dereferenced later.
  unfoldable pub chosen_gateway : ℕ → ℤ → Server Store → Outcome (Server Store × Option EndPoint)
  chosen_gateway userid zone s =
      let gateway = a.account_gateway userid s.store in
      let s' = record s { zones = discover 4 s.zones } in
      if is_empty_str gateway
      then recommended 4 zone s
      else elim (is_exist_gateway s'.zones zone (texts.service_id gateway)) [
        | panics ↦ panics
        | returns (e, exist) ↦
            if exist
            then elim e [ none ↦ panics | some g ↦ returns (s', some g) ]
            else recommended 5 zone s'
      ]

  -- HMSet of the gateway, and the weight of the gateway if Redis took it.
  unfoldable pub assign_gateway : ℕ → EndPoint → Server Store → Server Store × Bool
  assign_gateway userid g s =
      let (store', refused) = a.set_account userid (texts.tcp_addr g.ip g.port) g.zone_id s.store in
      if refused
      then (record s { store = store' }, false)
      else let (zones', ratio') = update_gateway_local_weight (discover 6 s.zones) g s.ratio in
        (record s { zones = zones'; ratio = ratio'; store = store' }, true)

  abbrev pub address_of : Bool → EndPoint → String
  address_of inner g = if inner && texts.is_address g.inner_ip then g.inner_ip else g.ip

  -- The zone, the address and the port; `none` for `false, 0, "", 0`.
  unfoldable pub recommend_gateway_for_player :
      ℤ → ℕ → Bool → Server Store → Outcome (Server Store × Option (ℤ × String × ℤ))
  recommend_gateway_for_player zone userid inner s =
      let s1 = if ltb_ℤ (pos 0) zone then record s { zones = discover 3 s.zones } else s in
      let has_none : Bool = elim (get_gate_way s1.zones zone) [ none ↦ true | some l ↦ false ] in
      if ltb_ℤ (pos 0) zone && has_none
      then returns (s1, none)
      else let (store', prev) = settle_zone a zone userid s1.store in
        let zone' =
          if ite (ℤ_discrete zone (pos 0)) true false && ltb_ℤ (pos 0) prev then prev else zone in
        elim (chosen_gateway userid zone' (record s1 { store = store' })) [
          | panics ↦ panics
          | returns (s2, none) ↦ returns (s2, none)
          | returns (s2, some g) ↦
              let (s3, ok) = assign_gateway userid g s2 in
              returns (s3, if ok then some (g.zone_id, address_of inner g, g.port) else none)
        ]
