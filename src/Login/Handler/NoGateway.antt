-- ===== src/Login/Handler/NoGateway.antt =====
-- recommendGatewayForPlayer never finds a gateway: server/login/ctrl.go.
use greatestworks.Base.{
  Bool, Bool-cases, List, Option, Outcome, String, arith, false, if_rule, if◌then◌else◌, inl, inr,
  is_empty_str, ite, none, returns, true, ℕ, ◌&&◌, ◌≡◌,
}
use greatestworks.Base.Float32.{Float32}
use greatestworks.Base.Int.{ltb_ℤ, pos, ℤ, ℤ_discrete}
use greatestworks.Login.Config.{EndPoint, Me, ServiceEntry}
use greatestworks.Login.Handler.{AccountRedis, Server, Texts, settle_zone}
use greatestworks.Login.Handler.Assign.{chosen_gateway, recommend_gateway_for_player, recommended}
use greatestworks.Login.Zone.{Performance, ZoneManager, discovery}
use greatestworks.Login.Zone.Empty.{Reach, Reach-no_gateway, discovers}

-- What Consul answers to the two queries of a discovery, and the time of the discovery.
pub record Answer : Type 0 where
  pub now : ℤ
  pub gateways : Option (List ServiceEntry)
  pub worlds : Option (List ServiceEntry)

module _ (fl : Float32) (me : Me) (performance_data : String → Performance)
    (consul : ℕ → Answer) where
  abbrev pub discovered : ℕ → ZoneManager → ZoneManager
  discovered n z =
      discovery fl me (consul n).now performance_data z (consul n).gateways (consul n).worlds

  pub discovered-Reach :
      (n : ℕ) {z : ZoneManager}
      → Reach fl me performance_data z
      → Reach fl me performance_data (discovered n z)
  discovered-Reach n h = discovers (consul n).now (consul n).gateways (consul n).worlds h

  module _ {Store : Type 0} (a : AccountRedis Store) (texts : Texts) (rand : ℕ) where
    -- No gateway is found, and the zone manager stays one that can be reached.
    abbrev Unassigned : Outcome (Server Store × Option EndPoint) → Type 0
    Unassigned o =
        (s : Server Store) × (o ≡ returns (s, none)) × Reach fl me performance_data s.zones

    recommended_none :
        (n : ℕ) (zone : ℤ) (s : Server Store)
        → Reach fl me performance_data s.zones
        → Unassigned (recommended a texts discovered rand n zone s)
    unfolding recommended
    recommended_none n zone s h =
        let h' = discovered-Reach n h in
        let (e, f, g, l) = Reach-no_gateway fl me performance_data zone "" rand h' in
        (record s { zones = discovered n s.zones }, ground (arith, e), h')

    chosen_none :
        (userid : ℕ) (zone : ℤ) (s : Server Store)
        → Reach fl me performance_data s.zones
        → Unassigned (chosen_gateway a texts discovered rand userid zone s)
    unfolding chosen_gateway
    chosen_none userid zone s h =
        let id = texts.service_id (a.account_gateway userid s.store) in
        let h' = discovered-Reach 4 h in
        let (e, f, g, l) = Reach-no_gateway fl me performance_data zone id rand h' in
        if_rule Unassigned (is_empty_str (a.account_gateway userid s.store))
          (λ _. recommended_none 4 zone s h)
          (λ _.
            let (s', e', r) =
              recommended_none 5 zone (record s { zones = discovered 4 s.zones }) h' in
            (s', ground (arith, f, e'), r))

    pub never_assigned :
        (zone : ℤ) (userid : ℕ) (inner : Bool) (s : Server Store)
        → Reach fl me performance_data s.zones
        → (s' : Server Store) × (recommend_gateway_for_player a texts discovered rand zone userid
              inner s
            ≡ returns (s', none))
          × Reach fl me performance_data s'.zones
    unfolding recommend_gateway_for_player
    never_assigned zone userid inner s h = elim (Bool-cases (ltb_ℤ (pos 0) zone)) [
      | inl e ↦
          let h' = discovered-Reach 3 h in
          let (x, y, g, l) = Reach-no_gateway fl me performance_data zone "" rand h' in
          (record s { zones = discovered 3 s.zones }, ground (arith, e, g), h')
      | inr e ↦
          let settled = settle_zone a zone userid s.store in
          let zone' =
            if ite (ℤ_discrete zone (pos 0)) true false && ltb_ℤ (pos 0) settled.1
            then settled.1
            else zone in
          let (s', e', r) = chosen_none userid zone' (record s { store = settled.0 }) h in
          (s', ground (arith, e, e'), r)
    ]
