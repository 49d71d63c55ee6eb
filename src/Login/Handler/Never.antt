-- ===== src/Login/Handler/Never.antt =====
-- No login is answered with success, since no gateway is ever known: server/login/handler.go.
use greatestworks.Base.{
  Outcome, String, arith, if_rule, if◌then◌else◌, is_empty_str, ite_rule, not, outcome_rule, panics,
  refl, returns, subst, sym, true, ℕ, ◌&&◌, ◌||◌, ◌≡◌, ◌≢◌,
}
use greatestworks.Base.Float32.{Float32}
use greatestworks.Base.Int.{ltb_ℤ, pos, ℤ, ℤ_discrete}
use greatestworks.Login.Config.{Me}
use greatestworks.Login.Handler.{
  AccountData, AccountRedis, HandlerConfig, LoginData, LoginGm, Request, Result, Server, Texts,
  account_of, check_daily_reg_cnt_limit, daily_incr_over, increase_daily_reg_cnt, no_body, succ,
  undecodable, zone_error,
}
use greatestworks.Login.Handler.Login.{admitted, checked, is_inner, login, zone_of}
use greatestworks.Login.Handler.NoGateway.{Answer, discovered, discovered-Reach, never_assigned}
use greatestworks.Login.Queue.{Float64, QueueConfig, QueueRedis, check_wait_level}
use greatestworks.Login.Zone.{Performance, zone_exist_for_online}
use greatestworks.Login.Zone.Empty.{Reach, recommends}

module _ (fl : Float32) (f64 : Float64) (me : Me) (queue : QueueConfig f64) (r : QueueRedis)
    (a : AccountRedis r.Store) (texts : Texts) (h : HandlerConfig)
    (performance_data : String → Performance) (consul : ℕ → Answer) (rand : ℕ → ℕ) where
  -- A refusal, in a state that the zone manager can be in; a panic comes from the waiting queue.
  abbrev pub Refused : AccountData → Server r.Store → Outcome (Server r.Store × LoginData) → Type 0
  Refused acc s panics = check_wait_level f64 r queue (a.clock s.store) acc.account s.store ≡ panics
  Refused acc s (returns (s', info)) = (info.result ≢ succ) × Reach fl me performance_data s'.zones

  zone_of-Reach :
      (acc : AccountData) (s : Server r.Store)
      → Reach fl me performance_data s.zones
      → Reach fl me performance_data
          (zone_of fl f64 me queue r a texts h
            (discovered fl me performance_data consul)
            rand
            acc
            s).0.zones
  unfolding zone_of
  zone_of-Reach acc s k =
      ite_rule (λ (p : Server r.Store × ℤ). Reach fl me performance_data p.0.zones)
        (ℤ_discrete acc.zone_id (pos 0))
        (λ _.
          recommends (a.clock s.store) (rand 0)
            (discovered-Reach fl me performance_data consul 2 k))
        (λ _. k)

  -- An answer other than success, in a state that the zone manager can be in.
  abbrev pub Turned : Outcome (Server r.Store × LoginData) → Type 0
  Turned o =
      (s : Server r.Store) × (info : LoginData) × (o ≡ returns (s, info))
      × (info.result ≢ succ)
      × Reach fl me performance_data s.zones

  Turned-refusal :
      (s : Server r.Store) (info : LoginData) (result : Result)
      → result ≢ succ
      → Reach fl me performance_data s.zones
      → Turned (returns (s, record info { result = result }))
  Turned-refusal s info result n k = (s, record info { result = result }, refl, n, k)

  admitted-Turned :
      (acc : AccountData) (s : Server r.Store) (info : LoginData)
      → Reach fl me performance_data s.zones
      → Turned (
          admitted fl f64 me queue r a texts h
            (discovered fl me performance_data consul)
            rand
            acc
            s
            info)
  unfolding admitted
  admitted-Turned acc s info k =
      let d = discovered fl me performance_data consul in
      let s1 = record s { store = increase_daily_reg_cnt a (pos 1) s.store } in
      let info' = record info { is_pre_reged = true } in
      let s2 = if ltb_ℤ (pos 0) acc.zone_id then record s1 { zones = d 1 s1.zones } else s1 in
      let k2 : Reach fl me performance_data s2.zones =
        if_rule (λ (x : Server r.Store). Reach fl me performance_data x.zones)
          (ltb_ℤ (pos 0) acc.zone_id) (λ _. discovered-Reach fl me performance_data consul 1 k)
          (λ _. k) in
      if_rule Turned (not (check_daily_reg_cnt_limit a s.store))
        (λ _. Turned-refusal s info daily_incr_over (λ e. cc) k)
        λ _.
          if_rule Turned
            (ltb_ℤ (pos 0) acc.zone_id && not (zone_exist_for_online s2.zones acc.zone_id))
            (λ _. Turned-refusal s2 info' zone_error (λ e. cc) k2)
            λ _.
              let p = zone_of fl f64 me queue r a texts h d rand acc s2 in
              let (s4, e, k4) =
                never_assigned fl me performance_data consul a texts (rand 1) p.1 0
                  (is_inner fl f64 me queue r a texts h d rand acc) p.0 (zone_of-Reach acc s2 k2) in
              (
                s4,
                record info' { zone_id = p.1; result = zone_error },
                ground (arith, e),
                (λ q. cc),
                k4,
              )

  Turned-Refused :
      (acc : AccountData) (s : Server r.Store) (o : Outcome (Server r.Store × LoginData))
      → Turned o
      → Refused acc s o
  Turned-Refused acc s o (s', info, e, n, k) = subst (Refused acc s) (sym e) (n, k)

  checked-Refused :
      (acc : AccountData) (s : Server r.Store) (info : LoginData)
      → Reach fl me performance_data s.zones
      → Refused acc s (
          checked fl f64 me queue r a texts h
            (discovered fl me performance_data consul)
            rand
            acc
            s
            info)
  unfolding checked
  checked-Refused acc s info k =
      let Q = Refused acc s in
      if_rule Q (is_empty_str acc.account || is_empty_str acc.password || is_empty_str acc.sign)
        (λ _. ((λ e. cc), k))
        λ _.
          if_rule Q (not (texts.check_sign acc.account acc.sign)) (λ _. ((λ e. cc), k))
            λ _.
              if_rule Q (h.white_list_check && not (a.in_white_list acc.account s.store))
                (λ _. ((λ e. cc), k))
                λ _.
                  outcome_rule Q
                    (check_wait_level f64 r queue (a.clock s.store) acc.account s.store) panics _
                    (λ e. e)
                    λ (store', level, time) e.
                      ite_rule Q (ℤ_discrete level (pos 0))
                        (λ _.
                          Turned-Refused acc s _
                            (admitted-Turned acc (record s { store = store' }) info k))
                        (λ _. ((λ q. cc), k))

  -- An answer to a request: a refusal, or for an account a panic of the waiting queue.
  abbrev pub Answered : Request → Server r.Store → Outcome (Server r.Store × LoginData) → Type 0
  Answered no_body s o = Turned o
  Answered undecodable s o = Turned o
  Answered (account_of acc) s o = Refused acc s o

  -- From any state that the zone manager can be in, whatever Consul answers to the discoveries of
  -- the request, no login request is answered with success: it is refused, and the zone manager
  -- stays in such a state, or the check of the waiting queue panics.
  pub login-Refused :
      (request : Request) (client_ip : String) (g : LoginGm) (s : Server r.Store)
      → Reach fl me performance_data s.zones
      → Answered request s (
          login fl f64 me queue r a texts h
            (discovered fl me performance_data consul)
            rand
            request
            client_ip
            g
            s)
  unfolding login
  login-Refused no_body client_ip g s k = (s, _, refl, (λ e. cc), k)
  login-Refused undecodable client_ip g s k = (s, _, refl, (λ e. cc), k)
  login-Refused (account_of acc) client_ip g s k = checked-Refused acc s _ k
