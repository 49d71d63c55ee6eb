-- ===== src/Gateway/Server/Records.antt =====
-- What clearConnRecords leaves in Redis: server/gateway/server/server.go.
use greatestworks.Base.{
  Bool, List, Option-cases, String, String_discrete, [], ap, arith, false, if_neg, if_pos,
  if◌then◌else◌, inl, inr, ite, ite_rule, none, refl, some, sym, true, ℕ, ℕ_discrete, ◌==◌, ◌||◌,
  ◌∙◌, ◌∷◌, ◌≡◌,
}
use greatestworks.Base.Text.{Text, parse_uint}
use greatestworks.Gateway.Server.{ServerRedis, clear_conn_records, clear_record, clear_records}

-- What Redis promises.
pub record IsServerRedis (r : ServerRedis) : Type 0 where
  pub account_gateway-forget :
      (u v : ℕ) (s : r.Store)
      → r.account_gateway v (r.forget_gateway u s) ≡ (if u == v then "" else r.account_gateway v s)
  pub account_gateway-del :
      (a : String) (v : ℕ) (s : r.Store)
      → r.account_gateway v (r.del_members a s) ≡ r.account_gateway v s
  pub members-del : (a : String) (s : r.Store) → r.members a (r.del_members a s) ≡ []

-- Whether a user is one of the members of the set.
unfoldable pub is_listed : ℕ → List Text → Bool
is_listed u [] = false
is_listed u (t ∷ ts) = elim (parse_uint 64 t) [
  | none ↦ is_listed u ts
  | some v ↦ (v == u) || is_listed u ts
]

-- What is left of a gateway, once the users that it is for are listed or not.
abbrev pub left_of : String → Bool → String → String
left_of tcp_addr listed gateway =
    if listed then ite (String_discrete gateway tcp_addr) "" gateway else gateway

left_of-left_of :
    (tcp_addr : String) (a b : Bool) (g : String)
    → ¬ (tcp_addr ≡ "")
    → left_of tcp_addr b (left_of tcp_addr a g) ≡ left_of tcp_addr (a || b) g
left_of-left_of tcp_addr true true g h =
    ite_rule (λ x. ite (String_discrete x tcp_addr) "" x ≡ x) (String_discrete g tcp_addr)
      (λ e. if_neg (String_discrete "" tcp_addr) (λ n. h (sym n)) "" "")
      (λ n. if_neg (String_discrete g tcp_addr) n "" g)
left_of-left_of tcp_addr true false g h = refl
left_of-left_of tcp_addr false b g h = refl

is_listed-append :
    (u : ℕ) (t : Text) (ts : List Text)
    → is_listed u (t ∷ ts) ≡ is_listed u (t ∷ []) || is_listed u ts
unfolding is_listed
is_listed-append u t ts = ground arith

module _ (r : ServerRedis) (law : IsServerRedis r) where
  same_user :
      (tcp_addr : String) (u : ℕ) (s : r.Store)
      → r.account_gateway u
          (ite (String_discrete (r.account_gateway u s) tcp_addr) (r.forget_gateway u s) s)
        ≡ left_of tcp_addr true (r.account_gateway u s)
  same_user tcp_addr u s =
      let g = r.account_gateway u s in
      ite_rule (λ x. r.account_gateway u x ≡ left_of tcp_addr true g) (String_discrete g tcp_addr)
        (λ y.
          ground (arith, law.account_gateway-forget u u s)
          ∙ sym (if_pos (String_discrete g tcp_addr) y "" g))
        (λ n. sym (if_neg (String_discrete g tcp_addr) n "" g))

  other_user :
      (tcp_addr : String) (v u : ℕ) (s : r.Store)
      → ¬ (v ≡ u)
      → r.account_gateway u
          (ite (String_discrete (r.account_gateway v s) tcp_addr) (r.forget_gateway v s) s)
        ≡ r.account_gateway u s
  other_user tcp_addr v u s n =
      ite_rule (λ x. r.account_gateway u x ≡ r.account_gateway u s)
        (String_discrete (r.account_gateway v s) tcp_addr)
        (λ y. ground (arith, n, law.account_gateway-forget v u s)) (λ y. refl)

  after_record :
      (tcp_addr : String) (t : Text) (u : ℕ) (s : r.Store)
      → r.account_gateway u (clear_record r tcp_addr t s)
        ≡ left_of tcp_addr (is_listed u (t ∷ [])) (r.account_gateway u s)
  unfolding clear_record is_listed
  after_record tcp_addr t u s = elim (Option-cases (parse_uint 64 t)) [
    | inl e ↦ ground (arith, e)
    | inr (v, e) ↦ elim (ℕ_discrete v u) [
      | yes same ↦ ground (arith, e, same, same_user tcp_addr u s)
      | no other ↦ ground (arith, e, other, other_user tcp_addr v u s other)
    ]
  ]

  after_records :
      (tcp_addr : String) (ts : List Text) (u : ℕ) (s : r.Store)
      → ¬ (tcp_addr ≡ "")
      → r.account_gateway u (clear_records r tcp_addr ts s)
        ≡ left_of tcp_addr (is_listed u ts) (r.account_gateway u s)
  unfolding clear_records is_listed
  after_records tcp_addr [] u s h = refl
  after_records tcp_addr (t ∷ ts) u s h =
      let one = after_record tcp_addr t u s in
      let rest = after_records tcp_addr ts u (clear_record r tcp_addr t s) h in
      let both =
        left_of-left_of tcp_addr (is_listed u (t ∷ [])) (is_listed u ts) (r.account_gateway u s)
          h in
      rest
      ∙ ap (left_of tcp_addr (is_listed u ts)) one
      ∙ both
      ∙ ap (λ b. left_of tcp_addr b (r.account_gateway u s)) (sym (is_listed-append u t ts))

  -- When a gateway starts, it is forgotten as the gateway of every user that the set of its
  -- connections lists; what Redis has of a user whose gateway is another, or who is not listed,
  -- stays, and the set is empty afterwards.
  pub clear_conn_records_lem :
      (tcp_addr : String) (u : ℕ) (s : r.Store)
      → ¬ (tcp_addr ≡ "")
      → (r.account_gateway u (clear_conn_records r tcp_addr s)
          ≡ left_of tcp_addr (is_listed u (r.members tcp_addr s)) (r.account_gateway u s))
        × (r.members tcp_addr (clear_conn_records r tcp_addr s) ≡ [])
  unfolding clear_conn_records
  clear_conn_records_lem tcp_addr u s h = (
    law.account_gateway-del tcp_addr u (clear_records r tcp_addr (r.members tcp_addr s) s)
        ∙ after_records tcp_addr (r.members tcp_addr s) u s h,
    law.members-del tcp_addr (clear_records r tcp_addr (r.members tcp_addr s) s),
  )
