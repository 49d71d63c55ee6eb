-- ===== src/Gateway/Network.antt =====
-- What the gateway sends, and the third-party code that it stands on: the TCP sessions of
-- `phuhao00/network` and the Redis client, both parameters, with what they promise.
use greatestworks.Base.{
  Bool, List, Option, String, if◌then◌else◌, none, refl, true, ℕ, ◌==◌, ◌∷◌, ◌≡◌,
}
use greatestworks.Base.Int.{ℤ}

-- The message ids that the gateway uses.
pub data MessageId : Type 0 where
  sc_gateway_login sc_gateway_world_list sc_gateway_join_world : MessageId
  cs_gateway_logout sc_reconnection cs_reconnection scene_heartbeat sc_kick : MessageId
  sc_cross_srv_chat_msg client_online_id client_offline_id gateway_forward_packet : MessageId
  register_to_gateway_ret : MessageId
  other_message : ℕ → MessageId

-- The error codes, by the names of the generated constants.
pub data Code : Type 0 where
  success zone_id_error gateway_verify gateway_repeated_verify : Code
  join_world_not_open join_zone_id_error join_world_ing join_world_is_full : Code
  being_re_conn verify_error lose_cur_con : Code

-- A world server as a client sees it.
pub record OnlineEntry : Type 0 where
  pub sid : String
  pub players : ℤ
  pub pro_id : ℕ
  pub name : String
  pub max : ℤ
  pub zone_id : ℤ

-- `gateway.ClientOnlineRet`, with the fields that are passed on to the client in `profile`.
pub record ClientOnlineRet : Type 0 where
  pub userid : ℕ
  pub result : ℕ
  pub reconnection : Bool
  pub players : ℤ
  pub proc_index : ℕ
  pub profile : List String

pub record ClientOfflineRet : Type 0 where
  pub userid : ℕ
  pub result : ℕ
  pub op_type : ℕ
  pub players : ℤ
  pub version : String

pub record ChatMsg : Type 0 where
  pub message_type : ℕ
  pub range_of_srv : ℕ
  pub proc_index : ℕ
  pub content : String

pub data Body : Type 0 where
  login_body : Code → ℕ → String → ℤ → Body
  world_list_body : List OnlineEntry → Body
  -- SCGatewayJoinOnline with an error code alone, and in full
  join_error_body : Code → ℕ → Body
  join_body : ClientOnlineRet → Body
  reconnection_body : Code → Body
  reconnection_ret_body : ℕ → Body
  logout_body kick_body : Body
  heartbeat_body : ℤ → Body
  chat_body : ChatMsg → Body
  -- ClientWorld: user, reconnected, address of the client, address of the gateway, version
  client_online_body : ℕ → Bool → String → String → String → Body
  -- ClientOffline: user and type
  client_offline_body : ℕ → ℕ → Body
  forward_body : ℕ → List ℕ → Body
  -- the answer to RegisterToGateway, with the zone, and to UpdateOnlineInfo
  register_body : ℤ → Body
  update_body : Body

-- A TCP session. `OnClose` is called by the library once a session is closed: here it is an event
-- of its own.
pub record Network : Type 1 where
  pub Tcp : Type 0
  pub verified : Tcp → Bool
  pub verify : Tcp → Tcp
  pub is_closed : Tcp → Bool
  pub close : Tcp → Tcp
  pub async_send : MessageId → Body → Tcp → Tcp × Bool
  pub async_send_last_packet : MessageId → Body → Tcp → Tcp × Bool
  pub async_send_row_msg : List ℕ → Tcp → Tcp × Bool

-- Only `Verify` makes a session verified, and nothing takes it back.
pub record IsNetwork (n : Network) : Type 0 where
  pub verified-verify : (t : n.Tcp) → n.verified (n.verify t) ≡ true
  pub verified-close : (t : n.Tcp) → n.verified (n.close t) ≡ n.verified t
  pub verified-async_send :
      (id : MessageId) (b : Body) (t : n.Tcp) → n.verified (n.async_send id b t).0 ≡ n.verified t
  pub verified-async_send_last_packet :
      (id : MessageId) (b : Body) (t : n.Tcp)
      → n.verified (n.async_send_last_packet id b t).0 ≡ n.verified t
  pub verified-async_send_row_msg :
      (d : List ℕ) (t : n.Tcp) → n.verified (n.async_send_row_msg d t).0 ≡ n.verified t

-- The Redis client: the calls that the gateway makes, by what their keys are made of.
pub record Redis : Type 1 where
  pub Store : Type 0
  -- Get(MakeTokenKey(userid)).Val(), "" where there is none
  pub token : Store → ℕ → String
  -- HGet(MakeAccountKey(userid), "Gateway"), none for an error
  pub account_gateway : Store → ℕ → Option String
  -- HDel(MakeAccountKey(userid), "Gateway", "ZoneId")
  pub forget_gateway : ℕ → Store → Store
  -- SAdd and SRem of a user in MakeGatewayKey(address)
  pub add_user : String → ℕ → Store → Store
  pub remove_user : String → ℕ → Store → Store

-- A network and a Redis in which the laws hold: what was sent is kept, the last message first.
pub data Sent : Type 0 where
  message : MessageId → Body → Sent
  raw : List ℕ → Sent

pub record Wire : Type 0 where
  pub is_verified : Bool
  pub closed : Bool
  pub sent : List Sent

abbrev pub sent_on : Sent → Wire → Wire × Bool
sent_on m t = (record t { sent = m ∷ t.sent }, true)

abbrev pub wires : Network
wires = record {
  Tcp = Wire;
  verified = λ t. t.is_verified;
  verify = λ t. record t { is_verified = true };
  is_closed = λ t. t.closed;
  close = λ t. record t { closed = true };
  async_send = λ id b t. sent_on (message id b) t;
  async_send_last_packet =
      λ id b t. (record t { sent = message id b ∷ t.sent; closed = true }, true);
  async_send_row_msg = λ d t. sent_on (raw d) t;
}

pub wires-IsNetwork : IsNetwork wires
wires-IsNetwork = record {
  verified-verify = λ t. refl;
  verified-close = λ t. refl;
  verified-async_send = λ id b t. refl;
  verified-async_send_last_packet = λ id b t. refl;
  verified-async_send_row_msg = λ d t. refl;
}

-- Users and their gateways: the tokens are the user's number as a text that is fixed here.
pub record Accounts : Type 0 where
  pub tokens : ℕ → String
  pub gateways : ℕ → Option String

abbrev pub accounts : Redis
accounts = record {
  Store = Accounts;
  token = λ s u. s.tokens u;
  account_gateway = λ s u. s.gateways u;
  forget_gateway = λ u s. record s { gateways = λ v. if v == u then none else s.gateways v };
  add_user = λ a u s. s;
  remove_user = λ a u s. s;
}
