-- ===== src/Lib.antt =====
-- greatestworks: the servers of an online game, written in Go. The login server picks a zone, a
-- gateway and a world for a player; a gateway passes messages between the players' connections and
-- the worlds.
--
-- Base holds what the models share: Go's integers with their wrap-around (Base/Int), `sync.Map` as
-- a list of entries in the order of `Range` (Base/SyncMap), `float32` as a parameter
-- (Base/Float32), lists and Boolean tests.
--
-- Login models server/login. Login/Gateway is gateway.go, Login/World is world.go, Login/Zone is
-- zone.go: its state and the discovery from Consul in Zone/Manager, the load status of a world in
-- Zone/Status, the recommendations in Zone/Recommend and the queries in Zone/Query. The zone
-- manager holds a gateway list and a world list for each zone; discovery clears and fills them from
-- the entries that Consul answers, and the login handler reads them. Login/Queue is queue.go: the
-- queue of accounts that wait, and the seats of each time slice, both in Redis. Login/Handler has
-- the state of a request, the daily limit and the white list, of ctrl.go and gm.go; Handler/Assign
-- is recommendGatewayForPlayer, and Handler/Login the handler Login of handler.go, which calls the
-- queue, the daily limit and the zone manager in turn.
--
-- Gateway models server/gateway. Gateway/State holds the state of client/session.go,
-- client/manager.go, world/session.go and world/manager.go. Sessions are pointers that the maps
-- share, so the maps hold references and the state holds the session of each. Gateway/Clients and
-- Gateway/Messages are the client manager and what it calls on a session, Gateway/Handlers the
-- connection, the login and the reconnection, Gateway/Requests the other requests and the limit on
-- them, Gateway/Worlds the worlds' side. Gateway/Network holds the messages, and two parameters:
-- the TCP sessions of a third-party library, and the Redis client. Gateway/Bound/Runs has all
-- events as one step relation. Gateway/Server is the start of a gateway, of server.go and
-- service_impl.go: the records that an earlier run left in Redis, the timers, and the id that is
-- made from its address. The other files of Gateway are named for what they prove.
--
-- GameMaster models server/gateway/gm/gm.go, which opens and closes the door that Gateway/Requests
-- reads: the orders in GameMaster, the count-downs and the timer in GameMaster/CountDown, one tick
-- in each state in GameMaster/Door, what a run of ticks comes to in GameMaster/Schedule, and what
-- another order does to it in GameMaster/Order.
--
-- World models parts of server/world: World/CloseList is server/system_close_list.go, World/Chat
-- the two queues of chat, zone_queue.go and world_queue.go, World/SystemMsg is chat/system_msg.go,
-- and World/Mail is mail/mail.go, which asks the container of Mail.
--
-- Mail is aop/container/mail.go with the data of aop/mongo/mail.go: Mail the data and the lists,
-- Mail/Boxes the calls on the three boxes, Mail/Saved Add and Del with what they write to the
-- database; Mail/Kept is about the boxes, Mail/RoundTrip about both. Friend is
-- internal/communicate/friend, with the list of friends after any handlers in Friend/Lists; Family
-- is internal/communicate/family, with who may remove members in Family/Leaders. Rank is the cache
-- of a ranking, internal/gameplay/rank/cache.go; Rank/Refresh is about setCacheData, Rank/Loop
-- about the loop of refresh, Rank/Lookup about getRank after it. Card is internal/purchase/card:
-- the cards of a player in Card, the table of handlers in Card/Handlers, what the methods do from
-- day to day in Card/Days, and what Execute leaves in Card/Forgets. Aop has the small libraries:
-- Aop/Sample is aop/algorithm/sample.go, Aop/Bitmap is aop/bitmap/simple.go, and Aop/Time is
-- aop/fn/time.go, with the calendar that it reads from Go's package time; Card reads its days. The
-- local zone is an offset that does not change. Aop/ModuleRouter is aop/module_router.
--
-- Methods are functions of the state before to the state after and the result; the time, random
-- numbers, the configuration and what Consul answers are arguments. A write through a pointer into
-- a map is a store of the changed value. A panic is an outcome. A message that does not decode
-- changes nothing, and handlers take the decoded message.
--
-- The loops of the source that are modelled are ranges over maps or slices, or count up to a known
-- number, so they are structural recursion; the loop of refresh has fuel, a round for each 500
-- slots and one more, which Rank/Loop shows to be enough. Base/Text has texts as lists of code
-- points, and what the source uses of strings and strconv: ToLower is exact on ASCII. JSON is
-- decoded before, and the texts that Sprintf makes are kept as what they are made from. Not
-- modelled: logging, HTTP, the tick loops, and the concurrency of handlers, each of which is one
-- step.
mod Base
pub mod Login
pub mod Gateway
pub mod Rank
pub mod GameMaster
pub mod World
pub mod Aop
pub mod Mail
pub mod Card
pub mod Friend
pub mod Family
