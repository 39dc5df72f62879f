-- ===== src/Lib.antt =====
-- A model of parts of atlas-game-layout, a layout for game servers: the frame downlink of a
-- lockstep battle, the actor that runs the battle, the connections of a battle node, the match
-- rules, the gateway sessions, the owner guard and the resolver of the edge, the orchestrator of a
-- battle's migration, the placement of matches, and the comparison of versions.
--
-- A match rule forms a battle out of tickets. A battle node runs it, and on every tick publishes a
-- frame to the players' direct connections: whole, or as the sparse difference to the frame
-- before. The client merges the differences and asks for a whole frame when it has lost step.
-- Players reach the other services over a gateway, of which several share one route table, so that
-- a login on one takes over from the others.
--
-- Frame        the messages of the downlink, of api/battle/v1/battle_service.pb.go and
--              protocol/go/api/lockstep/lockstep.pb.go
-- Downlink     the client, lib/downlink: Merge of merge.go is `merge`, the Decoder of session.go
--              is a record with `apply` for its Apply. Merge: what a merge holds per player.
-- Delta        the server's diffFrames, services/battle/internal/stream/delta.go. RoundTrip: a
--              difference and its merge. Sync and Receive: a client over a channel that loses,
--              repeats and reorders.
-- EndedBook    services/battle/internal/stream/ended.go, the results that are kept and sent again
-- Registry     services/battle/internal/stream/registry.go, conn.go and the rest of delta.go.
--              State: the registry as a record; Conns: connections come and go; Plan: who is sent
--              what, with the payload versions; Publish: the tick.
-- Ticket, Matching   services/matcher/internal/biz/matchfunc: FlexTeams is flex_teams.go,
--              LevelClose is level_close.go
-- Session      services/gateway/internal/session: the Manager, and in Expiry its SweepOnce
-- Guard        services/edge/internal/guard/guard.go, which tears down the streams of a battle
--              whose owner changes. Owners: which streams; Watches: the directory watches.
-- Resolver     services/edge/internal/resolver: watchcache.go, resolver.go and the Instance of
--              ports.go. State, OwnerCache and FrameCache: the sections under the lock; Resolve:
--              Resolve; Runs: the sections in any order. Facts, Watches, Closed, Picks and
--              Backends are about them.
-- Migration    services/battle/internal/migrate: Picker is plan.go, Moves is the Ops of migrate.go
--              with quarantine.go. Least, Flow and Handover are about them; Handover is with the
--              actors of Battle on both sides.
-- Placement    services/matcher/internal/placement: Candidates is query and frames.go, with the
--              filter of target.go; Plans is the Planner. Wait, Turns, Faces, Choice and Targets are
--              about them.
-- Version      lib/version/compare.go. Laws: that it is an order; Texts: what parse reads.
-- Simulator    services/battle/internal/biz/simulator: simulator.go, and in Hash its hash.go
-- Battle       services/battle/internal/actor: the BattleActor as a record, with its seat window and
--              settlement. Offline is battle_offline.go; Tickets is battle_ticket.go and
--              battle_admit.go; Frames is battle_frame.go; Sync and SyncReply are battle_session.go
--              and battle_syncreply.go; Migrate is battle_migrate.go and migrate_inbox.go; Messages:
--              runs of all handlers. Quiet, Notices, LastStanding, Roster, Admit, Recovery and Timers are about
--              them.
-- Gate         services/battle/internal/ledger/gate.go and gate_cache.go, with the answers of the
--              shared ledger as arguments. Refusals: which battles are refused.
-- Tests        concrete runs
--
-- A method of a pointer type takes the state and returns the new one with its result; a lock holds
-- for a whole method, and where a method unlocks in between, the steps of a sequence are such
-- methods as wholes; only the guard's registration and the resolver's calls are split at
-- their locks. A Go map is an
-- association list without doubles; where a loop ranges over a map, the list takes one order. Time
-- is a number of nanoseconds that is an argument. A `uint64` keeps its wrap-around at 2^64, an
-- `int32` and an `int64` theirs in the match rules and in the simulator. A string is ordered by its
-- code points, which is the order of its bytes in UTF-8.
--
-- The battle's handlers list what they send and arm; a timer that fired may be delivered at any
-- later time, so runs take the messages in any order.
--
-- Parameters are what lies outside: the lockstep session (its replies), the ticket encoder, CRC-32,
-- JSON, the session storage (`Storage`), the sizes of a reply, the protobuf codecs (`Codec`,
-- `Wire`), timestamps (`Timestamps`), the frame engine (`Engine`, the answers of a push), the route
-- table (`Store`, of which `IsWritten` and `RemovesOne` say what Redis does), and the tickets of the
-- match-making package, of which `Ticket` holds what the rules read.
--
-- The round of FlexTeams is a loop on fuel: one more than the number of tickets, of which
-- every match takes out at least two. The binary search of SyncReply has as much fuel as there are
-- groups, of which every turn leaves fewer to search. The wait of Placement is on fuel: as many turns
-- as the pause fits into the longest wait, and one more.
--
-- Not modelled: metrics, logs, hooks and tickers of these files; the Redis store; the gateway's
-- and edge's servers and the resolver's hub of watches; the start of a battle's session and the
-- store of the ledger; the actors of players; the matcher's handler; generated code and the packages under
-- pkg.
mod Common
pub mod Frame
pub mod Downlink
pub mod Delta
pub mod EndedBook
pub mod Registry
pub mod Ticket
pub mod Matching
pub mod Session
pub mod Guard
pub mod Gate
pub mod Simulator
pub mod Battle
pub mod Resolver
pub mod Migration
pub mod Placement
pub mod Version
mod Tests
