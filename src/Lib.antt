-- ===== src/Lib.antt =====
-- AirGate SDK: the verdicts of a plugin, their way over the plugin protocol, the streaming call
-- between Core and a plugin process, and the account scheduling of the development server.
--
-- A plugin forwards a request to an upstream account and gives a verdict (sdkgo/outcome.go). It runs
-- in a process of its own: Core's GatewayGRPCClient calls its GatewayGRPCServer, which hands the
-- plugin a streamWriter for the response. The writer cuts what the plugin writes into chunks of the
-- gRPC stream; the last chunk carries the verdict. The development server has no Core: its proxy asks
-- a scheduler for an account of its account store, calls the plugin and tries other accounts.
--
-- Which file models what (paths from the repository's root):
--   Outcome: sdkgo/outcome.go and the record of sdkgo/billing.go. Outcome/Verdict is about its
--     predicates.
--   Wire: the messages of protocol/proto/plugin.pb.go (Wire/Proto) and the conversions of
--     runtimego/grpc/gateway_server.go: httpHeadersToProto and protoHeadersToHTTP (Headers),
--     outcomeKindToProto and outcomeKindFromProto (Kinds), usageToProto and usageFromProto
--     (Billing), upstreamToProto, finalErrorDiagnosticToProto and their inverses (Diagnostics),
--     outcomeToProto and outcomeFromProto (Verdicts).
--   Stream: streamWriter of gateway_server.go. A method is a function from the writer's state to the
--     next one and its result; the gRPC stream is a parameter (Transport in Stream/Sending) and the
--     chunks that were handed to Send are part of the state. Stream/Pieces, Loops, Phases,
--     Ordinary, Completing and Writes follow a write; Stream/Open is about a stream that takes every
--     chunk.
--   Gateway: ForwardStream of gateway_server.go with checkOutcomeMessage of response_limits.go
--     (Server), and forwardStream of gateway_client.go (Client). A plugin's run is the list of its
--     calls on the writer, its verdict and its error.
--     Gateway/Unary: bufferWriter and Forward of gateway_server.go, for calls without streaming
--     (Filled, Buffered and Answers are about its answer).
--   Dispatch: sdkgo/dispatch.go and its conversions in runtimego/grpc/common.go.
--   Trace: the collector of sdkgo/requesttrace/trace.go. Trace/Retention is about the requests that it keeps,
--     Bodies about a body's buffer, Budget and Finish about the diagnostic.
--   Observer: eventObserver of sdkgo/requesttrace/http.go, which cuts a response into server-sent
--     events. Observer/Rounds is about its loop, Bounds and Calls about its limits, Bytewise and Chunks about
--     the pieces it is given, Encoded, Lines and Observed about streams of events.
--   Plans: NormalizeAccountPlans of sdkgo/account_plan.go and the conversions of
--     runtimego/grpc/account_plan.go.
--   Info: PluginInfo of sdkgo/plugin.go, its way through GetInfo of runtimego/grpc/plugin_server.go and
--     InfoContext of common.go (Conversions), and the caches of gateway_client.go (Caches, Fresh); PluginSchema of
--     sdkgo/schema.go (Schemas) and its way (Discovery, Discovered).
--   Runtime: RuntimeStateClient of sdkgo/runtime_state.go, the Host as a parameter. Runtime/Attempts
--     and Tries follow the loop of Update, Atomic and Progress its use among others.
--   Extension: runtimego/grpc/extension_router.go (Router) and extension_server.go: streamResponseWriter
--     (Writer), HandleRequest and HandleStreamRequest (Requests), background and other tasks (Tasks).
--     Router/Longest, Order and Registered are about the lookup of a route.
--   Dev: devkit/devserver/accounts.go (Accounts), scheduler.go (Scheduler) and proxy.go (Proxy), and the
--     HTTP handlers of the first two (Api).
--   Prelude: lists and integers over the native numbers, Boolean tests. Tests: concrete values.
--
-- Bounds: status codes on the wire are int32, durations are int64 milliseconds, ids are int64 and the
-- counter of the scheduler is a uint64; each conversion has its wrap-around written out. Other `int`
-- values are unbounded integers. The two loops of streamWriter.Write recur on fuel, the number of
-- bytes to send; each round sends at least one byte, so the fuel is enough;
-- so does the loop of eventObserver.write, each of whose rounds takes at least one byte. Update recurs
-- on the sixteen attempts, the failover loop on the attempts that are left.
--
-- Not modelled: protobuf, gRPC, HTTP and JSON themselves, logging, the traced transports, the WebSocket
-- bridge, middleware and event plugins, calls that only pass a message on, and the start-up code. Locks make each method of
-- the scheduler and the account store one step, so a history is a sequence of calls. The caches of the
-- gateway client are followed call by call too, though there calls can overlap during an RPC.
pub mod Prelude
pub mod Outcome
pub mod Wire
pub mod Stream
pub mod Gateway
pub mod Dev
pub mod Dispatch
pub mod Extension
pub mod Info
pub mod Observer
pub mod Plans
pub mod Runtime
pub mod Trace
pub mod Tests
