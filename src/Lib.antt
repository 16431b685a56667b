-- ===== src/Lib.antt =====
-- Directive Proxy: a reverse proxy that is driven by signed directives, with automatic recovery.
--
-- internal/core/bodystore/controller.go (BodyStore.Admission): the memory budget of all request
-- bodies and its queue. Each block under the mutex is one function: admit is the part of admit
-- that does not wait, admit_ready and admit_done are the two branches of its select,
-- dispatch_loop is the loop of dispatchLocked. System runs any sequence of arrivals, wake-ups,
-- cancellations and closings.
--
-- internal/core/bodystore/store.go (BodyStore.Store): the chunks of one body with their
-- reference count (Store.antt), the slice that a read copies (Chunks.antt), a reader
-- (Reader.antt) and the goroutine that reads the source (Ingest.antt). Body runs any
-- interleaving of the goroutine's turns with the owner and the readers. The store closes its
-- reservation on the admission's controller, which is passed beside it.
--
-- internal/core/exchange (Exchange): one exchange and its round trips. Exchange.antt has the
-- state and what is told to modules and metrics, as a log; Exchange/Lifecycle.antt the methods
-- of program.go and response.go that tell it; Exchange/RoundTrips.antt the phases of
-- exchange.go, with the retry and the completion. RoundTrips/System runs any sequence of
-- methods; each method is one step. Round trips are their numbers.
--
-- internal/core/exchange/recovery.go (Exchange.RecoveryCycle): a recovery cycle beside its
-- exchange, with recoverRoundTrip of internal/core/proxy/recovery_transport.go, which decides
-- and applies. The controller's answer is an argument.
--
-- internal/core/sse/parser.go (Sse): the parser of server-sent events on bytes. Sse.antt has the
-- lines and fields, Sse/Lines.antt the loop of Feed, and Close. The calls of onEvent and
-- onComment are lists.
--
-- internal/core/proxy/recovery_transport.go and internal/core/recovery/types.go (Transport): the
-- limits of a policy and the unexpected statuses (Transport.antt), the response that a
-- controller sees (Transport/Capture.antt) and the request body that modules change
-- (Transport/MutatingBody.antt). A body returns the error that it ends with in a read of its
-- own, after its bytes, except for the source of a mutating body, whose reads may give both. The
-- loop of RoundTrip, which calls them, is not modelled.
--
-- internal/core/program and internal/core/module/catalog.go (Program): the modules of a
-- directive. Program.antt has the policies and the binder, Program/Registry.antt the catalog and
-- the compilation, Program/Lane.antt the ordered lane, whose goroutine is two steps,
-- Program/Scope.antt the state with its log and the call of a handler, Program/Dispatch.antt the
-- events and mutations, Program/Sets.antt the set of scopes and their end, Program/Opening.antt
-- openScope. A value that is handed to a handler is not modelled, nor its copy. What the lanes
-- do while a caller waits is an argument (Gap). In these files a call of a module is one step,
-- and no other goroutine acts on the module within it; Program/Calls.antt has the steps of call
-- and of finish, with any interleaving of goroutines, of which Program/Calls/Alone.antt shows
-- the one step to be the run that nothing interrupts.
--
-- internal/core/event/dispatcher.go (Events): the queues of records and their workers. Each
-- atomic operation of enqueue, reserve and run is one step; Events/Runs.antt runs any sequence
-- of steps of any calls and workers.
--
-- internal/core/httpheader (Headers): the headers of a request that goes to the upstream.
-- Headers.antt has the map and what is stripped, Headers/Apply.antt the operations of a plan and
-- ApplyRequest. Which names a glob matches is an argument of any behaviour, since no theorem
-- depends on it.
--
-- pkg/directive/validate.go (Payload): what NormalizePayload checks; Payload.antt has the
-- metadata and the statuses that start a recovery, Payload/Modules.antt the modules, of which
-- jsontext's tests of a configuration are arguments.
--
-- pkg/directive/validate.go, internal/core/directive/assemble.go and
-- internal/core/proxy/response_rewrite.go (Policy): the header policy of a directive, from
-- normalizeHeaderPolicy to the operations of the plan. The tests that both packages have, of
-- names, values and protected headers, are two definitions each, and Policy/SameTests.antt shows
-- that they agree. Whether path.Match takes a glob is an argument of any behaviour.
--
-- internal/core/metadata/metadata.go (Metadata): Compile over the entries of a map in the order
-- in which Go gives them.
--
-- An int64 is a bit pattern below 2 ^ 64, and its sums wrap (Prelude/Words.antt). A duration is
-- an int64 of nanoseconds. Pointers are numbers or positions; a nil receiver, which the server
-- never makes, is left out. The digest of a body is a parameter. What a clock, a context or a
-- source answers is an argument of the step that reads it, so that a theorem over all sequences
-- of steps covers all answers and interleavings. Loops are over lists or are one step of a
-- sequence, but for the loop of Feed of the parser, whose fuel is one more than the bytes that
-- are pending: each turn takes a byte.
mod Prelude
pub mod BodyStore
pub mod Exchange
pub mod Sse
pub mod Transport
pub mod Metadata
pub mod Payload
pub mod Policy
pub mod Program
pub mod Events
pub mod Headers
