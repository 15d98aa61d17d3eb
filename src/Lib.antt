-- ===== src/Lib.antt =====
-- The workflow engine of the assistant (back/go-assistant/cpn): coloured Petri nets whose transitions
-- call tools, language models, shells, child nets and people; the stores that keep what it does
-- (cpn/persist); and the gate that every operation on the host passes (infra/host/gate).
--
-- A net holds typed places and transitions. Its executor runs in rounds: it drains the event buses into
-- observer places, collects the transitions that can fire, consumes one token from each of their input
-- places, lets them fire at the same time behind a circuit breaker and a retry loop, turns their errors
-- into tokens or into the failure of the net, and applies the rules that switch between autonomous and
-- centaurian mode. A net is checked before it runs, and can be mutated while it runs.
--
-- The stores in memory keep sessions with their messages, events in pages, costs, flows and pending
-- requests. The artefact ledger notes each file that a net writes; a set of them can be rolled back into
-- quarantine, restored, and purged. The gate sorts a command into a risk band, looks at the budget of
-- the session, the sandbox and the first-run ledger, and allows, denies, or asks the user, whose answer
-- can add a pattern to the policy.
--
-- Which file models what, by the path in the repository:
--   Base            maps with text keys as association lists, tests, lists, results
--   Errors          back/go-assistant/cpn/errors.go and the errors built with fmt.Errorf
--   Token           the data of cpn/token.go, colors.go, kinds.go, space.go, mode.go, event.go
--   Place           cpn/place.go: Deposit, Consume, Peek, Len, Clear
--   Retry           cpn/retry.go: the breaker (Allow, RecordFailure, RecordSuccess) and doRetry
--   Transition      cpn/transition.go: the record and canFireWith
--   Net             cpn/cpn.go: the state of a net (Net/Record), emit and the publishing helpers
--                   (Net/Events), the two modes (Net/Modes), completion (Net/Marking)
--   Validate        cpn/validate.go
--   Mutate          cpn/cpn_mutate.go
--   Observer        cpn/observer.go
--   SubNet          cpn/subnet.go: what a child net is started with, and what its end leaves behind
--   Session         cpn/session.go: registering, answering and taking back requests for human input
--   Memory          cpn/memory.go: the context of a call of a language model
--   Persist         cpn/persist: the data (Persist/Records), memory.go (Persist/Sessions, Events with
--                   Paging, Costs, Flows, Requests), preview.go (Persist/Preview),
--                   artefacts_memory.go (Persist/Artefacts), rollback.go and purge.go
--                   (Persist/Rollback, over a file system, a ledger and a tool registry as ports)
--   Gate            infra/host/gate: matcher.go (Gate/Matcher), policy.go (Gate/Policy), budget.go
--                   (Gate/Budget), awakening_mode.go with cpn/awakens/introspection.go
--                   (Gate/Introspection), policy_gate.go (Gate/Decisions, Gate/Evaluate, Gate/Audit),
--                   hitl.go and session_router.go (Gate/Approval)
--   Human           cpn/hitl.go: fireHITL, and the rounds of revision (Human/Revision)
--   Schema          cpn/fire_validate.go
--   Group           cpn/group_agent.go, with the nets in a store
--   Executor        cpn/executor.go and cpn/fire_topology_mutate.go: firing a tool (Executor/Tools),
--                   the other kinds (Executor/Dispatch), the parts of a round (Executor/Rounds),
--                   errors and the loop of Run (Executor/Loop)
-- The theorems stand below the part they are about, in Behaviour for Net, in Runs for Executor, and
-- beside the parts of Gate. Scenarios applies them to a concrete net, store, disk or gate.
--
-- Conventions. A method that changes its receiver returns the new one. A method under one mutex is one
-- step. The goroutines of a round run whole, in an order that a parameter gives. Go's maps are walked in
-- the order of the association list, which stands for any order. A pointer that two maps share is
-- written in both (Mutate). Times and durations are natural numbers, and a token buffer is a list. A
-- 64-bit number of Go is a natural number modulo 2 ^ 64 where it is added, with the signed order on its
-- bits (Base/Words); a panic is the absence of a result (Persist/Paging). Floating-point amounts are the
-- elements of an abstract structure (Base/Reals), or, where they are only added up, their bits, with
-- their addition as a parameter of which nothing is assumed (Retry, Human, Schema).
--
-- Fuel. The loop of Run has no bound of its own: it is run on fuel, one unit for each round, and
-- k + 1 units are enough where the context is cancelled at round k. The retry loop recurses on the
-- attempts left, so it needs none.
--
-- The rounds of revision and of correction recurse on what the configuration leaves of them, so they need
-- no fuel.
--
-- Not modelled: the fire functions of language models, shells and synthesis and the start of child
-- nets, which are fields of the environment of the executor, as are those of people and of schemas, of
-- which Human and Schema are instances; the clock, the context and the sleep between attempts; the
-- calls of the models that revise and correct; JSON; metrics and history flushes; the floating-point
-- factor of the backoff; the texts of events. The file system, the tool registry, regular expressions,
-- the first-run ledger, the search for sandbox runtimes and the bus of the gate's cards are
-- parameters. The YAML of a policy, the workers that write the audit's queue or drop from it, and the
-- rest of the repository (HTTP, SQL stores, model providers, tools, the front end) are left out:
-- transport, storage and outside services.
pub mod Base
pub mod Errors
pub mod Token
pub mod Place
pub mod Retry
pub mod Transition
pub mod Net
pub mod Behaviour
pub mod Validate
pub mod Mutate
pub mod Executor
pub mod Observer
pub mod SubNet
pub mod Session
pub mod Memory
pub mod Persist
pub mod Gate
pub mod Group
pub mod Human
pub mod Schema
pub mod Runs
mod Scenarios
