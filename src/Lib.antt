-- ===== src/Lib.antt =====
-- AI Employee OS, a Python backend that takes tasks in natural language, plans them, runs
-- them by skills and keeps what it has learnt. This library models the parts of backend/app
-- that carry state machines and guards of their own: the background task queue, the security
-- layer, the planner with its sequential executor, the orchestrator that runs a plan as a
-- graph, the workspaces of clients, the dialogue of the Telegram bot, the revision of
-- documents, the builder of the agent's context, the registry of skills and the traces of
-- executions.
--
-- A request passes the security middleware (rate limit, API key, audit). A plan is parsed
-- from a model's answer (planning/parsers), then run by TaskExecutor step by step, or made an
-- execution graph and run by Orchestrator, whose executions the API pauses, resumes and
-- cancels. Both call skills that a registry gives by capability. Long work goes to the task
-- queue, whose scheduler hands tasks to workers. A workspace holds what an employee has open
-- for a client. A message or a press of a button in Telegram goes through the dispatcher to
-- the product flow, which asks a question, runs the agent, brings the user's feedback to the
-- revision of the last document, or cancels an execution of the orchestrator. The agent's run
-- starts with the context builder, which merges what the providers know, finds skills in the
-- registry and leaves a trace. The orchestrator uses the plan of the planner, its retry
-- policy and its result type; the flow uses the orchestrator's store of executions.
--
-- Common: numbers' tests, equality as an instance (Eq), lists, Python's dict (Dict), sorted,
--   JSON-like values, texts by their code points (Text: strip, lower case, search). Dict
--   keeps the order of insertion; a UUID is its text.
-- TaskQueue: backend/app/task_queue. Models (models.py, and the state and exceptions of a
--   coroutine), RetryPolicy (policies/retry_policy.py), Repository
--   (repositories/task_queue_repository.py), Manager (manager.py), Worker (worker.py),
--   Scheduler (scheduler.py); Invariant, Order, Processing, Budget, History and Requeues are
--   about them.
-- Security: backend/app/security. Models, Permissions (permissions.py,
--   policies/access_policy.py), RateLimit (rate_limit.py), Provider
--   (providers/in_memory_provider.py), Manager (manager.py), Middleware (middleware.py);
--   Access, Audit, Keys and the modules below RateLimit are about them.
-- Planning: backend/app/planning. Models (models.py), Parser (parsers/plan_parser.py),
--   Executor (executor.py, policies/execution_policy.py), Ordering (the loop of _order_steps,
--   which orchestration/execution_graph.py has as well); Retry, Outcome and the modules below
--   Ordering are about them.
-- Orchestration: backend/app/orchestration. Models, Graph (execution_graph.py), Resolver
--   (dependency_resolver.py), Scheduler, StateManager, Policy (policies/execution_policy.py),
--   Progress (progress_tracker.py), Validator, Payload (the payload of a skill in
--   orchestrator.py), Controls (store.py and the pause_, resume_ and cancel_execution of
--   orchestrator.py), NodeRuns and Orchestrator (_run_node and execute of orchestrator.py);
--   Safety, Orchestrator.Safety and Orchestrator.Paused are about them.
-- Workspace: backend/app/workspace. Models (models.py), Repository
--   (InMemoryWorkspaceRepository), Manager (manager.py, policies/workspace_policy.py);
--   Invariant, Preservation, Calls and Reopening are about them.
-- Telegram: backend/app/adapters/telegram. Models (models.py, the state of
--   conversation_store.py), Store (conversation_store.py), Mapper (mapper.py, keyboard.py),
--   Presenter (presenter.py), Progress (progress.py), Clarification (clarification.py,
--   revision.py, and agents/decision/models.py with agents/intent/policy.py), Collaborators
--   (what flow.py calls), Execution, Delivery, Dialogue and Flow (flow.py: up to a run's end,
--   what it delivers, the handlers without a run, handle_message and handle_callback),
--   Dispatcher (dispatcher.py); Agent, Promises, Rest and the modules below Progress, Flow
--   and Dispatcher are about them.
-- Revision: backend/app/revision. Models (models.py, policies/revision_policy.py), Parser
--   (parsers/feedback_parser.py), Manager (manager.py), Node (nodes/revision_node.py,
--   skills/builtin/revision_skill.py and adapters/telegram/continuation.py); Node.Limit is
--   about them.
-- Context: backend/app/context. Priority (models.py, priority.py), Builder (builder.py);
--   Priority.Keys and the modules below Builder are about them.
-- Skills: backend/app/skills. Registry (registry.py); Sound and Search are about it.
-- Observability: backend/app/observability. Models (models.py), Provider
--   (providers/in_memory_provider.py, policies/retention_policy.py), Tracer (tracer.py); the
--   modules below Provider and Tracer are about them.
--
-- Times are natural numbers, of microseconds in the queue. An exception is a value that
-- carries its text, or none where only the raising matters. A coroutine's await is atomic,
-- except where another coroutine's work during it is part of a statement: then it is a
-- parameter. The nodes that asyncio.gather starts run one after another, and the API's calls
-- during an await come at its end. Objects that the source changes in place are replaced in
-- the container that holds them, by an id that no other of them bears.
--
-- The loops that order steps run on the number of steps as fuel, since each round but the
-- last places one. dispatch_batch runs on its limit. The loop of Orchestrator.execute takes
-- its fuel as an argument and says when it is out of it. The depth of the search for a cycle
-- is limited to one more than the number of nodes, since each level adds one to those
-- visited.
--
-- A handler of the Telegram flow is atomic: no other update comes between its awaits. A
-- number that Telegram makes up is its text, as JSON keeps numbers. A call of Telegram, the
-- collecting of artifacts and a download return or raise an exception; the resolving of a
-- session returns. The lower case of a letter is that of the Latin and Russian letters, which
-- all searched words consist of.
--
-- Parameters: the agent's runtime, the executive agent, the resolver of business clients, the
-- sessions and the artifacts that the Telegram flow calls, the providers of the context, the
-- revision agent, the rendering of a document and the quality gate, the text that Python
-- writes for a list or a dict and for a score, the handlers, the skills and the worlds they
-- act on, the hash of an API key, fresh ids and tokens, the redaction of audit metadata. Not
-- modelled: logging, metrics and timestamps that nothing reads, the rounding of the progress,
-- the database, the HTTP framework, the language models and all that PROJECT.json lists as
-- left out.
pub mod Common
pub mod Context
pub mod Observability
pub mod Orchestration
pub mod Planning
pub mod Revision
pub mod Security
pub mod Skills
pub mod TaskQueue
pub mod Telegram
pub mod Workspace
