-- ===== src/Lib.antt =====
-- Verification library of cue-api, the backend of a calendar with an assistant that edits it.
--
-- The program takes a user's messages from a vendor, collapses those of a short window into one
-- turn, runs the turn under a lock of the user, and in the turn lets a model call tools in a bounded
-- loop. Recurring tasks are stored as a rule and expanded into occurrences when they are read. The
-- library models these parts, each in a tree of modules, and passes the names that they share on
-- from Common.
--
-- Recurrence: src/modules/recurrence-rule/recurrence-rule.service.ts, with recurrence.types.ts and
-- the entities that it reads.
--   Recurrence/Types         RecurrenceConfig, the entities' fields, Occurrence
--   Recurrence/Luxon         the calendar, a record of operations with the laws of luxon in use
--   Recurrence/Selectors     the private selectors of dates in a month and a year
--   Recurrence/Candidates    candidatesForPeriod and the limiting filters
--   Recurrence/Expand        stepPeriod, untilBoundaryMillis, expandOccurrences, previewSeriesOccurrences
--   Recurrence/Uniform       a calendar to instantiate Luxon
-- An instant is its epoch milliseconds, shifted by 8.64e15 so that it is a natural number. The loop
-- of expandOccurrences has the source's own bounds, 64000 periods and 1000 occurrences, which are
-- its fuel, so that it needs no other. Time zones and the arithmetic of dates are luxon's, a
-- parameter.
--
-- Orchestration: src/modules/assistant/orchestration.
--   Orchestration/Types      the types of ai.types.ts and assistant.types.ts that the loop uses
--   Orchestration/Terminal   terminal-classifier.ts, write-ledger.ts, correction-driver.ts
--   Orchestration/Calls      the loop over the calls of a round in tool-loop.service.ts
--   Orchestration/ToolLoop   the loop over the round trips, ToolLoopService.run
-- A state is passed on explicitly: the local variables of `run`, and a world that the model, the
-- context build, the dispatcher and the recap change, which are parameters whose none is a throw.
-- The fuel of the loop is `max_tool_roundtrips`, its bound in the source. The tests of the two
-- regular expressions are parameters too, since JavaScript's matching is not modelled. What is
-- streamed to the user while the model answers, and log lines, are left out.
--
-- Session: src/modules/assistant/session and src/modules/assistant/reply.
--   Session/Redis            the Redis commands in use, with laws; a table and a queue to instantiate
--   Session/UserLock         user-lock.store.ts, and its key in src/modules/redis/redis.constants.ts
--   Session/MessageBuffer    message-buffer.store.ts
--   Session/Debounce         debounce-coordinator.service.ts, over the two stores
--   Session/PendingQuestions pending-interaction.store.ts, with claimAwaiting of
--                            src/modules/database/services/pending-question-database.service.ts
--   Session/Resume           appendSyntheticAnswer of turn-runner.service.ts
--   Session/Keyboard         src/modules/assistant/reply/reply-keyboard.layout.ts
--   Session/Ingress          src/modules/assistant/ingress/inbound-router.ts
--   Session/DraftThrottle    draft-throttle.ts
-- The debounce coordinator drains the message buffer and runs the turn in the lock's `runExclusive`;
-- the turn runner, whose turn drives the tool loop, is a parameter there, and so is the job queue.
-- Random ids are arguments, and so is what the router of inbound updates asks of the two stores:
-- which keyboard is docked, and whether a question is pending. Keys that lapse, timers and renewals
-- by the watchdog are steps; faults of Redis itself are not modelled.
--
-- Tasks: src/modules/task/task.service.ts, with effective-settings.ts,
-- src/modules/task-occurrence-exception/task-occurrence-exception.service.ts and the entities.
--   Tasks/Types              the rows, the errors and the results
--   Tasks/Database           the tables, a record of queries and writes with its laws; logs to
--                            instantiate it
--   Tasks/Exceptions         task-occurrence-exception.service.ts
--   Tasks/Store, Tasks/Laws  what the service is built on, its ownership checks, and the laws
--   Tasks/World              a database of logs, for examples
--   Tasks/Read               findOccurrencesInRange, over Recurrence/Expand and the exceptions
--   Tasks/Daily              getDailyCounts, findInRange, findChangedSince
--   Tasks/Settings           effective-settings.ts
--   Tasks/Overlap            findOverlapping and the conflict checks of series and of edits
--   Tasks/Rule               the effective rule, isGeneratedOccurrence, sweepOverrideChildren
--   Tasks/Completion         setCompleted, setOccurrenceCompleted, remove
--   Tasks/Update             create, update
--   Tasks/Override           createOrUpdateOverride, applyOccurrenceOverride
--   Tasks/Split              splitSeries, endSeriesAt
--   Tasks/Invariant          the operations that write, as steps
-- Each operation is one transaction: it passes the state of the database on, and one that throws has
-- no new state. The clock and the ids of new rows are read from that state. The relation `group` of a
-- task is looked up by its group id where the source loads it. Locks, the order that a query asks
-- for where a sort follows, and what the database keeps by itself (updatedAt) are left out, and so
-- are the searches by text.
--
-- The other modules of the program (adapters to vendors and providers, the database layer,
-- authentication, controllers, notifications, the tools of the assistant) are not modelled.
pub mod Common
pub mod Recurrence
pub mod Orchestration
pub mod Session
pub mod Tasks
