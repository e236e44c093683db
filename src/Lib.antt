-- ===== src/Lib.antt =====
-- A model of the debate backend: the rules by which a debate runs, the pipeline of tasks that
-- judges it, the outcome that a judgment has for members and communities, the rotation of refresh
-- tokens, and the invitations to a debate.
--
-- Debate (src/debates/debate-turn.ts and the entities beside it). Schedule.antt is
-- DebateTurnSchedule, its loop in `push_rebuttals`; Schedule/Loop.antt has the closed form of a
-- slot, and Schedule/Positions.antt relates places and slots. Turns.antt has resolveSpeakers,
-- resolveSide, toDebateTurn and deriveCurrentTurn.
--
-- Chat (src/debate-chat/debate-chat-state.ts). Types.antt has the object's fields as the record
-- DebateChatState, State.antt and Confirm.antt its methods: a method that changes the object
-- returns the new one, and one that may throw returns a Result. The clock and the generator of
-- identifiers are functions of the number of readings so far, which the state counts, so that two
-- readings of one call may differ. Invariant.antt says what holds between two commands; Starting,
-- Appending, Confirming, Expiring and Ending have the theorems of one method each, and Timeout.antt
-- those of the turn timer.
--
-- Chat/Store.antt is the class RedisDebateChatStateStore of
-- src/debate-chat/debate-chat-state.store.ts for one debate, over its row, its messages, its drafts
-- and its hash of client message ids. Reloading.antt is about load, Storing.antt and
-- Persisting.antt about persist, Serving.antt and Closing.antt about whole commands. The lock is
-- tried five times, as in the source.
--
-- Judge (src/judge). Tasks.antt is JudgeTaskRepository over a table that is the list of its rows:
-- each SQL statement is one step, with the conditions of its WHERE. Queue.antt is JudgeTaskQueue
-- and the recovery at boot, where BullMQ is a parameter with what the code relies on; which steps
-- of the recovery throw is an argument, and Queue/Boot.antt is about it; in other calls BullMQ does
-- not throw. Worker.antt is one call of JudgeTaskWorker.process; what other workers do to the table
-- while the handler runs is an argument, and the listener that a call notifies is on_task_settled
-- of Service.antt, whose writes are not in its result.
--
-- Judge/Results.antt and Results/Graph.antt are JudgeResultRepository over the record of tables of
-- Database.antt, which also has the queries on a debate of src/debates/debates.service.ts. A
-- transaction is a function that returns new tables or an error; an error keeps the old ones. The
-- ids that the database draws are fresh, so no insertion fails on a primary key, and no text fails
-- to be encoded; a graph is refused for an alias that has no id. Settlement.antt, Graph/Links.antt
-- and Graph/Replaced.antt are about them. Rows.antt has the entities and the types that are
-- exchanged with a language model.
--
-- Judge/Scores.antt, Request.antt and Judging.antt are src/judge/debate-judge.service.ts: the
-- totals, the winner and the penalties, and the handler of a judge task. The weights 0.4 and 0.3
-- and the sums are IEEE doubles there; here such a number is an integer, the multiple of 2^-54 that
-- it is, and each product and sum is rounded to 53 bits, ties to even, as in the source.
-- Scores/Rounding.antt bounds the error. What others do to the tables while the model answers is an
-- argument of the handler. Once.antt and Effects.antt say what a run writes.
--
-- Judge/Analyzer.antt with Validator.antt is ArgumentAnalyzerService
-- (src/judge/argument-analyzer.service.ts), and Judge/Checker.antt is FactCheckerService
-- (src/judge/fact-checker.service.ts), the handlers of the other two kinds of task, with Slots.antt
-- for src/judge/judge-turn-slot.ts. An alias is a number that stands for its string. Accepted,
-- Validated, Linked and Limits of Analyzer and Sources of Checker are about what they store.
--
-- Judge/Service.antt and Service/Requests.antt are JudgeService (src/judge/judge.service.ts) over
-- the tables, the queue and the rooms. A call runs without another call between its statements; a
-- call that throws keeps what it had committed. History.antt has the steps of the pipeline as a
-- relation on the tables, Leaves.antt and Steps.antt have the calls as such steps, Readiness.antt
-- is about when a judgment starts, Again.antt about starting it twice, Retrying.antt about a retry,
-- and Ended.antt about a debate that ended without a judgment.
--
-- Outcomes.antt is DebateOutcomeService with its factory of messages (src/debate-outcomes), over
-- Members.antt (src/members/members.service.ts) and Communities.antt (src/communities).
--
-- Auth (src/auth/refresh-token.service.ts). RefreshTokens.antt is RefreshTokenService over the
-- table of tokens. A rotation reads two clocks and lets other requests run between its steps.
--
-- Invitations (src/debate-invitations). Service.antt has the table of invitations with its
-- conditional updates and the events that are sent, with their payloads and recipients, and
-- Transitions.antt what they promise.
--
-- Identifiers and instants are natural numbers, and a string is the list of its UTF-16 code units,
-- which is what its length counts. No definition has fuel: the loops are recursions on a list or on
-- the number of rounds. Statements about a timer take as many calls as there are turns left, which
-- is at most the size of the schedule.
--
-- Not modelled: the expiry of keys in Redis, the service and the gateway around the chat, the
-- language models, the texts of a judgment as they are shown, the start and the acceptance of an
-- invitation, the rest of communities, debates, members and memberships, the signing of tokens, and
-- the framework code.
--
-- Examples has the theorems at concrete inputs.
pub mod Common
pub mod Communities
pub mod Members
pub mod Database
pub mod Outcomes
pub mod Debate
pub mod Chat
pub mod Judge
pub mod Auth
pub mod Invitations
pub mod Examples
