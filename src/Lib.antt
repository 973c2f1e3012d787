-- ===== src/Lib.antt =====
-- Sofa: the durable ledger of a software factory, and the decisions made from it.
--
-- The program (Go) moves GitHub issues through the stages of a Project board. Workers that may
-- crash, repeat or overlap share one ledger: a JSON document that a store loads with a revision and
-- replaces by compare-and-swap. Every method of `Engine` (internal/state) is a guard on its
-- arguments followed by a closure that `update` applies to the loaded ledger and swaps in, again
-- after a conflict. The package internal/lifecycle decides, from observed facts, what to do next.
--
-- Base holds the shared types: tests, native integers with Go's int64 sums, maps, text, and
-- `Equality`, the interface of a decidable `==`.
--
-- State models internal/state/state.go: Records the structs, Patterns the regular expressions,
-- Valid and Validate the `valid` methods and `State.Validate`, Same Go's `==`, Facts what a valid
-- ledger says of one attempt. A pointer is an Option; a map is an association list in the order
-- of a `range`; `attempts_made` is `Attempts != nil`; a text type with constants is a data type
-- with a further constructor `unknown`; a time is a count of nanoseconds since Go's zero time.
--
-- Store models internal/state/store.go: Interface is the `Store` interface with the laws that the
-- engine relies on (`IsLawful`), Memory is `MemoryStore`, Revisions its revision numbers (uint64,
-- printed by Decimal, whose fuel is one more than the number, which is more than its digits).
--
-- Engine models internal/state/engine.go. Outcome has the shape of an operation: `Operation` is
-- a refusal or a closure, `Outcome` the closure's (changed, error) with the ledger it wrote,
-- `Edit` the part of a closure that works on one attempt, `Clock` the readings of `e.now()` in one
-- run of a closure. Ownership has MarkDispatched, Claim, owned, AssertOwner and mutateOwned; Work
-- has Charge, Advance, SaveCheckpoint and DiscardUnavailableCheckpoint; Publish has
-- BeginPublication, MarkPublished and Fail; Recovery has Recover, StopProvenOwner,
-- StopRevokedPending and Observe; Admit has Admit; Update has the loop, with its 64 rounds, over
-- any store and with other processes that act before the load and before the swap of each round.
-- Calls gathers the operations of engine.go into one type of calls and Changes says what each does
-- to an attempt; Phases is the diagram of these calls alone.
--
-- Board models internal/state/projection.go: Projection the operations, Moves and Intents what
-- holds of them. Scans models poll.go (Poll, Schedule), revert_scan.go (Revert) and current.go
-- (Current, Uniqueness) of internal/state. Lifecycle models internal/lifecycle/lifecycle.go:
-- Stages, Slots, Gates and Decide by topic, with proofs in Evidence and Planning.
--
-- Discovery models internal/state/discovery.go: Task the fence and the edits of one task, Terms and
-- Revise the parts of AdmitDiscovery, Admit the operation, Work the other calls, from
-- ClaimDiscovery to CancelDiscovery. Repair models internal/state/review.go: Reserve has
-- ClaimReviewRepair, ReserveReviewRepair and ReleaseSupersededReviewRepair, Publish the calls that
-- publish, reconcile or fail a repair. System puts every operation on one ledger: Change lists what
-- they do to one attempt, Fences, Claims, Phases, Drafts and Grants follow the attempts through
-- deliveries, repairs and the supersession by Discovery, and the other modules the Discovery
-- tasks through sequences of committed calls (Research, ResearchRuns), where calls that leave the
-- tasks alone may come in between. The closure of AdmitDiscovery writes its captured task, so an
-- admission carries the rounds before whose swap lost, and `captured` is the task that they leave.
--
-- Config models internal/config/config.go: Records, Paths (SafePath, Allows), Validate. Authority
-- models internal/admission/admission.go: Grant has CanonicalSpec and the records, Authorize the
-- three operations. Release models internal/release/release.go: Checks the latest check of a
-- requirement, Evaluate the decisions, Record and Pulls what is recorded and read. Feedback models
-- internal/review/review.go: Reviews the text of a review, Evaluate the decisions. Reconcile models
-- internal/lifecycle/reconcile.go: Input the records, Observed what is indexed and proposed, Scan
-- the loop over the issues of a poll. The release and the review packages append an observation
-- with the same loop (`append_once` of Release/Record), of two passes over any store as there.
--
-- Scenarios has concrete ledgers and the theorems at concrete inputs.
--
-- Parameters: the SHA-256 digests and their hexadecimal text, the JSON codec of the ledger (a
-- `Codec` may fail to write, and reads back the ledger it wrote, maps in the model's order) and
-- the JSON of a configuration, a specification and a review, the state of the context at each
-- test, the actions of other processes, the answer of a RevertVerifier, the struct tags that the
-- validator package tests, path.Clean, strings.TrimSpace, utf8.ValidString, slices.Sort,
-- sort.Strings, sort.Slice and the RFC 3339 text of a time. Error texts are left out: an error is
-- its sentinel value (`unwritable` for that of json.Marshal, which has none), or `none` where the
-- callers only see that there is one. Texts that are compared without regard to case are taken to
-- be ASCII, as valid repository names are; the parts of a path are not, and SafePath lowers any
-- text.
--
-- Not modelled: GitStore, which runs git; SpecPath; the YAML reader of internal/config; the String
-- method of an effect, a text for logs; the prompts and files of internal/discovery and
-- internal/integrity; the clients of GitHub, the agent and release tooling, the worker loop and the
-- commands under cmd, which are input and output.
pub mod Base
pub mod State
pub mod Board
pub mod Scans
pub mod Lifecycle
pub mod Store
pub mod Engine
pub mod Discovery
pub mod Repair
pub mod System
pub mod Config
pub mod Authority
pub mod Release
pub mod Feedback
pub mod Reconcile
mod Scenarios
