-- ===== src/Engine/Phases.antt =====
-- The transition diagram of an attempt's phase under the operations of engine.go, and what they
-- leave of a draft.
use sofa.Base.{String, ◌≡◌, refl, sym, ◌∙◌, ◌≢◌, ◌⊎◌, inl, inr, arith}
use sofa.State.Records.{Phase, Attempt, Publication}
use sofa.State.Same.{phase_eq, attempt_eq, owner_eq, checkpoint_eq, publication_eq}
use sofa.Engine.Outcome.{Clock, Edit}
use sofa.Engine.Ownership.{mark_dispatched_edit, claimed_by, stamp, is_settled}
use sofa.Engine.Work.{charge_edit, advance_edit, save_checkpoint_edit, discard_edit}
use sofa.Engine.Publish.{begin_publication_edit, mark_published_edit, fail_edit}
use sofa.Engine.Recovery.{
  RunProof, recovered, recover_edit, stopped, stop_owner_edit, revoked, stop_pending_edit,
}
use sofa.Engine.Calls.{Work, Change, mutation}

-- The diagram of engine.go: there nothing leaves `draft`, and only `publishing` reaches it.
pub data Edge : Phase → Phase → Type 0 where
  stay : {p : Phase} → Edge p p
  start : {p q : Phase} → p ≡ Phase.pending → q ≡ Phase.executing → Edge p q
  check : {p q : Phase} → p ≡ Phase.executing → q ≡ Phase.validating → Edge p q
  publish : {p q : Phase} → p ≡ Phase.validating → q ≡ Phase.publishing → Edge p q
  finish : {p q : Phase} → p ≡ Phase.publishing → q ≡ Phase.draft → Edge p q
  halt : {p q : Phase} → p ≢ Phase.draft → (q ≡ Phase.blocked) ⊎ (q ≡ Phase.deferred) → Edge p q
  release : {p q : Phase} → p ≢ Phase.draft → p ≢ Phase.blocked → q ≡ Phase.pending → Edge p q

stay_at : {p q : Phase} → q ≡ p → Edge p q
stay_at {p} e = rw e stay

-- The two moves of a `BeginPublication` or a `MarkPublished`, or none.
advance_moves :
    (phase : Phase) (clock : Clock) (a b : Attempt)
    → stamp clock a (advance_edit phase a) ≡ Edit.write b
    → (a.phase ≡ Phase.executing) × (b.phase ≡ Phase.validating)
unfolding stamp advance_edit
advance_moves phase clock a b h =
    ground
      (arith, phase_eq.test_iff a.phase Phase.executing, phase_eq.test_iff phase Phase.validating)

begin_moves :
    (p : Publication) (clock : Clock) (a b : Attempt)
    → stamp clock a (begin_publication_edit p a) ≡ Edit.write b
    → ((a.phase ≡ Phase.validating) ⊎ (a.phase ≡ Phase.publishing)) × (b.phase ≡ Phase.publishing)
unfolding stamp begin_publication_edit
begin_moves p clock a b h =
    ground (
      arith,
      phase_eq.test_iff a.phase Phase.validating,
      phase_eq.test_iff a.phase Phase.publishing,
    )

publish_moves :
    (p : Publication) (clock : Clock) (a b : Attempt)
    → stamp clock a (mark_published_edit p a) ≡ Edit.write b
    → (a.phase ≡ Phase.publishing) × (b.phase ≡ Phase.draft)
unfolding stamp mark_published_edit
publish_moves p clock a b h = ground (arith, phase_eq.test_iff a.phase Phase.publishing)

fail_moves :
    (kind : String) (clock : Clock) (a b : Attempt)
    → stamp clock a (fail_edit kind a) ≡ Edit.write b
    → (a.phase ≢ Phase.draft) × ((b.phase ≡ Phase.blocked) ⊎ (b.phase ≡ Phase.deferred))
unfolding stamp fail_edit
fail_moves kind clock a b h = ground (arith, phase_eq.test_iff a.phase Phase.draft)

mutation-Edge :
    (w : Work) (clock : Clock) (a b : Attempt)
    → stamp clock a (mutation w a) ≡ Edit.write b
    → Edge a.phase b.phase
unfolding stamp charge_edit save_checkpoint_edit
mutation-Edge (Work.charges delta) clock a b h = stay_at (ground arith)
mutation-Edge (Work.advances p) clock a b h =
    let (from, to) = advance_moves p clock a b h in check from to
mutation-Edge (Work.saves c) clock a b h = stay_at (ground arith)
mutation-Edge (Work.begins p) clock a b h = elim (begin_moves p clock a b h).0 [
  | inl from ↦ publish from (begin_moves p clock a b h).1
  | inr from ↦ stay_at ((begin_moves p clock a b h).1 ∙ sym from)
]
mutation-Edge (Work.publishes p) clock a b h =
    let (from, to) = publish_moves p clock a b h in finish from to
mutation-Edge (Work.fails kind) clock a b h =
    let (from, to) = fail_moves kind clock a b h in halt from to

recover_moves :
    (p : RunProof) (clock : Clock) (a b : Attempt)
    → recover_edit p clock a ≡ Edit.write b
    → (a.phase ≢ Phase.draft) × (a.phase ≢ Phase.blocked) × (b.phase ≡ Phase.pending)
unfolding recover_edit recovered
recover_moves p clock a b h =
    ground (arith, phase_eq.test_iff a.phase Phase.draft, phase_eq.test_iff a.phase Phase.blocked)

stop_moves :
    (p : RunProof) (kind : String) (clock : Clock) (a b : Attempt)
    → stop_owner_edit p kind clock a ≡ Edit.write b
    → (a.phase ≢ Phase.draft) × ((b.phase ≡ Phase.blocked) ⊎ (b.phase ≡ Phase.deferred))
unfolding stop_owner_edit stopped
stop_moves p kind clock a b h = ground (
  arith,
  phase_eq.test_iff a.phase Phase.executing,
  phase_eq.test_iff a.phase Phase.validating,
  phase_eq.test_iff a.phase Phase.publishing,
)

revoke_moves :
    (expected : Attempt) (clock : Clock) (a b : Attempt)
    → stop_pending_edit expected clock a ≡ Edit.write b
    → (a.phase ≡ Phase.pending) × (b.phase ≡ Phase.blocked)
unfolding stop_pending_edit revoked
revoke_moves x clock a b h = ground (arith, phase_eq.test_iff a.phase Phase.pending)

-- These changes follow an edge of the diagram.
pub Change-Edge : {a b : Attempt} → Change a b → Edge a.phase b.phase
unfolding mark_dispatched_edit claimed_by discard_edit
Change-Edge (Change.dispatched clock e) = stay_at (ground arith)
Change-Edge (Change.claimed clock owner _ p) = start p refl
Change-Edge {a} {b} (Change.worked clock f w _ e) = mutation-Edge w clock a b e
Change-Edge (Change.discarded c clock e) = stay_at (ground arith)
Change-Edge {a} {b} (Change.recovered p clock e) =
    let (x, y, to) = recover_moves p clock a b e in release x y to
Change-Edge {a} {b} (Change.stopped p kind clock e) =
    let (x, to) = stop_moves p kind clock a b e in halt x to
Change-Edge {a} {b} (Change.revoked x clock e) =
    let (from, to) = revoke_moves x clock a b e in halt (λ d. cc) (inl to)

abbrev pub StaysDraft : Attempt → Attempt → Type 0
StaysDraft a b =
    (b.phase ≡ Phase.draft)
    × (b.publication ≡ a.publication)
    × (b.counts ≡ a.counts)
    × (b.owner ≡ a.owner)
    × (b.generation ≡ a.generation)

mutation-StaysDraft :
    (w : Work) (clock : Clock) (a b : Attempt)
    → stamp clock a (mutation w a) ≡ Edit.write b
    → a.phase ≡ Phase.draft
    → StaysDraft a b
unfolding stamp charge_edit is_settled save_checkpoint_edit
mutation-StaysDraft (Work.charges delta) clock a b h d =
    ground (arith, phase_eq.test_iff a.phase Phase.draft)
mutation-StaysDraft (Work.advances p) clock a b h d =
    absurd (ground (arith, advance_moves p clock a b h))
mutation-StaysDraft (Work.saves c) clock a b h d = ground arith
mutation-StaysDraft (Work.begins p) clock a b h d =
    absurd (ground (arith, begin_moves p clock a b h))
mutation-StaysDraft (Work.publishes p) clock a b h d =
    absurd (ground (arith, publish_moves p clock a b h))
mutation-StaysDraft (Work.fails kind) clock a b h d =
    absurd (ground (arith, fail_moves kind clock a b h))

-- Under them a draft stays one, with the publication, counters, owner and generation it has.
pub Change-StaysDraft : {a b : Attempt} → Change a b → a.phase ≡ Phase.draft → StaysDraft a b
unfolding mark_dispatched_edit discard_edit
Change-StaysDraft (Change.dispatched clock e) d = ground arith
Change-StaysDraft (Change.claimed clock owner _ p) d = absurd (ground arith)
Change-StaysDraft {a} {b} (Change.worked clock f w _ e) d = mutation-StaysDraft w clock a b e d
Change-StaysDraft (Change.discarded c clock e) d = ground arith
Change-StaysDraft {a} {b} (Change.recovered p clock e) d =
    absurd (ground (arith, recover_moves p clock a b e))
Change-StaysDraft {a} {b} (Change.stopped p kind clock e) d =
    absurd (ground (arith, stop_moves p kind clock a b e))
Change-StaysDraft {a} {b} (Change.revoked x clock e) d =
    absurd (ground (arith, revoke_moves x clock a b e))
