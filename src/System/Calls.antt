-- ===== src/System/Calls.antt =====
-- Every operation of the engine as one type of calls, and sequences of committed calls.
use sofa.Base.{ℕ, String, ◌≡◌, sym, ap, inl, inr, true, Option, some, arith, Option-cases, some_inj}
use sofa.Base.Map.{get}
use sofa.State.Clock.{Time}
use sofa.State.Records.{Admission, Limits, RevertScanCursor, Ledger}
use sofa.State.Validate.{AttemptKey, attempt_id, validate}
use sofa.Engine.Outcome.{Outcome, Clock, apply}
use sofa.Engine.Admit.{Admitted, lowered, admit}
use sofa.Engine.Admission.{admit-IsFresh}
use sofa.Engine.Calls.{Call, commit, commit-Written, written}
use sofa.System.Change.{SystemChange}
use sofa.Engine.Changes.{Written-get}
use sofa.Board.Projection.{
  BoardEdit, commit_board, observe_edit, observe_board, begin_edit, begin_board_move, cancel_edit,
  cancel_board_move,
}
use sofa.Board.Moves.{BoardCall, board_operation}
use sofa.Scans.Poll.{PollClaim, poll_step, poll_due, claim_poll}
use sofa.Scans.Revert.{advance_scan_edit, advance_scan_step, advance_revert_scan}
use sofa.System.Moves.{Moves, same-Moves, fresh-Moves, edit-Moves, require-open}
use sofa.System.Repairs.{RepairCall, commit_repair, commit_repair-Moves}
use sofa.System.Research.{ResearchCall, commit_research, commit_research-Moves}

pub data SystemCall : Type 0 where
  delivers : Call → SystemCall
  admits : Admission → Limits → SystemCall
  repairs : RepairCall → SystemCall
  researches : ResearchCall → SystemCall
  boards : BoardCall → SystemCall
  polls : Time → ℕ → String → SystemCall
  scans : String → Option RevertScanCursor → RevertScanCursor → SystemCall

-- The ledger that a call would commit. `before` are the readings of the clock in front of the
-- closure, and `clock` those inside it.
unfoldable pub commit_system :
    (AttemptKey → String) → SystemCall → Clock → Clock → Ledger → Option Ledger
commit_system digest (SystemCall.delivers c) before clock s = commit digest c before clock s
commit_system digest (SystemCall.admits m limits) before clock s =
    written (apply (admit digest m limits) clock s)
commit_system digest (SystemCall.repairs c) before clock s = commit_repair c clock s
commit_system digest (SystemCall.researches c) before clock s = commit_research c before clock s
commit_system digest (SystemCall.boards c) before clock s =
    written (apply (board_operation c) clock s)
commit_system digest (SystemCall.polls now interval wake) before clock s =
    written (apply (claim_poll now interval wake) clock s)
commit_system digest (SystemCall.scans id expected next) before clock s =
    written (apply (advance_revert_scan id expected next) clock s)

delivers-Moves :
    (digest : AttemptKey → String) (c : Call) (before clock : Clock) (s : Ledger) {t : Ledger}
    → validate digest s ≡ true
    → commit digest c before clock s ≡ some t
    → Moves s t
delivers-Moves digest c before clock s v h id a found =
    let (b, at, how) = Written-get id a (commit-Written digest c before clock s v h) found in
    elim how [
      | inl same ↦ (b, at, inl same)
      | inr change ↦ (b, at, inr (SystemChange.delivered change))
    ]

outcome-changed :
    {R : Type 0} (o : Outcome R) {t : Ledger}
    → written o ≡ some t
    → (r : R) × (o ≡ Outcome.changed t r)
outcome-changed (Outcome.unchanged r) h = absurd (cc h)
outcome-changed (Outcome.changed u r) h = (r, cc h)
outcome-changed (Outcome.failed e) h = absurd (cc h)

admits-Moves :
    (digest : AttemptKey → String) (m : Admission) (limits : Limits) (clock : Clock) (s : Ledger)
    {t : Ledger}
    → written (apply (admit digest m limits) clock s) ≡ some t
    → Moves s t
admits-Moves digest m limits clock s {t} h =
    let (r, changed) = outcome-changed {R = Admitted} (apply (admit digest m limits) clock s) h in
    let (_, fresh) = admit-IsFresh digest m limits clock s changed in
    rw (fresh.written) (fresh-Moves (attempt_id digest (lowered m)) s r.attempt fresh.unknown)

commit_board-attempts :
    (id : String) (s : Ledger) (e : BoardEdit) {t : Ledger}
    → written (commit_board id s e) ≡ some t
    → t.attempts ≡ s.attempts
commit_board-attempts id s BoardEdit.keep h = absurd (cc h)
commit_board-attempts id s (BoardEdit.write p) h =
    ap (λ (x : Ledger). x.attempts) (sym (some_inj h))
commit_board-attempts id s (BoardEdit.reject e) h = absurd (cc h)

boards-attempts :
    (c : BoardCall) (clock : Clock) (s : Ledger) {t : Ledger}
    → written (apply (board_operation c) clock s) ≡ some t
    → t.attempts ≡ s.attempts
unfolding board_operation observe_board begin_board_move cancel_board_move
boards-attempts (BoardCall.observes p) clock s h =
    commit_board-attempts p.issue_id s (observe_edit p (get p.issue_id s.projections))
      (require-open {R = Unit} _ _ _ clock s h)
boards-attempts (BoardCall.begins p stage option) clock s h =
    commit_board-attempts p.issue_id s (begin_edit p stage option (get p.issue_id s.projections))
      (require-open {R = Unit} _ _ _ clock s h)
boards-attempts (BoardCall.cancels p next) clock s h =
    commit_board-attempts p.issue_id s (cancel_edit p next (get p.issue_id s.projections))
      (require-open {R = Unit} _ _ _ clock s h)

polls-attempts :
    (now : Time) (interval : ℕ) (wake : String) (s : Ledger) {t : Ledger}
    → written (poll_step now interval wake s) ≡ some t
    → t.attempts ≡ s.attempts
unfolding poll_step poll_due
polls-attempts now interval wake s h = ground arith

scans-Moves :
    (id : String) (expected : Option RevertScanCursor) (next : RevertScanCursor) (s : Ledger)
    {t : Ledger}
    → written (advance_scan_step id expected next s) ≡ some t
    → Moves s t
unfolding advance_scan_step
scans-Moves id expected next s h = elim (Option-cases (get id s.attempts)) [
  | inl e ↦ absurd (cc (rw (e, advance_scan_step) at h))
  | inr (a, e) ↦
      edit-Moves id s a (advance_scan_edit s id expected next a) e
        (λ b w. SystemChange.scans s id expected next w) (rw (e, advance_scan_step) at h)
]

-- Whatever a call of the engine commits to a valid ledger, every attempt stays, as it was or by
-- one of the listed changes.
pub commit_system-Moves :
    (digest : AttemptKey → String) (c : SystemCall) (before clock : Clock) (s : Ledger) {t : Ledger}
    → validate digest s ≡ true
    → commit_system digest c before clock s ≡ some t
    → Moves s t
unfolding commit_system claim_poll advance_revert_scan
commit_system-Moves digest (SystemCall.delivers c) before clock s v h =
    delivers-Moves digest c before clock s v h
commit_system-Moves digest (SystemCall.admits m limits) before clock s v h =
    admits-Moves digest m limits clock s h
commit_system-Moves digest (SystemCall.repairs c) before clock s v h =
    commit_repair-Moves digest c clock s v h
commit_system-Moves digest (SystemCall.researches c) before clock s v h =
    commit_research-Moves c before clock s h
commit_system-Moves digest (SystemCall.boards c) before clock s {t} v h =
    same-Moves s t (boards-attempts c clock s h)
commit_system-Moves digest (SystemCall.polls now interval wake) before clock s {t} v h =
    same-Moves s t
      (polls-attempts now interval wake s (require-open {R = PollClaim} _ _ _ clock s h))
commit_system-Moves digest (SystemCall.scans id expected next) before clock s v h =
    scans-Moves id expected next s (require-open {R = Unit} _ _ _ clock s h)
