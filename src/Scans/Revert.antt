-- ===== src/Scans/Revert.antt =====
-- internal/state/revert_scan.go: AdvanceRevertScan, and what it accepts.
use sofa.Base.{
  Equality, String, ◌≡◌, refl, ◌∙◌, Bool, true, false, not, Option, none, some, ◌&&◌, ◌||◌, ◌==◌,
  string_eq, option_eq, arith, Bool-cases, Option-cases, inl, inr, ap, if◌then◌else◌, all_set,
  is_nil,
}
use sofa.Base.Int.{pos, int_eq, next_int64}
use sofa.Base.Map.{get, get-put_self}
use sofa.State.Records.{RevertScanCursor, Attempt, Ledger}
use sofa.State.Same.{revert_scan_cursor_eq}
use sofa.State.Valid.{cursor_valid}
use sofa.State.Validate.{recorded_done_for_merge}
use sofa.Engine.Outcome.{
  Error, Outcome, Operation, Clock, Edit, apply, require, put_attempt, commit_edit,
}

-- `validRevertScanStep`
unfoldable pub valid_revert_scan_step : Option RevertScanCursor → RevertScanCursor → Bool
valid_revert_scan_step none next =
    (next.completed_head == next.merge_sha) && next.active_head == ""
    || (next.completed_head == "") && next.active_base == next.merge_sha && next.next_page == pos 1
valid_revert_scan_step (some previous) next =
    if not (previous.merge_sha == next.merge_sha)
    then false
    else if previous.active_head == ""
    then (next.completed_head == previous.completed_head)
      && (next.active_base == previous.completed_head)
      && not (next.active_head == "")
      && next.next_page == pos 1
    else if (next.active_head == previous.active_head)
        && (next.active_base == previous.active_base)
        && next.completed_head == previous.completed_head
    then next.next_page == next_int64 previous.next_page
    else (next.active_base == "")
      && (next.active_head == "")
      && (next.next_page == pos 0)
      && next.completed_head == previous.active_head

-- The body of `AdvanceRevertScan`, on the attempt found; `sameRevertCursor` is `==` on options.
unfoldable pub advance_scan_edit :
    Ledger → String → Option RevertScanCursor → RevertScanCursor → Attempt → Edit
advance_scan_edit s id expected next a =
    if is_nil a.publication || not (recorded_done_for_merge s.observations id next.merge_sha)
    then Edit.reject Error.invalid
    else if a.revert_scan == some next
    then Edit.keep
    else if not (a.revert_scan == expected) || not (valid_revert_scan_step expected next)
    then Edit.reject Error.conflict
    else Edit.write (record a { revert_scan = some next })

-- The closure of `AdvanceRevertScan`.
unfoldable pub advance_scan_step :
    String → Option RevertScanCursor → RevertScanCursor → Ledger → Outcome (Unit {0})
advance_scan_step id expected next s = elim (get id s.attempts) [
  | none ↦ Outcome.failed Error.not_found
  | some a ↦ commit_edit id s (advance_scan_edit s id expected next a)
]

-- `AdvanceRevertScan`
unfoldable pub advance_revert_scan :
    String → Option RevertScanCursor → RevertScanCursor → Operation (Unit {0})
advance_revert_scan id expected next =
    require (cursor_valid next && all_set cursor_valid expected) Error.invalid
      (Operation.attempt (λ clock. advance_scan_step id expected next))

-- `sameRevertCursor`
abbrev same_scan : Equality (Option RevertScanCursor)
same_scan = option_eq

advance_scan_edit-write :
    (s : Ledger) (id : String) (expected : Option RevertScanCursor) (next : RevertScanCursor)
    (a b : Attempt)
    → advance_scan_edit s id expected next a ≡ Edit.write b
    → (is_nil a.publication ≡ false)
      × (a.revert_scan ≡ expected)
      × ((expected == some next) ≡ false)
      × (b ≡ record a { revert_scan = some next })
unfolding advance_scan_edit
advance_scan_edit-write s id expected next a b h = ground (
  arith,
  same_scan.test_iff a.revert_scan expected,
  same_scan.test_iff a.revert_scan (some next),
  same_scan.test_iff expected (some next),
)

same_cursor-sym : (p q : Option RevertScanCursor) → (p == q) ≡ false → (q == p) ≡ false
same_cursor-sym p q h = ground (arith, same_scan.test_iff p q, same_scan.test_iff q p)

commit_edit-changed :
    (id : String) (s t : Ledger) (e : Edit)
    → commit_edit id s e ≡ Outcome.changed t tt
    → (b : Attempt) × (e ≡ Edit.write b) × (t ≡ put_attempt id b s)
commit_edit-changed id s t Edit.keep h = absurd (cc h)
commit_edit-changed id s t (Edit.write b) h = (b, refl, cc h)
commit_edit-changed id s t (Edit.reject e) h = absurd (cc h)

raced_verdict :
    (id : String) (expected : Option RevertScanCursor) (next other : RevertScanCursor) (s : Ledger)
    (a : Attempt)
    → is_nil a.publication ≡ false
    → (some next == expected) ≡ false
    → let t = put_attempt id (record a { revert_scan = some next }) s in
      commit_edit id t
        (advance_scan_edit t id expected other (record a { revert_scan = some next }))
      ≡ (if not (recorded_done_for_merge s.observations id other.merge_sha)
          then Outcome.failed Error.invalid
          else if some next == some other
          then Outcome.unchanged tt
          else Outcome.failed Error.conflict)
unfolding advance_scan_edit
raced_verdict id expected next other s a out moved = ground arith

-- After a boundary was persisted, a second call that expects the same earlier boundary cannot
-- replace it: the same boundary again changes nothing, any other is a conflict, and one for a merge
-- without a recorded completion is invalid. The second call's cursors are valid.
pub scan_raced :
    (id : String) (expected : Option RevertScanCursor) (next other : RevertScanCursor)
    (clock later : Clock) (s t : Ledger)
    → apply (advance_revert_scan id expected next) clock s ≡ Outcome.changed t tt
    → (cursor_valid other && all_set cursor_valid expected) ≡ true
    → apply (advance_revert_scan id expected other) later t ≡ (
        if not (recorded_done_for_merge t.observations id other.merge_sha)
        then Outcome.failed Error.invalid
        else if some next == some other
        then Outcome.unchanged tt
        else Outcome.failed Error.conflict)
unfolding advance_revert_scan require advance_scan_step
scan_raced id expected next other clock later s t h ok =
    elim (Bool-cases (cursor_valid next && all_set cursor_valid expected)) [
      | inr bad ↦ absurd (cc (rw bad at h))
      | inl fine ↦ elim (Option-cases (get id s.attempts)) [
        | inl e ↦ absurd (cc (rw (e, advance_scan_step) at (rw fine at h)))
        | inr (a, e) ↦
            let (b, edited, written) =
              commit_edit-changed id s t (advance_scan_edit s id expected next a)
                (rw (e, advance_scan_step) at (rw fine at h)) in
            let (out, _, moved, w) = advance_scan_edit-write s id expected next a b edited in
            let state : t ≡ put_attempt id (record a { revert_scan = some next }) s =
              written ∙ ap (λ x. put_attempt id x s) w in
            rw
              (
                state,
                ok,
                advance_scan_step,
                get-put_self id (record a { revert_scan = some next }) s.attempts,
              )
              (raced_verdict id expected next other s a out
                (same_cursor-sym expected (some next) moved))
      ]
    ]
