-- ===== src/Reconcile/Order.antt =====
-- internal/lifecycle/reconcile.go: the effects of a scan, issue by issue.
use mathlib.Core.Path.{subst}
use sofa.Base.{
  ◌≡◌, refl, sym, ◌∙◌, inl, inr, String, Bool, true, false, not, Option, none, some, List, [], ◌∷◌,
  ◌&&◌, ◌==◌, string_eq, if◌then◌else◌, any, arith, Bool-cases, Option-cases, some_inj,
}
use sofa.Base.Map.{get}
use sofa.State.Records.{BoardProjection}
use sofa.State.Validate.{AttemptKey}
use sofa.Lifecycle.Stages.{stage_for}
use sofa.Authority.Libraries.{Libraries}
use sofa.Authority.Grant.{Snapshot}
use sofa.Reconcile.Input.{EffectKind, ScanInput, Effect, ItemIndex, index_from, holds_at}
use sofa.Reconcile.Observed.{initial_effect}
use sofa.Reconcile.Scan.{
  delivers_stage, unmoved, same_item, arrived, not_begun, on_board, on_projection, effect_of,
  issue_valid, scan_from, scan,
}
use sofa.Reconcile.Justified.{not_move}
use sofa.Reconcile.Identity.{on_projection-Same}
use sofa.Reconcile.Moves.{ByRecord, MoveJustified, on_record-ByRecord}

not_observed : (x : EffectKind) → x ≡ EffectKind.observe → x ≡ EffectKind.move → ⊥
not_observed x k h = absurd (cc (sym k ∙ h))

-- The stage of a status, the empty text for an unknown one.
unfoldable pub stage_or_empty : Option String → String
stage_or_empty none = ""
stage_or_empty (some stage) = stage

-- The identifiers of the issues are distinct, and not among those seen.
unfoldable pub distinct_from : List String → List Snapshot → Bool
distinct_from seen [] = true
distinct_from seen (issue ∷ issues) =
    not (any (λ x. x == issue.issue_id) seen) && distinct_from (issue.issue_id ∷ seen) issues

module _ (lib : Libraries) (input : ScanInput) (index : ItemIndex) where
  record ByBoard (prior : BoardProjection) (issue : Snapshot) (stage : String) (e : Effect)
      : Type 0 where
    where_it_was : unmoved prior stage issue ≡ true
    delivering : delivers_stage stage ≡ true
    unambiguous : holds_at issue.project_item_id index.ambiguous ≡ false
    by_record : ByRecord lib input index issue stage (get issue.issue_id input.ledger.specs) e

  on_board-ByBoard :
      (e : Effect) (prior : BoardProjection) (retry : Bool) (issue : Snapshot) (stage : String)
      → e.kind ≡ EffectKind.hold
      → (on_board lib input index e prior retry issue stage).kind ≡ EffectKind.move
      → ByBoard prior issue stage (on_board lib input index e prior retry issue stage)
  unfolding on_board
  on_board-ByBoard e prior retry issue stage k h = elim (Bool-cases (unmoved prior stage issue)) [
    | inr moved ↦ absurd (not_observed _ refl (rw (moved, on_board) at h))
    | inl same ↦ elim (Bool-cases (delivers_stage stage)) [
      | inr other ↦ absurd (not_move _ k (rw (same, on_board, other) at h))
      | inl delivering ↦ elim (Bool-cases (holds_at issue.project_item_id index.ambiguous)) [
        | inl many ↦ absurd (not_move _ k (rw (same, on_board, delivering, many) at h))
        | inr one ↦
            rw (same, on_board, delivering, one)
              (record {
                where_it_was = same;
                delivering = delivering;
                unambiguous = one;
                by_record =
                    on_record-ByRecord lib input index e prior retry issue stage
                      (get issue.issue_id input.ledger.specs) k
                      (rw (same, on_board, delivering, one) at h);
              })
      ]
    ]
  ]

  record ByProjection (x : Option BoardProjection) (issue : Snapshot) (stage : String) (e : Effect)
      : Type 0 where
    projection : BoardProjection
    projected : x ≡ some projection
    item : same_item input issue projection ≡ true
    by_board : ByBoard projection issue stage e

  on_projection-ByProjection :
      (e : Effect) (issue : Snapshot) (stage : String) (x : Option BoardProjection)
      → e.kind ≡ EffectKind.hold
      → (on_projection lib input index e issue stage x).kind ≡ EffectKind.move
      → ByProjection x issue stage (on_projection lib input index e issue stage x)
  unfolding on_projection
  on_projection-ByProjection e issue stage none k h = absurd (not_observed _ refl h)
  on_projection-ByProjection e issue stage (some prior) k h =
      let board = λ (retry : Bool). on_board-ByBoard e prior retry issue stage k in
      elim (Bool-cases (same_item input issue prior)) [
        | inr other ↦ absurd (not_move _ k (rw (other, on_projection) at h))
        | inl item ↦ elim (Bool-cases (prior.pending_stage == "")) [
          | inl idle ↦
              rw (item, on_projection, idle)
                (record {
                  projection = prior;
                  projected = refl;
                  item = item;
                  by_board = board false (rw (item, on_projection, idle) at h);
                })
          | inr pending ↦ elim (Bool-cases (arrived prior stage issue)) [
            | inl there ↦
                absurd (not_observed _ refl (rw (item, on_projection, pending, there) at h))
            | inr away ↦ elim (Bool-cases (not_begun prior stage issue)) [
              | inr changed ↦
                  absurd (not_move _ k (rw (item, on_projection, pending, away, changed) at h))
              | inl waits ↦
                  rw (item, on_projection, pending, away, waits)
                    (record {
                      projection = prior;
                      projected = refl;
                      item = item;
                      by_board = board true (rw (item, on_projection, pending, away, waits) at h);
                    })
            ]
          ]
        ]
      ]

  effect_of-MoveJustified :
      (issue : Snapshot) (x : Option String)
      → stage_for input.statuses issue.current_status ≡ x
      → (effect_of lib input index issue x).kind ≡ EffectKind.move
      → MoveJustified lib input index issue (effect_of lib input index issue x)
  unfolding effect_of initial_effect
  effect_of-MoveJustified issue none known h = absurd (not_move _ refl h)
  effect_of-MoveJustified issue (some stage) known h =
      let b =
        on_projection-ByProjection (initial_effect issue stage) issue stage
          (get issue.issue_id input.ledger.projections) refl h in
      record {
        stage = stage;
        known = known;
        projection = b.projection;
        projected = b.projected;
        item = b.item;
        where_it_was = b.by_board.where_it_was;
        delivering = b.by_board.delivering;
        unambiguous = b.by_board.unambiguous;
        by_record = b.by_board.by_record;
      }

  -- One effect for each issue, in their order; every move is justified.
  pub data Effects : List Snapshot → List Effect → Type 0 where
    all_done : Effects [] []
    one_more :
        {issue : Snapshot} {issues : List Snapshot} {e : Effect} {effects : List Effect}
        → e.issue_id ≡ issue.issue_id
        → e.from_stage ≡ stage_or_empty (stage_for input.statuses issue.current_status)
        → (e.kind ≡ EffectKind.move → MoveJustified lib input index issue e)
        → Effects issues effects
        → Effects (issue ∷ issues) (e ∷ effects)

  effect_of-identity :
      (issue : Snapshot) (x : Option String)
      → ((effect_of lib input index issue x).issue_id ≡ issue.issue_id)
        × ((effect_of lib input index issue x).from_stage ≡ stage_or_empty x)
  unfolding effect_of initial_effect stage_or_empty
  effect_of-identity issue none = (refl, refl)
  effect_of-identity issue (some stage) =
      on_projection-Same lib input index (initial_effect issue stage) issue stage
        (get issue.issue_id input.ledger.projections)

  issue_valid-fresh :
      (seen : List String) (issue : Snapshot)
      → issue_valid lib input seen issue ≡ true
      → not (any (λ x. x == issue.issue_id) seen) ≡ true
  unfolding issue_valid
  issue_valid-fresh seen issue h = ground arith

  both : {a b : Bool} → a ≡ true → b ≡ true → (a && b) ≡ true
  both h k = ground arith

  pub scan_from-Effects :
      (seen : List String) (issues : List Snapshot) (effects : List Effect)
      → scan_from lib input index seen issues ≡ some effects
      → Effects issues effects × (distinct_from seen issues ≡ true)
  unfolding scan_from issue_valid distinct_from
  scan_from-Effects seen [] effects h = (subst (Effects []) (some_inj h) all_done, refl)
  scan_from-Effects seen (issue ∷ issues) effects h =
      elim (Bool-cases (issue_valid lib input seen issue)) [
        | inr bad ↦ absurd (cc (rw (bad, scan_from) at h))
        | inl good ↦
            elim (Option-cases (scan_from lib input index (issue.issue_id ∷ seen) issues)) [
              | inl e ↦ absurd (cc (rw (good, scan_from, e) at h))
              | inr (rest, e) ↦
                  let (later, others) = scan_from-Effects (issue.issue_id ∷ seen) issues rest e in
                  let known = stage_for input.statuses issue.current_status in
                  let (id, from) = effect_of-identity issue known in
                  (
                    subst (Effects (issue ∷ issues)) (some_inj (rw (good, scan_from, e) at h))
                        (one_more id from (effect_of-MoveJustified issue known refl) later),
                    both (issue_valid-fresh seen issue good) others,
                  )
            ]
      ]

passed_guard :
    {A : Type 0} (b : Bool) (x : Option A) {y : A} → (if b then none else x) ≡ some y → x ≡ some y
passed_guard true x h = absurd (cc h)
passed_guard false x h = h

-- Where Scan gives effects, they are one for each issue of the poll, in its order and from the stage
-- of its status, for issues with distinct identifiers; and each proposed move is justified: the
-- board shows the issue where the ledger has it, in a stage of delivery, its approved scope and
-- text are unchanged, and the only indexed attempt of its item is a draft whose published pull
-- request was observed and is moved by ProjectDecision, under a fence with what was observed.
pub scan-Effects :
    (lib : Libraries) (digest : AttemptKey → String) (input : ScanInput) (effects : List Effect)
    → scan lib digest input ≡ some effects
    → Effects lib input
        (index_from (record { attempts = []; ambiguous = [] }) input.ledger.attempts)
        input.issues
        effects
      × (distinct_from [] input.issues ≡ true)
unfolding scan
scan-Effects lib digest input effects h =
    scan_from-Effects lib input
      (index_from (record { attempts = []; ambiguous = [] }) input.ledger.attempts) [] input.issues
      effects (passed_guard _ _ h)
