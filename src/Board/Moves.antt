-- ===== src/Board/Moves.antt =====
-- What the calls on the board do to the projection of one issue.
use sofa.Base.{
  String, ◌≡◌, refl, sym, ◌∙◌, Bool, true, false, ◌⊎◌, inl, inr, Option, none, some, some_inj,
  Option-cases, arith, eq_iff, string_eq, nat_eq, Bool-cases, ap, ◌&&◌, ◌==◌, if◌then◌else◌,
}
use mathlib.Core.Path.{subst}
use sofa.Base.Map.{get, put, get-put}
use sofa.State.Clock.{after, before}
use sofa.State.Records.{BoardProjection, Ledger}
use sofa.State.Valid.{projection_valid}
use sofa.State.Same.{board_projection_eq}
use sofa.Engine.Outcome.{Error, Outcome, Operation, Clock, apply, require}
use sofa.Board.Projection.{
  BoardEdit, commit_board, owner_transition, factory_transition, observe_pending, observe_settled,
  observe_edit, observe_board, with_intent, begin_allowed, begin_edit, begin_board_move,
  without_intent, cancel_allowed, cancel_edit, cancel_board_move,
}

pub data BoardCall : Type 0 where
  observes : BoardProjection → BoardCall
  begins : BoardProjection → String → String → BoardCall
  cancels : BoardProjection → String → BoardCall

unfoldable pub board_operation : BoardCall → Operation (Unit {0})
board_operation (BoardCall.observes p) = observe_board p
board_operation (BoardCall.begins p stage option) = begin_board_move p stage option
board_operation (BoardCall.cancels p next) = cancel_board_move p next

-- The references that no call changes.
pub record SameItem (p q : BoardProjection) : Type 0 where
  pub repository : p.repository ≡ q.repository
  pub project : p.project_id ≡ q.project_id
  pub item : p.project_item_id ≡ q.project_item_id

-- The ways in which one call may change a projection that the ledger has.
pub data BoardStep : BoardProjection → BoardProjection → Type 0 where
  -- The owner moved an item that had no pending move.
  owner_moves :
      {p q : BoardProjection}
      → p.pending_stage ≡ ""
      → q.pending_stage ≡ ""
      → owner_transition p.stage q.stage ≡ true
      → after q.updated_at p.updated_at ≡ true
      → SameItem p q
      → BoardStep p q
  -- The planned move has been seen on the board.
  arrives :
      {p q : BoardProjection}
      → q.pending_stage ≡ ""
      → q.stage ≡ p.pending_stage
      → q.option_id ≡ p.pending_option_id
      → after q.updated_at p.pending_from_updated_at ≡ true
      → before q.updated_at p.updated_at ≡ false
      → SameItem p q
      → BoardStep p q
  -- The owner reset the item to discovery while a move was pending.
  resets :
      {p q : BoardProjection}
      → q.pending_stage ≡ ""
      → q.stage ≡ "discovery"
      → (p.stage == "discovery") ≡ false
      → after q.updated_at p.pending_from_updated_at ≡ true
      → before q.updated_at p.updated_at ≡ false
      → SameItem p q
      → BoardStep p q
  begins :
      {p : BoardProjection} {stage option : String}
      → p.pending_stage ≡ ""
      → factory_transition p.stage stage ≡ true
      → BoardStep p (with_intent p stage option p)
  cancels : {p : BoardProjection} → BoardStep p (without_intent p)

-- What an accepted observation of a pending move says.
observe_pending-write :
    (o p q : BoardProjection)
    → observe_pending o p ≡ BoardEdit.write q
    → (q ≡ o)
      × (((o.stage ≡ p.pending_stage)
            × (o.option_id ≡ p.pending_option_id)
            × (after o.updated_at p.pending_from_updated_at ≡ true))
          ⊎ ((o.stage ≡ "discovery")
              × ((p.stage == "discovery") ≡ false)
              × (after o.updated_at p.pending_from_updated_at ≡ true)))
unfolding observe_pending
observe_pending-write o p q h = ground (
  arith,
  eq_iff o.stage p.pending_stage,
  eq_iff o.option_id p.pending_option_id,
  eq_iff o.stage "discovery",
)

observe_settled-write :
    (o p q : BoardProjection)
    → observe_settled o p ≡ BoardEdit.write q
    → (q ≡ o) × (owner_transition p.stage o.stage ≡ true) × (after o.updated_at p.updated_at ≡ true)
unfolding observe_settled
observe_settled-write o p q h = ground arith

-- What every accepted observation passes first.
observe_edit-write :
    (o p q : BoardProjection)
    → observe_edit o (some p) ≡ BoardEdit.write q
    → (p.repository ≡ o.repository)
      × (p.project_id ≡ o.project_id)
      × (p.project_item_id ≡ o.project_item_id)
      × (before o.updated_at p.updated_at ≡ false)
      × ((observe_pending o p ≡ BoardEdit.write q)
          ⊎ ((p.pending_stage ≡ "") × (observe_settled o p ≡ BoardEdit.write q)))
unfolding observe_edit
observe_edit-write o p q h = ground (
  arith,
  eq_iff p.repository o.repository,
  eq_iff p.project_id o.project_id,
  eq_iff p.project_item_id o.project_item_id,
  eq_iff p.pending_stage "",
)

observe_edit-BoardStep :
    (o p : BoardProjection)
    → o.pending_stage ≡ ""
    → observe_edit o (some p) ≡ BoardEdit.write o
    → BoardStep p o
observe_edit-BoardStep o p settled h =
    let (r, j, i, ordered, rest) = observe_edit-write o p o h in
    let same : SameItem p o = record { repository = r; project = j; item = i } in
    elim rest [
      | inl e ↦ elim ((observe_pending-write o p o e).1) [
        | inl (stage, option, later) ↦ BoardStep.arrives settled stage option later ordered same
        | inr (stage, elsewhere, later) ↦
            BoardStep.resets settled stage elsewhere later ordered same
      ]
      | inr (free, e) ↦
          let (_, allowed, later) = observe_settled-write o p o e in
          BoardStep.owner_moves free settled allowed later same
    ]

observe_edit_self : (o p q : BoardProjection) → observe_edit o (some p) ≡ BoardEdit.write q → q ≡ o
observe_edit_self o p q h =
    let (_, _, _, _, rest) = observe_edit-write o p q h in
    elim rest [
      | inl e ↦ (observe_pending-write o p q e).0
      | inr (_, e) ↦ (observe_settled-write o p q e).0
    ]

pub begin_edit-write :
    (expected : BoardProjection) (stage option : String) (p q : BoardProjection)
    → begin_allowed expected stage option ≡ true
    → begin_edit expected stage option (some p) ≡ BoardEdit.write q
    → (p.pending_stage ≡ "")
      × (p ≡ expected)
      × (factory_transition expected.stage stage ≡ true)
      × (q ≡ with_intent expected stage option p)
unfolding begin_edit begin_allowed
begin_edit-write expected stage option p q ok h =
    ground (arith, eq_iff p.pending_stage "", board_projection_eq.test_iff p expected)

cancel_edit-write :
    (o : BoardProjection) (next : String) (p q : BoardProjection)
    → cancel_edit o next (some p) ≡ BoardEdit.write q
    → q ≡ without_intent p
unfolding cancel_edit
cancel_edit-write o next p q h = ground arith

pub commit_board-changed :
    (key : String) (s t : Ledger) (e : BoardEdit)
    → commit_board key s e ≡ Outcome.changed t tt
    → (q : BoardProjection) × (e ≡ BoardEdit.write q)
      × (t ≡ record s { projections = put key q s.projections })
commit_board-changed key s t BoardEdit.keep h = absurd (cc h)
commit_board-changed key s t (BoardEdit.write q) h = (q, refl, cc h)
commit_board-changed key s t (BoardEdit.reject e) h = absurd (cc h)

-- What a granted call has passed: the key, and the edit of what the ledger has there.
abbrev pub key_of : BoardCall → String
key_of (BoardCall.observes p) = p.issue_id
key_of (BoardCall.begins p stage option) = p.issue_id
key_of (BoardCall.cancels p next) = p.issue_id

abbrev pub edit_of : BoardCall → Option BoardProjection → BoardEdit
edit_of (BoardCall.observes p) = observe_edit p
edit_of (BoardCall.begins p stage option) = begin_edit p stage option
edit_of (BoardCall.cancels p next) = cancel_edit p next

-- The guard of a call.
unfoldable pub guard_of : BoardCall → Bool
guard_of (BoardCall.observes p) = projection_valid p && p.pending_stage == ""
guard_of (BoardCall.begins p stage option) = begin_allowed p stage option
guard_of (BoardCall.cancels p next) = cancel_allowed p next

require-changed :
    (ok : Bool) (e : Error) (f : Clock → Ledger → Outcome (Unit {0})) (clock : Clock) (s t : Ledger)
    → apply (require ok e (Operation.attempt f)) clock s ≡ Outcome.changed t tt
    → (ok ≡ true) × (f clock s ≡ Outcome.changed t tt)
unfolding require
require-changed true e f clock s t h = (refl, h)
require-changed false e f clock s t h = absurd (cc h)

pub board_operation-changed :
    (c : BoardCall) (clock : Clock) (s t : Ledger)
    → apply (board_operation c) clock s ≡ Outcome.changed t tt
    → (guard_of c ≡ true)
      × (commit_board (key_of c) s (edit_of c (get (key_of c) s.projections))
          ≡ Outcome.changed t tt)
unfolding board_operation observe_board begin_board_move cancel_board_move guard_of
board_operation-changed (BoardCall.observes p) clock s t h =
    require-changed (projection_valid p && p.pending_stage == "") Error.invalid
      (λ clock s. commit_board p.issue_id s (observe_edit p (get p.issue_id s.projections))) clock s
      t h
board_operation-changed (BoardCall.begins p stage option) clock s t h =
    require-changed (begin_allowed p stage option) Error.invalid
      (λ clock s.
        commit_board p.issue_id s (begin_edit p stage option (get p.issue_id s.projections)))
      clock s t h
board_operation-changed (BoardCall.cancels p next) clock s t h =
    require-changed (cancel_allowed p next) Error.invalid
      (λ clock s. commit_board p.issue_id s (cancel_edit p next (get p.issue_id s.projections)))
      clock s t h

edit_of-BoardStep :
    (c : BoardCall) (p q : BoardProjection)
    → guard_of c ≡ true
    → edit_of c (some p) ≡ BoardEdit.write q
    → BoardStep p q
unfolding guard_of
edit_of-BoardStep (BoardCall.observes o) p q ok h =
    let e : q ≡ o = observe_edit_self o p q h in
    let settled : o.pending_stage ≡ "" = ground (arith, eq_iff o.pending_stage "") in
    rw e (observe_edit-BoardStep o p settled (rw e at h))
edit_of-BoardStep (BoardCall.begins x stage option) p q ok h =
    let (free, same, allowed, e) = begin_edit-write x stage option p q ok h in
    rw (e, same) (BoardStep.begins (rw same at free) allowed)
edit_of-BoardStep (BoardCall.cancels o next) p q ok h =
    rw (cancel_edit-write o next p q h) BoardStep.cancels

-- What a call that changes the ledger does to the projection of any one issue.
pub data BoardEffect (c : BoardCall) (id : String) (s t : Ledger) : Type 0 where
  elsewhere :
      (key_of c == id) ≡ false → get id t.projections ≡ get id s.projections → BoardEffect c id s t
  creates :
      {q : BoardProjection}
      → key_of c ≡ id
      → c ≡ BoardCall.observes q
      → get id s.projections ≡ none
      → get id t.projections ≡ some q
      → BoardEffect c id s t
  moves :
      {p q : BoardProjection}
      → key_of c ≡ id
      → get id s.projections ≡ some p
      → get id t.projections ≡ some q
      → BoardStep p q
      → BoardEffect c id s t

-- Only an observation writes a projection that the ledger does not have.
edit_of-creates :
    (c : BoardCall) (q : BoardProjection)
    → edit_of c none ≡ BoardEdit.write q
    → c ≡ BoardCall.observes q
unfolding observe_edit begin_edit cancel_edit
edit_of-creates (BoardCall.observes p) q h = cc h
edit_of-creates (BoardCall.begins p stage option) q h = absurd (cc h)
edit_of-creates (BoardCall.cancels p next) q h = absurd (cc h)

-- A call on the board that changes the ledger makes one of the listed steps of the projection of
-- its issue, or, an observation, creates it, and leaves the entries of all other issues as they
-- were, also those that the ledger does not have.
pub board_call-BoardEffect :
    (c : BoardCall) (clock : Clock) (s t : Ledger) (id : String)
    → apply (board_operation c) clock s ≡ Outcome.changed t tt
    → BoardEffect c id s t
board_call-BoardEffect c clock s t id h =
    let (ok, committed) = board_operation-changed c clock s t h in
    let (q, edited, written) =
      commit_board-changed (key_of c) s t (edit_of c (get (key_of c) s.projections)) committed in
    let found : get id t.projections ≡ (if key_of c == id then some q else get id s.projections) =
      ap (λ (x : Ledger). get id x.projections) written ∙ get-put (key_of c) id q s.projections in
    elim (Bool-cases (key_of c == id)) [
      | inr other ↦ BoardEffect.elsewhere other (found ∙ rw other refl)
      | inl same ↦
          let k : key_of c ≡ id = (eq_iff (key_of c) id).0 same in
          elim (Option-cases (get id s.projections)) [
            | inl e ↦
                BoardEffect.creates k (edit_of-creates c q (rw (k, e) at edited)) e
                  (found ∙ rw same refl)
            | inr (p, e) ↦
                BoardEffect.moves k e (found ∙ rw same refl)
                  (edit_of-BoardStep c p q ok (rw (k, e) at edited))
          ]
    ]

-- A projection that the ledger has, after such a call.
pub board_call-BoardStep :
    (c : BoardCall) (clock : Clock) (s t : Ledger) (id : String) (p : BoardProjection)
    → apply (board_operation c) clock s ≡ Outcome.changed t tt
    → get id s.projections ≡ some p
    → (q : BoardProjection) × (get id t.projections ≡ some q) × ((q ≡ p) ⊎ BoardStep p q)
board_call-BoardStep c clock s t id p h e = go (board_call-BoardEffect c clock s t id h)
  where
    go :
        BoardEffect c id s t
        → (q : BoardProjection) × (get id t.projections ≡ some q) × ((q ≡ p) ⊎ BoardStep p q)
    go (BoardEffect.elsewhere other same) = (p, same ∙ e, inl refl)
    go (BoardEffect.creates k made absent now) = absurd (cc (absent, e))
    go (BoardEffect.moves {q = q} k before now step) =
        (q, now, inr (subst (λ x. BoardStep x q) (some_inj (sym before ∙ e)) step))
