-- ===== src/Board/Intents.antt =====
-- The life of a write intent: begun once, replayed without effect, and cancelled or fulfilled; and
-- what holds along every sequence of calls on the board.
use Prim.Native.Char.{code}
use Prim.Native.String.{◌++◌}
use Prim.Native.String.append.{cons}
use sofa.Base.{
  ℕ, eqb, ◌≤◌, String, ◌≡◌, refl, sym, ◌∙◌, Bool, true, false, inl, inr, some, arith, eq_iff,
  if◌then◌else◌, string_eq, nat_eq, Bool-cases, Option-cases, ap, ◌&&◌, ◌==◌,
}
use sofa.Base.Map.{get, put, get-put_self}
use sofa.State.Records.{BoardProjection, Ledger}
use sofa.State.Valid.{projection_valid}
use sofa.State.Same.{board_projection_eq}
use sofa.Engine.Outcome.{Error, Outcome, Clock, apply, require}
use sofa.Board.Projection.{
  BoardEdit, commit_board, factory_transition, with_intent, begin_allowed, begin_edit,
  begin_board_move, without_intent, cancel_allowed, cancel_edit, cancel_board_move,
}
use sofa.Board.Moves.{
  BoardCall, board_operation, SameItem, BoardStep, board_call-BoardStep, begin_edit-write, guard_of,
  board_operation-changed, commit_board-changed,
}

-- Calls on the board that changed the ledger, one after another.
pub data BoardRun : Ledger → Ledger → Type 0 where
  here : {s : Ledger} → BoardRun s s
  after_call :
      {s t u : Ledger} (c : BoardCall) (clock : Clock)
      → BoardRun s t
      → apply (board_operation c) clock t ≡ Outcome.changed u tt
      → BoardRun s u

BoardStep-time :
    (p q : BoardProjection) → BoardStep p q → (p.updated_at ≤ q.updated_at) × SameItem p q
BoardStep-time p q (BoardStep.owner_moves free settled allowed later same) = (ground arith, same)
BoardStep-time p q (BoardStep.arrives settled stage option later ordered same) =
    (ground arith, same)
BoardStep-time p q (BoardStep.resets settled stage elsewhere later ordered same) =
    (ground arith, same)
BoardStep-time p q (BoardStep.begins free allowed) =
    (ground arith, record { repository = refl; project = refl; item = refl })
BoardStep-time p q BoardStep.cancels =
    (ground arith, record { repository = refl; project = refl; item = refl })

SameItem-trans : (p q r : BoardProjection) → SameItem p q → SameItem q r → SameItem p r
SameItem-trans p q r x y = record {
  repository = x.repository ∙ y.repository;
  project = x.project ∙ y.project;
  item = x.item ∙ y.item;
}

-- Whatever sequence of calls on the board changes the ledger, a projection is never removed, keeps
-- its repository, Project and item, and its revision time never moves back.
pub board_forward :
    (s t : Ledger) (id : String) (p : BoardProjection)
    → BoardRun s t
    → get id s.projections ≡ some p
    → (q : BoardProjection) × (get id t.projections ≡ some q)
      × (p.updated_at ≤ q.updated_at)
      × SameItem p q
board_forward s t id p BoardRun.here e =
    (p, e, ground arith, record { repository = refl; project = refl; item = refl })
board_forward s t id p (BoardRun.after_call {t = m} c clock run h) e =
    let (q, f, le, same) = board_forward s m id p run e in
    let (r, g, how) = board_call-BoardStep c clock m t id q h f in
    elim how [
      | inl k ↦ (r, g, rw k le, rw k same)
      | inr step ↦
          let (further, keeps) = BoardStep-time q r step in
          (r, g, omega (arith, le, further), SameItem-trans p q r same keeps)
    ]

begin_fresh :
    (p : BoardProjection) (stage option : String)
    → begin_allowed p stage option ≡ true
    → begin_edit p stage option (some p) ≡ BoardEdit.write (with_intent p stage option p)
unfolding begin_edit begin_allowed
begin_fresh p stage option ok =
    ground (arith, eq_iff p.pending_stage "", board_projection_eq.test_iff p p)

begin_again :
    (p : BoardProjection) (stage option other : String) (choice : String)
    → (stage == "") ≡ false
    → begin_edit p other choice (some (with_intent p stage option p)) ≡ (
        if (stage == other) && option == choice
        then BoardEdit.keep
        else BoardEdit.reject Error.conflict)
unfolding begin_edit
begin_again p stage option other choice named = ground (arith, eq_iff p.option_id p.option_id)

-- The code point of the last character.
last_code : ℕ → String → ℕ
last_code d String.[] = d
last_code d (String.◌∷◌ c s) = last_code (code c) s

last_code-append : (d : ℕ) (s : String) → last_code d (s ++ ">") ≡ 62
unfolding last_code
last_code-append d String.[] = refl
last_code-append d (String.◌∷◌ c s) = rw (cons c s ">") (last_code-append (code c) s)

-- A text that ends in the separator of the transitions is none of them.
open_edge :
    (from edge : String) → eqb (last_code 0 edge) 62 ≡ false → ((from ++ ">") == edge) ≡ false
open_edge from edge h = elim (Bool-cases ((from ++ ">") == edge)) [
  | inr other ↦ other
  | inl same ↦
      let e : last_code 0 edge ≡ 62 =
        ap (last_code 0) (sym ((eq_iff (from ++ ">") edge).0 same)) ∙ last_code-append 0 from in
      ground arith
]

unnamed : (from : String) → factory_transition from "" ≡ false
unfolding factory_transition last_code
unnamed from = ground (
  arith,
  open_edge from "ready>building" refl,
  open_edge from "building>verification" refl,
  open_edge from "verification>review" refl,
  open_edge from "review>release" refl,
  open_edge from "release>done" refl,
  open_edge from "review>building" refl,
  open_edge from "verification>building" refl,
)

factory_named : (from to : String) → factory_transition from to ≡ true → (to == "") ≡ false
factory_named from to h = elim (Bool-cases (to == "")) [
  | inr named ↦ named
  | inl empty ↦ absurd (cc (unnamed from, rw ((eq_iff to "").0 empty) at h))
]

-- A move that was begun: its arguments, and the projection before and after.
begun :
    (p : BoardProjection) (stage option : String) (clock : Clock) (s t : Ledger)
    → apply (begin_board_move p stage option) clock s ≡ Outcome.changed t tt
    → (begin_allowed p stage option ≡ true)
      × (get p.issue_id t.projections ≡ some (with_intent p stage option p))
unfolding guard_of board_operation begin_edit
begun p stage option clock s t h =
    let (ok, committed) = board_operation-changed (BoardCall.begins p stage option) clock s t h in
    let (q, edited, written) =
      commit_board-changed p.issue_id s t (begin_edit p stage option (get p.issue_id s.projections))
        committed in
    elim (Option-cases (get p.issue_id s.projections)) [
      | inl e ↦ absurd (cc (rw e at edited))
      | inr (x, e) ↦
          let (free, same, allowed, w) = begin_edit-write p stage option x q ok (rw e at edited) in
          (
            ok,
            ap (λ (y : Ledger). get p.issue_id y.projections) written
                ∙ get-put_self p.issue_id q s.projections
                ∙ ap some (w ∙ ap (with_intent p stage option) same),
          )
    ]

allowed-named :
    (p : BoardProjection) (stage option : String)
    → begin_allowed p stage option ≡ true
    → ((stage == "") ≡ false) × ((p.pending_stage == "") ≡ true) × (projection_valid p ≡ true)
unfolding begin_allowed
allowed-named p stage option ok = ground (arith, factory_named p.stage stage)

commit_verdict :
    (key : String) (t : Ledger) (same : Bool)
    → commit_board key t (if same then BoardEdit.keep else BoardEdit.reject Error.conflict)
      ≡ (if same then Outcome.unchanged tt else Outcome.failed Error.conflict)
commit_verdict key t true = refl
commit_verdict key t false = refl

-- After a move was begun, beginning the same move again changes nothing, and beginning any other
-- allowed move from the same revision is a conflict, at any time.
pub intent_replayed :
    (p : BoardProjection) (stage option other choice : String) (clock later : Clock) (s t : Ledger)
    → apply (begin_board_move p stage option) clock s ≡ Outcome.changed t tt
    → begin_allowed p other choice ≡ true
    → apply (begin_board_move p other choice) later t ≡ (
        if (stage == other) && option == choice
        then Outcome.unchanged tt
        else Outcome.failed Error.conflict)
intent_replayed p stage option other choice clock later s t h ok =
    let (fine, found) = begun p stage option clock s t h in
    let named = (allowed-named p stage option fine).0 in
    unfold begin_board_move require in
    rw (ok, found, begin_again p stage option other choice named)
      (commit_verdict p.issue_id t ((stage == other) && option == choice))

-- A valid projection without a pending move has its other fields of the intent empty.
no_intent :
    (p : BoardProjection)
    → projection_valid p ≡ true
    → (p.pending_stage == "") ≡ true
    → (p.pending_stage ≡ "")
      × (p.pending_option_id ≡ "")
      × (p.pending_from_option_id ≡ "")
      × (p.pending_from_updated_at ≡ 0)
unfolding projection_valid
no_intent p ok free = ground (
  arith,
  eq_iff p.pending_stage "",
  eq_iff p.pending_option_id "",
  eq_iff p.pending_from_option_id "",
)

cleared :
    (p : BoardProjection) (stage option : String)
    → projection_valid p ≡ true
    → (p.pending_stage == "") ≡ true
    → without_intent (with_intent p stage option p) ≡ p
cleared p stage option ok free =
    let (a, b, c, d) = no_intent p ok free in
    λ i. record p {
      pending_stage = sym a i;
      pending_option_id = sym b i;
      pending_from_option_id = sym c i;
      pending_from_updated_at = sym d i;
    }

cancel_begun :
    (p : BoardProjection) (stage option next : String)
    → (stage == "") ≡ false
    → (stage == next) ≡ false
    → without_intent (with_intent p stage option p) ≡ p
    → cancel_edit p next (some (with_intent p stage option p)) ≡ BoardEdit.write p
unfolding cancel_edit
cancel_begun p stage option next named other back =
    ground (arith, board_projection_eq.test_iff (without_intent (with_intent p stage option p)) p)

-- A move that was begun can be cancelled from the revision that it started at, for any other next
-- stage, and the projection is then what it was before.
pub intent_cancelled :
    (p : BoardProjection) (stage option next : String) (clock later : Clock) (s t : Ledger)
    → apply (begin_board_move p stage option) clock s ≡ Outcome.changed t tt
    → cancel_allowed p next ≡ true
    → (stage == next) ≡ false
    → (u : Ledger) × (apply (cancel_board_move p next) later t ≡ Outcome.changed u tt)
      × (get p.issue_id u.projections ≡ some p)
intent_cancelled p stage option next clock later s t h ok other =
    let (fine, found) = begun p stage option clock s t h in
    let (named, free, valid) = allowed-named p stage option fine in
    let back = cleared p stage option valid free in
    (
      record t { projections = put p.issue_id p t.projections },
      unfold cancel_board_move require in
          rw (ok, found, cancel_begun p stage option next named other back) refl,
      get-put_self p.issue_id p t.projections,
    )
