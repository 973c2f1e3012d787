-- ===== src/Lifecycle/Stages.antt =====
-- internal/lifecycle/lifecycle.go: Stage, Statuses, PollPlan.
-- A mapping is an association list with each stage at most once, in the order of its `range`.
use sofa.Base.{
  ℕ, ◌+◌, ◌*◌, ◌/◌, String, Bool, true, false, not, Option, none, some, List, [], ◌∷◌, ◌&&◌, ◌||◌,
  ◌==◌, string_eq, ltb, eqb, if◌then◌else◌, length, any,
}
use sofa.Base.Text.{byte_len, contains_any}
use sofa.Base.Map.{Map, get}
use sofa.State.Clock.{Time, is_zero, before, minute, hour, sub_time}

-- The canonical stages, `Stages`.
abbrev pub stages : List String
stages =
    "inbox" ∷ "discovery" ∷ "spec_review" ∷ "backlog" ∷ "ready" ∷ "building" ∷ "verification"
    ∷ "review" ∷ "release" ∷ "done" ∷ []

-- `m[stage]`, the empty text for a stage that the mapping lacks.
unfoldable pub status_of : Map String → String → String
status_of m stage = elim (get stage m) [ none ↦ "" | some name ↦ name ]

-- The loop of `Statuses.Validate`, with the names seen so far. `trimmed` is strings.TrimSpace.
unfoldable pub statuses_distinct : (String → String) → Map String → List String → List String → Bool
statuses_distinct trimmed m seen [] = true
statuses_distinct trimmed m seen (stage ∷ rest) =
    let name = status_of m stage in
    let later = statuses_distinct trimmed m (name ∷ seen) rest in
    if (name == "")
      || ltb 100 (byte_len name)
      || not (trimmed name == name)
      || contains_any name (0 ∷ 13 ∷ 10 ∷ [])
      || any (λ x. x == name) seen
    then false
    else later

-- `Statuses.Validate`
unfoldable pub statuses_valid : (String → String) → Map String → Bool
unfolding statuses_distinct
statuses_valid trimmed m = eqb (length m) (length stages) && statuses_distinct trimmed m [] stages

-- `Statuses.StageFor`
unfoldable pub stage_for : Map String → String → Option String
stage_for [] name = none
stage_for ((stage, display) ∷ m) name = if name == display then some stage else stage_for m name

-- `PollPlan`
pub record PollPlan : Type 0 where
  pub due : Bool
  pub next : Time
  pub wake_id : String
  pub missed : ℕ

-- `PlanPoll`; `none` is its error.
unfoldable pub plan_poll : Time → Time → ℕ → String → String → Option PollPlan
plan_poll now last interval last_wake wake =
    let event_due = not (wake == "") && not (wake == last_wake) in
    let time_due = is_zero last || not (before now (last + interval)) in
    if is_zero now
      || ltb interval minute
      || ltb (24 * hour) interval
      || ltb 512 (byte_len wake)
      || contains_any wake (0 ∷ 13 ∷ 10 ∷ [])
    then none
    else if not (is_zero last) && before now last
    then none
    else if not time_due && not event_due
    then some (record { due = false; next = last + interval; wake_id = last_wake; missed = 0 })
    else some (record {
      due = true;
      next = now + interval;
      wake_id = if event_due then wake else last_wake;
      missed =
          if not (is_zero last) && not (before now last) then sub_time now last / interval else 0;
    })
