-- ===== src/Engine/Admission.antt =====
-- `Admit`: a repeated admission returns the attempt of the first one.
use sofa.Base.{
  Option, String, ◌≡◌, refl, sym, ◌∙◌, ap, true, false, none, some, arith, inl, inr, Option-cases,
  Bool-cases,
}
use mathlib.Core.Path.{subst₂}
use sofa.Base.Int.{ℤ, pos}
use sofa.Base.Map.{get, get-put_self}
use sofa.State.Clock.{Time, is_zero}
use sofa.State.Records.{Phase, Admission, Limits, Counters, Attempt, SpecRecord, Ledger}
use sofa.State.Same.{admission_eq, limits_eq}
use sofa.State.Valid.{admission_valid, limits_valid}
use sofa.State.Validate.{AttemptKey, attempt_id}
use sofa.Engine.Outcome.{Outcome, Clock, apply, put_attempt, require}
use sofa.Engine.Admit.{
  Pick, Admitted, admit, admit_step, lowered, replay, find_prior, find_approved, create,
  approval_allows, after_specs, after_attempts, new_attempt, revision_of, no_counts,
}

-- What a created attempt is: new under its key, pending, undispatched, without owner, and with
-- the admission and the limits of the call.
pub record IsFresh (key : String) (m : Admission) (l : Limits) (s t : Ledger) (a : Attempt)
    : Type 0 where
  pub unknown : get key s.attempts ≡ none
  pub written : t ≡ put_attempt key a s
  pub id : a.id ≡ key
  pub admission : a.admission ≡ m
  pub limits : a.limits ≡ l
  pub phase : a.phase ≡ Phase.pending
  pub owner : a.owner ≡ none
  pub dispatch : a.dispatch ≡ "pending"
  pub generation : a.generation ≡ pos 0
  pub live : is_zero a.superseded_at ≡ true

-- The last part of the closure writes a new attempt under the key, if it writes.
create-changed :
    (id : String) (m : Admission) (limits : Limits) (clock : Clock) (s : Ledger)
    (prior : Option Attempt) (approved : Option SpecRecord) {t : Ledger} {r : Admitted}
    → create id m limits clock s prior approved ≡ Outcome.changed t r
    → (revision : ℤ) × (counts : Counters) × (t
        ≡ put_attempt id (new_attempt id m limits revision counts (clock 0)) s)
      × (r ≡ record { attempt = new_attempt id m limits revision counts (clock 0); created = true })
unfolding create
create-changed id m limits clock s none approved h =
    (revision_of approved, no_counts, ground arith, ground arith)
create-changed id m limits clock s (some p) approved h =
    (revision_of approved, p.counts, ground arith, ground arith)

abbrev Created : String → Admission → Limits → Clock → Ledger → Ledger → Admitted → Type 0
Created id m limits clock s t r =
    (revision : ℤ) × (counts : Counters) × (t
      ≡ put_attempt id (new_attempt id m limits revision counts (clock 0)) s)
    × (r ≡ record { attempt = new_attempt id m limits revision counts (clock 0); created = true })

specs-changed :
    (id : String) (m : Admission) (limits : Limits) (clock : Clock) (s : Ledger)
    (prior : Option Attempt) (found : Pick SpecRecord) {t : Ledger} {r : Admitted}
    → after_specs id m limits clock s prior found ≡ Outcome.changed t r
    → Created id m limits clock s t r
unfolding after_specs
specs-changed id m limits clock s prior Pick.ambiguous h = absurd (cc h)
specs-changed id m limits clock s prior (Pick.picked approved) h =
    elim (Bool-cases (approval_allows approved m)) [
      | inl go ↦ create-changed id m limits clock s prior approved (rw go at h)
      | inr stop ↦ absurd (cc (rw stop at h))
    ]

attempts-changed :
    (id : String) (m : Admission) (limits : Limits) (clock : Clock) (s : Ledger)
    (found : Pick Attempt) {t : Ledger} {r : Admitted}
    → after_attempts id m limits clock s found ≡ Outcome.changed t r
    → Created id m limits clock s t r
unfolding after_attempts
attempts-changed id m limits clock s Pick.ambiguous h = absurd (cc h)
attempts-changed id m limits clock s (Pick.picked prior) h =
    specs-changed id m limits clock s prior (find_approved m none s.specs) h

replay-unwritten :
    (m : Admission) (limits : Limits) (a : Attempt) (t : Ledger) (r : Admitted)
    → ¬ (replay m limits a ≡ Outcome.changed t r)
unfolding replay
replay-unwritten m limits a t r h = ground arith

step-changed :
    (id : String) (m : Admission) (limits : Limits) (clock : Clock) (s : Ledger) {t : Ledger}
    {r : Admitted}
    → admit_step id m limits clock s ≡ Outcome.changed t r
    → (get id s.attempts ≡ none) × Created id m limits clock s t r
unfolding admit_step
step-changed id m limits clock s {t} {r} h = elim (Option-cases (get id s.attempts)) [
  | inr (a, e) ↦ absurd (replay-unwritten m limits a t r (rw (e, admit_step) at h))
  | inl e ↦ (
    e,
    attempts-changed id m limits clock s (find_prior m none s.attempts) (rw (e, admit_step) at h),
  )
]

new_attempt-IsFresh :
    (key : String) (m : Admission) (l : Limits) (s : Ledger) (revision : ℤ) (counts : Counters)
    (now : Time)
    → get key s.attempts ≡ none
    → let a = new_attempt key m l revision counts now in IsFresh key m l s (put_attempt key a s) a
unfolding new_attempt
new_attempt-IsFresh key m l s revision counts now e = record {
  unknown = e;
  written = refl;
  id = refl;
  admission = refl;
  limits = refl;
  phase = refl;
  owner = refl;
  dispatch = refl;
  generation = refl;
  live = refl;
}

-- The same grant finds its attempt again.
replay_same :
    (m : Admission) (limits : Limits) (a : Attempt)
    → a.admission ≡ m
    → a.limits ≡ limits
    → is_zero a.superseded_at ≡ true
    → replay m limits a ≡ Outcome.unchanged (record { attempt = a; created = false })
unfolding replay
replay_same m limits a e f z =
    ground (arith, admission_eq.test_iff a.admission m, limits_eq.test_iff a.limits limits)

admit-guards :
    (digest : AttemptKey → String) (m : Admission) (limits : Limits) (clock : Clock) (s : Ledger)
    {t : Ledger} {r : Admitted}
    → apply (admit digest m limits) clock s ≡ Outcome.changed t r
    → (admission_valid m ≡ true)
      × (limits_valid limits ≡ true)
      × (admit_step (attempt_id digest (lowered m)) (lowered m) limits clock s
          ≡ Outcome.changed t r)
unfolding admit require
admit-guards digest m limits clock s h = elim (Bool-cases (admission_valid m)) [
  | inr bad ↦ absurd (cc (rw bad at h))
  | inl ok ↦ elim (Bool-cases (limits_valid limits)) [
    | inr bad ↦ absurd (cc (rw bad at (rw ok at h)))
    | inl good ↦ (ok, good, rw good at (rw ok at h))
  ]
]

admit-open :
    (digest : AttemptKey → String) (m : Admission) (limits : Limits) (clock : Clock) (s : Ledger)
    → admission_valid m ≡ true
    → limits_valid limits ≡ true
    → apply (admit digest m limits) clock s
      ≡ admit_step (attempt_id digest (lowered m)) (lowered m) limits clock s
unfolding admit require
admit-open digest m limits clock s ok good = rw ok (rw good refl)

created-IsFresh :
    (key : String) (m : Admission) (l : Limits) (s : Ledger) (revision : ℤ) (counts : Counters)
    (now : Time) {t : Ledger} {r : Admitted}
    → get key s.attempts ≡ none
    → t ≡ put_attempt key (new_attempt key m l revision counts now) s
    → r ≡ record { attempt = new_attempt key m l revision counts now; created = true }
    → (r.created ≡ true) × IsFresh key m l s t r.attempt
created-IsFresh key m l s revision counts now {t} {r} e st sr =
    subst₂ (λ (u : Ledger) (x : Admitted). (x.created ≡ true) × IsFresh key m l s u x.attempt)
      (sym st) (sym sr) (refl, new_attempt-IsFresh key m l s revision counts now e)

-- An admission that creates an attempt writes a fresh one under the identifier of the admission.
pub admit-IsFresh :
    (digest : AttemptKey → String) (m : Admission) (limits : Limits) (clock : Clock) (s : Ledger)
    {t : Ledger} {r : Admitted}
    → apply (admit digest m limits) clock s ≡ Outcome.changed t r
    → (r.created ≡ true) × IsFresh (attempt_id digest (lowered m)) (lowered m) limits s t r.attempt
admit-IsFresh digest m limits clock s h =
    let (_, _, step) = admit-guards digest m limits clock s h in
    let (e, made) = step-changed (attempt_id digest (lowered m)) (lowered m) limits clock s step in
    let (revision, counts, st, sr) = made in
    created-IsFresh (attempt_id digest (lowered m)) (lowered m) limits s revision counts (clock 0) e
      st sr

-- Replaying an admission, at any later time and by another delivery, on the ledger that it wrote
-- creates nothing: it changes no ledger and returns the attempt that the first call created.
pub admit_replayed :
    (digest : AttemptKey → String) (m : Admission) (limits : Limits) (clock later : Clock)
    (s : Ledger) {t : Ledger} {r : Admitted}
    → apply (admit digest m limits) clock s ≡ Outcome.changed t r
    → apply (admit digest m limits) later t
      ≡ Outcome.unchanged (record { attempt = r.attempt; created = false })
unfolding admit_step
admit_replayed digest m limits clock later s {t} {r} h =
    let key = attempt_id digest (lowered m) in
    let (ok, good, _) = admit-guards digest m limits clock s h in
    let fresh = (admit-IsFresh digest m limits clock s h).1 in
    let found : get key t.attempts ≡ some r.attempt =
      ap (λ (x : Ledger). get key x.attempts) fresh.written
      ∙ get-put_self key r.attempt s.attempts in
    admit-open digest m limits later t ok good
    ∙ rw (found, admit_step)
        (replay_same (lowered m) limits r.attempt fresh.admission fresh.limits fresh.live)
