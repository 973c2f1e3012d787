-- ===== src/System/Limit.antt =====
-- maxActive of AdmitDiscovery, against every call of internal/state/discovery.go.
use sofa.Base.{
  ◌≤◌, ℕ, String, Bool, ◌≡◌, refl, sym, true, false, Option, none, some, arith, if◌then◌else◌, ◌==◌,
  option_eq, string_eq, ◌||◌,
}
use mathlib.Core.Path.{subst}
use sofa.Base.Map.{count_entries}
use sofa.State.Records.{DiscoveryPhase, DiscoveryPublication, DiscoveryTask, Ledger, Owner}
use sofa.State.SameTask.{discovery_phase_eq}
use sofa.Engine.Outcome.{Clock}
use sofa.Engine.Recovery.{RunProof}
use sofa.Discovery.Task.{DiscoveryFence, TaskEdit}
use sofa.Discovery.Work.{
  claim_discovery_edit, discovery_claimed_by, prepare_edit, mark_post_edit, complete_edit,
  fail_discovery_edit, recover_discovery_edit, cancel_discovery_edit, SpecComment,
}
use sofa.Discovery.Terms.{in_progress}
use sofa.System.Tasks.{TaskWrite}
use sofa.System.Wip.{IsMap, put-IsMap, count_entries-put}

-- An edit that brings no task into progress.
abbrev is_active : DiscoveryTask → Bool
is_active d = (d.phase == DiscoveryPhase.pending) || d.phase == DiscoveryPhase.running

pub data Calm (c e : DiscoveryTask) : Type 0 where
  was_active : e.repository ≡ c.repository → is_active c ≡ true → Calm c e
  not_active : is_active e ≡ false → Calm c e
  same_phase : e.repository ≡ c.repository → e.phase ≡ c.phase → Calm c e

pub claim-Calm :
    (id : String) (owner : Owner) (clock : Clock) (c e : DiscoveryTask) (r : DiscoveryFence)
    → claim_discovery_edit id owner clock c ≡ TaskEdit.write e r
    → Calm c e
unfolding claim_discovery_edit discovery_claimed_by
claim-Calm id owner clock c e r w = Calm.was_active (ground arith) (ground arith)

pub prepare-Calm :
    (f : DiscoveryFence) (source key : String) (clock : Clock) (c e : DiscoveryTask) (r : Unit {0})
    → prepare_edit f source key clock c ≡ TaskEdit.write e r
    → Calm c e
unfolding prepare_edit
prepare-Calm f source key clock c e r w = Calm.same_phase (ground arith) (ground arith)

pub post-Calm :
    (source key : String) (clock : Clock) (c e : DiscoveryTask) (o : Option DiscoveryPublication)
    (r : Bool)
    → mark_post_edit source key clock c o ≡ TaskEdit.write e r
    → Calm c e
unfolding mark_post_edit
post-Calm source key clock c e none r w = absurd (cc w)
post-Calm source key clock c e (some p) r w = Calm.same_phase (ground arith) (ground arith)

off-Calm :
    (c e : DiscoveryTask) (q : DiscoveryPhase)
    → e.phase ≡ q
    → ((q == DiscoveryPhase.pending) || q == DiscoveryPhase.running) ≡ false
    → Calm c e
off-Calm c e q same off = Calm.not_active (rw same off)

pub complete-Calm :
    (x : SpecComment) (clock : Clock) (c e : DiscoveryTask) (r : Unit {0})
    → complete_edit x clock c ≡ TaskEdit.write e r
    → Calm c e
unfolding complete_edit discovery_phase_eq
complete-Calm x clock c e r w = off-Calm c e DiscoveryPhase.review (ground arith) refl

pub fail-Calm :
    (kind : String) (clock : Clock) (c e : DiscoveryTask) (r : Unit {0})
    → fail_discovery_edit kind clock c ≡ TaskEdit.write e r
    → Calm c e
unfolding fail_discovery_edit discovery_phase_eq
fail-Calm kind clock c e r w = off-Calm c e DiscoveryPhase.blocked (ground arith) refl

pub recover-Calm :
    (proof : RunProof) (clock : Clock) (c e : DiscoveryTask) (r : Unit {0})
    → recover_discovery_edit proof clock c ≡ TaskEdit.write e r
    → Calm c e
unfolding recover_discovery_edit
recover-Calm proof clock c e r w = Calm.was_active (ground arith) (ground arith)

pub cancel-Calm :
    (clock : Clock) (c e : DiscoveryTask) (r : Unit {0})
    → cancel_discovery_edit clock c ≡ TaskEdit.write e r
    → Calm c e
unfolding cancel_discovery_edit discovery_phase_eq
cancel-Calm clock c e r w = off-Calm c e DiscoveryPhase.canceled (ground arith) refl

-- A repository has at most `n` tasks in progress, each key of the tasks standing once.
unfoldable pub WithinLimit : String → ℕ → Ledger → Type 0
unfolding IsMap in_progress
WithinLimit q n s = IsMap s.discoveries × (count_entries (in_progress q) s.discoveries ≤ n)

Calm-in_progress :
    (q : String) (c e : DiscoveryTask)
    → Calm c e
    → (if in_progress q e then 1 else 0) ≤ (if in_progress q c then 1 else 0)
unfolding in_progress
Calm-in_progress q c e (Calm.was_active r h) = rw r (ground arith)
Calm-in_progress q c e (Calm.not_active h) = ground arith
Calm-in_progress q c e (Calm.same_phase r p) = rw (r, p) (omega arith)

pub TaskWrite-WithinLimit :
    {R : Type 0} (q : String) (n : ℕ) (key : String) (s : Ledger) (f : DiscoveryTask → TaskEdit R)
    {t : Ledger}
    → ((c e : DiscoveryTask) (r : R) → f c ≡ TaskEdit.write e r → Calm c e)
    → WithinLimit q n s
    → TaskWrite f key s t
    → WithinLimit q n t
unfolding WithinLimit
TaskWrite-WithinLimit q n key s f calm (u, below) (c, e, r, at, w, same) =
    let counted = count_entries-put (in_progress q) key c e s.discoveries at in
    let less = Calm-in_progress q c e (calm c e r w) in
    subst (WithinLimit q n) (sym same) (put-IsMap key e s.discoveries u, omega arith)
