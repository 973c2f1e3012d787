-- ===== src/System/Grants.antt =====
-- The authorization of an attempt along every sequence of operations of the engine.
use sofa.Base.{String, ◌≡◌, refl, ◌∙◌, ◌⊎◌, inl, inr, true, Option, some, arith}
use sofa.Base.Map.{get}
use sofa.State.Clock.{is_zero}
use sofa.State.Records.{Publication, RevertScanCursor, Attempt, Ledger}
use sofa.State.Same.{attempt_eq}
use sofa.State.Validate.{AttemptKey, validate}
use sofa.Engine.Outcome.{Clock, Edit}
use sofa.Engine.Ownership.{stamp}
use sofa.Engine.Changes.{SameAuthority, Change-SameAuthority}
use sofa.Repair.Reserve.{exhausted, repair_claimed, reserved, release_repair, release_repair_edit}
use sofa.Repair.Publish.{
  begin_repair_edit, mark_repair_edit, reconciled, reconcile_edit, fail_repair_edit,
}
use sofa.Discovery.Revise.{superseded_by}
use sofa.Scans.Revert.{advance_scan_edit}
use sofa.System.Change.{SystemChange}
use sofa.System.Fences.{SystemRun, SystemRun-keeps}

-- What an attempt was admitted with, and that a supersession is for good.
pub record SameGrant (a b : Attempt) : Type 0 where
  pub id : b.id ≡ a.id
  pub admission : b.admission ≡ a.admission
  pub spec_revision : b.spec_revision ≡ a.spec_revision
  pub limits : b.limits ≡ a.limits
  pub created_at : b.created_at ≡ a.created_at
  pub superseded :
      (is_zero a.superseded_at ≡ true)
      ⊎ (b.superseded_at ≡ a.superseded_at)
        × (b.superseded_source_digest ≡ a.superseded_source_digest)

kept_authority : (a b : Attempt) → SameAuthority a b → SameGrant a b
kept_authority a b s = record {
  id = s.id;
  admission = s.admission;
  spec_revision = s.spec_revision;
  limits = s.limits;
  created_at = s.created_at;
  superseded = inr (s.superseded_at, s.superseded_source_digest);
}

same_grant : (a b : Attempt) → b ≡ a → SameGrant a b
same_grant a b e = rw e record {
  id = refl;
  admission = refl;
  spec_revision = refl;
  limits = refl;
  created_at = refl;
  superseded = inr (refl, refl);
}

release-SameAuthority :
    (expected : Attempt) (clock : Clock) (a b : Attempt)
    → release_repair_edit expected clock a ≡ Edit.write b
    → SameAuthority a b
unfolding release_repair_edit release_repair
release-SameAuthority expected clock a b h = ground arith

begin-SameAuthority :
    (digest commit : String) (clock : Clock) (a b : Attempt)
    → stamp clock a (begin_repair_edit digest commit a) ≡ Edit.write b
    → SameAuthority a b
unfolding stamp begin_repair_edit
begin-SameAuthority digest commit clock a b h = ground arith

mark-SameAuthority :
    (p : Publication) (clock : Clock) (a b : Attempt)
    → stamp clock a (mark_repair_edit p a) ≡ Edit.write b
    → SameAuthority a b
unfolding stamp mark_repair_edit
mark-SameAuthority p clock a b h = ground arith

fail-SameAuthority :
    (clock : Clock) (a b : Attempt)
    → stamp clock a (fail_repair_edit a) ≡ Edit.write b
    → SameAuthority a b
unfolding stamp fail_repair_edit
fail-SameAuthority clock a b h = ground arith

reconcile-SameAuthority :
    (expected : Attempt) (p : Publication) (clock : Clock) (s : Ledger) (a b : Attempt)
    → reconcile_edit expected p clock s a ≡ Edit.write b
    → SameAuthority a b
unfolding reconcile_edit reconciled
reconcile-SameAuthority expected p clock s a b h = ground arith

scan-SameAuthority :
    (s : Ledger) (id : String) (expected : Option RevertScanCursor) (next : RevertScanCursor)
    (a b : Attempt)
    → advance_scan_edit s id expected next a ≡ Edit.write b
    → SameAuthority a b
unfolding advance_scan_edit
scan-SameAuthority s id expected next a b h = ground arith

SystemChange-SameGrant : (a b : Attempt) → SystemChange a b → SameGrant a b
unfolding exhausted repair_claimed reserved superseded_by
SystemChange-SameGrant a b (SystemChange.delivered change) =
    kept_authority a b (Change-SameAuthority change)
SystemChange-SameGrant a b (SystemChange.exhausts clock p) = ground arith
SystemChange-SameGrant a b (SystemChange.claims clock owner charge p) = ground arith
SystemChange-SameGrant a b (SystemChange.reserves clock intent live free p room) = ground arith
SystemChange-SameGrant a b (SystemChange.releases expected clock h) =
    kept_authority a b (release-SameAuthority expected clock a b h)
SystemChange-SameGrant a b (SystemChange.begins digest commit clock h) =
    kept_authority a b (begin-SameAuthority digest commit clock a b h)
SystemChange-SameGrant a b (SystemChange.publishes p clock h) =
    kept_authority a b (mark-SameAuthority p clock a b h)
SystemChange-SameGrant a b (SystemChange.reconciles now expected proof p clock s ok h) =
    kept_authority a b (reconcile-SameAuthority expected p clock s a b h)
SystemChange-SameGrant a b (SystemChange.fails clock h) =
    kept_authority a b (fail-SameAuthority clock a b h)
SystemChange-SameGrant a b (SystemChange.supersedes at updated source live) = ground arith
SystemChange-SameGrant a b (SystemChange.scans s id expected next h) =
    kept_authority a b (scan-SameAuthority s id expected next a b h)

SameGrant-trans : (a b c : Attempt) → SameGrant a b → SameGrant b c → SameGrant a c
SameGrant-trans a b c x y = record {
  id = y.id ∙ x.id;
  admission = y.admission ∙ x.admission;
  spec_revision = y.spec_revision ∙ x.spec_revision;
  limits = y.limits ∙ x.limits;
  created_at = y.created_at ∙ x.created_at;
  superseded = elim (x.superseded) [
    | inl live ↦ inl live
    | inr (at, source) ↦ elim (y.superseded) [
      | inl live ↦ inl (rw at at live)
      | inr (later, digest) ↦ inr (later ∙ at, digest ∙ source)
    ]
  ];
}

-- Whatever operations of the engine are committed after a valid ledger (deliveries, admissions,
-- repairs, discovery work with the supersession of attempts, board moves, polls and revert scans),
-- an attempt stays in the ledger with its identity, admission, specification revision, limits and
-- creation time; and once it was superseded, the time and the source digest of that stay too.
pub authority_kept :
    (digest : AttemptKey → String) (s t : Ledger) (id : String) (a : Attempt)
    → validate digest s ≡ true
    → get id s.attempts ≡ some a
    → SystemRun digest s t
    → (b : Attempt) × (get id t.attempts ≡ some b) × SameGrant a b
authority_kept digest s t id a v found run =
    SystemRun-keeps digest (SameGrant a) id
      (λ x y _ _ change kept. SameGrant-trans a x y kept (SystemChange-SameGrant x y change)) a v
      found (same_grant a a refl) run
