-- ===== src/State/SameTask.antt =====
-- Go's `==` on the phases of Discovery work.
use sofa.Base.{◌≡◌, ◌↔◌, Bool, true, false, arith, eq_iff, Equality, ◌==◌, string_eq}
use sofa.State.Records.{DiscoveryPhase}

pub discovery_phase_test : DiscoveryPhase → DiscoveryPhase → Bool
discovery_phase_test DiscoveryPhase.pending DiscoveryPhase.pending = true
discovery_phase_test DiscoveryPhase.running DiscoveryPhase.running = true
discovery_phase_test DiscoveryPhase.review DiscoveryPhase.review = true
discovery_phase_test DiscoveryPhase.blocked DiscoveryPhase.blocked = true
discovery_phase_test DiscoveryPhase.canceled DiscoveryPhase.canceled = true
discovery_phase_test (DiscoveryPhase.unknown s) (DiscoveryPhase.unknown t) = s == t
discovery_phase_test _ _ = false

pub discovery_phase_test_iff : (a b : DiscoveryPhase) → (discovery_phase_test a b ≡ true) ↔ (a ≡ b)
unfolding discovery_phase_test
discovery_phase_test_iff (DiscoveryPhase.unknown s) (DiscoveryPhase.unknown t) =
    ground (arith, eq_iff s t)
discovery_phase_test_iff DiscoveryPhase.pending b = ground arith
discovery_phase_test_iff a b = ground arith

instance unfoldable pub discovery_phase_eq : Equality DiscoveryPhase
unfolding discovery_phase_test
discovery_phase_eq = record { test = discovery_phase_test; test_iff = discovery_phase_test_iff }
