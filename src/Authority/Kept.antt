-- ===== src/Authority/Kept.antt =====
-- internal/admission/admission.go: what keeps a grant, and what a kept grant tells.
use sofa.Base.{
  String, Bool, ◌≡◌, refl, sym, ◌∙◌, ap, inl, inr, true, false, not, some, arith, eq_iff,
  Bool-cases, Option-cases, if◌then◌else◌, ◌||◌, ◌==◌, string_eq, nat_eq, some_inj, ◌<◌, ◌↔◌,
}
use sofa.Base.Int.{int_eq, int_test_iff}
use sofa.Lifecycle.Gates.{commit_pattern}
use sofa.Config.Records.{Config, Lifecycle}
use sofa.Authority.Libraries.{Libraries, digest_of, spec_of}
use sofa.Authority.Grant.{Snapshot, Grant, CanonicalSpec, same_grant}
use sofa.Authority.Authorize.{
  unedited_since, is_ready, grant_of, authorize_spec, authorize, revalidate_grant, revalidate,
  as_ready, in_delivery, revalidate_later, revalidate_delivery,
}

same_grant_iff : (a b : Grant) → (same_grant a b ≡ true) ↔ (a ≡ b)
unfolding same_grant
same_grant_iff a b = ground (
  arith,
  int_test_iff a.version b.version,
  eq_iff a.repository b.repository,
  eq_iff a.repository_id b.repository_id,
  eq_iff a.issue_id b.issue_id,
  int_test_iff a.issue_number b.issue_number,
  eq_iff a.project_id b.project_id,
  eq_iff a.owner_id b.owner_id,
  eq_iff a.spec_digest b.spec_digest,
  eq_iff a.config_digest b.config_digest,
  eq_iff a.base_sha b.base_sha,
  eq_iff a.project_item_id b.project_item_id,
  eq_iff a.status_option_id b.status_option_id,
)

-- What `Authorize` granted.
pub record Authorized (lib : Libraries) (c : Config) (s : Snapshot) (g : Grant) : Type 0 where
  pub config_digest : String
  pub spec : CanonicalSpec
  pub configured : digest_of lib c ≡ some config_digest
  pub specified : spec_of lib s.title s.body ≡ some spec
  pub ready : is_ready c s ≡ true
  pub granted : g ≡ grant_of c s spec.digest config_digest

is_ready-base :
    (c : Config) (s : Snapshot) (base : String)
    → is_ready c s ≡ true
    → commit_pattern base ≡ true
    → is_ready c (record s { base_sha = base }) ≡ true
unfolding is_ready unedited_since
is_ready-base c s base h b = ground arith

is_ready-status :
    (c : Config) (s : Snapshot) → is_ready c s ≡ true → (s.current_status == c.ready_status) ≡ true
unfolding is_ready
is_ready-status c s h = ground arith

module _ (lib : Libraries) where
  authorize-Authorized :
      (c : Config) (s : Snapshot) (g : Grant) (encoded : String)
      → authorize lib c s ≡ some (g, encoded)
      → Authorized lib c s g
  unfolding authorize authorize_spec
  authorize-Authorized c s g encoded h = elim (Option-cases (digest_of lib c)) [
    | inl e ↦ absurd (cc (rw (e, authorize) at h))
    | inr (digest, e) ↦ elim (Bool-cases (is_ready c s)) [
      | inr refused ↦ absurd (cc (rw (e, authorize, refused) at h))
      | inl ready ↦ elim (Option-cases (spec_of lib s.title s.body)) [
        | inl f ↦ absurd (cc (rw (e, authorize, ready, f) at h))
        | inr (spec, f) ↦
            let given : some (grant_of c s spec.digest digest, spec.encoded) ≡ some (g, encoded) =
              rw (e, authorize, ready, f) at h in
            record {
              config_digest = digest;
              spec = spec;
              configured = e;
              specified = f;
              ready = ready;
              granted = ap (λ p. p.0) (sym (some_inj given));
            }
      ]
    ]
  ]

  Authorized-authorize :
      (c : Config) (s : Snapshot) (g : Grant)
      → (a : Authorized lib c s g) → authorize lib c s ≡ some (g, a.spec.encoded)
  unfolding authorize authorize_spec
  Authorized-authorize c s g a =
      rw (a.configured, authorize, a.ready, a.specified)
        (ap (λ x. some (x, a.spec.encoded)) (sym a.granted))

  -- The grant of a snapshot stays good for the same configuration and snapshot while the default
  -- branch advances: to whatever commit it moves, Revalidate and RevalidateDelivery accept the
  -- grant.
  pub grant-kept :
      (c : Config) (s : Snapshot) (g : Grant) (encoded base : String)
      → authorize lib c s ≡ some (g, encoded)
      → commit_pattern base ≡ true
      → (revalidate lib c (record s { base_sha = base }) g ≡ true)
        × (revalidate_delivery lib c (record s { base_sha = base }) g ≡ true)
  unfolding revalidate revalidate_grant revalidate_delivery
  grant-kept c s g encoded base h b =
      let a = authorize-Authorized c s g encoded h in
      let moved = record s { base_sha = base } in
      let again : Authorized lib c moved (record g { base_sha = base }) = record {
        config_digest = a.config_digest;
        spec = a.spec;
        configured = a.configured;
        specified = a.specified;
        ready = is_ready-base c s base a.ready b;
        granted = ap (λ (x : Grant). record x { base_sha = base }) a.granted;
      } in
      let kept : revalidate lib c moved g ≡ true =
        rw (Authorized-authorize c moved (record g { base_sha = base }) again, revalidate)
          ((same_grant_iff g g).1 refl) in
      (kept, rw (is_ready-status c s a.ready, revalidate_delivery) kept)

  revalidate-Authorized :
      (c : Config) (s : Snapshot) (e : Grant)
      → revalidate lib c s e ≡ true
      → (g : Grant) × Authorized lib c s g × (record g { base_sha = e.base_sha } ≡ e)
  unfolding revalidate revalidate_grant
  revalidate-Authorized c s e h = elim (Option-cases (authorize lib c s)) [
    | inl f ↦ absurd (cc (rw (f, revalidate) at h))
    | inr ((g, encoded), f) ↦
        (g, authorize-Authorized c s g encoded f, (same_grant_iff _ _).0 (rw (f, revalidate) at h))
  ]

-- What a kept grant says of the configuration and the snapshot.
pub record Scope (lib : Libraries) (c : Config) (s : Snapshot) (e : Grant) : Type 0 where
  pub configured : digest_of lib c ≡ some e.config_digest
  pub spec : CanonicalSpec
  pub specified : spec_of lib s.title s.body ≡ some spec
  pub unchanged : spec.digest ≡ e.spec_digest
  pub opened : s.opened ≡ true
  pub issue : s.issue_id ≡ e.issue_id
  pub item : s.project_item_id ≡ e.project_item_id
  pub unedited : unedited_since e.status_updated_at s ≡ true

-- The Project status, at Ready or past it.
pub data StatusKept (c : Config) (s : Snapshot) (e : Grant) : Type 0 where
  at_ready :
      (s.current_status == c.ready_status) ≡ true
      → s.status_option_id ≡ e.status_option_id
      → s.status_updated_at ≡ e.status_updated_at
      → StatusKept c s e
  advanced :
      (l : Lifecycle)
      → c.lifecycle ≡ some l
      → in_delivery l s ≡ true
      → e.status_updated_at < s.status_updated_at
      → StatusKept c s e

is_ready-facts :
    (c : Config) (s : Snapshot)
    → is_ready c s ≡ true
    → (s.opened ≡ true) × (unedited_since s.status_updated_at s ≡ true)
unfolding is_ready
is_ready-facts c s h = (ground arith, ground arith)

-- The tests of `RevalidateDelivery` past Ready.
later_guards :
    (a b d u r : Bool)
    → (if a || not b then false else if not d || not u then false else r) ≡ true
    → (b ≡ true) × (d ≡ true) × (u ≡ true) × (r ≡ true)
later_guards a b d u r h = (ground arith, ground arith, ground arith, ground arith)

module _ (lib : Libraries) where
  revalidate-Scope :
      (c : Config) (s : Snapshot) (e : Grant)
      → revalidate lib c s e ≡ true
      → Scope lib c s e
        × (s.status_option_id ≡ e.status_option_id)
        × (s.status_updated_at ≡ e.status_updated_at)
  unfolding grant_of
  revalidate-Scope c s e h =
      let (g, a, same) = revalidate-Authorized lib c s e h in
      let whole : record (grant_of c s a.spec.digest a.config_digest) { base_sha = e.base_sha }
          ≡ e =
        ap (λ (x : Grant). record x { base_sha = e.base_sha }) (sym a.granted) ∙ same in
      let (opened, unedited) = is_ready-facts c s a.ready in
      let updated : s.status_updated_at ≡ e.status_updated_at =
        ap (λ (x : Grant). x.status_updated_at) whole in
      (
        record {
          configured = a.configured ∙ ap some (ap (λ (x : Grant). x.config_digest) whole);
          spec = a.spec;
          specified = a.specified;
          unchanged = ap (λ (x : Grant). x.spec_digest) whole;
          opened = opened;
          issue = ap (λ (x : Grant). x.issue_id) whole;
          item = ap (λ (x : Grant). x.project_item_id) whole;
          unedited = ap (λ t. unedited_since t s) (sym updated) ∙ unedited;
        },
        ap (λ (x : Grant). x.status_option_id) whole,
        updated,
      )

  later-Scope :
      (c : Config) (s : Snapshot) (e : Grant) (l : Lifecycle)
      → revalidate_later lib c s e (some l) ≡ true
      → (e.status_updated_at < s.status_updated_at)
        × (in_delivery l s ≡ true)
        × (unedited_since e.status_updated_at s ≡ true)
        × (revalidate lib c (as_ready c e s) e ≡ true)
  unfolding revalidate_later
  later-Scope c s e l h =
      let (later, stage, unedited, kept) = later_guards _ _ _ _ _ h in
      (ground arith, stage, unedited, kept)

  -- Where RevalidateDelivery accepts a grant, the configuration still has the digest of the grant,
  -- the issue is open and of the same Project item, its text has the granted digest and was not
  -- edited since the granted Ready transition, and the status is either that very Ready transition
  -- or a later one to a stage of delivery.
  pub revalidate_delivery-Scope :
      (c : Config) (s : Snapshot) (e : Grant)
      → revalidate_delivery lib c s e ≡ true
      → Scope lib c s e × StatusKept c s e
  unfolding revalidate_delivery revalidate_later as_ready
  revalidate_delivery-Scope c s e h = elim (Bool-cases (s.current_status == c.ready_status)) [
    | inl ready ↦
        let (scope, option, updated) =
          revalidate-Scope c s e (rw (ready, revalidate_delivery) at h) in
        (scope, StatusKept.at_ready ready option updated)
    | inr moved ↦ elim (Option-cases c.lifecycle) [
      | inl f ↦
          absurd (cc (ap (revalidate_later lib c s e) f, rw (moved, revalidate_delivery) at h))
      | inr (l, f) ↦
          let (later, stage, unedited, kept) =
            later-Scope c s e l
              (sym (ap (revalidate_later lib c s e) f) ∙ (rw (moved, revalidate_delivery) at h)) in
          let (scope, _, _) = revalidate-Scope c (as_ready c e s) e kept in
          (
            record {
              configured = scope.configured;
              spec = scope.spec;
              specified = scope.specified;
              unchanged = scope.unchanged;
              opened = scope.opened;
              issue = scope.issue;
              item = scope.item;
              unedited = unedited;
            },
            StatusKept.advanced l f stage later,
          )
    ]
  ]
