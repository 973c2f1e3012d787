-- ===== src/System/Moves.antt =====
-- What an operation does to the attempts of a ledger.
use sofa.Base.{
  String, ◌≡◌, refl, sym, ◌∙◌, ap, ◌⊎◌, inl, inr, true, false, none, some, eq_iff, Bool-cases,
  Option-cases, some_inj, ◌==◌, string_eq, Bool,
}
use mathlib.Core.Path.{subst}
use sofa.Base.Map.{get, get-put, all_entries-get}
use sofa.State.Records.{Fence, Attempt, Ledger}
use sofa.State.Validate.{AttemptKey, validate, attempt_valid}
use sofa.State.Facts.{attempt_valid-id, validate-attempts}
use sofa.Engine.Outcome.{
  Error, Operation, Clock, Edit, apply, put_attempt, commit_edit, edit_attempt, require,
}
use sofa.Engine.Ownership.{Owned, owned, stamp, mutate_owned}
use sofa.Engine.Calls.{written, owned-held}
use sofa.System.Change.{SystemChange}

-- Every attempt stays, as it was or changed.
abbrev pub Moves : Ledger → Ledger → Type 0
Moves s t =
    (id : String) (a : Attempt)
    → get id s.attempts ≡ some a
    → (b : Attempt) × (get id t.attempts ≡ some b) × ((b ≡ a) ⊎ SystemChange a b)

pub same-Moves : (s t : Ledger) → t.attempts ≡ s.attempts → Moves s t
same-Moves s t e id a found = (a, rw e found, inl refl)

pub put-Moves :
    (key : String) (s : Ledger) (a b : Attempt)
    → get key s.attempts ≡ some a
    → SystemChange a b
    → Moves s (put_attempt key b s)
put-Moves key s a b at step id x found = elim (Bool-cases (key == id)) [
  | inr other ↦ (x, get-put key id b s.attempts ∙ rw other found, inl refl)
  | inl same ↦
      let k : key ≡ id = (eq_iff key id).0 same in
      let ax : a ≡ x = some_inj (sym at ∙ ap (λ y. get y s.attempts) k ∙ found) in
      (b, get-put key id b s.attempts ∙ rw same refl, inr (subst (λ y. SystemChange y b) ax step))
]

-- A new entry leaves the others alone.
pub fresh-Moves :
    (key : String) (s : Ledger) (b : Attempt)
    → get key s.attempts ≡ none
    → Moves s (put_attempt key b s)
fresh-Moves key s b free id x found = elim (Bool-cases (key == id)) [
  | inr other ↦ (x, get-put key id b s.attempts ∙ rw other found, inl refl)
  | inl same ↦ let k : key ≡ id = (eq_iff key id).0 same in absurd (cc (free, found, k))
]

pub edit-Moves :
    (key : String) (s : Ledger) (a : Attempt) (e : Edit) {t : Ledger}
    → get key s.attempts ≡ some a
    → ((b : Attempt) → e ≡ Edit.write b → SystemChange a b)
    → written (commit_edit key s e) ≡ some t
    → Moves s t
edit-Moves key s a Edit.keep at step h = absurd (cc h)
edit-Moves key s a (Edit.write b) {t} at step h =
    subst (Moves s) (some_inj h) (put-Moves key s a b at (step b refl))
edit-Moves key s a (Edit.reject e) at step h = absurd (cc h)

pub edit_attempt-Moves :
    (key : String) (f : Attempt → Edit) (s : Ledger) {t : Ledger}
    → ((a b : Attempt) → f a ≡ Edit.write b → SystemChange a b)
    → written (edit_attempt key f s) ≡ some t
    → Moves s t
unfolding edit_attempt
edit_attempt-Moves key f s {t} step h = elim (Option-cases (get key s.attempts)) [
  | inl e ↦ absurd (cc (rw (e, edit_attempt) at h))
  | inr (a, e) ↦ edit-Moves key s a (f a) e (step a) (rw (e, edit_attempt) at h)
]

-- A mutation by the holder of a fence, in a valid ledger.
pub mutate-Moves :
    (digest : AttemptKey → String) (f : Fence) (m : Attempt → Edit) (clock : Clock) (s : Ledger)
    {t : Ledger}
    → validate digest s ≡ true
    → ((a b : Attempt) → stamp clock a (m a) ≡ Edit.write b → SystemChange a b)
    → written (apply (mutate_owned f m) clock s) ≡ some t
    → Moves s t
unfolding mutate_owned
mutate-Moves digest f m clock s {t} valid step h = go (owned s f) refl
  where
    go : (o : Owned) → owned s f ≡ o → Moves s t
    go (Owned.lost x) e = absurd (cc (rw e at h))
    go (Owned.held a) e =
        let (found, mine) = owned-held s f a e in
        let ok =
          all_entries-get (attempt_valid digest) f.attempt_id a s.attempts
            (validate-attempts digest s valid) found in
        edit-Moves a.id s a (stamp clock a (m a))
          (rw (attempt_valid-id digest f.attempt_id a ok) at found) (step a) (rw e at h)

-- A guard lets a closure through when it holds.
pub require-open :
    {R : Type 0} (b : Bool) (x : Error) (op : Operation R) (clock : Clock) (s : Ledger) {t : Ledger}
    → written (apply (require b x op) clock s) ≡ some t
    → written (apply op clock s) ≡ some t
unfolding require
require-open true x op clock s h = h
require-open {R} false x op clock s {t} h = absurd (cc h)

pub require-passed :
    {R : Type 0} (b : Bool) (x : Error) (op : Operation R) (clock : Clock) (s : Ledger) {t : Ledger}
    → written (apply (require b x op) clock s) ≡ some t
    → (b ≡ true) × (written (apply op clock s) ≡ some t)
unfolding require
require-passed true x op clock s h = (refl, h)
require-passed {R} false x op clock s {t} h = absurd (cc h)
