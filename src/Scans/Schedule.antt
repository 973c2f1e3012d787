-- ===== src/Scans/Schedule.antt =====
-- What `ClaimPoll` grants, and that the wakeups of one interval coalesce.
use native.Mathlib.Nat.{div-mul-le_self, div-lt_iff_lt-mul}
use sofa.Base.{
  ℕ, suc, ◌+◌, ◌-◌, ◌*◌, ◌/◌, ◌≤◌, ◌<◌, String, ◌≡◌, true, false, some, ◌==◌, string_eq, arith,
  eq_iff, Bool-cases, ap, inl, inr, if◌then◌else◌, ◌⊎◌,
}
use sofa.Base.Int.{
  pos, int_eq, next_int64, max_int64, add_int64, ◌+ℤ◌, ltb_ℤ, pos_part, int64_bound,
}
use sofa.State.Clock.{Time, is_zero, minute, sub_time}
use sofa.State.Records.{PollCursor, Ledger}
use sofa.State.Patterns.{reference}
use sofa.State.Valid.{poll_valid}
use sofa.Engine.Outcome.{Outcome, Clock, apply, require}
use sofa.Scans.Poll.{
  PollClaim, cursor_of, coalesced, moved_backward, time_due, wake_due, claimed_cursor, poll_granted,
  poll_due, poll_step, poll_schedule, claim_poll,
}

-- A claim that was granted: its arguments, and what it wrote and returned.
granted_poll :
    (now : Time) (interval : ℕ) (wake : String) (clock : Clock) (s t : Ledger) (r : PollClaim)
    → apply (claim_poll now interval wake) clock s ≡ Outcome.changed t r
    → (poll_schedule now interval wake ≡ true)
      × ((cursor_of s.poll).generation == max_int64 ≡ false)
      × (t ≡ record s {
        poll = some (claimed_cursor (coalesced now (cursor_of s.poll)) wake (cursor_of s.poll));
      })
      × (r ≡ poll_granted (coalesced now (cursor_of s.poll)) interval (cursor_of s.poll))
unfolding claim_poll require poll_step poll_due
granted_poll now interval wake clock s t r h =
    ground (arith, int_eq.test_iff (cursor_of s.poll).generation max_int64)

schedule-parts :
    (now : Time) (interval : ℕ) (wake : String)
    → poll_schedule now interval wake ≡ true
    → (1 ≤ now) × (minute ≤ interval) × (wake ≡ "" ⊎ reference wake ≡ true)
unfolding poll_schedule
schedule-parts now interval wake h = ground (arith, eq_iff wake "")

-- The wake that the cursor has after a claim is no news to the next call.
wake_known :
    (now : Time) (wake : String) (c : PollCursor)
    → wake_due wake (claimed_cursor now wake c) ≡ false
unfolding wake_due claimed_cursor
wake_known now wake c = ground (arith, eq_iff wake c.last_wake_id, eq_iff wake wake)

-- A second call soon after: what its round sees of the cursor that the first one has written.
soon_unchanged :
    (now : Time) (interval : ℕ) (wake : String) (s : Ledger) (c : PollCursor)
    → 1 ≤ c.last_poll
    → now < c.last_poll + interval
    → c.last_poll ≤ now + minute
    → 1 ≤ interval
    → wake_due wake c ≡ false
    → s.poll ≡ some c
    → poll_step now interval wake s
      ≡ Outcome.unchanged (record {
        claimed = false;
        generation = c.generation;
        missed = pos 0;
        next = c.last_poll + interval;
      })
unfolding poll_step poll_due moved_backward coalesced time_due
soon_unchanged now interval wake s c ran soon skew long known e = rw (e, known) (ground arith)

coalesced_lapse :
    (now : Time) (c : PollCursor)
    → now - c.last_poll < int64_bound
    → coalesced now c - c.last_poll < int64_bound
unfolding coalesced
coalesced_lapse now c h = ground arith

coalesced-late :
    (now : Time) (c : PollCursor) → (now ≤ coalesced now c) × (c.last_poll ≤ coalesced now c)
unfolding coalesced
coalesced-late now c = ground arith

-- After a granted claim, a call with the same wakeup and interval before the next tick, and not
-- more than a minute behind the claimed one, claims nothing: it is told the generation and the
-- next tick of the granted claim, and the ledger stays.
pub poll_coalesces :
    (now again : Time) (interval : ℕ) (wake : String) (clock later : Clock) (s t : Ledger)
    (r : PollClaim)
    → apply (claim_poll now interval wake) clock s ≡ Outcome.changed t r
    → poll_schedule again interval wake ≡ true
    → again < r.next
    → r.next ≤ again + minute + interval
    → apply (claim_poll again interval wake) later t
      ≡ Outcome.unchanged
          (record { claimed = false; generation = r.generation; missed = pos 0; next = r.next })
unfolding poll_granted claimed_cursor
poll_coalesces now again interval wake clock later s t r h ok soon skew =
    let (fine, fits, written, told) = granted_poll now interval wake clock s t r h in
    let (ran, long, _) = schedule-parts now interval wake fine in
    let c = cursor_of s.poll in
    let at = coalesced now c in
    unfold claim_poll require in
    rw (ok, told)
      (soon_unchanged again interval wake t (claimed_cursor at wake c)
        (omega (arith, ran, (coalesced-late now c).0)) (rw told at soon)
        (omega (arith, rw told at skew)) (omega (arith, long)) (wake_known at wake c)
        (ap (λ (x : Ledger). x.poll) written))

missed_bounds :
    (d interval : ℕ)
    → 1 ≤ interval
    → (d / interval * interval ≤ d) × (d < suc (d / interval) * interval)
missed_bounds d interval long =
    (div-mul-le_self d interval, (div-lt_iff_lt-mul long).0 (omega arith))

-- What a granted claim leaves, in the terms of the cursor before it: `at` is the claimed tick.
pub record PollAdvance (interval : ℕ) (before_it after_it : PollCursor) (r : PollClaim)
    : Type 0 where
  pub valid : poll_valid after_it ≡ true
  pub forward : before_it.last_poll ≤ after_it.last_poll
  pub generation : after_it.generation ≡ before_it.generation +ℤ pos 1
  pub told_claimed : r.claimed ≡ true
  pub told_generation : r.generation ≡ after_it.generation
  pub told_next : r.next ≡ after_it.last_poll + interval
  pub missed : ℕ
  pub told_missed : r.missed ≡ pos missed
  pub missed_low : missed * interval ≤ after_it.last_poll - before_it.last_poll
  pub missed_high :
      1 ≤ before_it.last_poll → after_it.last_poll - before_it.last_poll < suc missed * interval

next_exact :
    (c : PollCursor)
    → poll_valid c ≡ true
    → pos_part c.generation < int64_bound
    → c.generation == max_int64 ≡ false
    → (next_int64 c.generation ≡ c.generation +ℤ pos 1)
      × (ltb_ℤ (pos 0) (next_int64 c.generation) ≡ true)
unfolding poll_valid add_int64
next_exact c ok fits room = ground arith

claimed_valid :
    (at : Time) (wake : String) (c : PollCursor)
    → poll_valid c ≡ true
    → 1 ≤ at
    → ltb_ℤ (pos 0) (next_int64 c.generation) ≡ true
    → (wake ≡ "" ⊎ reference wake ≡ true)
    → poll_valid (claimed_cursor at wake c) ≡ true
unfolding poll_valid claimed_cursor wake_due
claimed_valid at wake c ok ran up named = ground (arith, eq_iff wake "")

missed_of :
    (at last interval : ℕ)
    → 1 ≤ interval
    → last ≤ at
    → at - last < int64_bound
    → let m = if is_zero last then 0 else sub_time at last / interval in
      (m * interval ≤ at - last) × (1 ≤ last → at - last < suc m * interval)
missed_of at last interval long le fits = elim (Bool-cases (is_zero last)) [
  | inl none_yet ↦ rw none_yet (omega arith, λ ran. ground arith)
  | inr ran ↦
      let exact : sub_time at last ≡ at - last = omega (arith, fits) in
      let (low, high) = missed_bounds (at - last) interval long in rw (ran, exact) (low, λ _. high)
]

-- A granted claim moves the cursor to a tick that is neither before `now` nor before the last one,
-- raises its generation by exactly one, keeps it valid, and tells the caller that generation, the
-- next tick, and how many whole intervals have passed since the last tick, for a valid cursor
-- with an int64 generation and a lapse of fewer than 2^63 nanoseconds.
pub claim_poll-PollAdvance :
    (now : Time) (interval : ℕ) (wake : String) (clock : Clock) (s t : Ledger) (r : PollClaim)
    → apply (claim_poll now interval wake) clock s ≡ Outcome.changed t r
    → poll_valid (cursor_of s.poll) ≡ true
    → pos_part (cursor_of s.poll).generation < int64_bound
    → now - (cursor_of s.poll).last_poll < int64_bound
    → (c : PollCursor) × (t.poll ≡ some c)
      × (now ≤ c.last_poll)
      × PollAdvance interval (cursor_of s.poll) c r
unfolding claimed_cursor poll_granted
claim_poll-PollAdvance now interval wake clock s t r h ok fits lapse =
    let (fine, room, written, told) = granted_poll now interval wake clock s t r h in
    let (ran, long, named) = schedule-parts now interval wake fine in
    let c = cursor_of s.poll in
    let at = coalesced now c in
    let (late, forward) = coalesced-late now c in
    let (exact, up) = next_exact c ok fits room in
    let (low, high) =
      missed_of at c.last_poll interval (omega (arith, long)) forward
        (coalesced_lapse now c lapse) in
    (
      claimed_cursor at wake c,
      ap (λ (x : Ledger). x.poll) written,
      late,
      record {
        valid = claimed_valid at wake c ok (omega (arith, ran, late)) up named;
        forward = forward;
        generation = exact;
        told_claimed = ap (λ (x : PollClaim). x.claimed) told;
        told_generation = ap (λ (x : PollClaim). x.generation) told;
        told_next = ap (λ (x : PollClaim). x.next) told;
        missed = if is_zero c.last_poll then 0 else sub_time at c.last_poll / interval;
        told_missed = ap (λ (x : PollClaim). x.missed) told;
        missed_low = low;
        missed_high = high;
      },
    )
