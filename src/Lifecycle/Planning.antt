-- ===== src/Lifecycle/Planning.antt =====
-- internal/lifecycle/lifecycle.go's PlanPoll against internal/state/poll.go's ClaimPoll.
use sofa.Base.{ℕ, String, ◌≡◌, true, false, some, ◌==◌, string_eq, arith, if◌then◌else◌}
use sofa.Base.Int.{pos, int_eq, next_int64, max_int64}
use sofa.State.Clock.{Time}
use sofa.State.Records.{Ledger}
use sofa.Engine.Outcome.{Outcome, Clock, apply, require}
use sofa.Scans.Poll.{
  cursor_of, coalesced, moved_backward, time_due, wake_due, claimed_cursor, poll_granted, poll_due,
  poll_step, poll_schedule, claim_poll,
}
use sofa.Lifecycle.Stages.{PollPlan, plan_poll}

-- Where `PlanPoll` gives a plan from the cursor of a ledger, for arguments that `ClaimPoll` takes and
-- a generation that can grow, `ClaimPoll` claims exactly when the plan is due, and then with the
-- plan's next tick, wakeup and count of missed intervals.
pub plan_agrees :
    (now : Time) (interval : ℕ) (wake : String) (clock : Clock) (s : Ledger) (plan : PollPlan)
    → poll_schedule now interval wake ≡ true
    → ((cursor_of s.poll).generation == max_int64) ≡ false
    → plan_poll now (cursor_of s.poll).last_poll interval (cursor_of s.poll).last_wake_id wake
      ≡ some plan
    → apply (claim_poll now interval wake) clock s ≡ (
        if plan.due
        then Outcome.changed
            (record s {
              poll = some (record {
                last_poll = now;
                last_wake_id = plan.wake_id;
                generation = next_int64 (cursor_of s.poll).generation;
              });
            })
            (record {
              claimed = true;
              generation = next_int64 (cursor_of s.poll).generation;
              missed = pos plan.missed;
              next = plan.next;
            })
        else Outcome.unchanged (record {
          claimed = false;
          generation = (cursor_of s.poll).generation;
          missed = pos 0;
          next = plan.next;
        }))
unfolding claim_poll require poll_step poll_due moved_backward coalesced time_due wake_due
    claimed_cursor poll_granted plan_poll
plan_agrees now interval wake clock s plan ok room h = ground arith
