-- ===== src/Scans/Poll.antt =====
-- internal/state/poll.go: ClaimPoll.
-- Times are UTC, and an interval is a count of nanoseconds.
use sofa.Base.{
  ℕ, ◌+◌, ◌*◌, ◌/◌, String, Bool, true, false, not, Option, none, some, ◌&&◌, ◌||◌, ◌==◌, string_eq,
  ltb, if◌then◌else◌,
}
use sofa.Base.Int.{ℤ, pos, int_eq, next_int64, max_int64}
use sofa.State.Clock.{Time, zero_time, is_zero, before, minute, hour, sub_time}
use sofa.State.Records.{PollCursor, Ledger}
use sofa.State.Patterns.{reference}
use sofa.Engine.Outcome.{Error, Outcome, Operation, require}

-- What a claim tells its caller.
pub record PollClaim : Type 0 where
  pub claimed : Bool
  pub generation : ℤ
  pub missed : ℤ
  pub next : Time

-- The cursor of the ledger, or the zero cursor.
abbrev pub cursor_of : Option PollCursor → PollCursor
cursor_of none = record { last_poll = zero_time; last_wake_id = ""; generation = pos 0 }
cursor_of (some c) = c

-- The captured `now` as a round leaves it: a small skew coalesces to the last poll.
unfoldable pub coalesced : Time → PollCursor → Time
coalesced now c = if not (is_zero c.last_poll) && before now c.last_poll then c.last_poll else now

-- `poll clock moved backward`
unfoldable pub moved_backward : Time → PollCursor → Bool
moved_backward now c =
    not (is_zero c.last_poll) && before now c.last_poll && ltb minute (sub_time c.last_poll now)

unfoldable pub time_due : Time → ℕ → PollCursor → Bool
time_due now interval c = is_zero c.last_poll || not (before now (c.last_poll + interval))

unfoldable pub wake_due : String → PollCursor → Bool
wake_due wake c = not (wake == "") && not (wake == c.last_wake_id)

-- The cursor that a claim writes.
unfoldable pub claimed_cursor : Time → String → PollCursor → PollCursor
unfolding wake_due
claimed_cursor now wake c = record {
  last_poll = now;
  last_wake_id = if wake_due wake c then wake else c.last_wake_id;
  generation = next_int64 c.generation;
}

-- What a granted claim returns.
unfoldable pub poll_granted : Time → ℕ → PollCursor → PollClaim
poll_granted now interval c = record {
  claimed = true;
  generation = next_int64 c.generation;
  missed = pos (if is_zero c.last_poll then 0 else sub_time now c.last_poll / interval);
  next = now + interval;
}

-- The end of the closure, from the coalesced `now`.
unfoldable pub poll_due : Time → ℕ → String → Ledger → PollCursor → Outcome PollClaim
poll_due now interval wake s c =
    if not (time_due now interval c) && not (wake_due wake c)
    then Outcome.unchanged (record {
      claimed = false;
      generation = c.generation;
      missed = pos 0;
      next = c.last_poll + interval;
    })
    else if c.generation == max_int64
    then Outcome.failed Error.limit
    else Outcome.changed (record s { poll = some (claimed_cursor now wake c) })
        (poll_granted now interval c)

-- The closure of `ClaimPoll`, in a round that starts from `now`. A retry starts from the `now`
-- that the round before it has left, which is `coalesced`.
unfoldable pub poll_step : Time → ℕ → String → Ledger → Outcome PollClaim
poll_step now interval wake s =
    let c = cursor_of s.poll in
    if moved_backward now c
    then Outcome.failed Error.backward
    else poll_due (coalesced now c) interval wake s c

-- The arguments that `ClaimPoll` takes.
unfoldable pub poll_schedule : Time → ℕ → String → Bool
poll_schedule now interval wake =
    not (is_zero now)
    && not (ltb interval minute)
    && not (ltb (24 * hour) interval)
    && ((wake == "") || reference wake)

-- `ClaimPoll`, in its first round.
unfoldable pub claim_poll : Time → ℕ → String → Operation PollClaim
claim_poll now interval wake =
    require (poll_schedule now interval wake) Error.invalid
      (Operation.attempt (λ clock s. poll_step now interval wake s))
