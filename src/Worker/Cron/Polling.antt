-- ===== src/Worker/Cron/Polling.antt =====
-- The backup cycle looks at a policy's schedule from time to time and runs the policy when it is due.
use simple_host_man.Worker.Cron.{minute_stamp, should_run_policy_at_time}
use simple_host_man.Prelude.Text.{Text}
use simple_host_man.Prelude.{
  any, ◌==◌, ℕ, ◌≤◌, ◌<◌, Bool, true, false, ◌||◌, Option, none, some, List, [], ◌∷◌,
}

-- One pass over a policy by `runBackupCycle` of apps/worker/src/backup-runner.ts: when the cycle
-- looks at the schedule, and when `recordBackupRun` stamps the run that it makes, if it makes one.
-- That is after the run, whether it succeeded or failed; a cycle that cannot record it is left out.
pub record Poll : Type 0 where
  pub now : ℕ
  pub recorded_at : ℕ

-- The passes in which the policy runs. The stamp of a run is the start of the latest run from then on.
unfoldable pub run_polls : Text → Option ℕ → List Poll → List Poll
run_polls schedule latest [] = []
run_polls schedule latest (poll ∷ polls) =
    elim (should_run_policy_at_time schedule latest poll.now false) [
      | true ↦ poll ∷ run_polls schedule (some poll.recorded_at) polls
      | false ↦ run_polls schedule latest polls
    ]

abbrev stamp_of : Option ℕ → ℕ
stamp_of none = 0
stamp_of (some t) = minute_stamp t

-- A pass ends before the next one begins.
abbrev pub AreInOrder : ℕ → List Poll → Type 0
AreInOrder from [] = Unit
AreInOrder from (poll ∷ polls) =
    (from ≤ poll.now) × (poll.now ≤ poll.recorded_at) × AreInOrder poll.recorded_at polls

-- A run begins in a later minute than that in which the one before it was recorded.
abbrev pub AreOncePerMinute : ℕ → List Poll → Type 0
AreOncePerMinute minute [] = Unit
AreOncePerMinute minute (poll ∷ polls) =
    (minute < minute_stamp poll.now) × AreOncePerMinute (minute_stamp poll.recorded_at) polls

-- The pass at the time runs the policy, or a run, the latest one before included, was recorded in the
-- minute of the time.
abbrev pub is_covered : ℕ → ℕ → List Poll → Bool
is_covered latest due runs =
    latest == minute_stamp due
    || any (λ run. run.now == due || minute_stamp run.recorded_at == minute_stamp due) runs
