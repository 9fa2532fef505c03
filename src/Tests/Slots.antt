-- ===== src/Tests/Slots.antt =====
-- A limiter for one operation and one waiting task.
use foliqant.Prelude.{◌≡◌, refl, some}
use foliqant.Core.Errors.{run_timeout}
use foliqant.Core.Result.{ok}
use foliqant.Core.Admission.{
  Limiter, new_limiter, enter, acquire, System, entered, granted, Reach, start, step,
}
use foliqant.Core.Admission.Capacity.{IsBounded, Reach-IsBounded}

abbrev one_waits : Limiter
one_waits = record { concurrency = 1; maximum = 2; permits = 1; admitted = 1; active = 0 }

abbrev one_runs : Limiter
one_runs = record { concurrency = 1; maximum = 2; permits = 0; admitted = 1; active = 1 }

abbrev both : Limiter
both = record { concurrency = 1; maximum = 2; permits = 0; admitted = 2; active = 1 }

first_enters : enter 3 10 run_timeout (new_limiter 1 1) ≡ ok one_waits
unfolding enter new_limiter
first_enters = refl

first_runs : acquire one_waits ≡ some one_runs
unfolding acquire
first_runs = refl

second_enters : enter 4 9 run_timeout one_runs ≡ ok both
unfolding enter
second_enters = refl

abbrev crowded : System
crowded = record { limiter = both; waiting = 1; running = 1 }

crowded-Reach : Reach 1 1 crowded
crowded-Reach =
    step (step (step start (entered 3 10 run_timeout first_enters)) (granted first_runs))
      (entered 4 9 run_timeout second_enters)

Reach-IsBounded_example : IsBounded 1 1 crowded
Reach-IsBounded_example = Reach-IsBounded 1 1 crowded crowded-Reach
