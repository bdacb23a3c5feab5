-- ===== src/Client/Watcher/Samples.antt =====
-- Two instances on which the theorems of the watch are run, with tests.
use aurora_client.Base.{
  ℕ, ◌≡◌, refl, true, false, some, List, [], ◌∷◌, ok, nat_eq, string_eq, String,
}
use aurora_client.Base.Sets.{member, set_eq, is_subset}
use aurora_client.Base.Dicts.{Dict, get, put}
use aurora_client.Client.Watcher.{
  ScheduledTask, running, health, Instance, States, Poll, tasks_by_instance, set_instance_healthy,
  set_instance_unhealthy, select, visit, visit_all, watch_from, watch,
}
use aurora_client.Client.Watcher.Sound.{Apart}
use aurora_client.Client.Watcher.Seen.{SeenWell}
use aurora_client.Client.Watcher.Verdict.{watch-Apart}

abbrev task : ℕ → String → ScheduledTask
task i id = record { instance_id = i; task_id = id; status = running }

-- Instance 1 is replaced by another task at time 10; instance 0 stays up for more than 20 seconds.
abbrev polls : List Poll
polls =
    record { running_tasks = task 0 "a" ∷ task 1 "b" ∷ []; now = 0 }
    ∷ record { running_tasks = task 0 "a" ∷ task 1 "c" ∷ []; now = 10 }
    ∷ record { running_tasks = task 0 "a" ∷ []; now = 21 }
    ∷ []

abbrev both : List ℕ
both = 0 ∷ 1 ∷ []

one_fails : watch health 20 both [] polls ≡ ok (some (1 ∷ []))
unfolding watch watch_from visit_all visit tasks_by_instance set_instance_healthy
    set_instance_unhealthy health select set_eq is_subset member get put
one_fails = refl

abbrev only_one : List ℕ
only_one = 1 ∷ []

one_failed : member 1 only_one ≡ true
unfolding member
one_failed = refl

zero_watched : member 0 both ≡ true
unfolding member
zero_watched = refl

zero_well : member 0 only_one ≡ false
unfolding member
zero_well = refl

watch-Apart_example : Apart (SeenWell health 20 both [] polls) 20 0
watch-Apart_example =
    watch-Apart health 20 both [] polls only_one 0 one_fails zero_watched zero_well

abbrev failed_instance : Instance
failed_instance = record { birthday = some 0; finished = true; healthy = false }

abbrev states : States
states = (1, failed_instance) ∷ []

abbrev tasks : Dict ℕ ScheduledTask
tasks = (1, task 1 "b") ∷ []

one_known : get states 1 ≡ some failed_instance
unfolding get
one_known = refl

round : visit_all health 20 tasks 30 states [] both ≡ ok (states, [])
unfolding visit_all visit get
round = refl

one_watched : member 1 both ≡ true
unfolding member
one_watched = refl
