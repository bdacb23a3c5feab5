-- ===== src/Client/Restarter/Samples.antt =====
-- Rolling restarts on which the theorems are run, with tests.
use aurora_client.Base.{ℕ, ◌≡◌, refl, true, false, none, some, List, [], ◌∷◌, take, drop, nat_eq}
use aurora_client.Base.Sets.{member}
use aurora_client.Base.Dicts.{get, put}
use aurora_client.Client.Updater.{
  new_threshold, update_failure_counts, is_failed_update, exceeded_count,
}
use aurora_client.Client.Watcher.{ScheduledTask, running}
use aurora_client.Client.Restarter.{
  RestartSettings, Answer, watched, restarted, type_error, roll, restart, insert, sorted,
}
use aurora_client.Client.Restarter.Rolling.{concat, restart_covers}

abbrev settings : RestartSettings
settings = record { batch_size = 2; max_per_instance_failures = 1; max_total_failures = 0 }

abbrev lenient : RestartSettings
lenient = record settings { max_total_failures = 1 }

abbrev active : List ScheduledTask
active =
    record { instance_id = 2; task_id = "c"; status = running }
    ∷ record { instance_id = 0; task_id = "a"; status = running }
    ∷ record { instance_id = 1; task_id = "b"; status = running }
    ∷ []

-- Instance 1 fails once and is restarted with the last batch.
abbrev answers : List Answer
answers = watched (some (1 ∷ [])) ∷ watched (some []) ∷ []

all_active :
    restart settings (some active) [] answers ≡ ((0 ∷ 1 ∷ []) ∷ (2 ∷ 1 ∷ []) ∷ [], restarted)
unfolding restart roll sorted insert take drop update_failure_counts is_failed_update exceeded_count
    get put
all_active = refl

-- Where the watch is terminated, adding its result to the instances raises.
watch_terminated :
    restart settings (some active) [] (watched none ∷ []) ≡ ((0 ∷ 1 ∷ []) ∷ [], type_error)
unfolding restart roll sorted insert take drop is_failed_update exceeded_count
watch_terminated = refl

well : (restart settings (some active) [] answers).1 ≡ restarted
well = rw all_active

abbrev active_ids : List ℕ
active_ids = 2 ∷ 0 ∷ 1 ∷ []

two_active : member 2 active_ids ≡ true
unfolding member
two_active = refl

restart_covers_example : member 2 (concat (restart settings (some active) [] answers).0) ≡ true
restart_covers_example = restart_covers settings active [] answers 2 well two_active

not_failed : is_failed_update (new_threshold 1 0) ≡ false
unfolding is_failed_update exceeded_count
not_failed = refl

abbrev three : List ℕ
three = 0 ∷ 1 ∷ 2 ∷ []
