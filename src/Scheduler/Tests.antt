-- ===== src/Scheduler/Tests.antt =====
-- The choice of the next process, when the third of six runs.
use linux_simulation.Base.{ℕ, ◌<◌, ◌≡◌, ◌⊎◌, refl, some, List, [], ◌∷◌, minus_one, get_or}
use linux_simulation.Scheduler.{get_next_availble_process}
use linux_simulation.Scheduler.Choice.{ahead, Next, get_next_availble_process-Next}

abbrev states : List ℕ
states = 0 ∷ 0 ∷ 1 ∷ 0 ∷ 0 ∷ 1 ∷ []

get_next_availble_process-Next_example :
    ((d : ℕ) × (get_next_availble_process states 0 ≡ some (ahead 0 d))
      × Next states 0 1 d
      × (ahead 0 d < 5))
    ⊎ ((get_next_availble_process states 0 ≡ some minus_one)
        × ((p : ℕ) → p < 5 → get_or states p 0 ≡ 0))
get_next_availble_process-Next_example = get_next_availble_process-Next states 0 refl
