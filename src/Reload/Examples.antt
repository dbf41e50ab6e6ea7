-- ===== src/Reload/Examples.antt =====
-- The reloader at concrete configurations.
use loggie.Prelude.{ℕ, refl, Bool, true, ◌&&◌, ◌==◌, some, List, [], ◌∷◌, String, str_eq, lookup}
use loggie.Reload.{Config, Controller, reload, start_pipelines}
use loggie.Reload.Names.{config_of}
use loggie.Reload.Running.{Settled, reload-Settled}
use loggie.Reload.Starting.{Forgotten, start_pipelines-Forgotten}

abbrev conf : String → ℕ → Config ℕ
conf name rest = record { name = name; rest = rest }

abbrev same : Config ℕ → Config ℕ → Bool
same a b = str_eq a.name b.name && a.rest == b.rest

abbrev starts : Config ℕ → Bool
starts p = p.rest == 1

abbrev running : Controller ℕ
running = record {
  current_config = conf "a" 1 ∷ conf "b" 1 ∷ [];
  pipeline_runner =
      ("a", record { config = conf "a" 1; running = true })
      ∷ ("b", record { config = conf "b" 1; running = true })
      ∷ [];
}

-- Pipelines that all start: b has another configuration than before, and c is new.
abbrev startable : List (Config ℕ)
startable = conf "b" 1 ∷ conf "a" 1 ∷ conf "c" 1 ∷ []

abbrev before : Controller ℕ
before = record running { current_config = conf "a" 1 ∷ conf "b" 2 ∷ [] }

reload-Settled_example :
    Settled ℕ same starts startable before
      (reload ℕ same (λ ps. ps) starts (some startable) before)
      "b"
unfolding config_of
reload-Settled_example =
    reload-Settled ℕ same (λ ps. ps) starts startable before "b" (λ ps. refl)
      (refl, (refl, (refl, tt))) (refl, (refl, tt)) (refl, (refl, (refl, tt)))

-- The pipeline b does not start, so that c is forgotten.
start_pipelines-Forgotten_example :
    Forgotten ℕ same
      (λ ps. ps)
      "c"
      (conf "c" 1)
      (start_pipelines ℕ starts
        (conf "a" 1 ∷ conf "b" 2 ∷ conf "c" 1 ∷ [])
        (record { current_config = []; pipeline_runner = [] }))
unfolding config_of lookup
start_pipelines-Forgotten_example =
    start_pipelines-Forgotten ℕ same (λ ps. ps) starts (conf "a" 1 ∷ []) (conf "b" 2) (conf "c" 1)
      (conf "c" 1 ∷ []) (record { current_config = []; pipeline_runner = [] }) "c" refl refl refl
      refl (refl, (refl, (refl, tt)))
