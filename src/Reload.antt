-- ===== src/Reload.antt =====
-- The controller of the pipelines and the reloader of their configuration
-- (pkg/control/controller.go, pkg/control/config.go, pkg/core/reloader/reload.go). What a pipeline's
-- configuration holds besides its name is a parameter, as are the comparison of two of them and
-- whether a pipeline starts.
use loggie.Prelude.{
  ℕ, Bool, true, false, not, Option, none, some, List, [], ◌∷◌, ◌++◌, String, str_eq, ltb, length,
  if◌then◌else◌, Dict, lookup, insert, delete,
}
pub mod Names
pub mod Keyed
pub mod Diffing
pub mod Settling
pub mod Running
pub mod Starting
pub mod Examples

module _ (C : Type 0) where
  pub record Config : Type 0 where
    pub name : String
    pub rest : C

  pub record Pipeline : Type 0 where
    pub config : Config
    pub running : Bool

  pub record Controller : Type 0 where
    pub current_config : List Config
    pub pipeline_runner : Dict Pipeline

  unfoldable pub validate_unique_pipe_name : List Config → Dict Bool → Bool
  validate_unique_pipe_name [] unique = true
  validate_unique_pipe_name (p ∷ ps) unique =
      let rest = validate_unique_pipe_name ps (insert p.name true unique) in
      elim (lookup p.name unique) [ some _ ↦ false | none ↦ rest ]

  -- The inner loop of `RemovePipelines`: the entry behind one that is removed is not looked at.
  unfoldable pub remove_name : String → List Config → List Config
  remove_name target [] = []
  remove_name target (p ∷ []) = if str_eq target p.name then [] else p ∷ []
  remove_name target (p ∷ q ∷ ps) =
      let skip = remove_name target ps in
      let on = remove_name target (q ∷ ps) in if str_eq target p.name then q ∷ skip else p ∷ on

  unfoldable pub remove_pipelines : List Config → List Config → List Config
  unfolding remove_name
  remove_pipelines [] pipelines = pipelines
  remove_pipelines (p ∷ ps) pipelines = remove_pipelines ps (remove_name p.name pipelines)

  -- A pipeline that does not start is kept to be started again, and ends the loop.
  unfoldable pub start_each : (Config → Bool) → List Config → Dict Pipeline → Dict Pipeline
  start_each starts [] runner = runner
  start_each starts (p ∷ ps) runner =
      let on =
        start_each starts ps (insert p.name (record { config = p; running = true }) runner) in
      if starts p then on else insert p.name (record { config = p; running = false }) runner

  unfoldable pub start_pipelines : (Config → Bool) → List Config → Controller → Controller
  unfolding start_each
  start_pipelines starts configs c = record {
    current_config = c.current_config ++ configs;
    pipeline_runner = start_each starts configs c.pipeline_runner;
  }

  unfoldable pub stop_each : List Config → Dict Pipeline → Dict Pipeline
  stop_each [] runner = runner
  stop_each (p ∷ ps) runner = stop_each ps (delete p.name runner)

  unfoldable pub stop_pipelines : List Config → Controller → Controller
  unfolding remove_pipelines stop_each
  stop_pipelines configs c = record {
    current_config = remove_pipelines configs c.current_config;
    pipeline_runner = stop_each configs c.pipeline_runner;
  }

  unfoldable pub retry_not_running : (Config → Bool) → Dict Pipeline → Dict Pipeline
  retry_not_running starts [] = []
  retry_not_running starts ((k, p) ∷ runner) =
      let rest = retry_not_running starts runner in
      if p.running then (k, p) ∷ rest else (k, record p { running = starts p.config }) ∷ rest

  unfoldable pub pipe_index : List Config → Dict Config → Dict Config
  pipe_index [] index = index
  pipe_index (p ∷ ps) index = pipe_index ps (insert p.name p index)

  -- The old pipelines that no new one has met, those to stop and those to start.
  pub record Diff : Type 0 where
    pub left : Dict Config
    pub stop_list : List Config
    pub start_list : List Config

  unfoldable pub diff_each : (Config → Config → Bool) → List Config → Dict Config → Diff
  diff_each same [] index = record { left = index; stop_list = []; start_list = [] }
  diff_each same (p ∷ ps) index =
      let rest = diff_each same ps (delete p.name index) in
      let fresh = diff_each same ps index in
      elim (lookup p.name index) [
        | none ↦ record fresh { start_list = p ∷ fresh.start_list }
        | some old ↦
            if same old p
            then rest
            else record rest { stop_list = old ∷ rest.stop_list; start_list = p ∷ rest.start_list }
      ]

  abbrev pub values : Dict Config → List Config
  values [] = []
  values ((_, x) ∷ dict) = x ∷ values dict

  -- The lists to stop and to start. `order` is the order in which the runtime visits the map.
  unfoldable pub diff_config :
      (Config → Config → Bool)
      → (List Config → List Config)
      → List Config
      → List Config
      → List Config × List Config
  unfolding pipe_index diff_each
  diff_config same order new old =
      let d = diff_each same new (pipe_index old []) in
      (d.stop_list ++ order (values d.left), d.start_list)

  -- A tick of the reloader. The new configuration is none where it is not read.
  unfoldable pub reload :
      (Config → Config → Bool)
      → (List Config → List Config)
      → (Config → Bool)
      → Option (List Config)
      → Controller
      → Controller
  unfolding retry_not_running diff_config stop_pipelines start_pipelines
  reload same order starts none c = record c {
    pipeline_runner = retry_not_running starts c.pipeline_runner;
  }
  reload same order starts (some new) c =
      let retried = record c { pipeline_runner = retry_not_running starts c.pipeline_runner } in
      let (stop_list, start_list) = diff_config same order new c.current_config in
      start_pipelines starts start_list (stop_pipelines stop_list retried)
