-- ===== src/Tests/Manager.antt =====
-- Examples for loaded_model.py and model_manager.py. A model is a number.
use caikit.Common.{
  not, contains, ◌&&◌, ℕ, ◌+◌, ◌<◌, ◌≡◌, refl, String, true, false, Option, none, some, [], ◌∷◌,
  if◌then◌else◌, string_eq, nat_eq, ◌==◌, arith,
}
use caikit.Common.Dict
use caikit.Common.Dict.{Dict}
use caikit.LoadedModel.Defs.{LoadedModel, LoadOutcome, loaded, failed, wait}
use caikit.LoadedModel.Waiting.{wait-first_success}
use caikit.Manager.Defs.{Manager, inc, load_error, ok, err, load_model, wait_model, wait_with}
use caikit.Manager.Loading.{load_model-failure}
use caikit.Manager.Serving.{Settings, model_of, retrieve_model}
use caikit.Manager.Again.{retrieve_model-again}
use caikit.Manager.Emptying.{IsServing}
use caikit.Manager.Syncing.{Directory, synced, local_models_dir_sync}
use caikit.Manager.Synced.{IsFresh, gone, is_ready, local_models_dir_sync-synced}

-- The first load fails, all later ones give the model 42.
abbrev flaky : ℕ → LoadOutcome ℕ String
flaky n = if n == 0 then failed "no such file" else loaded 42

abbrev dead_disk : ℕ → LoadOutcome ℕ String
dead_disk n = failed "disk error"

abbrev handle : LoadedModel ℕ
handle = record {
  attempt = 0;
  model = none;
  has_fail_callback = true;
  model_id = "a";
  model_path = "/models/a";
  model_type = "blocks";
  retries = 2;
  size_field = some 10;
}

abbrev held_handle : LoadedModel ℕ
held_handle = record handle { attempt = 1; retries = 1; model = some 42 }

flaky_start : (i : ℕ) → i < 1 → (e : String) × (flaky (0 + i) ≡ failed e)
flaky_start i h = ("no such file", ground arith)

wait-first_success_example : wait flaky handle ≡ (held_handle, none)
wait-first_success_example =
    wait-first_success flaky handle 1 42 refl (omega arith) flaky_start refl

abbrev outcomes : ℕ → ℕ → LoadOutcome ℕ String
outcomes ref = flaky

abbrev broken : ℕ → ℕ → LoadOutcome ℕ String
broken ref = dead_disk

abbrev estimate : String → String → String → Option ℕ
estimate id path model_type = some 10

-- One loaded model with the handle 0.
abbrev serving : Manager ℕ
serving = record {
  heap = (0, held_handle) ∷ [];
  next_ref = 1;
  loaded_models = ("a", 0) ∷ [];
  size_gauge = ("blocks", 10) ∷ [];
  count_events = inc "blocks" "a" ∷ [];
  load_exceptions = [];
}

abbrev settings : Settings
settings = record {
  lazy_load_local_models = true;
  local_models_dir = "/models";
  lazy_load_retries = 2;
  join = λ a b. b;
  exists = λ p. false;
}

retrieve_model-again_example :
    retrieve_model outcomes estimate settings "a" serving ≡ some (serving, ok 42)
unfolding retrieve_model model_of wait_model wait_with wait Dict.get Dict.put
retrieve_model-again_example =
    retrieve_model-again outcomes estimate settings "a" serving serving 42 refl

load_model-failure_example :
    (t : Manager ℕ) × (load_model broken estimate "b" "/models/b" "blocks" true 2 serving
      ≡ some (t, err (load_error "disk error")))
    × ((j : String) → Dict.get t.loaded_models j ≡ Dict.get serving.loaded_models j)
    × (t.count_events ≡ inc "blocks" "b" ∷ serving.count_events)
unfolding Dict.get
load_model-failure_example =
    load_model-failure broken estimate "b" "/models/b" "blocks" 2 serving refl refl refl
      "disk error" (λ i h. ("disk error", refl)) refl

serving-IsServing : IsServing serving
unfolding Dict.get
serving-IsServing id ref h = (held_handle, 42, ground (arith, h), refl)

-- The directory has the loaded model and two new ones, of which one is being written.
abbrev directory : Directory
directory = record {
  entries = some ("a" ∷ "b" ∷ "c" ∷ []);
  write_in_progress = λ p. p == "c";
  is_local = λ p. true;
}

serving-IsFresh : IsFresh serving
unfolding Dict.get
serving-IsFresh ref h = ground arith

local_models_dir_sync-synced_example :
    (t : Manager ℕ) × (local_models_dir_sync outcomes estimate settings directory false true serving
      ≡ some (t, synced))
    × ((j : String)
        → Dict.has t.loaded_models j ≡ (
            if Dict.has serving.loaded_models j
            then not (gone settings directory serving j)
            else contains j ("a" ∷ "b" ∷ "c" ∷ []) && is_ready settings directory j))
local_models_dir_sync-synced_example =
    local_models_dir_sync-synced outcomes estimate settings directory ("a" ∷ "b" ∷ "c" ∷ []) serving
      refl refl refl serving-IsFresh serving-IsServing
