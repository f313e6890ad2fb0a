-- ===== src/Tests/CoreManager.antt =====
-- Examples for core/model_manager.py and core/toolkit/factory.py.
use caikit.Common.{
  ℕ, ◌+◌, ◌≡◌, refl, true, false, Option, none, some, [], ◌∷◌, ◌++◌, Text, codes, take_until,
  text_eq, nat_eq,
}
use caikit.Common.Dict
use caikit.Common.Dict.{Dict}
use caikit.ModelManagement.JobIds.{charset, job_id, get_job_name, IsShuffle, get_job_name-job_id}
use caikit.CoreManager.Components.{
  Outcome, ok, Registry, named, given, keep_built, get_component, choose,
}
use caikit.CoreManager.Futures.{get_job_future, get_job_future-routes}
use caikit.CoreManager.Loading.{
  Loader, path, Files, keep_singleton, get_finder, get_initializer, load_new, do_load,
  under_load_path, normalise, load_directory, load,
}
use caikit.CoreManager.Archives.{load-again}
use caikit.CoreManager.Factories.{InstanceConfig, Imported, found}

charset-IsShuffle : IsShuffle charset charset
unfolding charset
charset-IsShuffle = record {
  same_length = refl;
  distinct_left = refl;
  distinct_right = refl;
  same_members = λ c. refl;
}

get_job_name-job_id_example :
    get_job_name charset (job_id charset (codes "east") (codes "7") true)
    ≡ take_until b':' (codes "east")
get_job_name-job_id_example =
    get_job_name-job_id charset charset-IsShuffle (codes "east") (codes "7")

abbrev build : ℕ → Text → Outcome ℕ
build g name = ok g

abbrev future_of : ℕ → Text → Outcome ℕ
future_of c id = ok (c + 1)

abbrev trainers : Registry ℕ ℕ
trainers = record { built = []; config = (codes "default", 1) ∷ (codes "east", 5) ∷ [] }

abbrev east_built : Registry ℕ ℕ
east_built = record trainers { built = (codes "east", 5) ∷ [] }

abbrev default_built : Registry ℕ ℕ
default_built = record trainers { built = (codes "default", 1) ∷ [] }

get_job_future-routes_example :
    get_job_future build future_of charset (job_id charset (codes "east") (codes "7") true) trainers
    ≡ (ok 6, east_built)
unfolding get_component keep_built Dict.get Dict.put
get_job_future-routes_example =
    get_job_future-routes build future_of charset (codes "east") (codes "7") trainers east_built 5
      charset-IsShuffle refl refl

abbrev files : Files ℕ
files = record {
  path_exists = λ p. true;
  is_dir = λ p. false;
  listdir = λ p. [];
  join = λ p q. p ++ b'/' ∷ q;
  normpath = λ p. p;
  is_zipfile = λ p. false;
  temporary_directory = λ n. b'/' ∷ n ∷ [];
}

abbrev find : ℕ → Text → Outcome (Option ℕ)
find finder p = ok (some finder)

abbrev init : ℕ → ℕ → Outcome (Option ℕ)
init initializer config = ok (some (initializer + config))

abbrev loader : Loader ℕ ℕ ℕ ℕ ℕ
loader = record {
  finders = record { built = []; config = (codes "default", 3) ∷ [] };
  initializers = record { built = []; config = (codes "default", 4) ∷ [] };
  singleton_module_cache = [];
  temporary = 0;
}

abbrev loaded : Loader ℕ ℕ ℕ ℕ ℕ
loaded = record {
  finders = record { built = (codes "default", 3) ∷ []; config = (codes "default", 3) ∷ [] };
  initializers = record { built = (codes "default", 4) ∷ []; config = (codes "default", 4) ∷ [] };
  singleton_module_cache = (codes "m", 7) ∷ [];
  temporary = 0;
}

load-again_example :
    load build build find init files none (path (codes "m")) true (given 9) (given 9) loaded
    ≡ (ok 7, loaded)
unfolding load load_directory do_load load_new keep_singleton get_finder get_initializer choose
    get_component keep_built under_load_path normalise Dict.get Dict.put
load-again_example =
    load-again build build find init files none (path (codes "m")) (named (codes "default"))
      (given 9) (named (codes "default")) (given 9) loader loaded 7 refl refl

abbrev class_name : ℕ → Text
class_name c = c ∷ []

abbrev types : Dict Text ℕ
types = (3 ∷ [], 3) ∷ []

abbrev make : ℕ → ℕ → Text → Outcome ℕ
make c g name = ok (c + g)

abbrev import_class : Text → Text → Imported ℕ
import_class m c = found 8

abbrev instance_config : InstanceConfig ℕ
instance_config = record {
  type_name = some (8 ∷ []);
  config = none;
  import_class = some (codes "package.Class");
}
