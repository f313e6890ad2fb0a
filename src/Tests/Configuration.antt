-- ===== src/Tests/Configuration.antt =====
-- Examples for caikit/config/config.py.
use caikit.Common.{
  ℕ, codes, String, true, not, none, some, succeeds, List, [], ◌∷◌, ◌≡◌, refl, ◌==◌, text_eq,
  nat_eq, if◌then◌else◌,
}
use caikit.Common.Split.{split}
use caikit.Configuration.Values.{
  number, text, sequence, mapping, nil, cons, Entries, end, entry, get, put, has, concat,
  distinct_keys,
}
use caikit.Configuration.Merging.{merge_entries, merge_configs, get_merge_strategy}
use caikit.Configuration.Merged.{clashes, merge_entries-succeeds}
use caikit.Configuration.Paths.{find, decides, merged, find-merge_entries}
use caikit.Configuration.Configure.{Outside, merge_extra_files, and_then, or_raise}
use caikit.Configuration.Precedence.{fold_merged, find-merge_extra_files}

-- {"runtime": {"ports": [8085], "host": "a"}, "config_files": "x.yml, y.yml"}
abbrev base : Entries ℕ
base =
    entry "runtime"
      (mapping
        (entry "ports" (sequence (cons (number 8085) nil)) (entry "host" (text (codes "a")) end)))
      (entry "config_files" (text (codes "x.yml,y.yml")) end)

-- {"runtime": {"ports": [1]}}
abbrev first_file : Entries ℕ
first_file = entry "runtime" (mapping (entry "ports" (sequence (cons (number 1) nil)) end)) end

-- {"log": {"level": "info"}, "runtime": {"ports": [2]}}
abbrev second_file : Entries ℕ
second_file =
    entry "log" (mapping (entry "level" (text (codes "info")) end))
      (entry "runtime" (mapping (entry "ports" (sequence (cons (number 2) nil)) end)) end)

abbrev ports : List String
ports = "ports" ∷ []

-- {"runtime": ["a list"]}, which does not go onto the dictionary.
abbrev bad_file : Entries ℕ
bad_file = entry "runtime" (sequence (cons (text (codes "a list")) nil)) end

merge_entries-succeeds_example :
    succeeds (merge_entries base bad_file) ≡ not (clashes base bad_file)
unfolding distinct_keys has
merge_entries-succeeds_example = merge_entries-succeeds base bad_file refl

bad_file-clashes : clashes base bad_file ≡ true
unfolding clashes get
bad_file-clashes = refl

abbrev merged_once : Entries ℕ
merged_once =
    entry "runtime"
      (mapping (
        entry "ports" (sequence (cons (number 1) (cons (number 8085) nil)))
          (entry "host" (text (codes "a")) end)))
      (entry "config_files" (text (codes "x.yml,y.yml")) end)

find-merge_entries_example :
    find merged_once "runtime" ports
    ≡ merged (find base "runtime" ports) (find first_file "runtime" ports)
unfolding distinct_keys has merge_entries get put concat decides
find-merge_entries_example =
    find-merge_entries base first_file merged_once "runtime" ports refl refl refl

abbrev merged_twice : Entries ℕ
merged_twice =
    entry "runtime"
      (mapping (
        entry "ports" (sequence (cons (number 2) (cons (number 1) (cons (number 8085) nil))))
          (entry "host" (text (codes "a")) end)))
      (entry "config_files" (text (codes "x.yml,y.yml"))
        (entry "log" (mapping (entry "level" (text (codes "info")) end)) end))

-- Two files, no environment variables, and names without spaces round them.
abbrev outside : Outside ℕ
outside = record {
  from_yaml = λ file.
      if file == codes "x.yml"
      then some first_file
      else if file == codes "y.yml"
      then some second_file
      else none;
  with_env = λ d. d;
  str = λ v. elim v [ text t ↦ t | _ ↦ [] ];
  is_zero = λ n. n == 0;
  strip = λ s. s;
}

find-merge_extra_files_example :
    find merged_twice "runtime" ports
    ≡ fold_merged (find base "runtime" ports) (first_file ∷ second_file ∷ []) "runtime" ports
unfolding distinct_keys has merge_entries get put concat decides merge_extra_files merge_configs
    get_merge_strategy and_then or_raise split
find-merge_extra_files_example =
    find-merge_extra_files outside base merged_twice (first_file ∷ second_file ∷ []) "runtime" ports
      refl refl refl

ports_prepended :
    find merged_twice "runtime" ports
    ≡ some (sequence (cons (number 2) (cons (number 1) (cons (number 8085) nil))))
unfolding find get
ports_prepended = refl
