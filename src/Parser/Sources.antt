-- ===== src/Parser/Sources.antt =====
-- src/amun_source_manager.cpp and what the parser uses of src/amun_files.cpp: the paths that are
-- registered, and the files that there are.
use amun.Prelude.{
  ℕ, ◌==◌, Bool, true, false, not, ◌&&◌, List, [], ◌∷◌, ◌++◌, Option, some, none, if◌then◌else◌,
  length, get_or,
}
use amun.Prelude.Text.{Bytes}
use amun.ScopedMap.{contains, find}
use amun.Parser.{Context}
use amun.Parser.Checks.{is_contains}

-- `files_map` is listed in the order of the ids, which count from zero; `last_source_file_id` is one less
-- than its length. `files_set` has the same paths.
pub record SourceManager : Type 0 where
  pub files_map : List Bytes
  pub files_set : List Bytes

abbrev pub no_sources : SourceManager
no_sources = record { files_map = []; files_set = [] }

unfoldable pub register_source_path : Bytes → SourceManager → ℕ × SourceManager
register_source_path path manager = (
  length manager.files_map,
  record { files_map = manager.files_map ++ path ∷ []; files_set = path ∷ manager.files_set },
)

abbrev path_at : ℕ → List Bytes → Bytes
path_at n paths = get_or paths n []

-- The path of an id that is not registered is empty.
unfoldable pub resolve_source_path : ℕ → SourceManager → Bytes
resolve_source_path source_id manager = path_at source_id manager.files_map

unfoldable pub is_path_registered : Bytes → SourceManager → Bool
is_path_registered path manager = is_contains path manager.files_set

-- The files by the paths under which they are found, and the functions of `std::filesystem`.
pub record Files : Type 0 where
  pub contents : List (Bytes × Bytes)
  pub parent_path : Bytes → Bytes
  pub preferred_separator : ℕ

unfoldable pub is_file_exists : Files → Bytes → Bool
is_file_exists files path = contains path files.contents

abbrev text_of : Option Bytes → Bytes
text_of (some text) = text
text_of none = []

unfoldable pub read_file_content : Files → Bytes → Bytes
read_file_content files path = text_of (find path files.contents)

abbrev ends_with : ℕ → Bytes → Bool
ends_with c [] = false
ends_with c (x ∷ []) = x == c
ends_with c (x ∷ y ∷ ys) = ends_with c (y ∷ ys)

abbrev is_empty : Bytes → Bool
is_empty [] = true
is_empty (c ∷ cs) = false

-- `file_parent_path` of the parser's constructor.
unfoldable pub file_parent_path : Files → Bytes → Bytes
file_parent_path files path =
    let parent = files.parent_path path in
    if not (is_empty parent) && not (ends_with files.preferred_separator parent)
    then parent ++ files.preferred_separator ∷ []
    else parent

-- The context after the registration: `resolve_source_path` is its source manager's.
unfoldable pub with_sources : SourceManager → Context → Context
with_sources manager context = record context {
  environment = record context.environment {
    resolve_source_path = λ source_id. resolve_source_path source_id manager;
  };
}
