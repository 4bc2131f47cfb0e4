-- ===== src/Doctor.antt =====
-- mcp_server/src/doctor.ts and plugin-version.ts: what is installed and what is in use, and which cached
-- copies a prune removes. The file system, the process table and JSON.parse are arguments; the texts
-- of the report are not modelled.
pub mod Words
pub mod Loaded
pub mod Broken
pub mod Safe
mod Tests
use Prim.Native.String
use cccollab.Base.{
  ℕ, String, Bool, true, false, not, ◌&&◌, ◌||◌, Option, none, some, List, [], ◌∷◌, ◌++◌, map, keep,
  length, if◌then◌else◌, ltb, str_eq,
}
use cccollab.Base.Text.{is_empty, strip_prefix}
use cccollab.Base.Nullable.{truthy, or_else, or_option, ◌>>=◌}
use cccollab.Base.StrSet.{has, add}
use cccollab.Context.Find.{includes}
use cccollab.Doctor.Words.{segments, extract_plugin_roots, extract_server_binaries}

-- a parsed JSON text; a number, a truth value or null is an atom
mutual
  pub data Json : Type 0 where
    atom : Json
    string : String → Json
    array : Items → Json
    object : Members → Json

  pub data Items : Type 0 where
    no_items : Items
    item : Json → Items → Items

  pub data Members : Type 0 where
    no_members : Members
    member : String → Json → Members → Members

-- `walk` of referencedInstallPaths, with the set that it fills
unfoldable mutual
  pub walk : Json → List String → List String
  walk atom found = found
  walk (string s) found = found
  walk (array xs) found = walk_items xs found
  walk (object ms) found = walk_members ms found

  pub walk_items : Items → List String → List String
  walk_items no_items found = found
  walk_items (item x xs) found = walk_items xs (walk x found)

  pub walk_members : Members → List String → List String
  walk_members no_members found = found
  walk_members (member key value ms) found = walk_members ms (walk_value key value found)

  pub walk_value : String → Json → List String → List String
  walk_value key (string s) found = if str_eq key "installPath" then add s found else found
  walk_value key atom found = found
  walk_value key (array xs) found = walk_items xs found
  walk_value key (object ms) found = walk_members ms found

pub record BinaryInstall : Type 0 where
  pub path : String
  pub version : Option String

-- `DoctorDeps`: what the functions answer that read the machine. The process table is read twice.
pub record DoctorDeps : Type 0 where
  pub read_file : String → Option String
  pub parse_json : String → Option Json
  pub list_dir : String → List String
  pub is_directory : String → Bool
  pub file_exists : String → Bool
  pub binaries_dump : String
  pub caches_dump : String
  pub binaries_on_path : List BinaryInstall
  pub confirm : Bool
  pub home_dir : String
  pub server_version : String
  pub plugin_root : Option String

pub record DoctorOptions : Type 0 where
  pub prune : Bool
  pub yes : Bool

unfoldable pub parse_doctor_args : List String → DoctorOptions
parse_doctor_args argv = record {
  prune = has "--prune" argv;
  yes = has "--yes" argv || has "-y" argv;
}

abbrev pub cache_root : DoctorDeps → String
cache_root deps = String.◌++◌ deps.home_dir "/.claude/plugins/cache"

-- no paths where there is no text, or it does not parse
unfoldable pub referenced_install_paths : (String → Option Json) → Option String → List String
unfolding walk
referenced_install_paths parse raw = elim (truthy raw >>= parse) [
  | none ↦ []
  | some json ↦ walk json []
]

pub data VersionStatus : Type 0 where
  standalone aligned drifted unreadable : VersionStatus

abbrev pub as_string : Json → Option String
as_string (string s) = some s
as_string _ = none

abbrev pub field_in : String → Members → Option Json
field_in key no_members = none
field_in key (member k v ms) = let rest = field_in key ms in if str_eq k key then some v else rest

abbrev pub field_of_json : String → Json → Option Json
field_of_json key (object ms) = field_in key ms
field_of_json key _ = none

-- `readPluginManifestVersion`
unfoldable pub plugin_version : DoctorDeps → String → Option String
plugin_version deps root = do
  raw ← truthy (deps.read_file (String.◌++◌ root "/.claude-plugin/plugin.json"))
  json ← deps.parse_json raw
  version ← field_of_json "version" json
  as_string version

abbrev pub compared : String → Option String → VersionStatus
compared server none = unreadable
compared server (some v) = if str_eq v server then aligned else drifted

-- `inspectVersions`
unfoldable pub inspect_versions : DoctorDeps → VersionStatus
unfolding plugin_version
inspect_versions deps = elim (truthy deps.plugin_root) [
  | none ↦ standalone
  | some root ↦ compared deps.server_version (truthy (plugin_version deps root))
]

-- whether driftWarning returns a text
abbrev pub drift_warning : VersionStatus → Bool
drift_warning drifted = true
drift_warning unreadable = true
drift_warning _ = false

pub record BinaryFindings : Type 0 where
  pub on_path : List BinaryInstall
  pub running : List String
  pub vanished : List String
  pub shadowed : Bool

unfoldable pub inspect_binaries : DoctorDeps → BinaryFindings
unfolding extract_server_binaries
inspect_binaries deps =
    let running = extract_server_binaries deps.binaries_dump in
    record {
      on_path = deps.binaries_on_path;
      running = running;
      vanished = keep (λ path. not (deps.file_exists path)) running;
      shadowed = ltb 1 (length deps.binaries_on_path);
    }

pub record CacheEntry : Type 0 where
  pub path : String
  pub marketplace : String
  pub version : String
  pub referenced : Bool
  pub in_use : Bool

abbrev pub referenced_paths : DoctorDeps → List String
referenced_paths deps =
    referenced_install_paths deps.parse_json
      (deps.read_file (String.◌++◌ deps.home_dir "/.claude/plugins/installed_plugins.json"))

abbrev pub under : String → String → String
under dir name = String.◌++◌ dir (String.◌++◌ "/" name)

-- the inner loop of scanCaches
unfoldable pub scan_versions :
    DoctorDeps → (marketplace plugin_dir : String) → List String → List CacheEntry
scan_versions deps marketplace plugin_dir [] = []
scan_versions deps marketplace plugin_dir (version ∷ versions) =
    let rest = scan_versions deps marketplace plugin_dir versions in
    let path = under plugin_dir version in
    if deps.is_directory path
    then record {
      path = path;
      marketplace = marketplace;
      version = version;
      referenced = has path (referenced_paths deps);
      in_use = has path (extract_plugin_roots deps.caches_dump);
    }
      ∷ rest
    else rest

unfoldable pub scan_marketplaces : DoctorDeps → List String → List CacheEntry
unfolding scan_versions
scan_marketplaces deps [] = []
scan_marketplaces deps (marketplace ∷ marketplaces) =
    let rest = scan_marketplaces deps marketplaces in
    let plugin_dir = under (under (cache_root deps) marketplace) "cccollab" in
    if deps.is_directory plugin_dir
    then scan_versions deps marketplace plugin_dir (deps.list_dir plugin_dir) ++ rest
    else rest

unfoldable pub scan_caches : DoctorDeps → List CacheEntry
unfolding scan_marketplaces
scan_caches deps = scan_marketplaces deps (deps.list_dir (cache_root deps))

pub data InstalledStatus : Type 0 where
  is_aligned has_drifted is_missing : InstalledStatus

abbrev pub first_entry : List CacheEntry → Option CacheEntry
first_entry [] = none
first_entry (e ∷ es) = some e

-- `inspectInstalledPlugin`: the entry that it chooses
unfoldable pub chosen_entry : List CacheEntry → Option CacheEntry
chosen_entry entries =
    let installed = keep (λ e. e.referenced) entries in
    or_option (first_entry (keep (λ e. str_eq e.marketplace "kollaborativeai") installed))
      (first_entry installed)

unfoldable pub inspect_installed_plugin : List CacheEntry → String → InstalledStatus
unfolding chosen_entry
inspect_installed_plugin entries server_version = elim (chosen_entry entries) [
  | none ↦ is_missing
  | some e ↦ if str_eq e.version server_version then is_aligned else has_drifted
]

abbrev pub is_prunable : CacheEntry → Bool
is_prunable e = not e.referenced && not e.in_use

unfoldable pub prunable : List CacheEntry → List CacheEntry
prunable entries = keep is_prunable entries

-- `[^/]+/cccollab/[^/]+`
abbrev pub is_cache_copy : List String → Bool
is_cache_copy (a ∷ b ∷ c ∷ []) = not (is_empty a) && str_eq b "cccollab" && not (is_empty c)
is_cache_copy _ = false

abbrev pub copy_under : Option String → Bool
copy_under none = false
copy_under (some rest) = is_cache_copy (segments rest)

unfoldable pub is_safe_cache_path : String → String → Bool
unfolding strip_prefix
is_safe_cache_path path root =
    not (includes ".." path) && copy_under (strip_prefix (String.◌++◌ root "/") path)

-- what a run removes, and its exit code
pub record Report : Type 0 where
  pub removed : List String
  pub exit_code : ℕ

abbrev pub exit_of : Bool → ℕ
exit_of problems = if problems then 1 else 0

abbrev pub is_aligned_status : InstalledStatus → Bool
is_aligned_status is_aligned = true
is_aligned_status _ = false

abbrev pub is_some_path : List String → Bool
is_some_path [] = false
is_some_path (p ∷ ps) = true

unfoldable pub has_problems : DoctorDeps → Bool
unfolding inspect_versions inspect_binaries inspect_installed_plugin scan_caches
has_problems deps =
    drift_warning (inspect_versions deps)
    || (inspect_binaries deps).shadowed
    || is_some_path (inspect_binaries deps).vanished
    || not (is_aligned_status (inspect_installed_plugin (scan_caches deps) deps.server_version))

-- the loop that deletes
unfoldable pub remove_stale : String → List CacheEntry → Bool → Report
remove_stale root [] problems = record { removed = []; exit_code = exit_of problems }
remove_stale root (e ∷ stale) problems =
    let rest = remove_stale root stale problems in
    let skipped = remove_stale root stale true in
    if is_safe_cache_path e.path root
    then record { removed = e.path ∷ rest.removed; exit_code = rest.exit_code }
    else skipped

abbrev pub nothing_removed : ℕ → Report
nothing_removed code = record { removed = []; exit_code = code }

-- the rest of a run that found stale copies: `--prune`, and whether the deletion is wanted
unfoldable pub pruned : (prune wanted : Bool) → String → List CacheEntry → Bool → Report
unfolding remove_stale
pruned false wanted root stale problems = nothing_removed 1
pruned true false root stale problems = nothing_removed 1
pruned true true root stale problems = remove_stale root stale problems

unfoldable pub run_doctor : DoctorOptions → DoctorDeps → Report
unfolding prunable has_problems pruned
run_doctor options deps = elim (prunable (scan_caches deps)) [
  | [] ↦ nothing_removed (exit_of (has_problems deps))
  | e ∷ stale ↦
      pruned options.prune (options.yes || deps.confirm) (cache_root deps) (e ∷ stale)
        (has_problems deps)
]
