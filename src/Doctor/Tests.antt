-- ===== src/Doctor/Tests.antt =====
-- A machine for mcp_server/src/doctor.ts: three cached copies, one installed, one loaded, one stale.

use cccollab.Base.{String, ◌≡◌, refl, true, false, ◌||◌, none, some, [], ◌∷◌, if◌then◌else◌, str_eq}
use cccollab.Base.Text.{is_empty}
use cccollab.Base.StrSet.{has, add}
use cccollab.Context.Find.{includes}
use cccollab.Doctor.Words.{segments, extract_plugin_roots}
use cccollab.Doctor.Broken.{has_break, has-extract_plugin_roots_broken}
use cccollab.Doctor.{
  object, string, member, no_members, DoctorDeps, DoctorOptions, prunable, scan_caches,
  referenced_install_paths, is_safe_cache_path, run_doctor,
}
use cccollab.Doctor.Safe.{IsCareful, run_doctor-IsCareful}

abbrev copies : String
copies = "/h/.claude/plugins/cache/kollaborativeai/cccollab"

abbrev deps : DoctorDeps
deps = record {
  read_file = λ p. if str_eq p "/h/.claude/plugins/installed_plugins.json" then some "{}" else none;
  parse_json = λ s. some (
      object (
        member "installPath" (string "/h/.claude/plugins/cache/kollaborativeai/cccollab/3")
          no_members));
  list_dir = λ p.
      if str_eq p "/h/.claude/plugins/cache"
      then "kollaborativeai" ∷ []
      else if str_eq p copies
      then "1" ∷ "2" ∷ "3" ∷ []
      else [];
  is_directory = λ p. true;
  file_exists = λ p. true;
  binaries_dump = "";
  caches_dump = "node CLAUDE_PLUGIN_ROOT=/h/.claude/plugins/cache/kollaborativeai/cccollab/2 x";
  binaries_on_path = [];
  confirm = true;
  home_dir = "/h";
  server_version = "3";
  plugin_root = none;
}

abbrev options : DoctorOptions
options = record { prune = true; yes = false }

run_doctor-IsCareful_example :
    IsCareful options.prune
      (options.yes || deps.confirm)
      deps
      (prunable (scan_caches deps))
      (run_doctor options deps)
run_doctor-IsCareful_example = run_doctor-IsCareful options deps

removed_one :
    (run_doctor options deps).removed ≡ "/h/.claude/plugins/cache/kollaborativeai/cccollab/1" ∷ []
unfolding run_doctor scan_caches has referenced_install_paths is_empty add extract_plugin_roots
    is_safe_cache_path includes segments
removed_one = refl

abbrev spaced : String
spaced = "/home/ann b/.claude/plugins/cache/kollaborativeai/cccollab/2"

abbrev spaced_dump : String
spaced_dump = "node CLAUDE_PLUGIN_ROOT=/home/ann b/.claude/plugins/cache/kollaborativeai/cccollab/2"

spaced_broken : has_break spaced ≡ true
unfolding has_break
spaced_broken = refl

has-extract_plugin_roots_broken_example : has spaced (extract_plugin_roots spaced_dump) ≡ false
has-extract_plugin_roots_broken_example =
    has-extract_plugin_roots_broken spaced_dump spaced spaced_broken
