-- ===== src/Doctor/Safe.antt =====
-- What `cccollab doctor --prune` may remove (mcp_server/src/doctor.ts).
use Prim.Native.String
use cccollab.Base.{
  String, ◌≡◌, refl, sym, ◌∙◌, ap, Bool, true, false, ◌||◌, List, [], ◌∷◌, map, keep, arith,
  Bool-cases, inl, inr, All, All-append,
}
use cccollab.Base.Text.{is_empty}
use cccollab.Base.StrSet.{has}
use cccollab.Doctor.Words.{words, extract_plugin_roots}
use cccollab.Doctor.Loaded.{has-extract_plugin_roots, strip_prefix-ne_nil}
use cccollab.Doctor.{
  DoctorDeps, DoctorOptions, CacheEntry, Report, cache_root, referenced_paths, under, scan_versions,
  scan_marketplaces, scan_caches, is_prunable, prunable, is_safe_cache_path, is_some_path,
  has_problems, remove_stale, pruned, run_doctor,
}

-- neither installed, nor named as a plugin root by any process of the dump, and a copy in the cache
abbrev pub IsSpare : DoctorDeps → String → Type 0
IsSpare deps p =
    (has p (referenced_paths deps) ≡ false)
    × (has (String.◌++◌ "CLAUDE_PLUGIN_ROOT=" p) (words deps.caches_dump) ≡ false)
    × (is_safe_cache_path p (cache_root deps) ≡ true)

abbrev IsScanned : DoctorDeps → CacheEntry → Type 0
IsScanned deps e =
    (e.referenced ≡ has e.path (referenced_paths deps))
    × (e.in_use ≡ has e.path (extract_plugin_roots deps.caches_dump))

scan_versions-IsScanned :
    (deps : DoctorDeps) (marketplace plugin_dir : String) (versions : List String)
    → All (IsScanned deps) (scan_versions deps marketplace plugin_dir versions)
unfolding scan_versions
scan_versions-IsScanned deps marketplace plugin_dir [] = tt
scan_versions-IsScanned deps marketplace plugin_dir (v ∷ versions) =
    let rest = scan_versions-IsScanned deps marketplace plugin_dir versions in
    elim (Bool-cases (deps.is_directory (under plugin_dir v))) [
      | inl there ↦ rw (there, scan_versions) ((refl, refl), rest)
      | inr gone ↦ rw (gone, scan_versions) rest
    ]

scan_marketplaces-IsScanned :
    (deps : DoctorDeps) (ms : List String) → All (IsScanned deps) (scan_marketplaces deps ms)
unfolding scan_marketplaces
scan_marketplaces-IsScanned deps [] = tt
scan_marketplaces-IsScanned deps (m ∷ ms) =
    let rest = scan_marketplaces-IsScanned deps ms in
    let dir = under (under (cache_root deps) m) "cccollab" in
    elim (Bool-cases (deps.is_directory dir)) [
      | inl there ↦
          rw (there, scan_marketplaces)
            (All-append (IsScanned deps) _ _
              (scan_versions-IsScanned deps m dir (deps.list_dir dir)) rest)
      | inr gone ↦ rw (gone, scan_marketplaces) rest
    ]

abbrev IsUnused : DoctorDeps → CacheEntry → Type 0
IsUnused deps e =
    (has e.path (referenced_paths deps) ≡ false)
    × (has e.path (extract_plugin_roots deps.caches_dump) ≡ false)

keep-IsUnused :
    (deps : DoctorDeps) (es : List CacheEntry)
    → All (IsScanned deps) es
    → All (IsUnused deps) (keep is_prunable es)
keep-IsUnused deps [] h = tt
keep-IsUnused deps (e ∷ es) (s, h) =
    let rest = keep-IsUnused deps es h in
    elim (Bool-cases (is_prunable e)) [
      | inl spare ↦
          rw (spare, keep)
            ((sym s.0 ∙ ground (arith, spare), sym s.1 ∙ ground (arith, spare)), rest)
      | inr used ↦ rw (used, keep) rest
    ]

safe_full : (p root : String) → is_safe_cache_path p root ≡ true → is_empty p ≡ false
unfolding is_empty is_safe_cache_path
safe_full String.[] root h = absurd (ground (arith, strip_prefix-ne_nil root, h))
safe_full (String.◌∷◌ c p) root h = refl

spare :
    (deps : DoctorDeps) (e : CacheEntry)
    → IsUnused deps e
    → is_safe_cache_path e.path (cache_root deps) ≡ true
    → IsSpare deps e.path
spare deps e (unreferenced, unloaded) safe =
    elim (Bool-cases (has (String.◌++◌ "CLAUDE_PLUGIN_ROOT=" e.path) (words deps.caches_dump))) [
      | inr absent ↦ (unreferenced, absent, safe)
      | inl there ↦
          let loaded =
            has-extract_plugin_roots deps.caches_dump e.path
              (safe_full e.path (cache_root deps) safe) there in
          absurd (ground (arith, loaded, unloaded))
    ]

remove_stale-IsSpare :
    (deps : DoctorDeps) (es : List CacheEntry) (problems : Bool)
    → All (IsUnused deps) es
    → All (IsSpare deps) (remove_stale (cache_root deps) es problems).removed
unfolding remove_stale
remove_stale-IsSpare deps [] problems h = tt
remove_stale-IsSpare deps (e ∷ es) problems (u, h) =
    let kept = remove_stale-IsSpare deps es problems h in
    let marked = remove_stale-IsSpare deps es true h in
    elim (Bool-cases (is_safe_cache_path e.path (cache_root deps))) [
      | inl safe ↦ rw (safe, remove_stale) (spare deps e u safe, kept)
      | inr odd ↦ rw (odd, remove_stale) marked
    ]

-- The exit code 0 of the loop: no problem before, and every copy removed.
remove_stale-zero :
    (root : String) (es : List CacheEntry) (problems : Bool)
    → (remove_stale root es problems).exit_code ≡ 0
    → (problems ≡ false) × ((remove_stale root es problems).removed ≡ map (λ e. e.path) es)
unfolding remove_stale
remove_stale-zero root [] problems z = (ground (arith, z), refl)
remove_stale-zero root (e ∷ es) problems z = elim (Bool-cases (is_safe_cache_path e.path root)) [
  | inl safe ↦
      let (fine, all) = remove_stale-zero root es problems (ground (arith, safe, z)) in
      (fine, rw (safe, remove_stale) (ap (λ ps. e.path ∷ ps) all))
  | inr odd ↦ absurd (ground (arith, (remove_stale-zero root es true (ground (arith, odd, z))).0))
]

-- what a run may remove, when, and what it has removed where it reports success
abbrev pub IsCareful : (prune wanted : Bool) → DoctorDeps → List CacheEntry → Report → Type 0
IsCareful prune wanted deps stale r =
    All (IsSpare deps) r.removed
    × (is_some_path r.removed ≡ true → (prune ≡ true) × (wanted ≡ true))
    × (r.exit_code ≡ 0 → (has_problems deps ≡ false) × (r.removed ≡ map (λ e. e.path) stale))

pruned-IsCareful :
    (prune wanted : Bool) (deps : DoctorDeps) (stale : List CacheEntry)
    → All (IsUnused deps) stale
    → IsCareful prune wanted deps stale
        (pruned prune wanted (cache_root deps) stale (has_problems deps))
unfolding pruned
pruned-IsCareful false wanted deps stale h =
    (tt, λ q. absurd (ground (arith, q)), λ z. absurd (ground (arith, z)))
pruned-IsCareful true false deps stale h =
    (tt, λ q. absurd (ground (arith, q)), λ z. absurd (ground (arith, z)))
pruned-IsCareful true true deps stale h = (
  remove_stale-IsSpare deps stale (has_problems deps) h,
  λ q. (refl, refl),
  λ z. remove_stale-zero (cache_root deps) stale (has_problems deps) z,
)

outcome :
    (options : DoctorOptions) (deps : DoctorDeps) (stale : List CacheEntry)
    → All (IsUnused deps) stale
    → prunable (scan_caches deps) ≡ stale
    → IsCareful options.prune (options.yes || deps.confirm) deps stale (run_doctor options deps)
unfolding run_doctor
outcome options deps [] h e =
    rw (e, run_doctor) (tt, λ q. absurd (ground (arith, q)), λ z. (ground (arith, z), refl))
outcome options deps (s ∷ stale) h e =
    rw (e, run_doctor)
      (pruned-IsCareful options.prune (options.yes || deps.confirm) deps (s ∷ stale) h)

-- What a run removes is not recorded as installed, no word of the dump sets CLAUDE_PLUGIN_ROOT to it,
-- and it has passed the check of the path; nothing is removed without --prune and a yes; and with exit
-- code 0 there is no problem and every unused copy is removed.
pub run_doctor-IsCareful :
    (options : DoctorOptions) (deps : DoctorDeps)
    → IsCareful options.prune
        (options.yes || deps.confirm)
        deps
        (prunable (scan_caches deps))
        (run_doctor options deps)
run_doctor-IsCareful options deps = outcome options deps (prunable (scan_caches deps)) unused refl
  where
    unused : All (IsUnused deps) (prunable (scan_caches deps))
    unused =
        unfold prunable in
        unfold scan_caches in
        keep-IsUnused deps (scan_caches deps)
          (scan_marketplaces-IsScanned deps (deps.list_dir (cache_root deps)))
