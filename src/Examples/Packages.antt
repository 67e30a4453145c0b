-- ===== src/Examples/Packages.antt =====
-- Reports of installed packages.
use simple_host_man.Prelude.Result.{err, ok}
use simple_host_man.Store.Packages.Freshness.{dedupe_freshest, dedupe_undated, covers}
use simple_host_man.Examples.{false, store, dates}
use simple_host_man.Store.{invalid_timestamp, ReportedInstalledPackage}
use simple_host_man.Prelude.Text.{codes, same, Text}
use simple_host_man.Store.Packages.{
  compare_reported_package_freshness, dedupe_step, dedupe_from, is_storable,
  dedupe_reported_installed_packages, installed_time, package_key, replace_node_installed_packages,
}
use simple_host_man.Store.Packages.Inventory.{replace-dedupe, package_row}
use simple_host_man.Prelude.{
  all, if◌then◌else◌, filter, All, refl, ◌≡◌, true, not, Option, none, some, List, [], ◌∷◌, ◌++◌,
  map, str_eq,
}

abbrev reported_package : Text → Option Text → ReportedInstalledPackage
reported_package version installed_at = record {
  package_name = codes "httpd";
  epoch = none;
  version = version;
  release = codes "1";
  arch = codes "x86_64";
  nevra = codes "httpd";
  source = none;
  installed_at = installed_at;
}

abbrev dated : ReportedInstalledPackage
dated = reported_package (codes "2") (some (7 ∷ []))

abbrev undated : ReportedInstalledPackage
undated = reported_package (codes "2") none

abbrev reports : List ReportedInstalledPackage
reports = dated ∷ reported_package (codes "2") (some (9 ∷ [])) ∷ []

dated_at : installed_time dates dated.installed_at ≡ some 7
unfolding installed_time
dated_at = refl

dated_later : installed_time dates (some (9 ∷ [])) ≡ some 9
unfolding installed_time
dated_later = refl

undated_at : installed_time dates undated.installed_at ≡ none
unfolding installed_time
undated_at = refl

same_package : same (package_key dated) (package_key undated) ≡ true
same_package = refl

replace-dedupe_example :
    let kept = dedupe_reported_installed_packages dates reports in
    replace_node_installed_packages dates "web-1" 5 kept store ≡ (
      if all (is_storable dates) kept
      then ok (
        tt,
        record store {
          installed_packages =
              filter (λ row. not (str_eq row.node_id "web-1")) store.installed_packages
              ++ map (package_row "web-1" 5) kept;
        },
      )
      else err invalid_timestamp)
replace-dedupe_example = replace-dedupe dates "web-1" 5 reports store

dedupe_freshest_example :
    All (λ p. covers dates (dedupe_reported_installed_packages dates reports) p ≡ true) reports
dedupe_freshest_example = dedupe_freshest dates reports ((7, dated_at), ((9, dated_later), tt))

dedupe_undated_example :
    (dedupe_reported_installed_packages dates (dated ∷ undated ∷ []) ≡ undated ∷ [])
    × (dedupe_reported_installed_packages dates (undated ∷ dated ∷ []) ≡ undated ∷ [])
dedupe_undated_example = dedupe_undated dates dated undated 7 same_package dated_at undated_at

all_stored : all (is_storable dates) (dedupe_reported_installed_packages dates reports) ≡ true
unfolding is_storable dedupe_reported_installed_packages dedupe_from dedupe_step
    compare_reported_package_freshness installed_time
all_stored = refl

none_stored : all (is_storable dates) (reported_package (codes "2") (some []) ∷ []) ≡ false
unfolding is_storable
none_stored = refl
