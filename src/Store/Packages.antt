-- ===== src/Store/Packages.antt =====
-- The reported package inventory of a node: `extractReportedInstalledPackages` and
-- `replaceNodeInstalledPackages` of
-- packages/control-database/src/control-plane-store-auth.ts.
-- `parse_date` is `Date.parse`, `none` for `NaN`; `is_timestamp` tells whether the database reads a
-- text as a `TIMESTAMPTZ`.
pub mod Inventory
pub mod Freshness
use simple_host_man.Prelude.{
  ℕ, String, Bool, true, false, not, ◌&&◌, Option, none, some, List, [], ◌∷◌, ◌++◌, ◌≡◌, refl,
  str_eq, if◌then◌else◌, filter, any,
}
use simple_host_man.Prelude.Int.{ℤ, pos, negsuc, sub_ℕ, is_nonneg}
use simple_host_man.Prelude.Text.{Text, codes, same}
use simple_host_man.Prelude.Result.{ok, err}
use simple_host_man.Payload.{Json, str, arr, obj, Items, nil, cons, Fields, lookup}
use simple_host_man.Store.{
  invalid_timestamp, ReportedInstalledPackage, InstalledPackageRow, unique_violation, Tx, ◌>>=◌,
  ◌>>◌, pure, execute,
}
use simple_host_man.Store.Tables.{upsert}

pub record Dates : Type 0 where
  pub parse_date : Text → Option ℕ
  pub is_timestamp : Text → Bool

abbrev pub text_value : Option Json → Option Text
text_value (some (str s)) = some s
text_value _ = none

-- The five columns that every package must have as texts.
abbrev required :
    Option Text
    → Option Text
    → Option Text
    → Option Text
    → Option Text
    → Fields
    → Option ReportedInstalledPackage
required (some name) (some version) (some release) (some arch) (some nevra) fs = some (record {
  package_name = name;
  epoch = text_value (lookup (codes "epoch") fs);
  version = version;
  release = release;
  arch = arch;
  nevra = nevra;
  source = text_value (lookup (codes "source") fs);
  installed_at = text_value (lookup (codes "installedAt") fs);
})
required _ _ _ _ _ fs = none

unfoldable pub normalize_reported_installed_package : Json → Option ReportedInstalledPackage
unfolding lookup
normalize_reported_installed_package (obj fs) =
    required (text_value (lookup (codes "packageName") fs))
      (text_value (lookup (codes "version") fs)) (text_value (lookup (codes "release") fs))
      (text_value (lookup (codes "arch") fs)) (text_value (lookup (codes "nevra") fs)) fs
normalize_reported_installed_package _ = none

abbrev keep_some :
    Option ReportedInstalledPackage → List ReportedInstalledPackage → List ReportedInstalledPackage
keep_some none rest = rest
keep_some (some pkg) rest = pkg ∷ rest

-- `.map(normalizeReportedInstalledPackage).filter(Boolean)`
unfoldable pub normalize_packages : Items → List ReportedInstalledPackage
unfolding normalize_reported_installed_package
normalize_packages nil = []
normalize_packages (cons x xs) =
    keep_some (normalize_reported_installed_package x) (normalize_packages xs)

-- The key of the map: name, a null character, architecture.
abbrev pub package_key : ReportedInstalledPackage → Text
package_key pkg = pkg.package_name ++ 0 ∷ pkg.arch

module _ (dates : Dates) where
  -- The empty text is falsy.
  unfoldable pub installed_time : Option Text → Option ℕ
  installed_time none = none
  installed_time (some []) = none
  installed_time (some text) = dates.parse_date text

  abbrev pub compare_times : Option ℕ → Option ℕ → ℤ
  compare_times (some left) (some right) = sub_ℕ left right
  compare_times (some left) none = negsuc 0
  compare_times none (some right) = pos 1
  compare_times none none = pos 0

  unfoldable pub compare_reported_package_freshness :
      ReportedInstalledPackage → ReportedInstalledPackage → ℤ
  compare_reported_package_freshness left right =
      compare_times (installed_time left.installed_at) (installed_time right.installed_at)

  -- One round of the loop, over the values of the map in insertion order.
  unfoldable pub dedupe_step :
      List ReportedInstalledPackage → ReportedInstalledPackage → List ReportedInstalledPackage
  dedupe_step deduped pkg =
      upsert (λ existing. same (package_key pkg) (package_key existing))
        (λ existing.
          if is_nonneg (compare_reported_package_freshness pkg existing) then pkg else existing)
        pkg deduped

  unfoldable pub dedupe_from :
      List ReportedInstalledPackage → List ReportedInstalledPackage → List ReportedInstalledPackage
  dedupe_from deduped [] = deduped
  dedupe_from deduped (pkg ∷ packages) = dedupe_from (dedupe_step deduped pkg) packages

  unfoldable pub dedupe_reported_installed_packages :
      List ReportedInstalledPackage → List ReportedInstalledPackage
  dedupe_reported_installed_packages packages = dedupe_from [] packages

  abbrev packages_of : Option Json → Option (List ReportedInstalledPackage)
  packages_of (some (arr xs)) = some (dedupe_reported_installed_packages (normalize_packages xs))
  packages_of _ = none

  unfoldable pub extract_reported_installed_packages :
      Option Fields → Option (List ReportedInstalledPackage)
  extract_reported_installed_packages none = none
  extract_reported_installed_packages (some details) =
      packages_of (lookup (codes "packages") details)

-- One `INSERT`; the primary key is the node, the name and the architecture.
abbrev pub same_package_row : String → ReportedInstalledPackage → InstalledPackageRow → Bool
same_package_row node_id pkg row =
    str_eq row.node_id node_id
    && same row.pkg.package_name pkg.package_name
    && same row.pkg.arch pkg.arch

-- An absent time is stored as `NULL`.
unfoldable pub is_storable : Dates → ReportedInstalledPackage → Bool
is_storable dates pkg = elim pkg.installed_at [ none ↦ true | some text ↦ dates.is_timestamp text ]

module _ (dates : Dates) (node_id : String) (collected_at : ℕ) where
  unfoldable pub insert_package : ReportedInstalledPackage → Tx (Unit {0})
  insert_package pkg db =
      if not (is_storable dates pkg)
      then err invalid_timestamp
      else if any (same_package_row node_id pkg) db.installed_packages
      then err unique_violation
      else ok (
        tt,
        record db {
          installed_packages =
              db.installed_packages
              ++ (record { node_id = node_id; pkg = pkg; last_collected_at = collected_at }) ∷ [];
        },
      )

  unfoldable pub insert_packages : List ReportedInstalledPackage → Tx (Unit {0})
  unfolding insert_package
  insert_packages [] = pure tt
  insert_packages (pkg ∷ packages) = insert_package pkg >> insert_packages packages

  unfoldable pub replace_node_installed_packages : List ReportedInstalledPackage → Tx (Unit {0})
  replace_node_installed_packages packages = do
    execute (λ db. record db {
      installed_packages = filter (λ row. not (str_eq row.node_id node_id)) db.installed_packages;
    })
    insert_packages packages
