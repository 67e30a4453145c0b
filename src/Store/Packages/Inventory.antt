-- ===== src/Store/Packages/Inventory.antt =====
-- The deduplicated inventory has one entry for each key, in the order in which the keys were first
-- seen, so that its insertion meets no row with the same primary key.
use simple_host_man.Store.Tables.{update_where}
use simple_host_man.Store.Packages.{
  is_storable, Dates, insert_packages, same_package_row, replace_node_installed_packages,
  dedupe_reported_installed_packages, dedupe_step, package_key, dedupe_from,
}
use simple_host_man.Prelude.Text.{same_refl, same_sound, elem, same, Text}
use simple_host_man.Store.{
  invalid_timestamp, err, ok, Store, ◌>>=◌, InstalledPackageRow, ReportedInstalledPackage,
}
use simple_host_man.Prelude.{
  all, append_assoc, All-tabulate, append-nil, ap₂, ap, str_eq, ◌∙◌, not, All, filter, String, true,
  any-append, refl, ◌||◌, map-append, or-false, false, [], arith, ◌≡◌, ◌++◌, inr, inl, Bool-cases,
  Bool, if◌then◌else◌, ◌∷◌, any, map, List, ℕ,
}

-- The first occurrence of each text.
abbrev pub first_occurrences : List Text → List Text → List Text
first_occurrences seen [] = seen
first_occurrences seen (k ∷ ks) =
    first_occurrences (if elem k seen then seen else seen ++ k ∷ []) ks

abbrev pub keys : List ReportedInstalledPackage → List Text
keys = map package_key

abbrev pub AreDistinct : List Text → Type 0
AreDistinct [] = Unit
AreDistinct (k ∷ ks) = (elem k ks ≡ false) × AreDistinct ks

pub same_comm : (s t : Text) → same s t ≡ same t s
same_comm [] [] = refl
same_comm [] (d ∷ t) = refl
same_comm (c ∷ s) [] = refl
same_comm (c ∷ s) (d ∷ t) = ground (arith, same_comm s t)

elem-concat : (k j : Text) (ks : List Text) → elem k (ks ++ j ∷ []) ≡ (elem k ks || same k j)
elem-concat k j [] = ground arith
elem-concat k j (i ∷ ks) = ground (arith, elem-concat k j ks)

AreDistinct-concat :
    (k : Text) (ks : List Text) → AreDistinct ks → elem k ks ≡ false → AreDistinct (ks ++ k ∷ [])
AreDistinct-concat k [] h e = (refl, tt)
AreDistinct-concat k (i ∷ ks) h e =
    let (a, b) = or-false {a = same k i} e in
    (rw (elem-concat i k ks) (rw (h.0, same_comm i k, a)), AreDistinct-concat k ks h.1 b)

AreDistinct-first_occurrences :
    (seen ks : List Text) → AreDistinct seen → AreDistinct (first_occurrences seen ks)
AreDistinct-first_occurrences seen [] h = h
AreDistinct-first_occurrences seen (k ∷ ks) h = elim (Bool-cases (elem k seen)) [
  | inl e ↦ rw e (AreDistinct-first_occurrences seen ks h)
  | inr e ↦ rw e (AreDistinct-first_occurrences (seen ++ k ∷ []) ks (AreDistinct-concat k seen h e))
]

any-keys :
    (pkg : ReportedInstalledPackage) (ps : List ReportedInstalledPackage)
    → any (λ q. same (package_key pkg) (package_key q)) ps ≡ elem (package_key pkg) (keys ps)
any-keys pkg [] = refl
any-keys pkg (p ∷ ps) = rw (any-keys pkg ps)

module _ (dates : Dates) where
  key-update :
      (pkg p : ReportedInstalledPackage) (newer : Bool)
      → package_key
          (if same (package_key pkg) (package_key p) then (if newer then pkg else p) else p)
        ≡ package_key p
  key-update pkg p newer = elim (Bool-cases (same (package_key pkg) (package_key p))) [
    | inl e ↦ elim (Bool-cases newer) [
      | inl n ↦ rw (e, n) (same_sound (package_key pkg) (package_key p) e)
      | inr n ↦ rw (e, n)
    ]
    | inr e ↦ rw e
  ]

  keys-update :
      (pkg : ReportedInstalledPackage) (ps : List ReportedInstalledPackage)
      (newer : ReportedInstalledPackage → Bool)
      → keys (
          update_where
            (λ q. same (package_key pkg) (package_key q))
            (λ q. if newer q then pkg else q)
            ps)
        ≡ keys ps
  keys-update pkg [] newer = refl
  keys-update pkg (p ∷ ps) newer = ap₂ ◌∷◌ (key-update pkg p (newer p)) (keys-update pkg ps newer)

  keys-dedupe_step :
      (ps : List ReportedInstalledPackage) (pkg : ReportedInstalledPackage)
      → keys (dedupe_step dates ps pkg)
        ≡ (if elem (package_key pkg) (keys ps) then keys ps else keys ps ++ package_key pkg ∷ [])
  unfolding dedupe_step
  keys-dedupe_step ps pkg = elim (Bool-cases (elem (package_key pkg) (keys ps))) [
    | inl e ↦ rw (any-keys pkg ps, e) (keys-update pkg ps _)
    | inr e ↦ rw (any-keys pkg ps, e) (map-append package_key ps _)
  ]

  keys-dedupe_from :
      (acc ps : List ReportedInstalledPackage)
      → keys (dedupe_from dates acc ps) ≡ first_occurrences (keys acc) (keys ps)
  unfolding dedupe_from
  keys-dedupe_from acc [] = refl
  keys-dedupe_from acc (p ∷ ps) =
      keys-dedupe_from (dedupe_step dates acc p) ps
      ∙ ap (λ seen. first_occurrences seen (keys ps)) (keys-dedupe_step acc p)

  -- Deduplication leaves exactly the keys that were reported, each once, in the order in which they
  -- were first reported.
  keys-dedupe :
      (ps : List ReportedInstalledPackage)
      → (keys (dedupe_reported_installed_packages dates ps) ≡ first_occurrences [] (keys ps))
        × AreDistinct (keys (dedupe_reported_installed_packages dates ps))
  unfolding dedupe_reported_installed_packages
  keys-dedupe ps = (
    keys-dedupe_from [] ps,
    rw (keys-dedupe_from [] ps) (AreDistinct-first_occurrences [] (keys ps) tt),
  )

-- The inserted row of a package.
abbrev pub package_row : String → ℕ → ReportedInstalledPackage → InstalledPackageRow
package_row node_id collected_at pkg = record {
  node_id = node_id;
  pkg = pkg;
  last_collected_at = collected_at;
}

any-concat {ℓ} :
    {A : Type ℓ} (p : A → Bool) (xs : List A) (x : A)
    → any p xs ≡ false
    → p x ≡ false
    → any p (xs ++ x ∷ []) ≡ false
any-concat p xs x h e = rw (any-append p xs (x ∷ [])) (rw (h, e))

same-append :
    (s t u v : Text) → same s t ≡ true → same u v ≡ true → same (s ++ 0 ∷ u) (t ++ 0 ∷ v) ≡ true
same-append s t u v h k = rw (same_sound s t h, same_sound u v k) (same_refl (t ++ 0 ∷ v))

module _ (node_id : String) (collected_at : ℕ) where
  -- A row with another key does not meet the insertion of a package.
  other_key :
      (p q : ReportedInstalledPackage)
      → same (package_key q) (package_key p) ≡ false
      → same_package_row node_id q (package_row node_id collected_at p) ≡ false
  other_key p q e = elim (Bool-cases (same p.package_name q.package_name)) [
    | inr a ↦ ground arith
    | inl a ↦ elim (Bool-cases (same p.arch q.arch)) [
      | inr b ↦ ground arith
      | inl b ↦ cc (
        e,
        same_comm (package_key q) (package_key p),
        same-append p.package_name q.package_name p.arch q.arch a b,
      )
    ]
  ]

  free_after :
      (p : ReportedInstalledPackage) (ps : List ReportedInstalledPackage)
      (rows : List InstalledPackageRow)
      → elem (package_key p) (keys ps) ≡ false
      → All (λ q. any (same_package_row node_id q) rows ≡ false) ps
      → All
          (λ q.
            any (same_package_row node_id q) (rows ++ package_row node_id collected_at p ∷ [])
            ≡ false)
          ps
  free_after p [] rows h a = tt
  free_after p (q ∷ ps) rows h a =
      let (here, later) = or-false {a = same (package_key p) (package_key q)} h in
      (
        any-concat (same_package_row node_id q) rows _ a.0
            (other_key p q (same_comm (package_key q) (package_key p) ∙ here)),
        free_after p ps rows later a.1,
      )

  abbrev with_packages : List ReportedInstalledPackage → Store → Store
  with_packages ps db = record db {
    installed_packages = db.installed_packages ++ map (package_row node_id collected_at) ps;
  }

  insert_packages-All :
      (dates : Dates) (ps : List ReportedInstalledPackage) (db : Store)
      → AreDistinct (keys ps)
      → All (λ q. any (same_package_row node_id q) db.installed_packages ≡ false) ps
      → insert_packages dates node_id collected_at ps db ≡ (
          if all (is_storable dates) ps
          then ok (tt, with_packages ps db)
          else err invalid_timestamp)
  unfolding insert_packages ◌>>=◌
  insert_packages-All dates [] db d a = rw (append-nil db.installed_packages)
  insert_packages-All dates (p ∷ ps) db d a = elim (Bool-cases (is_storable dates p)) [
    | inr bad ↦ rw (bad, ◌>>=◌) refl
    | inl good ↦
        rw (good, a.0, ◌>>=◌)
          (insert_packages-All dates ps (with_packages (p ∷ []) db) d.1
              (free_after p ps db.installed_packages d.0 a.1)
            ∙ rw (append_assoc db.installed_packages _ _))
  ]

  none_of_node :
      (q : ReportedInstalledPackage) (rows : List InstalledPackageRow)
      → any (same_package_row node_id q) (filter (λ row. not (str_eq row.node_id node_id)) rows)
        ≡ false
  none_of_node q [] = refl
  none_of_node q (row ∷ rows) = elim (Bool-cases (str_eq row.node_id node_id)) [
    | inl e ↦ rw e (none_of_node q rows)
    | inr e ↦ rw e (rw e (none_of_node q rows))
  ]

-- Replacing a node's inventory by a deduplicated report never fails on the primary key. If the
-- database can store the time of installation of each kept package, the rows of the other nodes stay
-- and the node has exactly one row for each kept package; if not, the statements fail.
pub replace-dedupe :
    (dates : Dates) (node_id : String) (collected_at : ℕ) (ps : List ReportedInstalledPackage)
    (db : Store)
    → let kept = dedupe_reported_installed_packages dates ps in
      replace_node_installed_packages dates node_id collected_at kept db ≡ (
        if all (is_storable dates) kept
        then ok (
          tt,
          record db {
            installed_packages =
                filter (λ row. not (str_eq row.node_id node_id)) db.installed_packages
                ++ map (package_row node_id collected_at) kept;
          },
        )
        else err invalid_timestamp)
unfolding replace_node_installed_packages ◌>>=◌
replace-dedupe dates node_id collected_at ps db =
    insert_packages-All node_id collected_at dates (dedupe_reported_installed_packages dates ps) _
      (keys-dedupe dates ps).1
      (All-tabulate _ _ (λ q. none_of_node node_id collected_at q db.installed_packages))
