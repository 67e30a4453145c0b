-- ===== src/Store/Packages/Freshness.antt =====
-- Which of several reports of one package is kept.
use simple_host_man.Store.Packages.Inventory.{same_comm}
use simple_host_man.Store.Tables.{update_where}
use simple_host_man.Store.{ReportedInstalledPackage}
use simple_host_man.Store.Packages.{
  Dates, dedupe_from, dedupe_step, dedupe_reported_installed_packages, sub_ℕ, is_nonneg,
  package_key, installed_time, compare_reported_package_freshness,
}
use simple_host_man.Prelude.Text.{same_sound, same_refl, same}
use simple_host_man.Prelude.{
  All-append, or-true, any-append, All, and-true, any, ◌≡◌, inl, inr, ℕ, Bool, true, false, ◌&&◌,
  ◌||◌, none, some, List, [], ◌∷◌, if◌then◌else◌, arith, Bool-cases,
}

or_true : (b : Bool) → (b || true) ≡ true
or_true b = ground arith

module _ (dates : Dates) where
  abbrev pub IsDated : ReportedInstalledPackage → Type 0
  IsDated p = (t : ℕ) × (installed_time dates p.installed_at ≡ some t)

  -- A report of the same package, and no older.
  abbrev pub is_at_least : ReportedInstalledPackage → ReportedInstalledPackage → Bool
  is_at_least p q =
      same (package_key p) (package_key q)
      && is_nonneg (compare_reported_package_freshness dates q p)

  is_at_least_refl : (p : ReportedInstalledPackage) → IsDated p → is_at_least p p ≡ true
  unfolding compare_reported_package_freshness
  is_at_least_refl p (t, e) = rw (same_refl (package_key p), e) (ground arith)

  no_older :
      (a b c : ℕ)
      → is_nonneg (sub_ℕ b a) ≡ true
      → is_nonneg (sub_ℕ c b) ≡ true
      → is_nonneg (sub_ℕ c a) ≡ true
  no_older a b c h k = ground arith

  not_newer : (a b : ℕ) → is_nonneg (sub_ℕ a b) ≡ false → is_nonneg (sub_ℕ b a) ≡ true
  not_newer a b h = ground arith

  is_at_least_trans :
      (p q r : ReportedInstalledPackage)
      → IsDated p
      → IsDated q
      → IsDated r
      → is_at_least p q ≡ true
      → same (package_key r) (package_key q) ≡ true
      → is_nonneg (compare_reported_package_freshness dates r q) ≡ true
      → is_at_least p r ≡ true
  unfolding compare_reported_package_freshness
  is_at_least_trans p q r (a, ea) (b, eb) (c, ec) h k n =
      let (same_pq, newer_qp) = and-true h in
      rw
        (
          same_sound (package_key p) (package_key q) same_pq,
          same_sound (package_key r) (package_key q) k,
          same_refl (package_key q),
          ea,
          ec,
        )
        (no_older a b c (rw (ea, eb) at newer_qp) (rw (eb, ec) at n))

  older_than :
      (p q : ReportedInstalledPackage)
      → IsDated p
      → IsDated q
      → is_nonneg (compare_reported_package_freshness dates p q) ≡ false
      → is_nonneg (compare_reported_package_freshness dates q p) ≡ true
  unfolding compare_reported_package_freshness
  older_than p q (a, ea) (b, eb) n = rw (ea, eb) (not_newer a b (rw (ea, eb) at n))

  -- The packages of the map cover `p`: one of them is a report of the same package and no older.
  abbrev pub covers : List ReportedInstalledPackage → ReportedInstalledPackage → Bool
  covers qs p = any (is_at_least p) qs

  abbrev replaced : ReportedInstalledPackage → ReportedInstalledPackage → ReportedInstalledPackage
  replaced pkg q =
      if same (package_key pkg) (package_key q)
      then (if is_nonneg (compare_reported_package_freshness dates pkg q) then pkg else q)
      else q

  replaced-covers :
      (p q pkg : ReportedInstalledPackage)
      → IsDated p
      → IsDated q
      → IsDated pkg
      → is_at_least p q ≡ true
      → is_at_least p (replaced pkg q) ≡ true
  replaced-covers p q pkg dp dq dk h = elim (Bool-cases (same (package_key pkg) (package_key q))) [
    | inr e ↦ rw e h
    | inl e ↦ elim (Bool-cases (is_nonneg (compare_reported_package_freshness dates pkg q))) [
      | inr n ↦ rw (e, n) h
      | inl n ↦ rw (e, n) (is_at_least_trans p q pkg dp dq dk h e n)
    ]
  ]

  replaced-covers_self :
      (pkg q : ReportedInstalledPackage)
      → IsDated pkg
      → IsDated q
      → same (package_key pkg) (package_key q) ≡ true
      → is_at_least pkg (replaced pkg q) ≡ true
  replaced-covers_self pkg q dk dq e =
      elim (Bool-cases (is_nonneg (compare_reported_package_freshness dates pkg q))) [
        | inr n ↦ rw (e, n) (rw e (older_than pkg q dk dq n))
        | inl n ↦ rw (e, n) (is_at_least_refl pkg dk)
      ]

  replaced-IsDated :
      (q pkg : ReportedInstalledPackage) → IsDated q → IsDated pkg → IsDated (replaced pkg q)
  replaced-IsDated q pkg dq dk = elim (Bool-cases (same (package_key pkg) (package_key q))) [
    | inr e ↦ rw e dq
    | inl e ↦ elim (Bool-cases (is_nonneg (compare_reported_package_freshness dates pkg q))) [
      | inr n ↦ rw (e, n) dq
      | inl n ↦ rw (e, n) dk
    ]
  ]

  module _ (pkg : ReportedInstalledPackage) (dk : IsDated pkg) where
    abbrev update_all : List ReportedInstalledPackage → List ReportedInstalledPackage
    update_all =
        update_where (λ q. same (package_key pkg) (package_key q))
          (λ q. if is_nonneg (compare_reported_package_freshness dates pkg q) then pkg else q)

    update_all-covers :
        (p : ReportedInstalledPackage) (qs : List ReportedInstalledPackage)
        → IsDated p
        → All IsDated qs
        → covers qs p ≡ true
        → covers (update_all qs) p ≡ true
    update_all-covers p [] dp d h = h
    update_all-covers p (q ∷ qs) dp d h = elim (or-true {a = is_at_least p q} h) [
      | inl e ↦ rw (replaced-covers p q pkg dp d.0 dk e)
      | inr e ↦ rw (update_all-covers p qs dp d.1 e) (or_true _)
    ]

    update_all-IsDated :
        (qs : List ReportedInstalledPackage) → All IsDated qs → All IsDated (update_all qs)
    update_all-IsDated [] d = tt
    update_all-IsDated (q ∷ qs) d = (replaced-IsDated q pkg d.0 dk, update_all-IsDated qs d.1)

    -- The update of a package with this key leaves a report that is no older.
    update_all-covers_self :
        (qs : List ReportedInstalledPackage)
        → All IsDated qs
        → any (λ q. same (package_key pkg) (package_key q)) qs ≡ true
        → covers (update_all qs) pkg ≡ true
    update_all-covers_self [] d h = cc
    update_all-covers_self (q ∷ qs) d h =
        elim (or-true {a = same (package_key pkg) (package_key q)} h) [
          | inl e ↦ rw (replaced-covers_self pkg q dk d.0 e)
          | inr e ↦ rw (update_all-covers_self qs d.1 e) (or_true _)
        ]

    step_covers :
        (p : ReportedInstalledPackage) (qs : List ReportedInstalledPackage)
        → IsDated p
        → All IsDated qs
        → covers qs p ≡ true
        → covers (dedupe_step dates qs pkg) p ≡ true
    unfolding dedupe_step
    step_covers p qs dp d h =
        elim (Bool-cases (any (λ q. same (package_key pkg) (package_key q)) qs)) [
          | inl e ↦ rw e (update_all-covers p qs dp d h)
          | inr e ↦ rw e (rw (any-append (is_at_least p) qs (pkg ∷ [])) (rw h))
        ]

    step_covers_self :
        (qs : List ReportedInstalledPackage)
        → All IsDated qs
        → covers (dedupe_step dates qs pkg) pkg ≡ true
    unfolding dedupe_step
    step_covers_self qs d =
        elim (Bool-cases (any (λ q. same (package_key pkg) (package_key q)) qs)) [
          | inl e ↦ rw e (update_all-covers_self qs d e)
          | inr e ↦ rw e (
              rw (any-append (is_at_least pkg) qs (pkg ∷ []))
                (rw (is_at_least_refl pkg dk) (or_true _)))
        ]

    step-IsDated :
        (qs : List ReportedInstalledPackage)
        → All IsDated qs
        → All IsDated (dedupe_step dates qs pkg)
    unfolding dedupe_step
    step-IsDated qs d = elim (Bool-cases (any (λ q. same (package_key pkg) (package_key q)) qs)) [
      | inl e ↦ rw e (update_all-IsDated qs d)
      | inr e ↦ rw e (All-append IsDated qs (pkg ∷ []) d (dk, tt))
    ]

  from_covers :
      (p : ReportedInstalledPackage) (acc ps : List ReportedInstalledPackage)
      → IsDated p
      → All IsDated acc
      → All IsDated ps
      → covers acc p ≡ true
      → covers (dedupe_from dates acc ps) p ≡ true
  unfolding dedupe_from
  from_covers p acc [] dp da ds h = h
  from_covers p acc (k ∷ ps) dp da ds h =
      from_covers p (dedupe_step dates acc k) ps dp (step-IsDated k ds.0 acc da) ds.1
        (step_covers k ds.0 p acc dp da h)

  from_covers-All :
      (acc ps : List ReportedInstalledPackage)
      → All IsDated acc
      → All IsDated ps
      → All (λ p. covers (dedupe_from dates acc ps) p ≡ true) ps
  unfolding dedupe_from
  from_covers-All acc [] da ds = tt
  from_covers-All acc (k ∷ ps) da ds = (
    from_covers k (dedupe_step dates acc k) ps ds.0 (step-IsDated k ds.0 acc da) ds.1
        (step_covers_self k ds.0 acc da),
    from_covers-All (dedupe_step dates acc k) ps (step-IsDated k ds.0 acc da) ds.1,
  )

  -- If every report has a date that can be read, then for each of them a report of the same package
  -- that is no older is kept.
  pub dedupe_freshest :
      (ps : List ReportedInstalledPackage)
      → All IsDated ps
      → All (λ p. covers (dedupe_reported_installed_packages dates ps) p ≡ true) ps
  unfolding dedupe_reported_installed_packages
  dedupe_freshest ps d = from_covers-All [] ps tt d

  -- Of two reports of one package, one with a date that can be read and one without such a date, the
  -- one without is kept, whichever came first.
  pub dedupe_undated :
      (dated undated : ReportedInstalledPackage) (t : ℕ)
      → same (package_key dated) (package_key undated) ≡ true
      → installed_time dates dated.installed_at ≡ some t
      → installed_time dates undated.installed_at ≡ none
      → (dedupe_reported_installed_packages dates (dated ∷ undated ∷ []) ≡ undated ∷ [])
        × (dedupe_reported_installed_packages dates (undated ∷ dated ∷ []) ≡ undated ∷ [])
  unfolding dedupe_reported_installed_packages dedupe_from dedupe_step
      compare_reported_package_freshness
  dedupe_undated dated undated t k e n =
      (rw (same_comm (package_key undated) (package_key dated), k, e, n), rw (k, e, n))
