-- ===== src/Worker/Replication/Target.antt =====
-- What a replication plan guarantees.
use simple_host_man.Prelude.Text.{same_refl}
use simple_host_man.Worker.Replication.{
  plan_of, chosen_timeout, chosen_host, chosen_target, has_config, plan_if, is_disabled,
  ReplicationError, parse_optional_boolean, resolve_backup_replication_plan, BackupReplicationPlan,
  same, is_blank, DesiredNode, require_host, RuntimeEnv, require_timeout, require_target,
  parse_timeout, Text, enabled_plan, Paths,
}
use simple_host_man.Prelude.{
  subst, refl, sym, ap, ◌∙◌, ◌≡◌, ◌≢◌, inl, inr, ℕ, ◌≤◌, Bool, true, false, Option, none, some,
  List, arith, Bool-cases,
}
use simple_host_man.Prelude.Result.{err, Result, ok, ◌>>=◌, ok_of_bind}

-- A plan comes from three steps that all succeeded.
steps_of_ok :
    (a : Result ReplicationError Text) (b : Text → Result ReplicationError Text)
    (t : Result ReplicationError ℕ) (f : Text → Text → ℕ → BackupReplicationPlan)
    (plan : BackupReplicationPlan)
    → (do x ← a; y ← b x; n ← t; ok (f x y n)) ≡ ok plan
    → (x : Text) × (y : Text) × (n : ℕ) × (a ≡ ok x) × (b x ≡ ok y) × (t ≡ ok n) × (f x y n ≡ plan)
steps_of_ok (err e) b t f plan h = cc
steps_of_ok (ok x) b t f plan h = with_host (b x) refl t h
  where
    with_host :
        (host : Result ReplicationError Text)
        → b x ≡ host
        → (t : Result ReplicationError ℕ) → (do y ← host; n ← t; ok (f x y n)) ≡ ok plan
        → (x' : Text) × (y : Text) × (n : ℕ) × (◌≡◌ {A = Result ReplicationError Text}
            (ok x)
            (ok x'))
          × (b x' ≡ ok y)
          × (t ≡ ok n)
          × (f x' y n ≡ plan)
    with_host (err e) is_host t h = cc
    with_host (ok y) is_host (err e) h = cc
    with_host (ok y) is_host (ok n) h = (x, y, n, refl, is_host, refl, cc)

different : (s t : Text) → same s t ≡ false → s ≢ t
different s t h e = true_false (sym (same_refl t) ∙ ap (λ x. same x t) (sym e) ∙ h)
  where
    true_false : true ≡ false → ⊥
    true_false h = cc

module _ (paths : Paths) where
  target_ok :
      (local_node_id : Text) (target : Option Text) (id : Text)
      → require_target paths local_node_id target ≡ ok id
      → same id local_node_id ≡ false
  target_ok local_node_id none id e = cc
  target_ok local_node_id (some t) id e = elim (Bool-cases (is_blank t)) [
    | inl blank ↦ cc (rw blank at e)
    | inr given ↦ elim (Bool-cases (same t local_node_id)) [
      | inl local ↦ cc (rw (given, local) at e)
      | inr other ↦ let same_id : t ≡ id = cc (rw (given, other) at e) in rw (← same_id) other
    ]
  ]

  host_ok :
      (node_id : Text) (host : Option Text) (h : Text)
      → require_host paths node_id host ≡ ok h
      → is_blank h ≡ false
  host_ok node_id none h e = cc
  host_ok node_id (some t) h e = elim (Bool-cases (is_blank t)) [
    | inl blank ↦ cc (rw blank at e)
    | inr given ↦ let same_host : t ≡ h = cc (rw given at e) in rw (← same_host) given
  ]

  timeout_ok :
      (value text : Text) (n : ℕ) → require_timeout paths text (parse_timeout value) ≡ ok n → 1 ≤ n
  unfolding parse_timeout
  timeout_ok value text n e = ground arith

  enabled_ok :
      (env : RuntimeEnv) (local_node_id : Text) (nodes : List DesiredNode)
      (slug location directory : Text) (plan : BackupReplicationPlan)
      → enabled_plan paths env local_node_id nodes slug location directory ≡ ok plan
      → (same plan.target_node_id local_node_id ≡ false)
        × (is_blank plan.target_host ≡ false)
        × (1 ≤ plan.connect_timeout_seconds)
  unfolding enabled_plan
  enabled_ok env local_node_id nodes slug location directory plan e =
      let (id, host, n, is_target, is_host, is_timeout, same_plan) =
        steps_of_ok (chosen_target paths env local_node_id nodes)
          (chosen_host paths env local_node_id nodes) (chosen_timeout paths env)
          (plan_of paths env local_node_id slug location directory) plan e in
      (
        ap (λ (p : BackupReplicationPlan). same p.target_node_id local_node_id) (sym same_plan)
            ∙ target_ok local_node_id _ id is_target,
        ap (λ (p : BackupReplicationPlan). is_blank p.target_host) (sym same_plan)
            ∙ host_ok id _ host is_host,
        subst (λ (p : BackupReplicationPlan). 1 ≤ p.connect_timeout_seconds) same_plan
            (timeout_ok _ _ n is_timeout),
      )

  plan_if_ok :
      (disabled : Bool) (result : Result ReplicationError BackupReplicationPlan)
      (plan : BackupReplicationPlan)
      → plan_if paths disabled result ≡ ok (some plan)
      → (disabled ≡ false) × (result ≡ ok plan)
  plan_if_ok true result plan e = cc
  plan_if_ok false (ok p) plan e = (refl, cc)
  plan_if_ok false (err x) plan e = cc

  -- A backup is copied only if copying is switched on, or not switched off and something of it is
  -- configured; then the plan's target is another node than the local one, its host is not empty,
  -- and the connection timeout is positive.
  pub replication_target :
      (env : RuntimeEnv) (local_node_id : Text) (nodes : List DesiredNode)
      (slug location directory : Text) (plan : BackupReplicationPlan)
      → resolve_backup_replication_plan paths env local_node_id nodes slug location directory
        ≡ ok (some plan)
      → ((explicit : Option Bool) × (parse_optional_boolean env.enabled ≡ ok explicit)
          × (is_disabled paths explicit (has_config paths env) ≡ false))
        × (plan.target_node_id ≢ local_node_id)
        × (is_blank plan.target_host ≡ false)
        × (1 ≤ plan.connect_timeout_seconds)
  unfolding resolve_backup_replication_plan
  replication_target env local_node_id nodes slug location directory plan e =
      let (explicit, e1, h1) =
        ok_of_bind (parse_optional_boolean env.enabled)
          (λ explicit.
            plan_if paths (is_disabled paths explicit (has_config paths env))
              (enabled_plan paths env local_node_id nodes slug location directory))
          e in
      let (enabled, is_plan) =
        plan_if_ok (is_disabled paths explicit (has_config paths env))
          (enabled_plan paths env local_node_id nodes slug location directory) plan h1 in
      let (other, host, timeout) =
        enabled_ok env local_node_id nodes slug location directory plan is_plan in
      ((explicit, e1, enabled), different plan.target_node_id local_node_id other, host, timeout)
