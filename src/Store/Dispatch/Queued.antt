-- ===== src/Store/Dispatch/Queued.antt =====
-- `createQueuedDispatchJob` of packages/control-database/src/control-plane-store-helpers.ts.
use simple_host_man.Store.Dispatch.Reconcile.Rows.{should_dispatch-desire}
use simple_host_man.Payload.Stringify.{hash_desired_payload}
use simple_host_man.Payload.Stringify.Order.{hash-unordered, UnorderedPayload}
use simple_host_man.Store.Dispatch.{should_dispatch_queued_job, QueuedDispatchJob}
use simple_host_man.Store.{Store, DispatchedJobEnvelope}
use simple_host_man.Prelude.Text.{codes, Text}
use mathlib.Core.Quot.{Quot}
use simple_host_man.Prelude.{◌≡◌, ℕ, zero, suc, String}

abbrev pub text_append : String → String → String
text_append String.[] t = t
text_append (String.◌∷◌ c s) t = String.◌∷◌ c (text_append s t)

-- `slice(0, n)` of a hexadecimal text.
abbrev text_take : ℕ → String → String
text_take zero s = String.[]
text_take (suc n) String.[] = String.[]
text_take (suc n) (String.◌∷◌ c s) = String.◌∷◌ c (text_take n s)

module _ (digest : Text → String) where
  unfoldable pub create_queued_dispatch_job :
      DispatchedJobEnvelope → String → String → QueuedDispatchJob
  create_queued_dispatch_job envelope resource_key resource_kind = record {
    envelope = record envelope {
      id = text_append envelope.id (text_append "-" (text_take 12 (digest (codes resource_key))));
    };
    resource_key = resource_key;
    resource_kind = resource_kind;
    payload_hash = hash_desired_payload digest envelope.payload;
  }

  -- Two jobs for one resource, kind and node whose payloads are equal up to the order of properties,
  -- at any depth, are dispatched alike, whatever their identifiers, versions and times.
  pub queued-should_dispatch :
      (a b : DispatchedJobEnvelope) (key kind_a kind_b : String) (db : Store)
      → a.node_id ≡ b.node_id
      → a.kind ≡ b.kind
      → ◌≡◌ {A = UnorderedPayload} (Quot.mk a.payload) (Quot.mk b.payload)
      → should_dispatch_queued_job (create_queued_dispatch_job a key kind_a) db
        ≡ should_dispatch_queued_job (create_queued_dispatch_job b key kind_b) db
  unfolding create_queued_dispatch_job
  queued-should_dispatch a b key kind_a kind_b db same_node same_kind same_payload =
      should_dispatch-desire (create_queued_dispatch_job a key kind_a)
        (create_queued_dispatch_job b key kind_b) db
        (λ i.
          (same_node i, same_kind i, key, hash-unordered digest a.payload b.payload same_payload i))
