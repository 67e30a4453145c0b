-- ===== src/Examples/Nodes.antt =====
-- Enrolment of a node.
use simple_host_man.Store.Nodes.{touch_node_credential}
use simple_host_man.Store.Nodes.{check_credential}
use simple_host_man.Store.{insert_audit_event}
use simple_host_man.Store.Nodes.{upsert_node_credential}
use simple_host_man.Store.Nodes.{upsert_node}
use simple_host_man.Store.Nodes.{record_registration}
use simple_host_man.Examples.{credential, sha, store}
use simple_host_man.Store.Nodes.Enrollment.{
  register_node_first, register_node_again, authenticate_node_iff, IsAccepted,
}
use simple_host_man.Store.Tables.{non_empty}
use simple_host_man.Prelude.Result.{ok, is_ok}
use simple_host_man.Store.Nodes.{
  hash_token, authenticate_node, register_node_tx, NodeRegistrationRequest, register_node,
  get_node_credential, NodeRegistrationResponse,
}
use simple_host_man.Prelude.{
  refl, ◌≡◌, ◌≢◌, ◌↔◌, true, not, ◌&&◌, String, Option, none, some, [], str_eq,
}
use simple_host_man.Store.{with_transaction, Store, ◌>>=◌}

abbrev request : String → NodeRegistrationRequest
request node_id = record {
  node_id = node_id;
  hostname = "web";
  version = "1";
  supported_job_kinds = [];
  runtime_snapshot = none;
}

abbrev answer : String → Option String → NodeRegistrationResponse
answer node_id token = record {
  node_id = node_id;
  accepted_at = 5;
  poll_interval_ms = 1000;
  node_token = token;
}

abbrev enrolled : Store
enrolled = (register_node sha (some "boot") 1000 "fresh" 5 (request "web-2") (some "boot") store).1

first :
    register_node sha (some "boot") 1000 "fresh" 5 (request "web-2") (some "boot") store
    ≡ (ok (answer "web-2" (some "fresh")), enrolled)
unfolding register_node register_node_tx with_transaction ◌>>=◌ get_node_credential
    record_registration upsert_node upsert_node_credential hash_token insert_audit_event
first = refl

abbrev again : Store
again =
    (register_node sha (some "boot") 1000 "fresh" 5 (request "web-1") (some "node-token") store).1

second :
    register_node sha (some "boot") 1000 "fresh" 5 (request "web-1") (some "node-token") store
    ≡ (ok (answer "web-1" none), again)
unfolding register_node register_node_tx with_transaction ◌>>=◌ get_node_credential
    authenticate_node check_credential hash_token touch_node_credential record_registration
    upsert_node insert_audit_event
second = refl

unknown : get_node_credential "web-2" store ≡ none
unfolding get_node_credential
unknown = refl

known : get_node_credential "web-1" store ≡ some credential
unfolding get_node_credential
known = refl

register_node_first_example :
    (non_empty (some "boot") ≢ none)
    × (◌≡◌ {A = Option String} (some "boot") (non_empty (some "boot")))
    × ((answer "web-2" (some "fresh")).node_token ≡ some "fresh")
    × (is_ok (authenticate_node sha "web-2" (some "fresh") 9 enrolled)
        ≡ (not (str_eq "fresh" "") && str_eq (hash_token sha "fresh") (hash_token sha "fresh")))
register_node_first_example =
    register_node_first sha (some "boot") 1000 "fresh" 5 (request "web-2") (some "boot") store
      enrolled (answer "web-2" (some "fresh")) "fresh" 9 unknown first

register_node_again_example :
    IsAccepted sha store "web-1" (some "node-token") × ((answer "web-1" none).node_token ≡ none)
register_node_again_example =
    register_node_again sha (some "boot") 1000 "fresh" 5 (request "web-1") (some "node-token") store
      again (answer "web-1" none) credential known second

authenticate_node_iff_example :
    (is_ok (authenticate_node sha "web-1" (some "node-token") 3 store) ≡ true)
    ↔ IsAccepted sha store "web-1" (some "node-token")
authenticate_node_iff_example = authenticate_node_iff sha "web-1" 3 (some "node-token") store
