-- ===== src/Store/Sessions/Requests.antt =====
-- The requests of the log-in handlers, their answers, and the metadata that a session takes from them:
-- packages/control-contracts/src/auth.ts and
-- packages/control-database/src/control-plane-store-auth.ts.
use simple_host_man.Store.Users.{AuthenticatedUserSummary}
use simple_host_man.Prelude.{ℕ, Bool, String, Option, none, some, List, []}
use simple_host_man.Store.{AuditEvent, Text, AuditPayload, SessionMetadata}

pub record Fresh : Type 0 where
  pub session_id : String
  pub session_token : String

pub record AuthLoginRequest : Type 0 where
  pub email : Text
  pub password : Text

pub record TrustedProxyLoginRequest : Type 0 where
  pub email : Text
  pub provider : String
  pub username : Option Text
  pub groups : Option (List String)
  pub remote_address : Option String
  pub external_subject : Option Text
  pub mfa_satisfied : Option Bool
  pub assurance_level : Option String

pub record OauthIdentityLoginRequest : Type 0 where
  pub provider : String
  pub email : Text
  pub username : Option Text
  pub external_subject : Option Text
  pub mfa_satisfied : Option Bool
  pub assurance_level : Option String
  pub client_id : Option String
  pub scopes : Option (List String)
  pub audience : Option String
  pub issuer : Option String
  pub oauth_client_id : Option String
  pub oauth_scopes : Option (List String)
  pub oauth_token_hash : Option String
  pub oauth_issuer : Option String

pub record OauthLoginRejectedAuditRequest : Type 0 where
  pub provider : String
  pub reason : String
  pub email : Option Text
  pub client_id : Option String
  pub external_subject : Option Text
  pub assurance_level : Option String

pub record OauthTokenRevokedAuditRequest : Type 0 where
  pub provider : String
  pub token_hash : Option String
  pub client_id : Option String
  pub external_subject : Option Text

pub record AuthLoginResponse : Type 0 where
  pub session_token : String
  pub expires_at : ℕ
  pub user : AuthenticatedUserSummary

-- `??`
abbrev pub or_else {ℓ} : {A : Type ℓ} → Option A → Option A → Option A
or_else none other = other
or_else (some a) other = some a

abbrev pub with_default {ℓ} : {A : Type ℓ} → Option A → A → A
with_default none a = a
with_default (some b) a = b

abbrev pub no_metadata : SessionMetadata
no_metadata = record {
  auth_provider_slug = none;
  external_subject = none;
  mfa_satisfied = none;
  assurance_level = none;
  oauth_client_id = none;
  oauth_scopes = [];
  oauth_token_hash = none;
  oauth_issuer = none;
}

abbrev pub proxy_metadata : TrustedProxyLoginRequest → SessionMetadata
proxy_metadata request = record {
  auth_provider_slug = some request.provider;
  external_subject =
      or_else request.external_subject (or_else request.username (some request.email));
  mfa_satisfied = request.mfa_satisfied;
  assurance_level = request.assurance_level;
  oauth_client_id = none;
  oauth_scopes = [];
  oauth_token_hash = none;
  oauth_issuer = none;
}

abbrev pub oauth_metadata : OauthIdentityLoginRequest → SessionMetadata
oauth_metadata request = record {
  auth_provider_slug = some request.provider;
  external_subject =
      or_else request.external_subject (or_else request.username (some request.email));
  mfa_satisfied = request.mfa_satisfied;
  assurance_level = request.assurance_level;
  oauth_client_id = or_else request.oauth_client_id request.client_id;
  oauth_scopes = with_default (or_else request.oauth_scopes request.scopes) [];
  oauth_token_hash = request.oauth_token_hash;
  oauth_issuer = or_else request.oauth_issuer request.issuer;
}

abbrev pub user_event : String → AuditPayload → ℕ → AuditEvent
user_event user_id payload now = record {
  actor_type = "user";
  actor_id = user_id;
  entity_type = "user";
  entity_id = user_id;
  payload = payload;
  occurred_at = now;
}
