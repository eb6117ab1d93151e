-- ===== src/Schema.antt =====
-- prisma/schema.prisma: the rows of each table, with the unique constraints, and the state of the
-- application that the services share. A `DateTime` is a number of milliseconds; `null` is `none`.
use nest_nexus.Prelude.{
  ℕ, String, Bool, false, ◌&&◌, ◌||◌, Option, none, some, List, ◌==◌, nat_eq, string_eq,
}
use nest_nexus.Enums.{Relation, relation_eq}

pub record User : Type 0 where
  pub id : String
  pub email : String
  pub display_name : String
  pub password : Option String
  pub is_email_verified : Bool
  pub email_verification_token : Option String
  pub email_verification_expires : Option ℕ
  pub roles : List String
  pub is_active : Bool
  pub last_login_at : Option ℕ
  pub last_login_ip : Option String
  pub two_factor_secret : Option String
  pub is_two_factor_enabled : Bool
  pub two_factor_backup_codes : List String
  pub magic_link_token_hash : Option String
  pub magic_link_expires_at : Option ℕ
  pub has_password : Bool
  pub avatar_url : Option String
  pub created_at : ℕ
  pub updated_at : ℕ

pub record RefreshToken : Type 0 where
  pub id : String
  pub user_id : String
  pub token_hash : String
  pub expires_at : ℕ
  pub is_revoked : Bool
  pub jti : String
  pub family : String
  pub device_id : Option String
  pub device_name : Option String
  pub user_agent : Option String
  pub last_used_at : Option ℕ
  pub created_at : ℕ

pub record OauthProvider : Type 0 where
  pub id : String
  pub user_id : String
  pub provider : String
  pub provider_id : String
  pub provider_email : Option String

pub record ApiKey : Type 0 where
  pub id : String
  pub user_id : String
  pub key_hash : String
  pub scopes : List String
  pub revoked_at : Option ℕ
  pub last_used_at : Option ℕ

pub record WebauthnCredential : Type 0 where
  pub id : String
  pub user_id : String
  pub credential_id : String
  pub public_key : String
  pub counter : ℕ
  pub transports : List String

pub record Document : Type 0 where
  pub id : String
  pub title : String
  pub body : String
  pub owner_id : String
  pub visibility : String
  pub created_at : ℕ
  pub updated_at : ℕ

pub record RelationTuple : Type 0 where
  pub subject_type : String
  pub subject_id : String
  pub relation : Relation
  pub object_type : String
  pub object_id : String

-- Equality of two nullable columns under a unique constraint, where nulls are distinct.
abbrev pub same_text : Option String → Option String → Bool
same_text none b = false
same_text (some a) none = false
same_text (some a) (some b) = a == b

-- The unique constraints: two rows that cannot stand in one table.
abbrev pub user_clash : User → User → Bool
user_clash a b =
    a.id == b.id || a.email == b.email || same_text a.magic_link_token_hash b.magic_link_token_hash

abbrev pub refresh_token_clash : RefreshToken → RefreshToken → Bool
refresh_token_clash a b = a.id == b.id || a.jti == b.jti

abbrev pub oauth_provider_clash : OauthProvider → OauthProvider → Bool
oauth_provider_clash a b =
    a.id == b.id || (a.provider == b.provider && a.provider_id == b.provider_id)

abbrev pub api_key_clash : ApiKey → ApiKey → Bool
api_key_clash a b = a.id == b.id || a.key_hash == b.key_hash

abbrev pub webauthn_credential_clash : WebauthnCredential → WebauthnCredential → Bool
webauthn_credential_clash a b =
    a.id == b.id || a.user_id == b.user_id || a.credential_id == b.credential_id

abbrev pub document_clash : Document → Document → Bool
document_clash a b = a.id == b.id

abbrev pub relation_tuple_clash : RelationTuple → RelationTuple → Bool
relation_tuple_clash a b =
    a.subject_type == b.subject_type
    && a.subject_id == b.subject_id
    && a.relation == b.relation
    && a.object_type == b.object_type
    && a.object_id == b.object_id

-- src/modules/users/dto/user.output.ts: what the outside sees of a user, the exposed fields.
pub record UserOutput : Type 0 where
  pub id : String
  pub email : String
  pub display_name : String
  pub roles : List String
  pub is_email_verified : Bool
  pub is_active : Bool
  pub avatar_url : Option String
  pub last_login_at : Option ℕ
  pub created_at : ℕ
  pub updated_at : ℕ

abbrev pub to_user_output : User → UserOutput
to_user_output u = record {
  id = u.id;
  email = u.email;
  display_name = u.display_name;
  roles = u.roles;
  is_email_verified = u.is_email_verified;
  is_active = u.is_active;
  avatar_url = u.avatar_url;
  last_login_at = u.last_login_at;
  created_at = u.created_at;
  updated_at = u.updated_at;
}

-- What the services keep in the cache.
pub data CacheValue : Type 0 where
  failures : ℕ → CacheValue
  challenge : String → CacheValue
  signup : String → String → CacheValue
  user_output : UserOutput → CacheValue
  user_outputs : List UserOutput → CacheValue

-- The events that are emitted to the listeners.
pub data Event : Type 0 where
  user_created user_updated user_deactivated : String → Event
  api_key_created : String → Event
  api_key_revoked : String → String → Event

-- A call whose promise the code does not await.
pub data Background : Type 0 where
  prune_expired_tokens : String → Background
  record_login : String → ℕ → Option String → Background

-- A job of the e-mail queue.
pub record MagicLinkEmail : Type 0 where
  pub to : String
  pub display_name : String
  pub magic_link : String
  pub expires_in_minutes : ℕ

-- The cache holds a value and the time at which it expires.
abbrev pub CacheContents : Type 0
CacheContents = String → Option (CacheValue × ℕ)

pub record App : Type 0 where
  pub users : List User
  pub refresh_tokens : List RefreshToken
  pub oauth_providers : List OauthProvider
  pub api_keys : List ApiKey
  pub webauthn_credentials : List WebauthnCredential
  pub documents : List Document
  pub relation_tuples : List RelationTuple
  pub cache : CacheContents
  pub events : List Event
  pub background : List Background
  pub email_jobs : List MagicLinkEmail
