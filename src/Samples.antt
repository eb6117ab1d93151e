-- ===== src/Samples.antt =====
-- Sample data for the tests: users, documents, a state, and an environment without cryptography.
use Prim.Native.Char.{Char}
use nest_nexus.Prelude.{String, true, false, none, some, List, [], ◌∷◌, ◌==◌, string_eq}
use nest_nexus.Prisma.{OrderBy, OrderByLaws}
use nest_nexus.Enums.{user_role, super_admin, Relation, viewer, owner}
use nest_nexus.Schema.{User, RefreshToken, Document, RelationTuple, App}
use nest_nexus.Env.{Env, RefreshTokenPayload}
use nest_nexus.Authorization.Policies.{AuthSubject}
use nest_nexus.Crypto.{Cipher}
use nest_nexus.Auth.Token.{FreshToken}
use nest_nexus.Auth.TwoFactor.{Totp}

abbrev pub user_named : String → List String → User
user_named name roles = record {
  id = name;
  email = name;
  display_name = name;
  password = some name;
  is_email_verified = true;
  email_verification_token = none;
  email_verification_expires = none;
  roles = roles;
  is_active = true;
  last_login_at = none;
  last_login_ip = none;
  two_factor_secret = none;
  is_two_factor_enabled = false;
  two_factor_backup_codes = [];
  magic_link_token_hash = none;
  magic_link_expires_at = none;
  has_password = true;
  avatar_url = none;
  created_at = 0;
  updated_at = 0;
}

abbrev pub ada : User
ada = user_named "ada" (user_role ∷ [])

abbrev pub root : User
root = user_named "root" (super_admin ∷ [])

abbrev pub ada_subject : AuthSubject
ada_subject = record { sub = "ada"; roles = user_role ∷ [] }

abbrev pub document_of : String → String → String → Document
document_of id owner_id visibility = record {
  id = id;
  title = "a title";
  body = "a body";
  owner_id = owner_id;
  visibility = visibility;
  created_at = 1;
  updated_at = 1;
}

abbrev pub own_document : Document
own_document = document_of "d1" "ada" "private"

abbrev pub tuple_of : String → Relation → String → RelationTuple
tuple_of sub relation id = record {
  subject_type = "user";
  subject_id = sub;
  relation = relation;
  object_type = "document";
  object_id = id;
}

abbrev pub token_of : String → String → RefreshToken
token_of raw family = record {
  id = raw;
  user_id = "ada";
  token_hash = raw;
  expires_at = 100;
  is_revoked = false;
  jti = raw;
  family = family;
  device_id = some "laptop";
  device_name = none;
  user_agent = none;
  last_used_at = none;
  created_at = 0;
}

-- Ada owns one document and sees another; she has one session.
abbrev pub sample : App
sample = record {
  users = ada ∷ root ∷ [];
  refresh_tokens = token_of "raw" "family" ∷ [];
  oauth_providers = [];
  api_keys = [];
  webauthn_credentials = [];
  documents =
      own_document ∷ document_of "d2" "root" "private" ∷ document_of "d3" "root" "private" ∷ [];
  relation_tuples = tuple_of "ada" owner "d1" ∷ tuple_of "ada" viewer "d2" ∷ [];
  cache = λ key. none;
  events = [];
  background = [];
  email_jobs = [];
}

abbrev pub payload_of : String → RefreshTokenPayload
payload_of raw = record { sub = "ada"; jti = raw; family = "family" }

-- Hashing is the identity, and a refresh token is its identifier.
instance abbrev pub sample_env : Env
sample_env = record {
  config = record {
    jwt_secret = "secret";
    jwt_refresh_secret = "refresh secret";
    jwt_expires_in = some "15m";
    jwt_refresh_expires_in = some "7d";
    node_env = "test";
    client_origin = "http://localhost";
    totp_encryption_key = "key";
    webauthn_rp_id = "localhost";
    webauthn_rp_name = "nexus";
  };
  sha256_hex = λ text. text;
  to_lower_case = λ text. text;
  to_upper_case = λ text. text;
  is_email = λ text. true;
  is_url = λ text. true;
  sign_access = λ payload secret lifetime now. payload.sub;
  sign_refresh = λ payload secret lifetime now. payload.jti;
  verify_access =
      λ token secret now. some (record { sub = token; email = token; roles = []; scope = none });
  verify_refresh = λ raw secret now. some (payload_of raw);
  bcrypt_hash = λ password. password;
  bcrypt_compare = λ password hash. password == hash;
}

abbrev pub fresh_token : FreshToken
fresh_token = record { id = "new"; jti = "new"; family = "new"; device_id = "phone" }

abbrev pub other_token : FreshToken
other_token = record { id = "third"; jti = "third"; family = "third"; device_id = "phone" }

-- A cipher that hides nothing, over characters.
abbrev pub characters : String → List Char
characters String.[] = []
characters (String.◌∷◌ c s) = c ∷ characters s

abbrev pub joined : List Char → String
joined [] = String.[]
joined (c ∷ cs) = String.◌∷◌ c (joined cs)

instance abbrev pub open_cipher : Cipher
open_cipher = record {
  Byte = Char;
  from_hex = characters;
  to_base64 = joined;
  from_base64 = characters;
  seal = λ key iv text. (characters "sixteen letters!", characters text);
  open_sealed = λ key iv tag sealed. some (joined sealed);
}

-- An authenticator that takes no code.
instance abbrev pub no_totp : Totp
no_totp = record {
  verify_totp = λ totp_code secret now. false;
  generate_uri = λ label secret. label;
  to_data_url = λ uri. uri;
}

-- The order in which the rows are stored.
instance abbrev pub stored_order : OrderBy
stored_order = record { order_by_desc = λ key rows. rows }

pub stored_order_laws : OrderByLaws stored_order
stored_order_laws = record { order_by_desc-Has = λ key r rows. (λ h. h, λ h. h) }
