-- ===== src/Validation.antt =====
-- The validation pipe of src/main.ts over the classes in the dto folders of src/modules: which bodies
-- and queries reach a handler. The fields have their types here, so that the decorators on values are
-- left. Lengths are counted in code points, as validator.js does.
use Prim.Native.Char.{Char, code}
use nest_nexus.Prelude.{
  ℕ, suc, String, Bool, true, false, not, ◌&&◌, ◌||◌, Option, none, some, List, [], ◌∷◌, ◌==◌,
  string_eq, nat_eq, any, all, includes, is_nil, leb,
}
use nest_nexus.Enums.{user_role, moderator, admin, super_admin}
use nest_nexus.Env.{Env}
use nest_nexus.Auth.Service.{RegisterInput, LoginInput}
use nest_nexus.Document.{
  CreateDocumentInput, UpdateDocumentInput, PaginationQuery, ShareDocumentDto,
}
use nest_nexus.Users.{UpdateUserInput}
use nest_nexus.Controllers.Auth
use nest_nexus.Controllers.TwoFactor
use nest_nexus.Controllers.Webauthn
use nest_nexus.Controllers.MagicLink
use nest_nexus.Controllers.Documents
use nest_nexus.Controllers.Users

abbrev pub text_length : String → ℕ
text_length String.[] = 0
text_length (String.◌∷◌ c s) = suc (text_length s)

-- `@MinLength` and `@MaxLength`, or `@Length`.
abbrev pub has_length : ℕ → ℕ → String → Bool
has_length low high s = leb low (text_length s) && leb (text_length s) high

-- `@IsOptional` before other decorators.
abbrev pub optional : {A : Type 0} → (A → Bool) → Option A → Bool
optional is_valid none = true
optional is_valid (some a) = is_valid a

-- `@ArrayUnique`
abbrev pub is_unique : List String → Bool
is_unique [] = true
is_unique (x ∷ xs) = not (includes xs x) && is_unique xs

-- `.` in a pattern stops at a line terminator.
abbrev pub ends_line : Char → Bool
ends_line c = code c == 10 || code c == 13 || code c == 8232 || code c == 8233

-- `^(?=.*[…])`: the first line has a character of the class.
abbrev pub first_line_has : (Char → Bool) → String → Bool
first_line_has class String.[] = false
first_line_has class (String.◌∷◌ c s) =
    let rest = first_line_has class s in not (ends_line c) && (class c || rest)

abbrev pub is_between : ℕ → ℕ → Char → Bool
is_between low high c = leb low (code c) && leb (code c) high

abbrev pub is_special : Char → Bool
is_special c = any (λ k. k == code c) (b'@' ∷ b'$' ∷ b'!' ∷ b'%' ∷ b'*' ∷ b'?' ∷ b'&' ∷ [])

-- The pattern of a password.
abbrev pub is_mixed : String → Bool
is_mixed s =
    first_line_has (is_between b'a' b'z') s
    && first_line_has (is_between b'A' b'Z') s
    && first_line_has (is_between b'0' b'9') s
    && first_line_has is_special s

abbrev pub visibilities : List String
visibilities = "private" ∷ "internal" ∷ "public" ∷ []

abbrev pub role_values : List String
role_values = user_role ∷ moderator ∷ admin ∷ super_admin ∷ []

abbrev pub is_two_factor_code : String → Bool
is_two_factor_code given = has_length 6 19 given

abbrev pub is_create_document : CreateDocumentInput → Bool
is_create_document dto =
    has_length 1 200 dto.title
    && has_length 1 100000 dto.body
    && optional (includes visibilities) dto.visibility

abbrev pub is_update_document : UpdateDocumentInput → Bool
is_update_document dto =
    optional (has_length 1 200) dto.title
    && optional (has_length 1 100000) dto.body
    && optional (includes visibilities) dto.visibility

-- `skip` is a natural number here.
abbrev pub is_pagination : PaginationQuery → Bool
is_pagination query = leb 1 query.take && leb query.take 100

abbrev pub is_share_document : ShareDocumentDto → Bool
is_share_document dto = not (dto.subject_id == "")

abbrev pub is_set_roles : List String → Bool
is_set_roles roles = not (is_nil roles) && is_unique roles && all (includes role_values) roles

module _ ⦃env : Env⦄ where
  abbrev pub is_register : RegisterInput → Bool
  is_register dto =
      env.is_email dto.email
      && has_length 2 100 dto.display_name
      && has_length 8 72 dto.password
      && is_mixed dto.password

  abbrev pub is_login : LoginInput → Bool
  is_login dto = env.is_email dto.email && leb 1 (text_length dto.password)

  abbrev pub is_update_user : UpdateUserInput → Bool
  is_update_user dto =
      optional (has_length 2 100) dto.display_name && optional env.is_url dto.avatar_url

  abbrev pub is_login_options : String → Bool
  is_login_options email = env.is_email email

  abbrev pub is_login_verify : String → Bool
  is_login_verify email = env.is_email email

  abbrev pub is_signup_options : String → String → Bool
  is_signup_options email display_name = env.is_email email && has_length 1 100 display_name

  abbrev pub is_signup_verify : String → Bool
  is_signup_verify email = env.is_email email

  abbrev pub is_magic_link_send : String → Bool
  is_magic_link_send email = env.is_email email

  unfoldable pub auth_valid : Auth.Route → Bool
  auth_valid (Auth.post_register dto) = is_register dto
  auth_valid (Auth.post_login dto) = is_login dto
  auth_valid _ = true

  unfoldable pub two_factor_valid : TwoFactor.Route → Bool
  two_factor_valid TwoFactor.post_setup = true
  two_factor_valid (TwoFactor.post_enable given) = is_two_factor_code given
  two_factor_valid (TwoFactor.post_disable given) = is_two_factor_code given
  two_factor_valid (TwoFactor.post_verify given) = is_two_factor_code given

  unfoldable pub webauthn_valid : Webauthn.Route → Bool
  webauthn_valid (Webauthn.post_login_options email) = is_login_options email
  webauthn_valid (Webauthn.post_login_verify email response) = is_login_verify email
  webauthn_valid (Webauthn.post_signup_options email display_name) =
      is_signup_options email display_name
  webauthn_valid (Webauthn.post_signup_verify email response) = is_signup_verify email
  webauthn_valid _ = true

  unfoldable pub magic_link_valid : MagicLink.Route → Bool
  magic_link_valid (MagicLink.post_send email) = is_magic_link_send email
  magic_link_valid (MagicLink.get_verify token) = true

  unfoldable pub users_valid : Users.Route → Bool
  users_valid (Users.patch_profile input) = is_update_user input
  users_valid (Users.patch_roles id roles) = is_set_roles roles
  users_valid _ = true

unfoldable pub documents_valid : Documents.Route → Bool
documents_valid (Documents.post_document dto) = is_create_document dto
documents_valid (Documents.get_documents query) = is_pagination query
documents_valid (Documents.patch_document id dto) = is_update_document dto
documents_valid (Documents.post_share id dto) = is_share_document dto
documents_valid (Documents.delete_share id dto) = is_share_document dto
documents_valid _ = true
