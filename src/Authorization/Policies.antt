-- ===== src/Authorization/Policies.antt =====
-- src/modules/authorization/abac/policies.ts: decisions from attributes of the user and the document.
-- The environment of a context is read by no policy and is left out.
use nest_nexus.Prelude.{
  String, Bool, true, false, Option, none, some, List, ◌==◌, string_eq, if◌then◌else◌,
}

-- The authenticated subject, `AuthSubject` of authorization.service.ts.
pub record AuthSubject : Type 0 where
  pub sub : String
  pub roles : List String

pub record DocumentAttrs : Type 0 where
  pub owner_id : String
  pub visibility : String

pub record PolicyContext : Type 0 where
  pub user : AuthSubject
  pub resource : DocumentAttrs

abbrev pub Policy : Type 0
Policy = PolicyContext → Bool

pub document_read_policy : Policy
document_read_policy ctx =
    if ctx.resource.visibility == "public"
    then true
    else if ctx.resource.visibility == "internal"
    then true
    else ctx.resource.owner_id == ctx.user.sub

pub policies : String → Option Policy
policies name = if name == "document.read" then some document_read_policy else none

abbrev apply : Option Policy → PolicyContext → Bool
apply none ctx = false
apply (some policy) ctx = policy ctx

unfoldable pub evaluate_policy : String → PolicyContext → Bool
unfolding policies document_read_policy
evaluate_policy name ctx = apply (policies name) ctx
