-- ===== src/Security/Permissions.antt =====
-- backend/app/security/permissions.py and policies/access_policy.py. A set of codes is a list.
use Prim.Native.Nat.{Ordering}
use Prim.Native.Char.{code}
use Prim.Native.String.{compare}
use ai_employee_os.Common.{
  String, ◌<>◌, Bool, true, false, ◌||◌, Option, none, some, List, [], ◌∷◌, ◌++◌, eqb, contains,
  string_eq, if◌then◌else◌,
}
use ai_employee_os.Common.Sorting.{sort}
use ai_employee_os.Security.Models.{Role, Permission, permission_code, SecurityPrincipal}

abbrev pub role_permissions : Role → List String
role_permissions Role.admin =
    "documents:create" ∷ "documents:read" ∷ "execution:run" ∷ "workspace:read" ∷ "security:keys"
    ∷ "security:audit" ∷ "artifacts:write" ∷ "artifacts:read" ∷ []
role_permissions Role.user =
    "documents:create" ∷ "documents:read" ∷ "execution:run" ∷ "workspace:read" ∷ "artifacts:write"
    ∷ "artifacts:read" ∷ []
role_permissions Role.service =
    "documents:read" ∷ "execution:run" ∷ "workspace:read" ∷ "artifacts:read" ∷ []

abbrev text_le : String → String → Bool
text_le a b = elim (compare a b) [ Ordering.gt ↦ false | _ ↦ true ]

unfoldable pub permissions_for_role : Role → List String
unfolding sort
permissions_for_role role = sort text_le (role_permissions role)

-- `code.split(':')[0]`
unfoldable pub before_colon : String → String
before_colon String.[] = ""
before_colon (String.◌∷◌ c s) =
    let rest = before_colon s in if eqb (code c) b':' then "" else String.◌∷◌ c rest

pub data Required : Type 0 where
  by_code : String → Required
  by_permission : Permission → Required

abbrev pub required_code : Required → String
required_code (by_code c) = c
required_code (by_permission p) = permission_code p

-- `set(granted or [])`
abbrev pub or_empty : Option (List String) → List String
or_empty none = []
or_empty (some codes) = codes

unfoldable pub has_permission : Role → Option (List String) → Required → Bool
has_permission role granted required =
    let c = required_code required in
    let effective = or_empty granted ++ role_permissions role in
    contains effective c || contains effective (before_colon c <> ":*")

-- `AccessPolicy.allow`, and `SecurityManager.check_permission`
abbrev pub access_allow : Role → Option (List String) → String → Bool
access_allow role granted required = has_permission role granted (by_code required)

abbrev pub check_permission : SecurityPrincipal → String → Bool
check_permission principal required =
    access_allow principal.role (some principal.permissions) required
