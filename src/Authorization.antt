-- ===== src/Authorization.antt =====
-- functions/_authorization.py: who calls, and whether the caller has the role. The host's
-- request, the cookie parser, base64 with JSON, `str` of a JSON value and `str.lower` are
-- parameters.
pub mod Roles
mod Tests
use Prim.Native.Nat.{suc, zero}
use Prim.Native.String
use az_capa.Prelude.{
  ℕ, ◌-◌, ◌%◌, String, Bool, true, false, not, ◌&&◌, ◌||◌, Option, none, some, List, [], ◌∷◌, ◌++◌,
  str_eq, truthy, contains, get_or, if◌then◌else◌,
}
use az_capa.Json.{
  Json, null, bool, int, float, str, arr, obj, Items, nil, cons, Fields, lookup, is_true,
}

pub record ClientPrincipal : Type 0 where
  pub name : String
  pub identity : String
  pub roles : List String
  pub local : Bool
  pub tenant_id : Option String
  pub object_id : Option String

pub record AuthorizationError : Type 0 where
  pub status_code : ℕ
  pub error : String
  pub message : String

-- A principal, an AuthorizationError, or an AttributeError on a payload that is no dictionary.
pub data Access : Type 0 where
  granted : ClientPrincipal → Access
  denied : AuthorizationError → Access
  crashed : Access

abbrev pub user_role : String
user_role = "User"

abbrev pub admin_role : String
admin_role = "Admin"

abbrev pub local_role_name : String
local_role_name = "az_capacity_local_role"

abbrev pub local_roles : List String
local_roles = admin_role ∷ user_role ∷ "None" ∷ []

abbrev pub find_pair : (String → Bool) → List (String × String) → Option String
find_pair p [] = none
find_pair p ((k, v) ∷ rest) = if p k then some v else find_pair p rest

abbrev pub value_or : Option String → Option String → Option String
value_or (some value) other = some value
value_or none other = other

-- `headers.get(name)`, or the first header whose name folds to the same text.
abbrev pub header : (String → String) → List (String × String) → String → Option String
header lower headers name =
    value_or (find_pair (λ k. str_eq k name) headers)
      (find_pair (λ k. str_eq (lower k) (lower name)) headers)

abbrev pub role_of_cookie : Option (List (String × String)) → String
role_of_cookie none = admin_role
role_of_cookie (some cookie) = get_or (find_pair (λ k. str_eq k local_role_name) cookie) admin_role

abbrev pub known_role : String → String
known_role role = if contains local_roles role then role else admin_role

-- `None` is the ValueError.
unfoldable pub local_role_cookie : String → Option String
local_role_cookie role =
    if contains local_roles role
    then some (
        String.◌++◌ local_role_name
          (String.◌++◌ "=" (String.◌++◌ role "; Path=/; HttpOnly; SameSite=Lax")))
    else none

abbrev pub not_authenticated : AuthorizationError
not_authenticated = record {
  status_code = 401;
  error = "not_authenticated";
  message = "Sign in to use this application.";
}

abbrev pub invalid_principal : AuthorizationError
invalid_principal = record {
  status_code = 401;
  error = "invalid_principal";
  message = "The authenticated principal is malformed.";
}

abbrev pub forbidden : String → AuthorizationError
forbidden message = record { status_code = 403; error = "forbidden"; message = message }

abbrev pub text_length : String → ℕ
text_length String.[] = 0
text_length (String.◌∷◌ c s) = suc (text_length s)

abbrev pub repeat : ℕ → String → String
repeat zero s = ""
repeat (suc n) s = String.◌++◌ s (repeat n s)

-- `encoded + "=" * (-len(encoded) % 4)`
abbrev pub padded : String → String
padded encoded = String.◌++◌ encoded (repeat ((4 - text_length encoded % 4) % 4) "=")

abbrev pub or_values : List String → List String → List String
or_values [] ys = ys
or_values (x ∷ xs) ys = x ∷ xs

abbrev pub first : List String → Option String
first [] = none
first (x ∷ xs) = some x

-- `a or b` on texts
abbrev pub or_text : String → String → String
or_text s t = if str_eq s "" then t else s

abbrev pub standard_role_types : List String
standard_role_types = "roles" ∷ "http://schemas.microsoft.com/ws/2008/06/identity/claims/role" ∷ []

module _ {F : Type 0} (is_zero : F → Bool) (text_of : Json F → String) where
  abbrev pub cons_dict : Json F → Option (List (Fields F)) → Option (List (Fields F))
  cons_dict (obj fs) (some rest) = some (fs ∷ rest)
  cons_dict _ _ = none

  -- The list, if every item of it is a dictionary.
  abbrev pub dicts_of : Items F → Option (List (Fields F))
  dicts_of nil = some []
  dicts_of (cons v rest) = cons_dict v (dicts_of rest)

  abbrev pub claims_list : Option (Json F) → Option (List (Fields F))
  claims_list (some (arr items)) = dicts_of items
  claims_list _ = none

  abbrev pub is_text : String → Option (Json F) → Bool
  is_text s (some (str t)) = str_eq t s
  is_text s _ = false

  abbrev pub printed : Option (Json F) → List String
  printed none = []
  printed (some null) = []
  printed (some v) = text_of v ∷ []

  -- `_claim_values`
  unfoldable pub claim_values : List (Fields F) → String → List String
  claim_values [] claim_type = []
  claim_values (claim ∷ claims) claim_type =
      (if is_text claim_type (lookup "typ" claim) then printed (lookup "val" claim) else [])
      ++ claim_values claims claim_type

  -- A text that is not empty, of a value that may be anything.
  abbrev pub given_text : Option (Json F) → Option String
  given_text (some (str s)) = if str_eq s "" then none else some s
  given_text _ = none

  abbrev pub role_types : Option String → List String
  role_types none = standard_role_types
  role_types (some role_type) = role_type ∷ standard_role_types

  unfoldable pub roles_of : List (Fields F) → List String → List String
  unfolding claim_values
  roles_of claims [] = []
  roles_of claims (claim_type ∷ types) = claim_values claims claim_type ++ roles_of claims types

  abbrev pub names_of : List (Fields F) → Option String → List String
  names_of claims none = []
  names_of claims (some name_type) = claim_values claims name_type

  abbrev pub identity_values : List (Fields F) → List String → List String
  identity_values claims names = or_values (claim_values claims "preferred_username") (
      or_values
        (claim_values claims "http://schemas.xmlsoap.org/ws/2005/05/identity/claims/emailaddress")
        names)

  abbrev pub principal_of : Fields F → List (Fields F) → ClientPrincipal
  principal_of payload claims =
      let names = names_of claims (given_text (lookup "name_typ" payload)) in
      let identity_value = get_or (first (identity_values claims names)) "" in
      record {
        name = get_or (first names) (or_text identity_value "Signed in");
        identity = identity_value;
        roles = roles_of claims (role_types (given_text (lookup "role_typ" payload)));
        local = false;
        tenant_id = first (
            or_values (claim_values claims "tid")
              (claim_values claims "http://schemas.microsoft.com/identity/claims/tenantid"));
        object_id = first (
            or_values (claim_values claims "oid") (
              claim_values claims "http://schemas.microsoft.com/identity/claims/objectidentifier"));
      }

  abbrev pub with_claims : Fields F → Option (List (Fields F)) → Access
  with_claims payload none = denied invalid_principal
  with_claims payload (some claims) = granted (principal_of payload claims)

  abbrev pub is_present : Option (Json F) → Bool
  is_present none = false
  is_present (some v) = is_true is_zero v

  abbrev pub of_payload : Option (Json F) → Access
  of_payload none = denied invalid_principal
  of_payload (some (obj payload)) =
      if is_present (lookup "auth_typ" payload)
      then with_claims payload (claims_list (lookup "claims" payload))
      else denied invalid_principal
  of_payload (some _) = crashed

-- What the functions read besides the request: whether the program runs locally; the cookie
-- parser, `none` where it raises; and the decoding of base64, UTF-8 and JSON, `none` where it
-- raises one of the errors that are caught.
pub record Host (F : Type 0) : Type 0 where
  pub is_running_locally : Bool
  pub lower : String → String
  pub load_cookie : String → Option (List (String × String))
  pub decode : String → Option (Json F)
  pub is_zero : F → Bool
  pub text_of : Json F → String

module _ {F : Type 0} (host : Host F) where
  unfoldable pub local_role : List (String × String) → String
  local_role headers =
      known_role
        (role_of_cookie (host.load_cookie (get_or (header host.lower headers "Cookie") "")))

  abbrev pub of_header : Option String → Access
  of_header none = denied not_authenticated
  of_header (some encoded) =
      if truthy (some encoded)
      then of_payload host.is_zero host.text_of (host.decode (padded encoded))
      else denied not_authenticated

  unfoldable pub azure_principal : List (String × String) → Access
  azure_principal headers = of_header (header host.lower headers "X-MS-CLIENT-PRINCIPAL")

  abbrev pub local_principal : String → ClientPrincipal
  local_principal role = record {
    name = "Local dev";
    identity = "Azure CLI identity";
    roles = if str_eq role "None" then [] else role ∷ [];
    local = true;
    tenant_id = none;
    object_id = none;
  }

  unfoldable pub principal : List (String × String) → Access
  unfolding local_role azure_principal
  principal headers =
      if host.is_running_locally
      then granted (local_principal (local_role headers))
      else azure_principal headers

  abbrev pub required : (List String → Bool) → String → Access → Access
  required ok message (granted p) = if ok p.roles then granted p else denied (forbidden message)
  required ok message (denied e) = denied e
  required ok message crashed = crashed

  unfoldable pub require_user : List (String × String) → Access
  unfolding principal
  require_user headers =
      required (λ roles. contains roles user_role || contains roles admin_role)
        "The User or Admin app role is required." (principal headers)

  unfoldable pub require_admin : List (String × String) → Access
  unfolding principal
  require_admin headers =
      required (λ roles. contains roles admin_role) "The Admin app role is required."
        (principal headers)
