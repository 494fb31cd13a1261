-- ===== src/Authorization/Tests.antt =====
-- The theorems on roles at concrete requests.
use az_capa.Prelude.{ℕ, String, ◌≡◌, refl, false, some, List, [], ◌∷◌, ◌==◌}
use az_capa.Json.{Json, str, arr, obj, field, end, cons, nil}
use az_capa.Authorization.{
  ClientPrincipal, granted, admin_role, Host, azure_principal, principal, require_admin,
  claim_values, roles_of,
}
use az_capa.Authorization.Roles.{IsAssigned, require_admin-IsAssigned}

-- Every header decodes to the claims of an administrator.
abbrev admin_payload : Json ℕ
admin_payload = obj (
    field "auth_typ" (str "aad") (
      field "claims"
        (arr (cons (obj (field "typ" (str "roles") (field "val" (str "Admin") end))) nil)) end))

abbrev printed_text : Json ℕ → String
printed_text (str s) = s
printed_text _ = ""

abbrev host : Host ℕ
host = record {
  is_running_locally = false;
  lower = λ s. s;
  load_cookie = λ s. some [];
  decode = λ s. some admin_payload;
  is_zero = λ n. n == 0;
  text_of = printed_text;
}

abbrev request : List (String × String)
request = ("X-MS-CLIENT-PRINCIPAL", "e30=") ∷ []

let_in : (p : ClientPrincipal) × (require_admin host request ≡ granted p)
unfolding require_admin principal azure_principal claim_values roles_of
let_in = (_, refl)

require_admin-IsAssigned_example : IsAssigned host request admin_role
require_admin-IsAssigned_example = require_admin-IsAssigned host request let_in.0 refl let_in.1
