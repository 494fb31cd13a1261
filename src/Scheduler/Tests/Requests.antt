-- ===== src/Scheduler/Tests/Requests.antt =====
-- The theorems on the routes at concrete requests.
use az_capa.Prelude.{ℕ, String, ◌≡◌, ◌⊎◌, refl, false, Option, none, some, List, [], ◌∷◌, ◌==◌}
use az_capa.Prelude.Int.{ℤ, pos}
use az_capa.Json.{Json, null, str, arr, obj, field, end, cons, nil}
use az_capa.Authorization.{
  ClientPrincipal, granted, admin_role, Host, require_admin, principal, azure_principal,
  claim_values, roles_of,
}
use az_capa.Authorization.Roles.{IsAssigned}
use az_capa.Scheduler.Dispatcher.Effects.{Result, returned}
use az_capa.Scheduler.Routes.{IntRead, whole, reset_route, action_route, serve}
use az_capa.Scheduler.Routes.Admitted.{Refuses, serve-IsAssigned}
use az_capa.Scheduler.Routes.Codes.{ActionOutcome, serve-ActionOutcome}
use az_capa.Scheduler.Tests.Sample.{sample, empty_world, states_laws, histories_laws}

-- Every header decodes to the claims of an administrator.
abbrev admin_payload : Json ℕ
admin_payload = obj (
    field "auth_typ" (str "aad") (
      field "claims"
        (arr (cons (obj (field "typ" (str "roles") (field "val" (str "Admin") end))) nil)) end))

abbrev printed_text : Json ℕ → String
printed_text (str s) = s
printed_text _ = ""

abbrev host : Host ℕ
host = record {
  is_running_locally = false;
  lower = λ s. s;
  load_cookie = λ s. some [];
  decode = λ s. some admin_payload;
  is_zero = λ n. n == 0;
  text_of = printed_text;
}

abbrev details : String → Result (Json ℕ)
details id = returned null

abbrev read_int : String → Option ℤ
read_int s = none

abbrev to_int : Json ℕ → IntRead
to_int j = whole (pos 0)

-- A request without a principal.
serve-IsAssigned_example :
    IsAssigned host [] admin_role
    ⊎ (((serve sample host details read_int to_int reset_route [] empty_world).1 ≡ empty_world)
        × Refuses sample host details read_int to_int
            (serve sample host details read_int to_int reset_route [] empty_world).0)
serve-IsAssigned_example =
    serve-IsAssigned sample host details read_int to_int reset_route [] empty_world refl

abbrev signed_in : List (String × String)
signed_in = ("X-MS-CLIENT-PRINCIPAL", "e30=") ∷ []

let_in : (p : ClientPrincipal) × (require_admin host signed_in ≡ granted p)
unfolding require_admin principal azure_principal claim_values roles_of
let_in = (_, refl)

serve-ActionOutcome_example : ActionOutcome sample empty_world (
    serve sample host details read_int to_int
      (action_route (some "vm_usage") (some "refresh"))
      signed_in
      empty_world)
serve-ActionOutcome_example =
    serve-ActionOutcome sample states_laws histories_laws host details read_int to_int
      (some "vm_usage") (some "refresh") signed_in let_in.0 empty_world let_in.1
