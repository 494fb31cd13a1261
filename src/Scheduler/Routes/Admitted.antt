-- ===== src/Scheduler/Routes/Admitted.antt =====
-- Who reaches the scheduler over HTTP, functions/data_collection_bp.py.
use az_capa.Prelude.{
  ℕ, String, ◌≡◌, ◌⊎◌, refl, sym, Bool, false, Option, none, some, List, inl, inr, Bool-cases,
  truthy, Option-cases,
}
use az_capa.Json.{Json, null, bool, int, float, str, arr, obj, lookup}
use az_capa.Prelude.Int.{ℤ}
use az_capa.Authorization.{
  ClientPrincipal, Access, granted, denied, crashed, Host, admin_role, require_admin, principal,
  azure_principal, of_header, of_payload, claims_list, is_present, header, required, padded,
}
use az_capa.Authorization.Roles.{IsAssigned, require_admin-IsAssigned}
use az_capa.Scheduler.Dispatcher.Effects.{Result, Env, World}
use az_capa.Scheduler.Routes.{Route, Response, IntRead, serve}

abbrev pub IsRefusal : ℕ → Type 0
IsRefusal code = (code ≡ 401) ⊎ (code ≡ 403)

module _ {F : Type 0} (host : Host F) where
  abbrev Refused : Access → Type 0
  Refused (granted p) = Unit
  Refused (denied e) = IsRefusal e.status_code
  Refused crashed = Unit

  of_payload-Refused :
      (decoded : Option (Json F)) → Refused (of_payload host.is_zero host.text_of decoded)
  of_payload-Refused none = inl refl
  of_payload-Refused (some null) = tt
  of_payload-Refused (some (bool b)) = tt
  of_payload-Refused (some (int i)) = tt
  of_payload-Refused (some (float x)) = tt
  of_payload-Refused (some (str s)) = tt
  of_payload-Refused (some (arr xs)) = tt
  of_payload-Refused (some (obj payload)) =
      elim (Bool-cases (is_present host.is_zero host.text_of (lookup "auth_typ" payload))) [
        | inr absent ↦ rw absent (inl refl)
        | inl signed ↦
            elim (Option-cases (claims_list host.is_zero host.text_of (lookup "claims" payload))) [
              | inl no_list ↦ rw (signed, no_list) (inl refl)
              | inr (claims, listed) ↦ rw (signed, listed) tt
            ]
      ]

  of_header-Refused : (sent : Option String) → Refused (of_header host sent)
  of_header-Refused none = inl refl
  of_header-Refused (some encoded) = elim (Bool-cases (truthy (some encoded))) [
    | inl text ↦ rw text (of_payload-Refused (host.decode (padded encoded)))
    | inr blank ↦ rw blank (inl refl)
  ]

  required-Refused :
      (ok : List String → Bool) (message : String) (a : Access)
      → Refused a
      → Refused (required host ok message a)
  required-Refused ok message (granted p) h = elim (Bool-cases (ok p.roles)) [
    | inl holds ↦ rw holds tt
    | inr fails ↦ rw fails (inr refl)
  ]
  required-Refused ok message (denied e) h = h
  required-Refused ok message crashed h = h

  require_admin-Refused : (headers : List (String × String)) → Refused (require_admin host headers)
  unfolding require_admin principal azure_principal
  require_admin-Refused headers =
      required-Refused _ _ (principal host headers) (elim (Bool-cases host.is_running_locally) [
        | inl local ↦ rw local tt
        | inr remote ↦
            rw remote (of_header-Refused (header host.lower headers "X-MS-CLIENT-PRINCIPAL"))
      ])

module _ (env : Env) (host : Host env.rt.Float) (details : String → Result (Json env.rt.Float))
    (read_int : String → Option ℤ) (to_int : Json env.rt.Float → IntRead) where
  -- A response that refuses, or none, for an exception.
  abbrev pub Refuses : Option (Response env) → Type 0
  Refuses none = Unit
  Refuses (some r) = IsRefusal r.status_code

  with_access-Refuses :
      (route : Route env.rt.Float) (headers : List (String × String)) (w : World env) (a : Access)
      → a ≡ require_admin host headers
      → Refused host a
      → ((p : ClientPrincipal) × (require_admin host headers ≡ granted p))
        ⊎ (((serve env host details read_int to_int route headers w).1 ≡ w)
            × Refuses (serve env host details read_int to_int route headers w).0)
  unfolding serve
  with_access-Refuses route headers w (granted p) e h = inl (p, sym e)
  with_access-Refuses route headers w (denied x) e h = inr (rw (← e) (refl, h))
  with_access-Refuses route headers w crashed e h = inr (rw (← e) (refl, tt))

  -- Off the developer's machine every route of the scheduler answers only to a request whose
  -- principal header has a claim that gives the Admin role: for any other request the tables, the
  -- launches and all else stay as they are, and the response, if there is one, is a 401 or a 403.
  pub serve-IsAssigned :
      (route : Route env.rt.Float) (headers : List (String × String)) (w : World env)
      → host.is_running_locally ≡ false
      → IsAssigned host headers admin_role
        ⊎ (((serve env host details read_int to_int route headers w).1 ≡ w)
            × Refuses (serve env host details read_int to_int route headers w).0)
  serve-IsAssigned route headers w remote =
      elim (with_access-Refuses route headers w (require_admin host headers) refl
        (require_admin-Refused host headers)) [
          | inl (p, let_in) ↦ inl (require_admin-IsAssigned host headers p remote let_in)
          | inr refused ↦ inr refused
        ]
