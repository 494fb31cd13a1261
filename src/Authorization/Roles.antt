-- ===== src/Authorization/Roles.antt =====
-- Who gets a role: the theorems on `require_admin`, `require_user` and `_local_role` of
-- functions/_authorization.py.
use az_capa.Prelude.{
  String, ◌≡◌, ◌⊎◌, refl, ap, sym, ◌∙◌, Bool, true, false, ◌||◌, Option, none, some, List, [], ◌∷◌,
  str_eq, str_eq_iff, truthy, contains, contains-append, or-left, or-right, arith, Bool-cases,
  Option-cases, inl, inr, get_or,
}
use mathlib.Core.List.{Memᴰ}
use mathlib.Core.List.Memᴰ.{head, tail}
use az_capa.Json.{Json, null, bool, int, float, str, arr, obj, Fields, lookup}
use az_capa.Authorization.{
  ClientPrincipal, Access, granted, denied, crashed, admin_role, user_role, local_roles, known_role,
  role_of_cookie, header, padded, claims_list, is_text, printed, claim_values, given_text,
  role_types, roles_of, is_present, of_payload, Host, local_role, azure_principal, principal,
  required, require_user, require_admin,
}

or_split : (a b : Bool) → (a || b) ≡ true → (a ≡ true) ⊎ (b ≡ true)
or_split a b h = ground arith

granted_inj : {p q : ClientPrincipal} → granted p ≡ granted q → p ≡ q
granted_inj h = cc

module _ {F : Type 0} (is_zero : F → Bool) (text_of : Json F → String) where
  -- A claim of one of the types whose value prints as the role.
  abbrev pub Claimed : List (Fields F) → List String → String → Type 0
  Claimed claims types role =
      (claim_type : String) × (contains types claim_type ≡ true)
      × (claim : Fields F) × Memᴰ claim claims
      × (is_text is_zero text_of claim_type (lookup "typ" claim) ≡ true)
      × (contains (printed is_zero text_of (lookup "val" claim)) role ≡ true)

  claim_values-contains :
      (claims : List (Fields F)) (claim_type role : String)
      → contains (claim_values is_zero text_of claims claim_type) role ≡ true
      → (claim : Fields F) × Memᴰ claim claims
        × (is_text is_zero text_of claim_type (lookup "typ" claim) ≡ true)
        × (contains (printed is_zero text_of (lookup "val" claim)) role ≡ true)
  unfolding claim_values
  claim_values-contains [] claim_type role h = absurd (cc h)
  claim_values-contains (claim ∷ claims) claim_type role h =
      let rest = claim_values-contains claims claim_type role in
      elim (Bool-cases (is_text is_zero text_of claim_type (lookup "typ" claim))) [
        | inr other ↦ let (c, m, t, v) = rest (rw other at h) in (c, tail m, t, v)
        | inl same ↦
            elim (or_split _ _ (
              sym (
                contains-append (printed is_zero text_of (lookup "val" claim))
                  (claim_values is_zero text_of claims claim_type) role)
              ∙ rw same at h)) [
                | inl here_first ↦ (claim, head refl, same, here_first)
                | inr later ↦ let (c, m, t, v) = rest later in (c, tail m, t, v)
              ]
      ]

  roles_of-Claimed :
      (claims : List (Fields F)) (types : List String) (role : String)
      → contains (roles_of is_zero text_of claims types) role ≡ true
      → Claimed claims types role
  unfolding roles_of
  roles_of-Claimed claims [] role h = absurd (cc h)
  roles_of-Claimed claims (claim_type ∷ types) role h =
      elim (or_split _ _ (
        sym (
          contains-append (claim_values is_zero text_of claims claim_type)
            (roles_of is_zero text_of claims types) role)
        ∙ h)) [
          | inl first_type ↦
              let (c, m, t, v) = claim_values-contains claims claim_type role first_type in
              (
                claim_type,
                or-left (str_eq claim_type claim_type) _
                    ((str_eq_iff claim_type claim_type).1 refl),
                c,
                m,
                t,
                v,
              )
          | inr later ↦
              let (ty, among, c, m, t, v) = roles_of-Claimed claims types role later in
              (ty, or-right (str_eq claim_type ty) _ among, c, m, t, v)
        ]

module _ {F : Type 0} (host : Host F) where
  -- The header decodes to a dictionary with a list of claims, and one of the claims gives the role.
  abbrev pub IsAssigned : List (String × String) → String → Type 0
  IsAssigned headers role =
      (encoded : String) × (header host.lower headers "X-MS-CLIENT-PRINCIPAL" ≡ some encoded)
      × (payload : Fields F) × (host.decode (padded encoded) ≡ some (obj payload))
      × (claims : List (Fields F)) × (claims_list host.is_zero host.text_of
            (lookup "claims" payload)
          ≡ some claims)
      × Claimed host.is_zero host.text_of claims
          (role_types host.is_zero host.text_of
            (given_text host.is_zero host.text_of (lookup "role_typ" payload)))
          role

  required-granted :
      (ok : List String → Bool) (message : String) (a : Access) (p : ClientPrincipal)
      → required host ok message a ≡ granted p
      → (a ≡ granted p) × (ok p.roles ≡ true)
  required-granted ok message (granted q) p h = elim (Bool-cases (ok q.roles)) [
    | inl good ↦ let e = granted_inj (rw good at h) in (ap granted e, rw (← e) good)
    | inr bad ↦ absurd (cc (rw bad at h))
  ]
  required-granted ok message (denied e) p h = absurd (cc h)
  required-granted ok message crashed p h = absurd (cc h)

  of_payload-Claimed :
      (decoded : Option (Json F)) (p : ClientPrincipal) (role : String)
      → of_payload host.is_zero host.text_of decoded ≡ granted p
      → contains p.roles role ≡ true
      → (payload : Fields F) × (decoded ≡ some (obj payload))
        × (claims : List (Fields F)) × (claims_list host.is_zero host.text_of
              (lookup "claims" payload)
            ≡ some claims)
        × Claimed host.is_zero host.text_of claims
            (role_types host.is_zero host.text_of
              (given_text host.is_zero host.text_of (lookup "role_typ" payload)))
            role
  of_payload-Claimed none p role h k = absurd (cc h)
  of_payload-Claimed (some null) p role h k = absurd (cc h)
  of_payload-Claimed (some (bool b)) p role h k = absurd (cc h)
  of_payload-Claimed (some (int i)) p role h k = absurd (cc h)
  of_payload-Claimed (some (float x)) p role h k = absurd (cc h)
  of_payload-Claimed (some (str s)) p role h k = absurd (cc h)
  of_payload-Claimed (some (arr xs)) p role h k = absurd (cc h)
  of_payload-Claimed (some (obj payload)) p role h k =
      elim (Bool-cases (is_present host.is_zero host.text_of (lookup "auth_typ" payload))) [
        | inr absent ↦ absurd (cc (rw absent at h))
        | inl signed ↦
            elim (Option-cases (claims_list host.is_zero host.text_of (lookup "claims" payload))) [
              | inl no_list ↦ absurd (cc (rw (signed, no_list) at h))
              | inr (claims, listed) ↦
                  let e = granted_inj (rw (signed, listed) at h) in
                  (
                    payload,
                    refl,
                    claims,
                    listed,
                    roles_of-Claimed host.is_zero host.text_of claims
                        (role_types host.is_zero host.text_of
                          (given_text host.is_zero host.text_of (lookup "role_typ" payload)))
                        role (ap (λ (q : ClientPrincipal). contains q.roles role) e ∙ k),
                  )
            ]
      ]

  of_header-IsAssigned :
      (headers : List (String × String)) (p : ClientPrincipal) (role : String)
      → azure_principal host headers ≡ granted p
      → contains p.roles role ≡ true
      → IsAssigned headers role
  unfolding azure_principal
  of_header-IsAssigned headers p role h k =
      elim (Option-cases (header host.lower headers "X-MS-CLIENT-PRINCIPAL")) [
        | inl absent ↦ absurd (cc (rw absent at h))
        | inr (encoded, sent) ↦ elim (Bool-cases (truthy (some encoded))) [
          | inr blank ↦ absurd (cc (rw (sent, blank) at h))
          | inl text ↦
              let (payload, decoded, claims, listed, claimed) =
                of_payload-Claimed (host.decode (padded encoded)) p role (rw (sent, text) at h) k in
              (encoded, sent, payload, decoded, claims, listed, claimed)
        ]
      ]

  -- Off the developer's machine, whom `require_admin` lets in was assigned the role: the header of
  -- the request decodes to a dictionary whose list of claims has a claim of an accepted type that
  -- gives the Admin role; no cookie or other header counts.
  pub require_admin-IsAssigned :
      (headers : List (String × String)) (p : ClientPrincipal)
      → host.is_running_locally ≡ false
      → require_admin host headers ≡ granted p
      → IsAssigned headers admin_role
  unfolding require_admin principal
  require_admin-IsAssigned headers p remote h =
      let (e, admin) = required-granted _ _ (principal host headers) p h in
      of_header-IsAssigned headers p admin_role (rw remote at e) admin

  -- Whom `require_admin` lets in, `require_user` lets in as the same principal.
  pub require_admin-require_user :
      (headers : List (String × String)) (p : ClientPrincipal)
      → require_admin host headers ≡ granted p
      → require_user host headers ≡ granted p
  unfolding require_admin require_user
  require_admin-require_user headers p h =
      let (e, admin) = required-granted _ _ (principal host headers) p h in
      rw (e, or-right (contains p.roles user_role) (contains p.roles admin_role) admin)

  known_role-contains : (role : String) → contains local_roles (known_role role) ≡ true
  known_role-contains role = elim (Bool-cases (contains local_roles role)) [
    | inl known ↦ rw (known, known)
    | inr other ↦ rw other
  ]

  -- On the developer's machine the simulated role is one of Admin, User and None, whatever the
  -- cookie says.
  pub local_role-contains :
      (headers : List (String × String)) → contains local_roles (local_role host headers) ≡ true
  unfolding local_role
  local_role-contains headers =
      known_role-contains
        (role_of_cookie (host.load_cookie (get_or (header host.lower headers "Cookie") "")))
