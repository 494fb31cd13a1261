-- ===== src/AppScope/Resolution/Resolved.antt =====
-- What each outcome of resolving the scope says, services/app_scope.py.
use az_capa.Prelude.{
  String, ◌≡◌, refl, ap, ◌∙◌, Bool, true, false, not, ◌&&◌, Option, none, some, List, [], ◌∷◌, map,
  str_eq, str_eq_iff, contains, contains-sorted_set, any, arith, Bool-cases, inl, inr,
}
use az_capa.AppScope.{
  ConfiguredAppScope, Mode, mode_all, mode_subscriptions, mode_management_groups, canonical_values,
  kept_values, is_nil,
}
use az_capa.AppScope.Resolution.{
  Entry, Resolution, resolved, initializing, nothing, is_below, ids_below, match_management_groups,
  unless_nothing, ids_of, from_values, values_of, is_selected, resolve_app_scope,
}

module _ (canonical : String → String) (less : String → String → Bool) where
  -- A text in canonical form, which is not empty.
  abbrev pub is_named : String → String → Bool
  is_named s value = not (str_eq s "") && str_eq (canonical value) s

  contains-kept_values :
      (values : List String) (s : String)
      → contains (kept_values canonical less values) s ≡ any (is_named s) values
  contains-kept_values [] s = refl
  contains-kept_values (value ∷ values) s =
      let rest = contains-kept_values values s in
      elim (Bool-cases (str_eq (canonical value) s)) [
        | inl same ↦
            let e : str_eq (canonical value) "" ≡ str_eq s "" =
              ap (λ t. str_eq t "") ((str_eq_iff (canonical value) s).0 same) in
            ground (arith, rest, e, same)
        | inr other ↦ ground (arith, rest, other)
      ]

  contains-canonical_values :
      (values : List String) (s : String)
      → contains (canonical_values canonical less values) s ≡ any (is_named s) values
  unfolding canonical_values
  contains-canonical_values values s =
      contains-sorted_set less s (kept_values canonical less values) ∙ contains-kept_values values s

  any-ids_below :
      (selectors : List String) (values : List Entry) (s : String)
      → any (is_named s) (ids_below canonical less selectors values)
        ≡ any
            (λ (entry : Entry). is_below canonical less selectors entry && is_named s entry.id)
            values
  any-ids_below selectors [] s = refl
  any-ids_below selectors (entry ∷ values) s =
      let rest = any-ids_below selectors values s in
      elim (Bool-cases (is_below canonical less selectors entry)) [
        | inl below ↦ rw (below, rest)
        | inr apart ↦ rw (apart, rest)
      ]

  any-ids :
      (values : List Entry) (s : String)
      → any (is_named s) (map (λ (entry : Entry). entry.id) values)
        ≡ any (λ (entry : Entry). true && is_named s entry.id) values
  any-ids [] s = refl
  any-ids (entry ∷ values) s = rw (any-ids values s)

  -- The ids are those of the scope's entries.
  abbrev pub AreIds : Mode → (selectors : List String) → List Entry → List String → Type 0
  AreIds mode_management_groups selectors values ids =
      (s : String)
      → contains ids s
        ≡ any (λ (entry : Entry). is_below canonical less selectors entry && is_named s entry.id)
            values
  AreIds _ selectors values ids =
      (s : String) → contains ids s ≡ any (λ (entry : Entry). true && is_named s entry.id) values

  ids_of-AreIds :
      (mode : Mode) (selectors : List String) (values : List Entry)
      → AreIds mode selectors values (ids_of canonical less mode selectors values)
  unfolding ids_of match_management_groups
  ids_of-AreIds mode_management_groups selectors values = λ s.
      contains-canonical_values (ids_below canonical less selectors values) s
      ∙ any-ids_below selectors values s
  ids_of-AreIds mode_all selectors values =
      λ s. contains-canonical_values (map (λ (entry : Entry). entry.id) values) s ∙ any-ids values s
  ids_of-AreIds mode_subscriptions selectors values =
      λ s. contains-canonical_values (map (λ (entry : Entry). entry.id) values) s ∙ any-ids values s

  -- The answer has the ids of the scope's entries and is not empty; the error of an empty scope means
  -- that there is no such id, and the error of initializing that there are no values.
  abbrev pub Outcome : ConfiguredAppScope → Option (List Entry) → Resolution → Type 0
  Outcome configured none initializing = Unit
  Outcome configured (some values) (resolved r) =
      (r.configured ≡ configured)
      × (is_nil r.subscription_ids ≡ false)
      × AreIds configured.mode configured.selectors values r.subscription_ids
  Outcome configured (some values) nothing = AreIds configured.mode configured.selectors values []
  Outcome configured _ _ = ⊥

  unless_nothing-Outcome :
      (configured : ConfiguredAppScope) (values : List Entry) (ids : List String)
      → AreIds configured.mode configured.selectors values ids
      → Outcome configured (some values) (unless_nothing canonical less configured ids)
  unless_nothing-Outcome configured values [] h = h
  unless_nothing-Outcome configured values (id ∷ ids) h = (refl, refl, h)

  from_values-Outcome :
      (configured : ConfiguredAppScope) (values : Option (List Entry))
      → Outcome configured values (from_values canonical less configured values)
  from_values-Outcome configured none = tt
  from_values-Outcome configured (some values) =
      unless_nothing-Outcome configured values
        (ids_of canonical less configured.mode configured.selectors values)
        (ids_of-AreIds configured.mode configured.selectors values)

  pub resolve_app_scope-Outcome :
      (configured : ConfiguredAppScope) (snapshot live : Option (List Entry)) (allow : Bool)
      → is_selected canonical less configured.mode ≡ false
      → Outcome configured
          (values_of canonical less snapshot live allow)
          (resolve_app_scope canonical less configured snapshot live allow)
  unfolding resolve_app_scope
  resolve_app_scope-Outcome configured snapshot live allow other =
      rw other (from_values-Outcome configured (values_of canonical less snapshot live allow))
