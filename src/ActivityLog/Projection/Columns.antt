-- ===== src/ActivityLog/Projection/Columns.antt =====
-- What stands in the columns of a projected event.
use az_capa.Prelude.{
  String, ◌≡◌, ◌≢◌, ◌⊎◌, refl, ap, ◌∙◌, sym, true, false, some, List, [], ◌∷◌, str_eq, str_eq_iff,
  Bool-cases, some_inj, inl, inr, if◌then◌else◌,
}
use mathlib.Core.List.{Memᴰ}
use mathlib.Core.List.Memᴰ.{head, tail}
use az_capa.Json.{Json, null, Fields, end, field, lookup}
use az_capa.ActivityLog.Recipes.Declared.{ProjectedField, Recipe}
use az_capa.ActivityLog.Projection.{
  Parsed, Resolved, found, missing, failed, ProjectionResult, Event, put_field, is_null,
  resolve_path, status_matches, with_column, project_fields, project,
}

true-not-false : true ≢ false
true-not-false h = cc h

module _ {F : Type 0} where
  lookup-put_field :
      (c k : String) (v : Json F) (fs : Fields F)
      → lookup c (put_field k v fs) ≡ (if str_eq k c then some v else lookup c fs)
  lookup-put_field c k v end = refl
  lookup-put_field c k v (field j u fs) = elim (Bool-cases (str_eq j k)) [
    | inl same ↦
        let e : str_eq j c ≡ str_eq k c = ap (λ z. str_eq z c) ((str_eq_iff j k).0 same) in
        elim (Bool-cases (str_eq k c)) [
          | inl hit ↦ rw (same, e, hit)
          | inr miss ↦ rw (same, e, miss)
        ]
    | inr other ↦ elim (Bool-cases (str_eq k c)) [
      | inl hit ↦
          let e : str_eq j c ≡ false = ap (str_eq j) (sym ((str_eq_iff k c).0 hit)) ∙ other in
          rw (other, e, lookup-put_field c k v fs, hit)
      | inr miss ↦ rw (other, lookup-put_field c k v fs, miss)
    ]
  ]

  not-null : (v : Json F) → is_null v ≡ false → v ≢ null
  not-null v h e = true-not-false (sym (ap is_null e) ∙ h)

  module _ (strip lower : String → String) (loads : String → Parsed F) where
    -- A column's value is what the path of a field of that column leads to, for an event of the
    -- field's status.
    abbrev pub Derived : Event F → List ProjectedField → String → Json F → Type 0
    Derived event specs c v =
        (spec : ProjectedField) × Memᴰ spec specs
        × (spec.column ≡ c)
        × (status_matches strip lower loads spec.on_status event.status ≡ true)
        × (resolve_path strip lower loads event.properties spec.path ≡ found v)
        × (v ≢ null)

    with_column-lookup :
        (c k : String) (r : ProjectionResult F) (o : Resolved F) (v : Json F)
        → lookup c (with_column strip lower loads k o r).columns ≡ some v
        → ((k ≡ c) × (o ≡ found v) × (v ≢ null)) ⊎ (lookup c r.columns ≡ some v)
    with_column-lookup c k r missing v h = inr h
    with_column-lookup c k r failed v h = inr h
    with_column-lookup c k r (found u) v h = elim (Bool-cases (is_null u)) [
      | inl none_value ↦ inr (rw none_value at h)
      | inr value ↦ elim (Bool-cases (str_eq k c)) [
        | inl hit ↦
            let e : u ≡ v = some_inj (rw (value, lookup-put_field c k u r.columns, hit) at h) in
            inl ((str_eq_iff k c).0 hit, ap found e, not-null v (ap is_null (sym e) ∙ value))
        | inr miss ↦ inr (rw (value, lookup-put_field c k u r.columns, miss) at h)
      ]
    ]

    project_fields-Derived :
        (event : Event F) (specs : List ProjectedField) (r : ProjectionResult F) (c : String)
        (v : Json F)
        → lookup c (project_fields strip lower loads event specs r).columns ≡ some v
        → Derived event specs c v ⊎ (lookup c r.columns ≡ some v)
    unfolding project_fields
    project_fields-Derived event [] r c v h = inr h
    project_fields-Derived event (spec ∷ specs) r c v h =
        elim (project_fields-Derived event specs
          (if status_matches strip lower loads spec.on_status event.status
            then with_column strip lower loads spec.column
                (resolve_path strip lower loads event.properties spec.path) r
            else r)
          c v h) [
            | inl (s, m, a, b, e, n) ↦ inl (s, tail m, a, b, e, n)
            | inr before ↦
                elim (Bool-cases (status_matches strip lower loads spec.on_status event.status)) [
                  | inr passed ↦ inr (rw passed at before)
                  | inl matched ↦
                      elim (with_column-lookup c spec.column r
                        (resolve_path strip lower loads event.properties spec.path) v
                        (rw matched at before)) [
                          | inl (named, leads, value) ↦
                              inl (spec, head refl, named, matched, leads, value)
                          | inr kept ↦ inr kept
                        ]
                ]
          ]

    -- A column of a projected event is one of the recipe's: it comes from a declared field of that
    -- name, whose status restriction the event meets, its value is what the field's path leads to
    -- in the properties, and it is not null.
    pub project-Derived :
        (event : Event F) (recipe : Recipe) (c : String) (v : Json F)
        → lookup c (project strip lower loads event recipe).columns ≡ some v
        → Derived event recipe.projected_fields c v
    unfolding project
    project-Derived event recipe c v h =
        elim (project_fields-Derived event recipe.projected_fields
          (record { columns = end; reprojection_pending = false }) c v h) [
            | inl derived ↦ derived
            | inr nothing ↦ absurd (cc nothing)
          ]
