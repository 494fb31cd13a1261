-- ===== src/UsageRefresh/Coverage/Units.antt =====
-- The work units of a load read what the load is for.
use az_capa.Prelude.{
  ℕ, String, ◌≡◌, ◌⊎◌, refl, ap, sym, ◌∙◌, Bool, true, false, not, ◌&&◌, ◌||◌, Option, none, some,
  some_inj, List, [], ◌∷◌, str_eq, str_eq_iff, ltb, contains, any, arith, Bool-cases, Option-cases,
  inl, inr, if◌then◌else◌,
}
use az_capa.Prelude as Prelude
use az_capa.UsageRefresh.Scope.{Scope, method_per_sub, method_per_billing}
use az_capa.UsageRefresh.Units.{
  Load, WorkUnit, unit_at, work_units, subscription_units, units_per_sub, one_unit, build_scope,
  cons_unit, units_of_loads, append_units,
}
use az_capa.UsageRefresh.Coverage.{covers, within, implies, load_reads, any-append}

module _ (quote : String → String) {Filter : Type 0}
    (build_filter : Option (List String) → Filter) where
  -- Which subscriptions a query answers for: one with the scope of a subscription for this one, and
  -- one with the scope of a billing account for those of its filter, or for all.
  pub record IsReader (reads : WorkUnit Filter → String → Bool) : Type 0 where
    pub per_sub :
        (s scope : String) (start stop : ℕ)
        → build_scope quote method_per_sub (some s) none none ≡ some scope
        → reads (unit_at quote build_filter start stop none scope) s ≡ true
    pub per_billing :
        (account profile : Option String) (subs : Option (List String)) (scope : String)
        (start stop : ℕ) (s : String)
        → build_scope quote method_per_billing none account profile ≡ some scope
        → implies (covers subs s) (reads (unit_at quote build_filter start stop subs scope) s)
          ≡ true

  module _ (reads : WorkUnit Filter → String → Bool) where
    abbrev pub unit_reads : String → ℕ → WorkUnit Filter → Bool
    unit_reads s d u = reads u s && within u.start u.stop d

    cons_unit-some :
        (o : Option String) (start stop : ℕ) (rest : Option (List (WorkUnit Filter)))
        (us : List (WorkUnit Filter))
        → cons_unit quote build_filter o start stop rest ≡ some us
        → (scope : String) × (vs : List (WorkUnit Filter)) × (o ≡ some scope)
          × (rest ≡ some vs)
          × ((unit_at quote build_filter start stop none scope ∷ vs) ≡ us)
    cons_unit-some none start stop rest us h = absurd (cc h)
    cons_unit-some (some scope) start stop none us h = absurd (cc h)
    cons_unit-some (some scope) start stop (some vs) us h = (scope, vs, refl, refl, some_inj h)

    append_units-some :
        (a b : Option (List (WorkUnit Filter))) (us : List (WorkUnit Filter))
        → append_units quote build_filter a b ≡ some us
        → (vs ws : List (WorkUnit Filter)) × (a ≡ some vs)
          × (b ≡ some ws)
          × (Prelude.◌++◌ vs ws ≡ us)
    append_units-some none b us h = absurd (cc h)
    append_units-some (some vs) none us h = absurd (cc h)
    append_units-some (some vs) (some ws) us h = (vs, ws, refl, refl, some_inj h)

    module _ (reader : IsReader reads) where
      subscription_units-read :
          (ss : List String) (start stop : ℕ) (us : List (WorkUnit Filter)) (s : String) (d : ℕ)
          → subscription_units quote build_filter ss start stop ≡ some us
          → implies (contains ss s && within start stop d) (any (unit_reads s d) us) ≡ true
      unfolding subscription_units
      subscription_units-read [] start stop us s d h = refl
      subscription_units-read (x ∷ ss) start stop us s d h =
          let (scope, vs, built, rest, e) = cons_unit-some _ start stop _ us h in
          let others = subscription_units-read ss start stop vs s d rest in
          let own = reader.per_sub x scope start stop built in
          rw (← e) (elim (Bool-cases (str_eq x s)) [
            | inl same ↦
                let mine : reads (unit_at quote build_filter start stop none scope) s ≡ true =
                  rw (← (str_eq_iff x s).0 same) own in
                ground (arith, mine, same)
            | inr other ↦ ground (arith, others, other)
          ])

      work_units-read :
          (scope : Scope) (l : Load) (us : List (WorkUnit Filter)) (s : String) (d : ℕ)
          → work_units quote build_filter scope l ≡ some us
          → implies (load_reads l s d) (any (unit_reads s d) us) ≡ true
      unfolding work_units
      work_units-read scope l us s d h = elim (Bool-cases (ltb l.stop l.start)) [
        | inl over ↦ ground (arith, over)
        | inr days ↦ elim (Bool-cases (str_eq scope.method method_per_sub)) [
          | inl per_sub ↦ per_sub_read l.subs (rw (days, per_sub) at h)
          | inr billing ↦
              billing_read
                (build_scope quote method_per_billing none scope.billing_account
                  scope.billing_profile)
                refl (rw (days, billing) at h)
        ]
      ]
        where
          per_sub_read :
              (subs : Option (List String))
              → units_per_sub quote build_filter subs l.start l.stop ≡ some us
              → implies (covers subs s && within l.start l.stop d) (any (unit_reads s d) us) ≡ true
          per_sub_read none h = absurd (cc h)
          per_sub_read (some ss) h = subscription_units-read ss l.start l.stop us s d h

          billing_read :
              (built : Option String)
              → build_scope quote method_per_billing none scope.billing_account
                  scope.billing_profile
                ≡ built
              → one_unit quote build_filter built l.subs l.start l.stop ≡ some us
              → implies (load_reads l s d) (any (unit_reads s d) us) ≡ true
          billing_read none e h = absurd (cc h)
          billing_read (some path) e h = rw (← some_inj h) (
              ground (
                arith,
                reader.per_billing scope.billing_account scope.billing_profile l.subs path l.start
                    l.stop s e,
              ))

      pub units_of_loads-read :
          (scope : Scope) (ls : List Load) (us : List (WorkUnit Filter)) (s : String) (d : ℕ)
          → units_of_loads quote build_filter scope ls ≡ some us
          → implies (any (λ l. load_reads l s d) ls) (any (unit_reads s d) us) ≡ true
      unfolding units_of_loads
      units_of_loads-read scope [] us s d h = refl
      units_of_loads-read scope (l ∷ ls) us s d h =
          let (vs, ws, first, rest, e) =
            append_units-some (work_units quote build_filter scope l)
              (units_of_loads quote build_filter scope ls) us h in
          let a = work_units-read scope l vs s d first in
          let b = units_of_loads-read scope ls ws s d rest in
          rw (← e, any-append (unit_reads s d) vs ws) (ground (arith, a, b))

-- The days of the units are those of the loads.
module _ (quote : String → String) {Filter : Type 0}
    (build_filter : Option (List String) → Filter) where
  abbrev pub unit_days : ℕ → WorkUnit Filter → Bool
  unit_days d u = within u.start u.stop d

  subscription_units-days :
      (ss : List String) (start stop : ℕ) (us : List (WorkUnit Filter)) (d : ℕ)
      → subscription_units quote build_filter ss start stop ≡ some us
      → implies (any (unit_days d) us) (within start stop d) ≡ true
  unfolding subscription_units
  subscription_units-days [] start stop us d h = rw (← some_inj h)
  subscription_units-days (x ∷ ss) start stop us d h =
      let (scope, vs, built, rest, e) =
        cons_unit-some quote build_filter (λ u s. true) _ start stop _ us h in
      rw (← e) (ground (arith, subscription_units-days ss start stop vs d rest))

  work_units-days :
      (scope : Scope) (l : Load) (us : List (WorkUnit Filter)) (d : ℕ)
      → work_units quote build_filter scope l ≡ some us
      → implies (any (unit_days d) us) (within l.start l.stop d) ≡ true
  unfolding work_units
  work_units-days scope l us d h = elim (Bool-cases (ltb l.stop l.start)) [
    | inl over ↦ rw (← some_inj (rw over at h))
    | inr days ↦ elim (Bool-cases (str_eq scope.method method_per_sub)) [
      | inl per_sub ↦ of_subs l.subs (rw (days, per_sub) at h)
      | inr billing ↦
          of_billing
            (build_scope quote method_per_billing none scope.billing_account scope.billing_profile)
            (rw (days, billing) at h)
    ]
  ]
    where
      of_subs :
          (subs : Option (List String))
          → units_per_sub quote build_filter subs l.start l.stop ≡ some us
          → implies (any (unit_days d) us) (within l.start l.stop d) ≡ true
      of_subs none h = absurd (cc h)
      of_subs (some ss) h = subscription_units-days ss l.start l.stop us d h

      of_billing :
          (built : Option String)
          → one_unit quote build_filter built l.subs l.start l.stop ≡ some us
          → implies (any (unit_days d) us) (within l.start l.stop d) ≡ true
      of_billing none h = absurd (cc h)
      of_billing (some path) h = rw (← some_inj h) (ground arith)

  pub one_load-days :
      (scope : Scope) (l : Load) (us : List (WorkUnit Filter)) (d : ℕ)
      → units_of_loads quote build_filter scope (l ∷ []) ≡ some us
      → implies (any (unit_days d) us) (within l.start l.stop d) ≡ true
  unfolding units_of_loads
  one_load-days scope l us d h =
      let (vs, ws, first, rest, e) =
        append_units-some quote build_filter (λ u s. true) (work_units quote build_filter scope l)
          (some []) us h in
      rw (← e, any-append (unit_days d) vs ws, ← some_inj rest)
        (ground (arith, work_units-days scope l vs d first))
