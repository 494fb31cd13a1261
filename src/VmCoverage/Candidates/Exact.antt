-- ===== src/VmCoverage/Candidates/Exact.antt =====
-- Which reservations a VM is offered.
use mathlib.Core.List.{Memᴰ}
use mathlib.Core.List.Memᴰ.{head, tail}
use az_capa.Prelude.{
  String, ◌≡◌, ◌⊎◌, refl, sym, ap, ◌∙◌, Bool, true, false, ◌&&◌, ◌||◌, Option, none, some, List, [],
  ◌∷◌, str_eq, str_eq_iff, str_eq_refl, contains, sorted_set, contains-sorted_set, Bool-cases, inl,
  inr, if◌then◌else◌, some_inj, or-left, or-right, arith,
}
use az_capa.VmCoverage.Candidates.{
  ReservationRow, VmGroup, same_zone, or_none, group_of, is_entry, ids_where, any_where,
  is_unresolved, unresolved_keys, broad_candidates, strict_candidates, is_strict, uses_broad,
  matching_reservations,
}

abbrev pub listed : Option (List String) → List String
listed none = []
listed (some ids) = ids

listed-or_none : (ids : List String) → listed (or_none ids) ≡ ids
listed-or_none [] = refl
listed-or_none (x ∷ xs) = refl

module _ (canonical : String → String) (less : String → String → Bool) where
  contains-ids_where :
      (p : ReservationRow → Bool) (rows : List ReservationRow) (id : String)
      → contains (ids_where canonical less p rows) id
        ≡ any_where canonical less
            (λ row. p row && str_eq (group_of canonical less row.reservation_id) id)
            rows
  contains-ids_where p [] id = refl
  contains-ids_where p (row ∷ rows) id = elim (Bool-cases (p row)) [
    | inl kept ↦ rw (kept, contains-ids_where p rows id)
    | inr dropped ↦ rw (dropped, contains-ids_where p rows id)
  ]

  -- Whether a row offers a VM its reservation, by the filters of the code.
  abbrev offers : VmGroup → List ReservationRow → ReservationRow → Bool
  offers vm rows row =
      if uses_broad canonical less vm rows
      then is_entry canonical less (group_of canonical less vm.group_id)
          (group_of canonical less vm.vm_size) row
      else is_strict canonical less (group_of canonical less vm.group_id)
          (group_of canonical less vm.vm_size) vm.zone.physical_zone row

  matching_reservations-offers :
      (vm : VmGroup) (rows : List ReservationRow) (id : String)
      → (str_eq (group_of canonical less vm.group_id) ""
          || str_eq (group_of canonical less vm.vm_size) "")
        ≡ false
      → contains (listed (matching_reservations canonical less vm rows)) id
        ≡ any_where canonical less
            (λ row. offers vm rows row && str_eq (group_of canonical less row.reservation_id) id)
            rows
  unfolding matching_reservations broad_candidates strict_candidates
  matching_reservations-offers vm rows id given =
      let group = group_of canonical less vm.group_id in
      let size = group_of canonical less vm.vm_size in
      elim (Bool-cases (uses_broad canonical less vm rows)) [
        | inl broad ↦
            rw
              (
                given,
                broad,
                listed-or_none (
                    sorted_set less
                      (ids_where canonical less (is_entry canonical less group size) rows)),
                contains-sorted_set less id
                    (ids_where canonical less (is_entry canonical less group size) rows),
              )
              (contains-ids_where (is_entry canonical less group size) rows id)
        | inr strict ↦
            rw
              (
                given,
                strict,
                listed-or_none (
                    sorted_set less (
                      ids_where canonical less
                        (is_strict canonical less group size vm.zone.physical_zone) rows)),
                contains-sorted_set less id (
                    ids_where canonical less
                      (is_strict canonical less group size vm.zone.physical_zone) rows),
              )
              (contains-ids_where (is_strict canonical less group size vm.zone.physical_zone) rows
                id)
      ]

  -- The row of a reservation, of this canonical group and size.
  abbrev IsOf : (group size : Option String) → ReservationRow → Type 0
  IsOf group size row =
      (group_of canonical less row.group_id ≡ group_of canonical less group)
      × (group_of canonical less row.vm_size ≡ group_of canonical less size)
      × (str_eq (group_of canonical less row.reservation_id) "" ≡ false)

  -- Why the zone lets a row serve a VM: the VM's zone is unresolved, or that of some reservation of
  -- its group and size, or the row's zone is resolved and its physical zone is the VM's.
  abbrev FitsZone : VmGroup → List ReservationRow → ReservationRow → Type 0
  FitsZone vm rows row =
      (vm.zone.resolved ≡ false)
      ⊎ ((other : ReservationRow) × Memᴰ other rows
          × IsOf vm.group_id vm.vm_size other
          × (other.zone.resolved ≡ false))
      ⊎ ((row.zone.resolved ≡ true) × (row.zone.physical_zone ≡ vm.zone.physical_zone))

  abbrev pub IsOffered : VmGroup → List ReservationRow → String → Type 0
  IsOffered vm rows id =
      (row : ReservationRow) × Memᴰ row rows
      × IsOf vm.group_id vm.vm_size row
      × FitsZone vm rows row
      × (group_of canonical less row.reservation_id ≡ id)

  any_where-Memᴰ :
      (p : ReservationRow → Bool) (rows : List ReservationRow)
      → any_where canonical less p rows ≡ true
      → (row : ReservationRow) × Memᴰ row rows × (p row ≡ true)
  any_where-Memᴰ p [] h = absurd (cc h)
  any_where-Memᴰ p (x ∷ rows) h = elim (Bool-cases (p x)) [
    | inl hit ↦ (x, head refl, hit)
    | inr fails ↦ let (row, m, hit) = any_where-Memᴰ p rows (rw fails at h) in (row, tail m, hit)
  ]

  Memᴰ-any_where :
      (p : ReservationRow → Bool) (rows : List ReservationRow) (row : ReservationRow)
      → Memᴰ row rows
      → p row ≡ true
      → any_where canonical less p rows ≡ true
  Memᴰ-any_where p [] row m h = elim m [ ]
  Memᴰ-any_where p (x ∷ rows) row (head e) h =
      or-left (p x) (any_where canonical less p rows) (rw e at h)
  Memᴰ-any_where p (x ∷ rows) row (tail m) h =
      or-right (p x) (any_where canonical less p rows) (Memᴰ-any_where p rows row m h)

  same_zone_iff :
      (a b : Option String) → (same_zone a b ≡ true → a ≡ b) × (a ≡ b → same_zone a b ≡ true)
  same_zone_iff none none = (λ _. refl, λ _. refl)
  same_zone_iff none (some b) = (λ h. absurd (cc h), λ h. absurd (cc h))
  same_zone_iff (some a) none = (λ h. absurd (cc h), λ h. absurd (cc h))
  same_zone_iff (some a) (some b) =
      (λ h. ap some ((str_eq_iff a b).0 h), λ h. (str_eq_iff a b).1 (some_inj h))

  module _ (vm : VmGroup) (rows : List ReservationRow)
      (given : (str_eq (group_of canonical less vm.group_id) ""
          || str_eq (group_of canonical less vm.vm_size) "")
        ≡ false) where
    abbrev group : String
    group = group_of canonical less vm.group_id

    abbrev size : String
    size = group_of canonical less vm.vm_size

    is_entry-IsOf :
        (row : ReservationRow)
        → is_entry canonical less group size row ≡ true
        → IsOf vm.group_id vm.vm_size row
    is_entry-IsOf row h =
        let g = str_eq_iff (group_of canonical less row.group_id) group in
        let z = str_eq_iff (group_of canonical less row.vm_size) size in
        (g.0 (ground arith), z.0 (ground arith), ground arith)

    IsOf-is_entry :
        (row : ReservationRow)
        → IsOf vm.group_id vm.vm_size row
        → is_entry canonical less group size row ≡ true
    IsOf-is_entry row (g, z, named) =
        rw (g, z, named, str_eq_refl group, str_eq_refl size) (ground arith)

    offers-FitsZone :
        (row : ReservationRow)
        → offers vm rows row ≡ true
        → IsOf vm.group_id vm.vm_size row × FitsZone vm rows row
    unfolding unresolved_keys
    offers-FitsZone row h = elim (Bool-cases vm.zone.resolved) [
      | inr unknown ↦ (is_entry-IsOf row (rw unknown at h), inl unknown)
      | inl known ↦
          elim (Bool-cases
            (any_where canonical less (is_unresolved canonical less group size) rows)) [
              | inl open_zone ↦
                  let (other, m, hit) =
                    any_where-Memᴰ (is_unresolved canonical less group size) rows open_zone in
                  (
                    is_entry-IsOf row (rw (known, open_zone) at h),
                    inr (inl (other, m, is_entry-IsOf other (ground arith), ground arith)),
                  )
              | inr closed_zone ↦
                  let strict : is_strict canonical less group size vm.zone.physical_zone row
                      ≡ true =
                    rw (known, closed_zone) at h in
                  (
                    is_entry-IsOf row (ground arith),
                    inr (
                        inr (
                          ground arith,
                          (same_zone_iff row.zone.physical_zone vm.zone.physical_zone).0
                              (ground arith),
                        )),
                  )
            ]
    ]

    FitsZone-offers :
        (row : ReservationRow)
        → IsOf vm.group_id vm.vm_size row
        → FitsZone vm rows row
        → offers vm rows row ≡ true
    unfolding unresolved_keys
    FitsZone-offers row is_of (inl unknown) = rw (unknown, IsOf-is_entry row is_of)
    FitsZone-offers row is_of (inr (inl (other, m, other_of, unknown))) =
        let open_zone =
          Memᴰ-any_where (is_unresolved canonical less group size) rows other m
            (rw (IsOf-is_entry other other_of, unknown)) in
        elim (Bool-cases vm.zone.resolved) [
          | inl known ↦ rw (known, open_zone, IsOf-is_entry row is_of)
          | inr hidden ↦ rw (hidden, IsOf-is_entry row is_of)
        ]
    FitsZone-offers row is_of (inr (inr (known, same))) =
        let zone = (same_zone_iff row.zone.physical_zone vm.zone.physical_zone).1 same in
        elim (Bool-cases (uses_broad canonical less vm rows)) [
          | inl broad ↦ rw (broad, IsOf-is_entry row is_of)
          | inr strict ↦ rw (strict, IsOf-is_entry row is_of, known, zone)
        ]

  -- A VM with a group and a size is offered an id exactly when it is the canonical id, not empty, of
  -- a row of the VM's group and size, and the VM's zone is unresolved, or that of some such row, or
  -- the row's zone is resolved and its physical zone is the VM's.
  pub matching_reservations-contains :
      (vm : VmGroup) (rows : List ReservationRow) (id : String)
      → (str_eq (group_of canonical less vm.group_id) ""
          || str_eq (group_of canonical less vm.vm_size) "")
        ≡ false
      → (contains (listed (matching_reservations canonical less vm rows)) id ≡ true
          → IsOffered vm rows id)
        × (IsOffered vm rows id
            → contains (listed (matching_reservations canonical less vm rows)) id ≡ true)
  matching_reservations-contains vm rows id given =
      let same = matching_reservations-offers vm rows id given in
      let serves = λ (row : ReservationRow).
        offers vm rows row && str_eq (group_of canonical less row.reservation_id) id in
      (
        λ h.
            let (row, m, hit) = any_where-Memᴰ serves rows (sym same ∙ h) in
            let (is_of, zone) = offers-FitsZone vm rows given row (ground arith) in
            (
              row,
              m,
              is_of,
              zone,
              (str_eq_iff (group_of canonical less row.reservation_id) id).0 (ground arith),
            ),
        λ (row, m, is_of, zone, named).
            same
            ∙ Memᴰ-any_where serves rows row m (
                rw (
                  FitsZone-offers vm rows given row is_of zone,
                  (str_eq_iff (group_of canonical less row.reservation_id) id).1 named,
                )),
      )
