-- ===== src/VmCoverage/Lifecycle/Unique.antt =====
-- The reservation that a VM's row names.
use az_capa.Prelude.{
  ℕ, String, ◌≡◌, refl, ap, sym, ◌∙◌, Bool, true, false, not, ◌&&◌, ◌||◌, Option, none, some, List,
  [], ◌∷◌, str_eq, str_eq_iff, str_eq_refl, truthy, contains, or-left, or-right, any, All, get_or,
  arith, Bool-cases, inl, inr,
}
use az_capa.Prelude.Int.{ℤ, pos, leb_ℤ, ltb_ℤ}
use az_capa.VmCoverage.Lifecycle.{
  InstanceView, Lifecycle, VmCandidates, resource_ids, with_match, matches_of, of_matches,
  lifecycle_of, match_status, reservation_status_values,
}

match_status-contains :
    (capacity : ℤ) (n : ℕ) (allocated : Bool)
    → contains reservation_status_values (match_status capacity n allocated) ≡ true
unfolding match_status
match_status-contains capacity n allocated = elim (Bool-cases (leb_ℤ capacity (pos 0))) [
  | inl empty ↦ rw empty
  | inr some_capacity ↦ elim (Bool-cases (allocated && leb_ℤ (pos n) capacity)) [
    | inl within ↦ rw (some_capacity, within)
    | inr other ↦ elim (Bool-cases allocated) [
      | inl over ↦ rw (some_capacity, other, over)
      | inr waiting ↦ elim (Bool-cases (ltb_ℤ (pos n) capacity)) [
        | inl free ↦ rw (some_capacity, other, waiting, free)
        | inr full ↦ rw (some_capacity, other, waiting, full)
      ]
    ]
  ]
]

module _ (lower : String → String) (less : String → String → Bool)
    (reservations : String → Option InstanceView) where
  -- The instance view of the reservation lists the VM as associated.
  abbrev pub associates : (vm_id : String) → Option InstanceView → Bool
  associates vm_id none = false
  associates vm_id (some view) =
      contains (resource_ids lower less reservations view.associated) vm_id

  with_match-any :
      (vm_id id c : String) (o : Option InstanceView) (rest : List (String × InstanceView))
      → any (λ m. str_eq m.0 c) (with_match lower less reservations vm_id id o rest)
        ≡ ((associates vm_id o && str_eq id c) || any (λ m. str_eq m.0 c) rest)
  with_match-any vm_id id c none rest = refl
  with_match-any vm_id id c (some view) rest =
      elim (Bool-cases (contains (resource_ids lower less reservations view.associated) vm_id)) [
        | inl there ↦ rw there
        | inr absent ↦ rw absent
      ]

  -- A candidate that associates the VM is among the matches.
  matches_of-any :
      (vm_id c : String) (ids : List String)
      → contains ids c ≡ true
      → associates vm_id (reservations c) ≡ true
      → any (λ m. str_eq m.0 c) (matches_of lower less reservations vm_id ids) ≡ true
  unfolding matches_of
  matches_of-any vm_id c [] h k = absurd (cc h)
  matches_of-any vm_id c (id ∷ ids) h k =
      with_match-any vm_id id c (reservations id) (matches_of lower less reservations vm_id ids)
      ∙ elim (Bool-cases (str_eq id c)) [
        | inl same ↦
            let e : associates vm_id (reservations id) ≡ true =
              ap (λ i. associates vm_id (reservations i)) ((str_eq_iff id c).0 same) ∙ k in
            ground (arith, e, same)
        | inr other ↦
            or-right (associates vm_id (reservations id) && str_eq id c) _
              (matches_of-any vm_id c ids (rw other at h) k)
      ]

  abbrev Sound : String → List String → String × InstanceView → Type 0
  Sound vm_id ids m =
      (contains ids m.0 ≡ true)
      × (reservations m.0 ≡ some m.1)
      × (associates vm_id (some m.1) ≡ true)

  widen :
      (vm_id id : String) (ids : List String) (ms : List (String × InstanceView))
      → All (Sound vm_id ids) ms
      → All (Sound vm_id (id ∷ ids)) ms
  widen vm_id id ids [] h = tt
  widen vm_id id ids (m ∷ ms) ((a, b, c), h) =
      ((or-right (str_eq id m.0) _ a, b, c), widen vm_id id ids ms h)

  with_match-Sound :
      (vm_id id : String) (ids : List String) (o : Option InstanceView)
      (ms : List (String × InstanceView))
      → reservations id ≡ o
      → All (Sound vm_id ids) ms
      → All (Sound vm_id (id ∷ ids)) (with_match lower less reservations vm_id id o ms)
  with_match-Sound vm_id id ids none ms e h = widen vm_id id ids ms h
  with_match-Sound vm_id id ids (some view) ms e h =
      elim (Bool-cases (contains (resource_ids lower less reservations view.associated) vm_id)) [
        | inl there ↦
            rw there
              ((or-left (str_eq id id) _ (str_eq_refl id), e, there), widen vm_id id ids ms h)
        | inr absent ↦ rw absent (widen vm_id id ids ms h)
      ]

  matches_of-Sound :
      (vm_id : String) (ids : List String)
      → All (Sound vm_id ids) (matches_of lower less reservations vm_id ids)
  unfolding matches_of
  matches_of-Sound vm_id [] = tt
  matches_of-Sound vm_id (id ∷ ids) =
      with_match-Sound vm_id id ids (reservations id) (matches_of lower less reservations vm_id ids)
        refl (matches_of-Sound vm_id ids)

  abbrev pub vm_id_of : VmCandidates → String
  vm_id_of vm = lower (get_or vm.id "")

  abbrev pub candidates_of : VmCandidates → List String
  candidates_of vm = get_or vm.candidates []

  -- What the reservation that a row names, if any, is to the VM.
  abbrev pub Named : VmCandidates → Option String → Type 0
  Named vm none = Unit
  Named vm (some id) =
      (contains (candidates_of vm) id ≡ true)
      × (associates (vm_id_of vm) (reservations id) ≡ true)
      × ((other : String)
          → (contains (candidates_of vm) other
              && (associates (vm_id_of vm) (reservations other) && not (str_eq id other)))
            ≡ false)

  only_match :
      (vm_id id : String) (view : InstanceView) (ids : List String)
      → matches_of lower less reservations vm_id ids ≡ (id, view) ∷ []
      → (other : String)
      → (contains ids other && (associates vm_id (reservations other) && not (str_eq id other)))
        ≡ false
  only_match vm_id id view ids e other = elim (Bool-cases (contains ids other)) [
    | inr absent ↦ rw absent
    | inl there ↦ elim (Bool-cases (associates vm_id (reservations other))) [
      | inr apart ↦ rw (there, apart)
      | inl together ↦
          let h : (str_eq id other || false) ≡ true =
            ap (any (λ (m : String × InstanceView). str_eq m.0 other)) (sym e)
            ∙ matches_of-any vm_id other ids there together in
          ground (arith, h)
    ]
  ]

  abbrev Consistent : VmCandidates → Lifecycle → Type 0
  Consistent vm l = (contains reservation_status_values l.status ≡ true) × Named vm l.reservation_id

  of_matches-Consistent :
      (vm : VmCandidates) (ms : List (String × InstanceView))
      → matches_of lower less reservations (vm_id_of vm) (candidates_of vm) ≡ ms
      → All (Sound (vm_id_of vm) (candidates_of vm)) ms
      → Consistent vm (of_matches lower less reservations (vm_id_of vm) ms)
  of_matches-Consistent vm [] e h = (refl, tt)
  of_matches-Consistent vm ((id, view) ∷ []) e ((a, b, c), _) = (
    match_status-contains view.capacity _ _,
    (a, ap (associates (vm_id_of vm)) b ∙ c, only_match (vm_id_of vm) id view (candidates_of vm) e),
  )
  of_matches-Consistent vm (m ∷ n ∷ ms) e h = (refl, tt)

  -- The status of a VM's row is one of the known values, so that it can be filtered for; and the
  -- reservation that a row names is a candidate of the VM and the only one whose instance view lists
  -- the VM as associated.
  pub lifecycle_of-Named :
      (vm : VmCandidates)
      → (contains reservation_status_values (lifecycle_of lower less reservations vm).status ≡ true)
        × Named vm (lifecycle_of lower less reservations vm).reservation_id
  unfolding lifecycle_of
  lifecycle_of-Named vm = elim (Bool-cases (truthy vm.group_id)) [
    | inr no_group ↦ rw no_group (refl, tt)
    | inl grouped ↦ rw grouped (
        of_matches-Consistent vm
          (matches_of lower less reservations (vm_id_of vm) (candidates_of vm)) refl
          (matches_of-Sound (vm_id_of vm) (candidates_of vm)))
  ]
