-- ===== src/ActivityLog/Replay/Stable.antt =====
-- A second replay of a retained operation, services/activity_log/pipeline.py.
use az_capa.Prelude.{
  ℕ, ◌≡◌, ◌⊎◌, inl, inr, refl, ap, sym, ◌∙◌, Bool, true, false, ◌&&◌, Option, none, some, some_inj,
  str_eq, arith, and-true_iff, Bool-cases, Option-cases,
}
use mathlib.Core.Path.{subst}
use az_capa.Json.{end}
use az_capa.ActivityLog.Projection.{Event, ProjectionResult}
use az_capa.ActivityLog.Replay.{
  Retained, Replaying, same_version, given, recipes_for, recipe_version_for, is_overdue, is_stale,
  project_all, reprojected, aged, then_aged, with_payload, reconcile_operation,
}

same_version_refl : (v : Option ℕ) → same_version v v ≡ true
same_version_refl none = refl
same_version_refl (some v) = ground arith

module _ {F Payload : Type 0} (replaying : Replaying F Payload)
    (unknown : str_eq (replaying.lower "unknown") "pending" ≡ false) where
  unknown-is_overdue :
      (operation : Retained F Payload)
      → is_overdue replaying (record operation { outcome = some "unknown" }) ≡ false
  unfolding is_overdue
  unknown-is_overdue operation = rw unknown

  reprojected-is_stale :
      (operation : Retained F Payload) (result : ProjectionResult F)
      → is_stale replaying
          (reprojected replaying operation (recipe_version_for replaying operation) result)
        ≡ result.reprojection_pending
  unfolding is_stale recipe_version_for
  reprojected-is_stale operation result =
      rw (same_version_refl (recipe_version_for replaying operation)) (ground arith)

  abbrev result_of : Retained F Payload → Event F → ProjectionResult F
  result_of operation event =
      project_all replaying event (recipes_for replaying operation event.status)
        (record { columns = end; reprojection_pending = false })

  abbrev replayed : Retained F Payload → Event F → Retained F Payload
  replayed operation event =
      reprojected replaying operation (recipe_version_for replaying operation)
        (result_of operation event)

  reconcile_skipped :
      (operation : Retained F Payload)
      → (is_stale replaying operation && given replaying.is_given operation.applied_payload_gz)
        ≡ false
      → reconcile_operation replaying operation ≡ some (aged replaying false operation)
  unfolding reconcile_operation
  reconcile_skipped operation skip = rw skip

  reconcile_replayed :
      (operation : Retained F Payload) (payload : Payload) (event : Event F)
      → operation.applied_payload_gz ≡ some payload
      → replaying.decompress payload ≡ some event
      → (is_stale replaying operation && given replaying.is_given operation.applied_payload_gz)
        ≡ true
      → reconcile_operation replaying operation
        ≡ some (aged replaying true (replayed operation event))
  unfolding reconcile_operation
  reconcile_replayed operation payload event held unpacked go = rw (go, held, unpacked)

  steady :
      (c : Bool) (operation : Retained F Payload)
      → is_overdue replaying operation ≡ false
      → aged replaying c operation ≡ (c, operation)
  unfolding aged
  steady c operation fresh = rw fresh

  -- What a second pass gives: no change, and a write only while the projection is pending.
  abbrev pub Settled : Retained F Payload → Type 0
  Settled operation =
      (reconcile_operation replaying operation ≡ some (false, operation))
      ⊎ ((operation.reprojection_pending ≡ true)
          × (reconcile_operation replaying operation ≡ some (true, operation)))

  aged-cases :
      (c : Bool) (operation : Retained F Payload)
      → ((aged replaying c operation).1 ≡ record operation { outcome = some "unknown" })
        ⊎ ((is_overdue replaying operation ≡ false) × ((aged replaying c operation).1 ≡ operation))
  unfolding aged
  aged-cases c operation = elim (Bool-cases (is_overdue replaying operation)) [
    | inl overdue ↦ inl (rw overdue)
    | inr fresh ↦ inr (fresh, rw fresh)
  ]

  skipped-Settled :
      (operation : Retained F Payload)
      → is_overdue replaying operation ≡ false
      → (is_stale replaying operation && given replaying.is_given operation.applied_payload_gz)
        ≡ false
      → Settled operation
  skipped-Settled operation fresh skip =
      inl (reconcile_skipped operation skip ∙ ap some (steady false operation fresh))

  -- A row that was replayed from an event.
  replayed-Settled :
      (operation : Retained F Payload) (payload : Payload) (event : Event F)
      → operation.applied_payload_gz ≡ some payload
      → replaying.decompress payload ≡ some event
      → replayed operation event ≡ operation
      → is_stale replaying operation ≡ operation.reprojection_pending
      → is_overdue replaying operation ≡ false
      → Settled operation
  replayed-Settled operation payload event held unpacked same stale fresh =
      elim (Bool-cases
        (is_stale replaying operation && given replaying.is_given operation.applied_payload_gz)) [
          | inl go ↦ inr (
            sym stale ∙ ((and-true_iff (is_stale replaying operation) _).0 go).0,
            reconcile_replayed operation payload event held unpacked go
                ∙ (ap (λ o. some (aged replaying true o)) same
                    ∙ ap some (steady true operation fresh)),
          )
          | inr skip ↦ skipped-Settled operation fresh skip
        ]

  after_replay :
      (operation : Retained F Payload) (payload : Payload) (event : Event F)
      → operation.applied_payload_gz ≡ some payload
      → replaying.decompress payload ≡ some event
      → Settled (aged replaying true (replayed operation event)).1
  unfolding recipe_version_for is_stale
  after_replay operation payload event held unpacked =
      let stale = reprojected-is_stale operation (result_of operation event) in
      elim (aged-cases true (replayed operation event)) [
        | inl overdue ↦ rw overdue (
            replayed-Settled (record (replayed operation event) { outcome = some "unknown" })
              payload event held unpacked refl stale
              (unknown-is_overdue (replayed operation event)))
        | inr (fresh, same) ↦ rw same (
            replayed-Settled (replayed operation event) payload event held unpacked refl stale
              fresh)
      ]

  after_skip :
      (operation : Retained F Payload)
      → (is_stale replaying operation && given replaying.is_given operation.applied_payload_gz)
        ≡ false
      → Settled (aged replaying false operation).1
  unfolding recipe_version_for is_stale
  after_skip operation skip = elim (aged-cases false operation) [
    | inl overdue ↦ rw overdue (
        skipped-Settled (record operation { outcome = some "unknown" })
          (unknown-is_overdue operation) skip)
    | inr (fresh, same) ↦ rw same (skipped-Settled operation fresh skip)
  ]

  aged_result :
      (c b : Bool) (o p : Retained F Payload)
      → ◌≡◌ {A = Option (Bool × Retained F Payload)} (some (aged replaying c o)) (some (b, p))
      → Settled (aged replaying c o).1
      → Settled p
  aged_result c b o p e h = subst (λ r. Settled r.1) (some_inj e) h

  with_payload-Settled :
      (operation : Retained F Payload) (o : Option Payload) (c : Bool) (result : Retained F Payload)
      → operation.applied_payload_gz ≡ o
      → then_aged replaying (with_payload replaying operation o) ≡ some (c, result)
      → Settled result
  with_payload-Settled operation none c result held e = absurd (cc e)
  with_payload-Settled operation (some payload) c result held e =
      elim (Option-cases (replaying.decompress payload)) [
        | inl broken ↦ absurd (no_result (rw broken at e))
        | inr (event, unpacked) ↦
            aged_result true c (replayed operation event) result (rw unpacked at e)
              (after_replay operation payload event held unpacked)
      ]
    where
      no_result : ◌≡◌ {A = Option (Bool × Retained F Payload)} none (some (c, result)) → ⊥
      no_result e = cc e

  -- Where `unknown` does not fold to `pending`: after a replay at some moment, a second one at the
  -- same moment succeeds and changes nothing, and it writes the row only while a column of it could
  -- not be projected.
  pub reconcile_operation-Settled :
      (operation result : Retained F Payload) (c : Bool)
      → reconcile_operation replaying operation ≡ some (c, result)
      → Settled result
  unfolding reconcile_operation
  reconcile_operation-Settled operation result c e =
      elim (Bool-cases
        (is_stale replaying operation && given replaying.is_given operation.applied_payload_gz)) [
          | inl go ↦
              with_payload-Settled operation operation.applied_payload_gz c result refl (rw go at e)
          | inr skip ↦
              aged_result false c operation result (rw skip at e) (after_skip operation skip)
        ]
