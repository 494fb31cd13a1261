-- ===== src/ActivityLog/Assembly/Whole.antt =====
-- The operations of a list of events hold all its events, services/activity_log/assembly.py.
use mathlib.Core.Path.{subst}
use mathlib.Core.List.{Memᴰ}
use mathlib.Core.List.Memᴰ.{head, tail}
use az_capa.ActivityLog.Assembly.Parts.{IsPlain, SameParts, identity_string-SameParts}
use az_capa.Prelude.{
  false, Bool, Bool-cases, inl, inr, sym, arith, str_eq_iff, String, ◌≡◌, refl, ap, ◌∙◌, true, some,
  List, [], ◌∷◌, contains, contains-sorted_set, distinct, map, any, All, get_last?, or_false,
}
use az_capa.ActivityLog.Assembly.Events.{
  PreparedEvent, Texts, has_naive_moment, sort_by, identity_string, parse_timestamp, head_or,
}
use az_capa.ActivityLog.Assembly.Operations.{
  Operation, mixes_moments, event_ids, dedupe, group_events, operation_of, assemble_operation,
  assemble_groups, assemble,
}
use az_capa.ActivityLog.Assembly.Groups.{any-sort_by, All-sort_by, names, contains-event_ids}
use az_capa.ActivityLog.Assembly.Merged.{
  EventGroups, IsGroup, any-dedupe, any-group_events, group_events-IsGrouped, HasPlainKey,
  All-dedupe, All-group_events,
}

module _ {A : Type 0} where
  every_member : (xs ys : List A) → ((x : A) → Memᴰ x xs → Memᴰ x ys) → All (λ x. Memᴰ x ys) xs
  every_member [] ys h = tt
  every_member (x ∷ xs) ys h = (h x (head refl), every_member xs ys (λ y m. h y (tail m)))

  All-Memᴰ : (P : A → Type 0) (xs : List A) (x : A) → All P xs → Memᴰ x xs → P x
  All-Memᴰ P [] x h m = elim m [ ]
  All-Memᴰ P (y ∷ xs) x (p, h) (head e) = subst P (sym e) p
  All-Memᴰ P (y ∷ xs) x (p, h) (tail m) = All-Memᴰ P xs x h m

  any-All :
      (P : A → Type 0) (p : A → Bool) (xs : List A)
      → All P xs
      → any p xs ≡ true
      → (x : A) × P x × (p x ≡ true)
  any-All P p [] h e = absurd (cc e)
  any-All P p (x ∷ xs) (q, h) e = elim (Bool-cases (p x)) [
    | inl hit ↦ (x, q, hit)
    | inr fails ↦ any-All P p xs h (rw fails at e)
  ]

  any-none : (p : A → Bool) (xs : List A) → All (λ x. p x ≡ false) xs → any p xs ≡ false
  any-none p [] h = refl
  any-none p (x ∷ xs) (q, h) = rw (q, any-none p xs h)

  All-zip : (P Q : A → Type 0) (xs : List A) → All P xs → All Q xs → All (λ x. P x × Q x) xs
  All-zip P Q [] h k = tt
  All-zip P Q (x ∷ xs) (p, h) (q, k) = ((p, q), All-zip P Q xs h k)

  abbrev Ends : (A → Type 0) → List A → Type 0
  Ends P xs = (a : A) × (b : A) × (head_or xs ≡ some a) × (get_last? xs ≡ some b) × P b

  last_of :
      (P : A → Type 0) (x : A) (xs : List A)
      → All P (x ∷ xs)
      → (b : A) × (get_last? (x ∷ xs) ≡ some b) × P b
  last_of P x [] (p, h) = (x, refl, p)
  last_of P x (y ∷ ys) (p, h) = last_of P y ys h

  Ends-intro : (P : A → Type 0) (xs : List A) → any (λ a. true) xs ≡ true → All P xs → Ends P xs
  Ends-intro P [] e h = absurd (cc e)
  Ends-intro P (x ∷ xs) e h = let (b, l, p) = last_of P x xs h in (x, b, refl, l, p)

module _ (texts : Texts) {F Payload : Type 0} where
  -- An event of the list whose parts can be told apart, and whose moment names a time zone.
  abbrev pub IsSound : PreparedEvent F Payload → Type 0
  IsSound event = IsPlain texts event × (has_naive_moment texts event ≡ false)

  -- The operation is of one event of the list, and each of its ids is that of an event of the list
  -- with the same parts.
  abbrev pub IsOneOf : List (PreparedEvent F Payload) → Operation F Payload → Type 0
  IsOneOf events op =
      (rep : PreparedEvent F Payload) × Memᴰ rep events
      × (op.operation_identity ≡ identity_string texts rep)
      × (op.subscription_id ≡ texts.lower rep.subscription_id)
      × (op.resource_id ≡ rep.resource_id)
      × (op.operation_name ≡ rep.operation_name)
      × (op.correlation_id ≡ rep.correlation_id)
      × ((id : String)
          → contains op.all_event_ids id ≡ true
          → (e : PreparedEvent F Payload) × Memᴰ e events
            × (e.event_data_id ≡ id)
            × SameParts texts e rep)

  abbrev OfGroup : String × List (PreparedEvent F Payload) → Operation F Payload → Type 0
  OfGroup g op =
      (op.operation_identity ≡ g.0)
      × ((id : String) → contains op.all_event_ids id ≡ any (names texts id) g.1)

  module _ (events : List (PreparedEvent F Payload)) (sound : All IsSound events) where
    abbrev IsIn : String → PreparedEvent F Payload → Type 0
    IsIn identity e = Memᴰ e events × (identity_string texts e ≡ identity)

    abbrev Members : String × List (PreparedEvent F Payload) → Type 0
    Members g = All (λ e. Memᴰ e events) g.1

    from_identity :
        (rep e : PreparedEvent F Payload) (identity : String)
        → IsIn identity rep
        → IsIn identity e
        → SameParts texts e rep
    from_identity rep e identity (mr, ir) (me, ie) =
        identity_string-SameParts texts e rep (All-Memᴰ IsSound events e sound me).0
          (All-Memᴰ IsSound events rep sound mr).0 (ie ∙ sym ir)

    unmixed :
        (es : List (PreparedEvent F Payload))
        → All (λ e. Memᴰ e events) es
        → mixes_moments texts es ≡ false
    unmixed es members =
        let none_naive = any-none (has_naive_moment texts) es (aware es members) in rw none_naive
      where
        aware :
            (xs : List (PreparedEvent F Payload))
            → All (λ e. Memᴰ e events) xs
            → All (λ e. has_naive_moment texts e ≡ false) xs
        aware [] h = tt
        aware (x ∷ xs) (m, h) = ((All-Memᴰ IsSound events x sound m).1, aware xs h)

    assemble_operation-OfGroup :
        (g : String × List (PreparedEvent F Payload))
        → IsGroup texts g
        → Members g
        → (op : Operation F Payload) × (assemble_operation texts g.1 ≡ some op)
          × OfGroup g op
          × IsOneOf events op
    unfolding assemble_operation operation_of
    assemble_operation-OfGroup g (some_event, ids) members =
        let ordered = sort_by (parse_timestamp texts) g.1 in
        let are_in =
          All-zip (λ e. Memᴰ e events) (λ e. identity_string texts e ≡ g.0) g.1 members ids in
        let (first, last, f, l, is_in) =
          Ends-intro (IsIn g.0) ordered
            (any-sort_by (λ e. true) (parse_timestamp texts) g.1 ∙ some_event)
            (All-sort_by (IsIn g.0) (parse_timestamp texts) g.1 are_in) in
        let held = λ (id : String).
          contains-sorted_set texts.less id (event_ids ordered)
          ∙ (contains-event_ids texts ordered id
              ∙ any-sort_by (names texts id) (parse_timestamp texts) g.1) in
        (
          operation_of texts first last ordered,
          rw (unmixed g.1 members, f, l),
          (is_in.1, held),
          (
            last,
            is_in.0,
            refl,
            refl,
            refl,
            refl,
            refl,
            λ id h.
                let (e, e_in, named) =
                  any-All (IsIn g.0) (names texts id) g.1 are_in (sym (held id) ∙ h) in
                (
                  e,
                  e_in.0,
                  (str_eq_iff e.event_data_id id).0 (ground arith),
                  from_identity last e g.0 is_in e_in,
                ),
          ),
        )

    -- The operations of the groups, one for each identity.
    abbrev OfGroups : EventGroups F Payload → List (Operation F Payload) → Type 0
    OfGroups gs ops =
        (map (λ (op : Operation F Payload). op.operation_identity) ops ≡ map (λ g. g.0) gs)
        × ((id : String)
            → any (λ (op : Operation F Payload). contains op.all_event_ids id) ops
              ≡ any (λ g. any (names texts id) g.1) gs)
        × All (IsOneOf events) ops

    assemble_groups-OfGroups :
        (gs : EventGroups F Payload)
        → All (IsGroup texts) gs
        → All Members gs
        → (ops : List (Operation F Payload)) × (assemble_groups texts gs ≡ some ops)
          × OfGroups gs ops
    unfolding assemble_groups
    assemble_groups-OfGroups [] h m = ([], refl, (refl, λ id. refl, tt))
    assemble_groups-OfGroups (g ∷ gs) (k, h) (mg, m) =
        let (op, e, (i, ids), one) = assemble_operation-OfGroup g k mg in
        let (ops, es, (is, all_ids, ones)) = assemble_groups-OfGroups gs h m in
        (op ∷ ops, rw (e, es), (rw (i, is), λ id. rw (ids id, all_ids id), (one, ones)))

  plain_keys :
      (events : List (PreparedEvent F Payload))
      → All IsSound events
      → All (HasPlainKey texts) events
  plain_keys [] h = tt
  plain_keys (e ∷ events) (s, h) = (s.0.0, plain_keys events h)

  -- Events whose subscription, resource, operation name and correlation have no bar, and whose
  -- moments name a time zone, always assemble. No two operations have the same identity. Each
  -- operation is that of one of the events, and each of its ids is the id of an event with the same
  -- subscription, resource and operation name as that one, in any case of letters, and the same
  -- correlation, or, where neither has one, the same id. The ids of all operations are exactly those
  -- of the events, without the empty one.
  pub assemble-lossless :
      (events : List (PreparedEvent F Payload))
      → All IsSound events
      → (ops : List (Operation F Payload)) × (assemble texts events ≡ some ops)
        × (distinct (map (λ (op : Operation F Payload). op.operation_identity) ops) ≡ true)
        × All (IsOneOf events) ops
        × ((id : String)
            → any (λ (op : Operation F Payload). contains op.all_event_ids id) ops
              ≡ any (names texts id) events)
  unfolding assemble
  assemble-lossless events sound =
      let latest = dedupe texts events [] in
      let gs = group_events texts latest [] in
      let (groups, apart) = group_events-IsGrouped texts latest [] (tt, refl) in
      let members =
        All-group_events texts (λ e. Memᴰ e events) latest []
          (All-dedupe texts (λ e. Memᴰ e events) events [] (every_member events events (λ e m. m))
            tt)
          tt in
      let (ops, e, (identities, ids, ones)) =
        assemble_groups-OfGroups events sound gs groups members in
      (
        ops,
        e,
        ap distinct identities ∙ apart,
        ones,
        λ id.
            ids id
            ∙ (any-group_events texts id latest []
                ∙ (or_false (any (λ kv. names texts id kv.1) latest)
                    ∙ (any-dedupe texts id events [] (plain_keys events sound) tt
                        ∙ or_false (any (names texts id) events)))),
      )
