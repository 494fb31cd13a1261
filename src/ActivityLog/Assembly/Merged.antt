-- ===== src/ActivityLog/Assembly/Merged.antt =====
-- What deduplication and grouping keep of the ids, and what a group is.
use az_capa.Prelude.{
  String, ◌≡◌, refl, ap, sym, ◌∙◌, true, false, not, ◌&&◌, ◌||◌, List, [], ◌∷◌, str_eq, str_eq_iff,
  str_eq_refl, contains, distinct, map, any, All, arith, Bool-cases, inl, inr,
}
use az_capa.ActivityLog.Assembly.Events.{PreparedEvent, Texts, identity_string}
use az_capa.ActivityLog.Assembly.Operations.{
  event_key, put_event, dedupe, append_event, group_events,
}
use az_capa.ActivityLog.Assembly.Groups.{
  after_bar, has_bar, after_bar-append, any-append, All-append, names, or_swap, or_rotate, or_move,
  or_right_false, or_true, absorb,
}

str_eq_apart : (a b : String) → str_eq a b ≡ false → str_eq b a ≡ false
str_eq_apart a b h = ground (arith, str_eq_iff b a, str_eq_iff a b, str_eq_refl a)

abbrev pub EventGroups : (F Payload : Type 0) → Type 0
EventGroups F Payload = List (String × List (PreparedEvent F Payload))

module _ (texts : Texts) {F Payload : Type 0} where
  -- The id can be read off the key.
  abbrev pub Reads : String × PreparedEvent F Payload → Type 0
  Reads entry = after_bar entry.0 ≡ entry.1.event_data_id

  abbrev pub HasPlainKey : PreparedEvent F Payload → Type 0
  HasPlainKey event = has_bar (texts.lower event.subscription_id) ≡ false

  event_key-Reads :
      (event : PreparedEvent F Payload)
      → HasPlainKey event
      → after_bar (event_key texts event) ≡ event.event_data_id
  event_key-Reads event h =
      after_bar-append (texts.lower event.subscription_id) event.event_data_id h

  put_event-Reads :
      (key : String) (event : PreparedEvent F Payload) (d : List (String × PreparedEvent F Payload))
      → after_bar key ≡ event.event_data_id
      → All Reads d
      → All Reads (put_event texts key event d)
  put_event-Reads key event [] e h = (e, tt)
  put_event-Reads key event ((k, v) ∷ d) e (r, h) = elim (Bool-cases (str_eq k key)) [
    | inl same ↦ rw same (ap after_bar ((str_eq_iff k key).0 same) ∙ e, h)
    | inr other ↦ rw other (r, put_event-Reads key event d e h)
  ]

  any-put_event :
      (id key : String) (event : PreparedEvent F Payload)
      (d : List (String × PreparedEvent F Payload))
      → after_bar key ≡ event.event_data_id
      → All Reads d
      → any (λ kv. names texts id kv.1) (put_event texts key event d)
        ≡ (names texts id event || any (λ kv. names texts id kv.1) d)
  any-put_event id key event [] e h = refl
  any-put_event id key event ((k, v) ∷ d) e (r, h) = elim (Bool-cases (str_eq k key)) [
    | inl same ↦
        let ids : event.event_data_id ≡ v.event_data_id =
          sym e ∙ (sym (ap after_bar ((str_eq_iff k key).0 same)) ∙ r) in
        rw same (
          absorb (names texts id event) (names texts id v) (any (λ kv. names texts id kv.1) d)
            (ap (λ s. not (str_eq id "") && str_eq s id) ids))
    | inr other ↦
        rw (other, any-put_event id key event d e h)
          (or_swap (names texts id v) (names texts id event) (any (λ kv. names texts id kv.1) d))
  ]

  -- Deduplication loses no id.
  pub any-dedupe :
      (id : String) (events : List (PreparedEvent F Payload))
      (d : List (String × PreparedEvent F Payload))
      → All HasPlainKey events
      → All Reads d
      → any (λ kv. names texts id kv.1) (dedupe texts events d)
        ≡ (any (names texts id) events || any (λ kv. names texts id kv.1) d)
  unfolding dedupe
  any-dedupe id [] d p h = refl
  any-dedupe id (event ∷ events) d (q, p) h =
      let e = event_key-Reads event q in
      rw
        (
          any-dedupe id events (put_event texts (event_key texts event) event d) p
              (put_event-Reads (event_key texts event) event d e h),
          any-put_event id (event_key texts event) event d e h,
        )
        (or_rotate (any (names texts id) events) (names texts id event)
          (any (λ kv. names texts id kv.1) d))

  any-append_event :
      (id identity : String) (event : PreparedEvent F Payload) (gs : EventGroups F Payload)
      → any (λ g. any (names texts id) g.1) (append_event texts identity event gs)
        ≡ (names texts id event || any (λ g. any (names texts id) g.1) gs)
  any-append_event id identity event [] = or_right_false (names texts id event)
  any-append_event id identity event ((i, es) ∷ gs) = elim (Bool-cases (str_eq i identity)) [
    | inl same ↦
        rw (same, any-append (names texts id) es (event ∷ []))
          (or_move (any (names texts id) es) (names texts id event)
            (any (λ g. any (names texts id) g.1) gs))
    | inr other ↦
        rw (other, any-append_event id identity event gs)
          (or_swap (any (names texts id) es) (names texts id event)
            (any (λ g. any (names texts id) g.1) gs))
  ]

  pub any-group_events :
      (id : String) (d : List (String × PreparedEvent F Payload)) (gs : EventGroups F Payload)
      → any (λ g. any (names texts id) g.1) (group_events texts d gs)
        ≡ (any (λ kv. names texts id kv.1) d || any (λ g. any (names texts id) g.1) gs)
  unfolding group_events
  any-group_events id [] gs = refl
  any-group_events id ((k, event) ∷ d) gs =
      rw
        (
          any-group_events id d (append_event texts (identity_string texts event) event gs),
          any-append_event id (identity_string texts event) event gs,
        )
        (or_rotate (any (λ kv. names texts id kv.1) d) (names texts id event)
          (any (λ g. any (names texts id) g.1) gs))

  -- A group is not empty and its events have its identity.
  abbrev pub IsGroup : String × List (PreparedEvent F Payload) → Type 0
  IsGroup g = (any (λ e. true) g.1 ≡ true) × All (λ e. identity_string texts e ≡ g.0) g.1

  append_event-IsGroup :
      (event : PreparedEvent F Payload) (gs : EventGroups F Payload)
      → All IsGroup gs
      → All IsGroup (append_event texts (identity_string texts event) event gs)
  append_event-IsGroup event [] h = ((refl, (refl, tt)), tt)
  append_event-IsGroup event ((i, es) ∷ gs) ((some_event, ids), h) =
      elim (Bool-cases (str_eq i (identity_string texts event))) [
        | inl same ↦ rw same (
          (
            any-append (λ e. true) es (event ∷ [])
                ∙ or_true (any (λ (e : PreparedEvent F Payload). true) es),
            All-append (λ e. identity_string texts e ≡ i) es (event ∷ []) ids
                (sym ((str_eq_iff i (identity_string texts event)).0 same), tt),
          ),
          h,
        )
        | inr other ↦ rw other ((some_event, ids), append_event-IsGroup event gs h)
      ]

  contains-append_event :
      (s identity : String) (event : PreparedEvent F Payload) (gs : EventGroups F Payload)
      → contains (map (λ g. g.0) (append_event texts identity event gs)) s
        ≡ (str_eq identity s || contains (map (λ g. g.0) gs) s)
  contains-append_event s identity event [] = refl
  contains-append_event s identity event ((i, es) ∷ gs) = elim (Bool-cases (str_eq i identity)) [
    | inl same ↦ rw same (
        absorb (str_eq i s) (str_eq identity s) (contains (map (λ g. g.0) gs) s)
          (ap (λ t. str_eq t s) ((str_eq_iff i identity).0 same))
        ∙ or_swap (str_eq i s) (str_eq identity s) (contains (map (λ g. g.0) gs) s))
    | inr other ↦
        rw (other, contains-append_event s identity event gs)
          (or_swap (str_eq i s) (str_eq identity s) (contains (map (λ g. g.0) gs) s))
  ]

  append_event-distinct :
      (identity : String) (event : PreparedEvent F Payload) (gs : EventGroups F Payload)
      → distinct (map (λ g. g.0) gs) ≡ true
      → distinct (map (λ g. g.0) (append_event texts identity event gs)) ≡ true
  append_event-distinct identity event [] h = refl
  append_event-distinct identity event ((i, es) ∷ gs) h = elim (Bool-cases (str_eq i identity)) [
    | inl same ↦ rw same h
    | inr other ↦
        let rest = append_event-distinct identity event gs (ground arith) in
        let fresh : contains (map (λ g. g.0) gs) i ≡ false = ground arith in
        let apart : str_eq identity i ≡ false = str_eq_apart i identity other in
        rw (other, contains-append_event i identity event gs, apart, fresh) rest
  ]

  -- Each group is one identity's, and no identity has two.
  abbrev pub IsGrouped : EventGroups F Payload → Type 0
  IsGrouped gs = All IsGroup gs × (distinct (map (λ g. g.0) gs) ≡ true)

  pub group_events-IsGrouped :
      (d : List (String × PreparedEvent F Payload)) (gs : EventGroups F Payload)
      → IsGrouped gs
      → IsGrouped (group_events texts d gs)
  unfolding group_events
  group_events-IsGrouped [] gs h = h
  group_events-IsGrouped ((k, event) ∷ d) gs (h, e) =
      group_events-IsGrouped d (append_event texts (identity_string texts event) event gs) (
        append_event-IsGroup event gs h,
        append_event-distinct (identity_string texts event) event gs e,
      )

  -- What holds of the events holds of those in the groups.
  All-put_event :
      (P : PreparedEvent F Payload → Type 0) (key : String) (event : PreparedEvent F Payload)
      (d : List (String × PreparedEvent F Payload))
      → P event
      → All (λ kv. P kv.1) d
      → All (λ kv. P kv.1) (put_event texts key event d)
  All-put_event P key event [] p h = (p, tt)
  All-put_event P key event ((k, v) ∷ d) p (q, h) = elim (Bool-cases (str_eq k key)) [
    | inl same ↦ rw same (p, h)
    | inr other ↦ rw other (q, All-put_event P key event d p h)
  ]

  pub All-dedupe :
      (P : PreparedEvent F Payload → Type 0) (events : List (PreparedEvent F Payload))
      (d : List (String × PreparedEvent F Payload))
      → All P events
      → All (λ kv. P kv.1) d
      → All (λ kv. P kv.1) (dedupe texts events d)
  unfolding dedupe
  All-dedupe P [] d h k = k
  All-dedupe P (event ∷ events) d (p, h) k =
      All-dedupe P events (put_event texts (event_key texts event) event d) h
        (All-put_event P (event_key texts event) event d p k)

  All-append_event :
      (P : PreparedEvent F Payload → Type 0) (identity : String) (event : PreparedEvent F Payload)
      (gs : EventGroups F Payload)
      → P event
      → All (λ g. All P g.1) gs
      → All (λ g. All P g.1) (append_event texts identity event gs)
  All-append_event P identity event [] p h = ((p, tt), tt)
  All-append_event P identity event ((i, es) ∷ gs) p (q, h) =
      elim (Bool-cases (str_eq i identity)) [
        | inl same ↦ rw same (All-append P es (event ∷ []) q (p, tt), h)
        | inr other ↦ rw other (q, All-append_event P identity event gs p h)
      ]

  pub All-group_events :
      (P : PreparedEvent F Payload → Type 0) (d : List (String × PreparedEvent F Payload))
      (gs : EventGroups F Payload)
      → All (λ kv. P kv.1) d
      → All (λ g. All P g.1) gs
      → All (λ g. All P g.1) (group_events texts d gs)
  unfolding group_events
  All-group_events P [] gs h k = k
  All-group_events P ((key, event) ∷ d) gs (p, h) k =
      All-group_events P d (append_event texts (identity_string texts event) event gs) h
        (All-append_event P (identity_string texts event) event gs p k)
