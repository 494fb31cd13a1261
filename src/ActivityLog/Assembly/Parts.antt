-- ===== src/ActivityLog/Assembly/Parts.antt =====
-- What two events of one operation have in common, `identity_string` of
-- services/activity_log/assembly.py.
use Prim.Native.Char.{code}
use Prim.Native.String
use text.Mathlib.TextLemmas.{nil-append, cons-append, append_assoc}
use az_capa.Prelude.{
  String, ◌≡◌, ◌⊎◌, refl, ap, sym, ◌∙◌, true, false, get_or, truthy, if◌then◌else◌, arith,
  Bool-cases, inl, inr, ◌==◌,
}
use az_capa.ActivityLog.Assembly.Events.{PreparedEvent, Texts, identity_string}
use az_capa.ActivityLog.Assembly.Groups.{after_bar, has_bar, after_bar-append, bar-append}

-- The text before the first bar.
abbrev before_bar : String → String
before_bar String.[] = ""
before_bar (String.◌∷◌ c s) =
    let rest = before_bar s in if code c == b'|' then "" else String.◌∷◌ c rest

before_bar-append :
    (s t : String) → has_bar s ≡ false → before_bar (String.◌++◌ s (String.◌++◌ "|" t)) ≡ s
before_bar-append String.[] t h = rw (nil-append (String.◌++◌ "|" t), bar-append t)
before_bar-append (String.◌∷◌ c s) t h =
    let no : (code c == b'|') ≡ false = ground arith in
    rw (cons-append c s (String.◌++◌ "|" t), no)
      (ap (String.◌∷◌ c) (before_bar-append s t (ground arith)))

has_bar-append : (s t : String) → has_bar (String.◌++◌ s (String.◌++◌ "|" t)) ≡ true
has_bar-append String.[] t = rw (nil-append (String.◌++◌ "|" t), bar-append t)
has_bar-append (String.◌∷◌ c s) t =
    rw (cons-append c s (String.◌++◌ "|" t), has_bar-append s t) (ground arith)

-- The two texts round a bar, of which the first has none.
parted :
    (s s' t t' : String)
    → has_bar s ≡ false
    → has_bar s' ≡ false
    → String.◌++◌ s (String.◌++◌ "|" t) ≡ String.◌++◌ s' (String.◌++◌ "|" t')
    → (s ≡ s') × (t ≡ t')
parted s s' t t' h h' e = (
  sym (before_bar-append s t h) ∙ ap before_bar e ∙ before_bar-append s' t' h',
  sym (after_bar-append s t h) ∙ ap after_bar e ∙ after_bar-append s' t' h',
)

unpaired-append :
    (t : String)
    → String.◌++◌ "|unpaired|" t ≡ String.◌++◌ "|" (String.◌++◌ "unpaired" (String.◌++◌ "|" t))
unpaired-append t =
    append_assoc "|" (String.◌++◌ "unpaired" "|") t
    ∙ ap (λ u. String.◌++◌ "|" u) (append_assoc "unpaired" "|" t)

module _ (texts : Texts) {F Payload : Type 0} where
  -- The parts of an identity have no bar.
  abbrev pub IsPlain : PreparedEvent F Payload → Type 0
  IsPlain event =
      (has_bar (texts.lower event.subscription_id) ≡ false)
      × (has_bar (texts.lower (get_or event.resource_id "")) ≡ false)
      × (has_bar (texts.lower event.operation_name) ≡ false)
      × (has_bar (get_or event.correlation_id "") ≡ false)

  -- Two events of one subscription, resource and operation name, in any case of letters, and of
  -- one correlation; without a correlation they are one event.
  abbrev pub SameParts : PreparedEvent F Payload → PreparedEvent F Payload → Type 0
  SameParts e r =
      (texts.lower e.subscription_id ≡ texts.lower r.subscription_id)
      × (texts.lower (get_or e.resource_id "") ≡ texts.lower (get_or r.resource_id ""))
      × (texts.lower e.operation_name ≡ texts.lower r.operation_name)
      × (((truthy e.correlation_id ≡ true)
            × (truthy r.correlation_id ≡ true)
            × (get_or e.correlation_id "" ≡ get_or r.correlation_id ""))
          ⊎ ((truthy e.correlation_id ≡ false)
              × (truthy r.correlation_id ≡ false)
              × (e.event_data_id ≡ r.event_data_id)))

  -- The identity from the third part on.
  abbrev tail_of : PreparedEvent F Payload → String
  tail_of event =
      let operation = texts.lower event.operation_name in
      if truthy event.correlation_id
      then String.◌++◌ (get_or event.correlation_id "") (String.◌++◌ "|" operation)
      else String.◌++◌ "unpaired"
          (String.◌++◌ "|" (String.◌++◌ operation (String.◌++◌ "|" event.event_data_id)))

  identity_string-tail_of :
      (event : PreparedEvent F Payload)
      → identity_string texts event
        ≡ String.◌++◌ (texts.lower event.subscription_id) (
            String.◌++◌ "|" (
              String.◌++◌
                (texts.lower (get_or event.resource_id ""))
                (String.◌++◌ "|" (tail_of event))))
  unfolding identity_string
  identity_string-tail_of event = elim (Bool-cases (truthy event.correlation_id)) [
    | inl paired ↦ rw paired
    | inr lone ↦ rw (
      lone,
      unpaired-append
          (String.◌++◌ (texts.lower event.operation_name) (String.◌++◌ "|" event.event_data_id)),
    )
  ]

  tail_of-SameParts :
      (e r : PreparedEvent F Payload)
      → IsPlain e
      → IsPlain r
      → tail_of e ≡ tail_of r
      → (texts.lower e.operation_name ≡ texts.lower r.operation_name)
        × (((truthy e.correlation_id ≡ true)
              × (truthy r.correlation_id ≡ true)
              × (get_or e.correlation_id "" ≡ get_or r.correlation_id ""))
            ⊎ ((truthy e.correlation_id ≡ false)
                × (truthy r.correlation_id ≡ false)
                × (e.event_data_id ≡ r.event_data_id)))
  tail_of-SameParts e r (_, _, eo, ec) (_, _, ro, rc) same =
      elim (Bool-cases (truthy e.correlation_id)) [
        | inl ep ↦ elim (Bool-cases (truthy r.correlation_id)) [
          | inl rp ↦ let (c, o) = parted _ _ _ _ ec rc (rw (ep, rp) at same) in (o, inl (ep, rp, c))
          | inr rl ↦
              let (_, o) = parted _ _ _ _ ec refl (rw (ep, rl) at same) in
              absurd (
                cc
                  (eo, ap has_bar o, has_bar-append (texts.lower r.operation_name) r.event_data_id))
        ]
        | inr el ↦ elim (Bool-cases (truthy r.correlation_id)) [
          | inl rp ↦
              let (_, o) = parted _ _ _ _ refl rc (rw (el, rp) at same) in
              absurd (
                cc
                  (ro, ap has_bar o, has_bar-append (texts.lower e.operation_name) e.event_data_id))
          | inr rl ↦
              let (_, rest) = parted _ _ _ _ refl refl (rw (el, rl) at same) in
              let (o, id) = parted _ _ _ _ eo ro rest in (o, inr (el, rl, id))
        ]
      ]

  pub identity_string-SameParts :
      (e r : PreparedEvent F Payload)
      → IsPlain e
      → IsPlain r
      → identity_string texts e ≡ identity_string texts r
      → SameParts e r
  identity_string-SameParts e r pe pr same =
      let (s, rest) =
        parted _ _ _ _ pe.0 pr.0
          (sym (identity_string-tail_of e) ∙ same ∙ identity_string-tail_of r) in
      let (i, tails) = parted _ _ _ _ pe.1 pr.1 rest in
      let (o, kind) = tail_of-SameParts e r pe pr tails in (s, i, o, kind)
