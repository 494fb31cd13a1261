-- ===== src/Scheduler/Dispatcher/Gate/Answers.antt =====
-- What the gate of services/data_collection/dispatcher.py, `scope_busy`, answers and leaves.
use text.Mathlib.Text.{starts_with}
use az_capa.Prelude.{
  ℕ, arith, ◌||◌, ◌⊎◌, List, [], ◌∷◌, contains, str_eq_iff, String, ◌≡◌, refl, sym, ap, ◌∙◌, Bool,
  true, false, Option, none, some, truthy, if◌then◌else◌, Bool-cases, Option-cases, inl, inr,
  str_eq,
}
use az_capa.Table.{Key, key_eq, key_eq_refl, key_eq_iff, Table, row, IsTable}
use az_capa.Scheduler.StateStore.{StateRow, merge_state, state_key, get, close_run}
use az_capa.Scheduler.StateStore.Rows.{is_busy, is_busy-clear_active, row-clear_active, cleared_row}
use az_capa.Scheduler.Dispatcher.Effects.{
  Result, returned, raised, RunStatus, is_terminal, Env, World, Result-cases, next_call,
}
use az_capa.Scheduler.Dispatcher.Gate.{
  is_over, is_placeholder, active_of, instance_busy, scope_busy, reconcile_terminal,
  outcome_from_status,
}

pub truthy-active :
    (t : Table StateRow) (p : String) (s : t.Store)
    → truthy (active_of (get t p s)) ≡ is_busy (row t (state_key p) s)
unfolding get
truthy-active t p s = elim (Option-cases (row t (state_key p) s)) [
  | inl absent ↦ rw (absent, get)
  | inr (e, present) ↦ rw (present, get)
]

-- The moment of the last dispatch.
abbrev pub dispatched_row : Option StateRow → Option ℕ
dispatched_row none = none
dispatched_row (some e) = e.last_dispatched_at

abbrev pub active_row : Option StateRow → Option String
active_row none = none
active_row (some e) = e.active_instance_id

active_of-get :
    (t : Table StateRow) (p : String) (s : t.Store)
    → active_row (row t (state_key p) s) ≡ active_of (get t p s)
unfolding get
active_of-get t p s = elim (Option-cases (row t (state_key p) s)) [
  | inl absent ↦ rw (absent, get)
  | inr (e, present) ↦ rw (present, get)
]

dispatched_row-cleared :
    (outcome : Option String) (at : Option ℕ) (r : Option StateRow)
    → dispatched_row (cleared_row outcome at r) ≡ dispatched_row r
dispatched_row-cleared outcome at none = refl
dispatched_row-cleared outcome at (some e) = refl

-- The runtime statuses of a run that has ended.
abbrev pub final_statuses : List String
final_statuses = "Completed" ∷ "Failed" ∷ "Terminated" ∷ "Canceled" ∷ []

final-is_terminal :
    {F : Type 0} (status : RunStatus F)
    → contains final_statuses status.runtime_status ≡ is_terminal status
final-is_terminal status =
    str_eq_flip status.runtime_status "Completed" "Failed" "Terminated" "Canceled"
  where
    flip : (a b : String) → str_eq a b ≡ str_eq b a
    flip a b = ground (arith, str_eq_iff a b, str_eq_iff b a)

    str_eq_flip :
        (s a b c d : String)
        → (str_eq a s || (str_eq b s || (str_eq c s || (str_eq d s || false))))
          ≡ (str_eq s a || (str_eq s b || (str_eq s c || str_eq s d)))
    str_eq_flip s a b c d = ground (arith, flip a s, flip b s, flip c s, flip d s)

module _ (env : Env) where
  abbrev pub state_row : String → World env → Option StateRow
  state_row p w = row env.states (state_key p) w.state

  -- The other pipelines' rows, the settings and the launches are as before.
  pub record Leaves (p : String) (w w' : World env) : Type 0 where
    pub others :
        (j : Key)
        → row env.states j w'.state
          ≡ (if key_eq (state_key p) j then state_row p w' else row env.states j w.state)
    pub dispatched : dispatched_row (state_row p w') ≡ dispatched_row (state_row p w)
    pub config : w'.config ≡ w.config
    pub launches : w'.launches ≡ w.launches

  -- An answer says whether the row is busy now. `true` leaves the tables as they were, and so does
  -- an exception.
  abbrev pub Framed : String → World env → Result Bool × World env → Type 0
  Framed p w (returned true, w') =
      Leaves p w w'
      × (is_busy (state_row p w') ≡ true)
      × (w'.state ≡ w.state)
      × (w'.history ≡ w.history)
  Framed p w (returned false, w') = Leaves p w w' × (is_busy (state_row p w') ≡ false)
  Framed p w (raised e, w') = Leaves p w w' × (w'.state ≡ w.state) × (w'.history ≡ w.history)

  -- What the client answers for the active instance: `none` for no such run.
  abbrev Finds : World env → String → Option (RunStatus env.rt.Float) → Type 0
  Finds w active status = env.get_status w.calls active ≡ returned status

  -- The reason of each answer, in terms of the row that the gate finds and of the client's answer.
  abbrev pub Verdict : String → World env → Result Bool → Type 0
  Verdict p w (returned true) =
      (active : String) × (active_row (state_row p w) ≡ some active)
      × ((starts_with active "pending:" ≡ true)
          ⊎ ((status : RunStatus env.rt.Float) × Finds w active (some status)
              × (contains final_statuses status.runtime_status ≡ false)))
  Verdict p w (returned false) =
      (is_busy (state_row p w) ≡ false)
      ⊎ ((active : String) × (active_row (state_row p w) ≡ some active)
          × (starts_with active "pending:" ≡ false)
          × (Finds w active none
              ⊎ ((status : RunStatus env.rt.Float) × Finds w active (some status)
                  × (contains final_statuses status.runtime_status ≡ true))))
  Verdict p w (raised e) =
      (active : String) × (active_row (state_row p w) ≡ some active)
      × (env.get_status w.calls active ≡ raised e)

  abbrev pub Answers : String → World env → Result Bool × World env → Type 0
  Answers p w x = Framed p w x × Verdict p w x.0

  framed :
      (p : String) (w w' : World env)
      → ((j : Key)
          → key_eq (state_key p) j ≡ false
          → row env.states j w'.state ≡ row env.states j w.state)
      → (j : Key)
      → row env.states j w'.state
        ≡ (if key_eq (state_key p) j then state_row p w' else row env.states j w.state)
  framed p w w' others j = elim (Bool-cases (key_eq (state_key p) j)) [
    | inl same ↦
        rw same
          (ap (λ (k : Key). row env.states k w'.state) (sym ((key_eq_iff (state_key p) j).0 same)))
    | inr other ↦ rw other (others j other)
  ]

  module _ (laws : IsTable merge_state env.states) where
    pub reconcile_terminal-Leaves :
        (p id : String) (status : Option (RunStatus env.rt.Float)) (w : World env)
        → Leaves p w (reconcile_terminal env p id status w).1
          × (is_busy (state_row p (reconcile_terminal env p id status w).1) ≡ false)
    unfolding reconcile_terminal close_run
    reconcile_terminal-Leaves p id status w = (
      record {
        others = framed p w (reconcile_terminal env p id status w).1 (λ j ne.
            row-clear_active env.states laws p (some (outcome_from_status status))
              (some (env.clock w.calls)) j w.state
            ∙ rw ne);
        dispatched =
            rw
              (
                row-clear_active env.states laws p (some (outcome_from_status status))
                    (some (env.clock w.calls)) (state_key p) w.state,
                key_eq_refl (state_key p),
              )
              (dispatched_row-cleared (some (outcome_from_status status)) (some (env.clock w.calls))
                (state_row p w));
        config = refl;
        launches = refl;
      },
      is_busy-clear_active env.states laws p (some (outcome_from_status status))
          (some (env.clock w.calls)) w.state,
    )

    stays :
        (p : String) (w w' : World env)
        → w'.state ≡ w.state
        → w'.config ≡ w.config
        → w'.launches ≡ w.launches
        → Leaves p w w'
    stays p w w' state config launches = record {
      others = framed p w w' (λ j _. ap (λ (s : env.states.Store). row env.states j s) state);
      dispatched =
          ap (λ (s : env.states.Store). dispatched_row (row env.states (state_key p) s)) state;
      config = config;
      launches = launches;
    }

    after_call : (p : String) (w w' : World env) → Leaves p (next_call env w) w' → Leaves p w w'
    after_call p w w' l = record {
      others = l.others;
      dispatched = l.dispatched;
      config = l.config;
      launches = l.launches;
    }

    -- A status that is over, or not, as a verdict.
    over-Verdict :
        (p active : String) (w : World env) (status : Option (RunStatus env.rt.Float))
        → active_row (state_row p w) ≡ some active
        → starts_with active "pending:" ≡ false
        → Finds w active status
        → is_over status ≡ true
        → Verdict p w (returned false)
    over-Verdict p active w none a real found over = inr (active, a, real, inl found)
    over-Verdict p active w (some status) a real found over =
        inr (active, a, real, inr (status, found, final-is_terminal status ∙ over))

    live-Verdict :
        (p active : String) (w : World env) (status : Option (RunStatus env.rt.Float))
        → active_row (state_row p w) ≡ some active
        → Finds w active status
        → is_over status ≡ false
        → Verdict p w (returned true)
    live-Verdict p active w none a found live = absurd (cc live)
    live-Verdict p active w (some status) a found live =
        (active, a, inr (status, found, final-is_terminal status ∙ live))

    instance_busy-Answers :
        (p : String) (w : World env) (o : Option String)
        → truthy o ≡ is_busy (state_row p w)
        → active_row (state_row p w) ≡ o
        → Answers p w (instance_busy env p o w)
    unfolding instance_busy
    instance_busy-Answers p w none h a = ((stays p w w refl refl refl, sym h), inl (sym h))
    instance_busy-Answers p w (some active) h a = elim (Bool-cases (str_eq active "")) [
      | inl empty ↦
          rw empty ((stays p w w refl refl refl, sym h ∙ rw empty), inl (sym h ∙ rw empty))
      | inr named ↦ elim (Bool-cases (is_placeholder active)) [
        | inl pending ↦
            rw (named, pending)
              ((stays p w w refl refl refl, sym h ∙ rw named, refl, refl), (active, a, inl pending))
        | inr real ↦ elim (Result-cases (env.get_status w.calls active)) [
          | inl (status, found) ↦ elim (Bool-cases (is_over status)) [
            | inl over ↦
                let (leaves, free) = reconcile_terminal-Leaves p active status (next_call env w) in
                rw (named, real, found, over)
                  (
                    (after_call p w _ leaves, free),
                    over-Verdict p active w status a real found over,
                  )
            | inr live ↦
                rw (named, real, found, live)
                  (
                    (stays p w (next_call env w) refl refl refl, sym h ∙ rw named, refl, refl),
                    live-Verdict p active w status a found live,
                  )
          ]
          | inr (e, failed) ↦
              rw (named, real, failed)
                ((stays p w (next_call env w) refl refl refl, refl, refl), (active, a, failed))
        ]
      ]
    ]

    -- The gate finds a scope busy exactly if its row holds a placeholder, or an instance for which
    -- the client answers a status that is not final. It finds it free if the row is not busy, or
    -- holds an instance that the client does not know or whose status is final, which it clears from
    -- the row. Its exceptions are the client's. After an answer the row is busy exactly if the
    -- answer is that the scope is; that answer and an exception leave the tables as they were, and
    -- no answer changes another pipeline's row, the settings or the launches.
    pub scope_busy-Answers : (p : String) (w : World env) → Answers p w (scope_busy env p w)
    unfolding scope_busy
    scope_busy-Answers p w =
        instance_busy-Answers p w (active_of (get env.states p w.state))
          (truthy-active env.states p w.state) (active_of-get env.states p w.state)

    pub scope_busy-Framed : (p : String) (w : World env) → Framed p w (scope_busy env p w)
    scope_busy-Framed p w = (scope_busy-Answers p w).0
