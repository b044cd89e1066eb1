-- ===== src/Manager/Cancel.antt =====
-- What `cancel` guarantees.
use agent_task_platform.Prelude.{
  subst, Bool-cases, ℕ, zero, suc, String, ◌≡◌, refl, sym, ◌∙◌, ap, true, false, some, List, [],
  ◌∷◌, arith, inl, inr, if◌then◌else◌, contains, Option-cases, string_eq, eq_iff,
}
use agent_task_platform.Domain.Status.{RunStatus, run_status_eq, run_status_beq_iff}
use agent_task_platform.Domain.Lifecycle.{is_terminal}
use agent_task_platform.Domain.Entities.{AgentRun}
use agent_task_platform.Table.{holds, find-key}
use agent_task_platform.Store.State.{Store, RunsUnique, run_key}
use agent_task_platform.Store.Runs
use agent_task_platform.Store.Runs.{update_if_current, is_current}
use agent_task_platform.Store.Runs.Update.{
  update_if_current_effect, update_if_current-RunsUnique, stamped,
}
use agent_task_platform.Store.Runs.Keeping.{status_of, status_of-update_if_current, row_status}
use agent_task_platform.World.{World, Result, ok, run_in}
use agent_task_platform.Manager.Cancellation.{
  Swap, settled, swapped, contended, missing, try_cancel, canceled, expect_status, set_event,
  children, cancel_each, cancel, after_swap,
}
use agent_task_platform.Manager.{with_store}

abbrev C : RunStatus
C = RunStatus.canceled

abbrev pub Holds : String → World → Type 0
Holds k w = status_of k w.store ≡ some C

-- A swap that answers true has written the row.
swap_writes :
    (run_id : String) (now : ℕ) (row : AgentRun) (s : Store)
    → RunsUnique s
    → row.run_id ≡ run_id
    → let swap = update_if_current (canceled now row) (expect_status row.status) s in
      swap.0 ≡ true → status_of run_id swap.1 ≡ some C
unfolding canceled
swap_writes run_id now row s u key done =
    let run = canceled now row in
    let e = expect_status row.status in
    let (answer, stored, _) = update_if_current_effect run e s u in
    ap (λ k. status_of k (update_if_current run e s).1) (sym key)
    ∙ ap row_status (
        stored
        ∙ ap (λ c. if c then some (stamped run s) else Runs.get run.run_id s) (sym answer ∙ done))

module _ (other : World → World) where
  abbrev SwapEnds : String → Swap → Type 0
  SwapEnds k (settled run w) =
      (is_terminal run.status ≡ true) × (status_of k w.store ≡ some run.status)
  SwapEnds k (swapped run w) = (run.status ≡ C) × Holds k w
  SwapEnds k (contended w) = Unit {0}
  SwapEnds k (missing w) = Unit {0}

  module _ (unique : (w : World) → RunsUnique w.store → RunsUnique (other w).store) where
    try_cancel-ends :
        (tries : ℕ) (run_id : String) (w : World)
        → RunsUnique w.store
        → SwapEnds run_id (try_cancel tries other run_id w)
    unfolding try_cancel
    try_cancel-ends zero run_id w u = tt
    try_cancel-ends (suc tries) run_id w u = elim (Option-cases (run_in run_id w)) [
      | inl e ↦ rw (e, try_cancel) tt
      | inr (run, e) ↦ elim (Bool-cases (is_terminal run.status)) [
        | inl ended ↦ rw (e, ended, try_cancel) (ended, ap row_status e)
        | inr live ↦
            let swap =
              update_if_current (canceled w.store.clock run) (expect_status run.status)
                (other w).store in
            elim (Bool-cases swap.0) [
              | inl done ↦
                  rw (e, live, done, try_cancel)
                    (
                      unfold canceled in refl,
                      swap_writes run_id w.store.clock run (other w).store (unique w u)
                          (find-key run_key run_id w.store.runs run e) done,
                    )
              | inr lost ↦
                  rw (e, live, lost, try_cancel)
                    (try_cancel-ends tries run_id (with_store swap.1 (other w)) (
                      update_if_current-RunsUnique (canceled w.store.clock run)
                        (expect_status run.status) (other w).store (unique w u)))
            ]
      ]
    ]

  abbrev SwapHolds : String → Swap → Type 0
  SwapHolds k (settled run w) = Holds k w
  SwapHolds k (swapped run w) = Holds k w
  SwapHolds k (contended w) = Holds k w
  SwapHolds k (missing w) = Holds k w

  module _ (k : String) (keep : (w : World) → Holds k w → Holds k (other w)) where
    try_cancel-keeps :
        (tries : ℕ) (run_id : String) (w : World)
        → Holds k w
        → SwapHolds k (try_cancel tries other run_id w)
    unfolding try_cancel canceled
    try_cancel-keeps zero run_id w h = h
    try_cancel-keeps (suc tries) run_id w h = elim (Option-cases (run_in run_id w)) [
      | inl e ↦ rw (e, try_cancel) h
      | inr (run, e) ↦
          let s =
            (update_if_current (canceled w.store.clock run) (expect_status run.status)
              (other w).store).1 in
          let h1 : Holds k (with_store s (other w)) =
            status_of-update_if_current (canceled w.store.clock run) (expect_status run.status)
              (other w).store k C (λ _. unfold canceled in refl) (keep w h) in
          rw (e, try_cancel)
            (ground (arith, h, h1, try_cancel-keeps tries run_id (with_store s (other w)) h1))
    ]

    set_event-keeps : (run_id : String) (w : World) → Holds k w → Holds k (set_event run_id w)
    set_event-keeps run_id w h = ground arith

    cancel_each-keeps :
        (cancel_child : String → World → Result AgentRun × World)
        → ((c : String) (w : World) → Holds k w → Holds k (cancel_child c w).1)
        → (cs : List String) (w : World) → Holds k w
        → Holds k (cancel_each cancel_child cs w)
    unfolding cancel_each
    cancel_each-keeps child step [] w h = h
    cancel_each-keeps child step (c ∷ cs) w h =
        cancel_each-keeps child step cs (child c w).1 (step c w h)

    pub cancel-keeps :
        (depth : ℕ) (run_id : String) (w : World)
        → Holds k w
        → Holds k (cancel depth other run_id w).1
    unfolding cancel
    cancel-keeps zero run_id w h = h
    cancel-keeps (suc depth) run_id w h =
        ended (try_cancel 10 other run_id w) (try_cancel-keeps 10 run_id w h)
          (cancel_each-keeps (cancel depth other) (λ c w' h'. cancel-keeps depth c w' h'))
      where
        ended :
            (sw : Swap)
            → SwapHolds k sw
            → ((cs : List String) (w' : World)
                → Holds k w'
                → Holds k (cancel_each (cancel depth other) cs w'))
            → Holds k (after_swap sw (cancel depth other) run_id).1
        ended (settled run w') h' each = h'
        ended (swapped run w') h' each =
            each (children run_id w') (set_event run_id w') (set_event-keeps run_id w' h')
        ended (contended w') h' each = h'
        ended (missing w') h' each = h'

-- A cancellation that returns a run returns one in a terminal status, and the row of the run has that
-- status when the cancellation ends: the run was terminal already, or its row is CANCELED now. Other
-- tasks may interfere between the statements, as long as they keep the keys of the runs unique and
-- keep this run's row CANCELED once it is.
pub cancel_returns_terminal :
    (depth : ℕ) (other : World → World) (run_id : String) (w : World) (run : AgentRun)
    → ((v : World) → RunsUnique v.store → RunsUnique (other v).store)
    → ((v : World) → Holds run_id v → Holds run_id (other v))
    → RunsUnique w.store
    → (cancel depth other run_id w).0 ≡ ok run
    → (is_terminal run.status ≡ true)
      × (status_of run_id (cancel depth other run_id w).1.store ≡ some run.status)
unfolding cancel
cancel_returns_terminal zero other run_id w run unique keep u e = cc
cancel_returns_terminal (suc depth) other run_id w run unique keep u e =
    ended (try_cancel 10 other run_id w) (try_cancel-ends other unique 10 run_id w u) e
  where
    is_ok : (a : AgentRun) → ok a ≡ ok run → a ≡ run
    is_ok a g = cc

    ended :
        (sw : Swap)
        → SwapEnds other run_id sw
        → (after_swap sw (cancel depth other) run_id).0 ≡ ok run
        → (is_terminal run.status ≡ true)
          × (status_of run_id (after_swap sw (cancel depth other) run_id).1.store ≡ some run.status)
    ended (settled r w') h g =
        subst (λ a. (is_terminal a.status ≡ true) × (status_of run_id w'.store ≡ some a.status))
          (is_ok r g) h
    ended (swapped r w') h g = (
      ap (λ a. is_terminal a.status) (sym (is_ok r g)) ∙ ap is_terminal h.0,
      cancel_each-keeps other run_id keep (cancel depth other)
            (λ c v. cancel-keeps other run_id keep depth c v) (children run_id w')
            (set_event run_id w') (set_event-keeps other run_id keep run_id w' h.1)
          ∙ ap some (sym h.0 ∙ ap (λ a. a.status) (is_ok r g)),
    )
    ended (contended w') h g = cc
    ended (missing w') h g = cc

is_current_unchanged :
    (now : ℕ) (row : AgentRun)
    → is_current (canceled now row).run_id (expect_status row.status) row ≡ true
unfolding is_current canceled contains
is_current_unchanged now row =
    ground (arith, eq_iff row.run_id row.run_id, run_status_beq_iff row.status row.status)

module _ (run_id : String) (w : World) (row : AgentRun) (u : RunsUnique w.store)
    (found : run_in run_id w ≡ some row) where
  abbrev after : Store
  after = (update_if_current (canceled w.store.clock row) (expect_status row.status) w.store).1

  key : row.run_id ≡ run_id
  key = find-key run_key run_id w.store.runs row found

  found_by_key : Runs.get (canceled w.store.clock row).run_id w.store ≡ some row
  unfolding canceled
  found_by_key = ap (λ k. Runs.get k w.store) key ∙ found

  swap_done :
      (update_if_current (canceled w.store.clock row) (expect_status row.status) w.store).0 ≡ true
  swap_done =
      (update_if_current_effect (canceled w.store.clock row) (expect_status row.status) w.store u).0
      ∙ ap (holds (is_current (canceled w.store.clock row).run_id (expect_status row.status)))
          found_by_key
      ∙ is_current_unchanged w.store.clock row

  swap_row : status_of run_id after ≡ some C
  unfolding canceled
  swap_row =
      ap (λ k. status_of k after) (sym key)
      ∙ ap row_status
          (update_if_current_effect (canceled w.store.clock row) (expect_status row.status) w.store
            u).1
      ∙ ap
          (λ c. row_status (
            if c
            then some (stamped (canceled w.store.clock row) w.store)
            else Runs.get row.run_id w.store))
          (ap (holds (is_current (canceled w.store.clock row).run_id (expect_status row.status)))
              found_by_key
            ∙ is_current_unchanged w.store.clock row)

  abbrev swapped_world : World
  swapped_world = with_store after w

  try_cancel_swaps :
      (tries : ℕ)
      → is_terminal row.status ≡ false
      → try_cancel (suc tries) (λ w'. w') run_id w
        ≡ swapped (stamped (canceled w.store.clock row) w.store) (with_store after w)
  unfolding try_cancel
  try_cancel_swaps tries live = rw (found, live, swap_done, try_cancel) refl

-- The cancellation of a run that is not terminal, with nobody interfering: it returns the run as
-- CANCELED, and the row is CANCELED when its children have been canceled too.
pub cancel_takes_effect :
    (depth : ℕ) (run_id : String) (w : World) (row : AgentRun)
    → RunsUnique w.store
    → run_in run_id w ≡ some row
    → is_terminal row.status ≡ false
    → let after = cancel (suc depth) (λ w'. w') run_id w in
      (status_of run_id after.1.store ≡ some RunStatus.canceled)
      × (after.0 ≡ ok (stamped (canceled w.store.clock row) w.store))
unfolding cancel
cancel_takes_effect depth run_id w row u found live =
    rw (try_cancel_swaps run_id w row u found 9 live) (
      cancel_each-keeps (λ w'. w') run_id (λ w' h. h) (cancel depth (λ w'. w'))
          (λ c w' h. cancel-keeps (λ v. v) run_id (λ v g. g) depth c w' h)
          (children run_id (swapped_world run_id w row u found))
          (set_event run_id (swapped_world run_id w row u found))
          (set_event-keeps (λ v. v) run_id (λ v g. g) run_id (swapped_world run_id w row u found)
            (swap_row run_id w row u found)),
      refl,
    )
