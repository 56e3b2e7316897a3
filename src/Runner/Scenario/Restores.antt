-- ===== src/Runner/Scenario/Restores.antt =====
-- What a whole run of `RunScenario`, its cleanup included, leaves of a registrar.
use epp_test.Base.{
  ◌≡◌, refl, sym, ap, ◌∙◌, List, [], ◌∷◌, ◌++◌, append-nil, append_assoc, Bool-cases, inl, inr, All,
}
use epp_test.Base.Text.{Bytes}
use epp_test.Registrar.{Registrar}
use epp_test.Runner.Scenario.{
  Cleanup, Step, Scenario, Outside, RunState, run_step, run_steps, run_scenario, run_cleanup, clean,
}
use epp_test.Runner.Scenario.Teardown.{
  clean_all, newest_first, clean_all-append, run_cleanup-newest_first,
}

newest_first-append :
    (xs ys : List Cleanup) → newest_first (xs ++ ys) ≡ newest_first ys ++ newest_first xs
unfolding newest_first
newest_first-append [] ys = sym (append-nil (newest_first ys))
newest_first-append (x ∷ xs) ys =
    ap (λ t. t ++ (x ∷ [])) (newest_first-append xs ys)
    ∙ append_assoc (newest_first ys) (newest_first xs) (x ∷ [])

-- `view` is what is observed of a registrar's state: deletions that begin in states that look alike
-- end in states that look alike.
module _ (R : Registrar) {X : Type 0} (view : R.State → X) where
  abbrev pub Respects : Type 0
  Respects =
      (c : Cleanup) (s t : R.State) → view s ≡ view t → view (clean R c s) ≡ view (clean R c t)

  clean_all-Respects :
      Respects
      → (cs : List Cleanup) (s t : R.State) → view s ≡ view t
      → view (clean_all R cs s) ≡ view (clean_all R cs t)
  unfolding clean_all
  clean_all-Respects respects [] s t same = same
  clean_all-Respects respects (c ∷ cs) s t same =
      clean_all-Respects respects cs (clean R c s) (clean R c t) (respects c s t same)

  module _ (outside : Outside) (scenario : Scenario) (prefix : Bytes) where
    -- The step, whenever it runs, registers deletions that undo what it did.
    abbrev pub IsUndone : Step → Type 0
    IsUndone step =
        (r : RunState R.State)
        → (added : List Cleanup) × ((run_step R outside scenario prefix step r).1.cleanups
            ≡ r.cleanups ++ added)
          × (view (
                clean_all R (newest_first added)
                  (run_step R outside scenario prefix step r).1.session)
              ≡ view r.session)

    run_step-undone :
        Respects
        → (step : Step) → IsUndone step
        → (r : RunState R.State)
        → let r' = (run_step R outside scenario prefix step r).1 in
          view (clean_all R (newest_first r'.cleanups) r'.session)
          ≡ view (clean_all R (newest_first r.cleanups) r.session)
    run_step-undone respects step undone r =
        let r' = (run_step R outside scenario prefix step r).1 in
        let (added, registered, back) = undone r in
        ap (λ cs. view (clean_all R cs r'.session))
          (ap newest_first registered ∙ newest_first-append r.cleanups added)
        ∙ ap view (clean_all-append R (newest_first added) (newest_first r.cleanups) r'.session)
        ∙ clean_all-Respects respects (newest_first r.cleanups) _ _ back

    run_steps-undone :
        Respects
        → (steps : List Step) → All IsUndone steps
        → (r : RunState R.State)
        → let r' = (run_steps R outside scenario prefix steps r).1 in
          view (clean_all R (newest_first r'.cleanups) r'.session)
          ≡ view (clean_all R (newest_first r.cleanups) r.session)
    unfolding run_steps
    run_steps-undone respects [] undone r = refl
    run_steps-undone respects (step ∷ steps) (one, more) r =
        let r' = (run_step R outside scenario prefix step r).1 in
        let here = run_step-undone respects step one r in
        elim (Bool-cases (run_step R outside scenario prefix step r).0) [
          | inl passed ↦ rw passed (run_steps-undone respects steps more r' ∙ here)
          | inr failed ↦ rw failed here
        ]

    -- If deletions that begin in states that look alike end in states that look alike, and each
    -- step of a scenario, whenever it runs, registers deletions that undo what it did, then a run
    -- of the whole scenario with its cleanup leaves the registrar looking as it was before, whether
    -- the scenario passes or fails in the middle.
    pub run_cleanup-restores :
        Respects
        → All IsUndone scenario.steps
        → (file : Bytes) (s : R.State)
        → view (run_cleanup R (run_scenario R outside scenario file prefix s).1) ≡ view s
    unfolding run_scenario newest_first clean_all
    run_cleanup-restores respects undone file s =
        ap view (run_cleanup-newest_first R (run_scenario R outside scenario file prefix s).1)
        ∙ run_steps-undone respects scenario.steps undone
            (record { session = s; captured = []; cleanups = []; results = [] })
