-- ===== src/Runner/Scenario/Teardown.antt =====
-- The cleanup of `RunScenario` in pkg/runner/runner.go: the order of its deletions.
use epp_test.Base.{
  ℕ, zero, suc, List, [], ◌∷◌, ◌++◌, ◌≡◌, refl, sym, ap, ◌∙◌, length, get_elem?, none, some,
}
use epp_test.Registrar.{Registrar}
use epp_test.Runner.Scenario.{Cleanup, RunState, clean, clean_from, run_cleanup}

-- The deletions in the order given.
module _ (R : Registrar) where
  open R use {State}

  unfoldable pub clean_all : List Cleanup → State → State
  clean_all [] s = s
  clean_all (c ∷ cs) s = clean_all cs (clean R c s)

-- The stack from its last element to its first.
unfoldable pub newest_first : List Cleanup → List Cleanup
newest_first [] = []
newest_first (c ∷ cs) = newest_first cs ++ (c ∷ [])

module _ (R : Registrar) where
  open R use {State}

  pub clean_all-append :
      (before after : List Cleanup) (s : State)
      → clean_all R (before ++ after) s ≡ clean_all R after (clean_all R before s)
  unfolding clean_all
  clean_all-append [] after s = refl
  clean_all-append (c ∷ before) after s = clean_all-append before after (clean R c s)

  clean_from-cons :
      (n : ℕ) (c : Cleanup) (cs : List Cleanup) (s : State)
      → clean_from R (suc n) (c ∷ cs) s ≡ clean R c (clean_from R n cs s)
  unfolding clean_from
  clean_from-cons zero c cs s = refl
  clean_from-cons (suc n) c cs s =
      clean_from-cons n c cs (elim (get_elem? cs n) [ none ↦ s | some d ↦ clean R d s ])

  clean_from-length :
      (cs : List Cleanup) (s : State)
      → clean_from R (length cs) cs s ≡ clean_all R (newest_first cs) s
  unfolding clean_from clean_all newest_first
  clean_from-length [] s = refl
  clean_from-length (c ∷ cs) s =
      clean_from-cons (length cs) c cs s
      ∙ ap (clean R c) (clean_from-length cs s)
      ∙ sym (clean_all-append (newest_first cs) (c ∷ []) s)

  -- The cleanup deletes every object that the run registered, each once, the newest first.
  pub run_cleanup-newest_first :
      (r : RunState State) → run_cleanup R r ≡ clean_all R (newest_first r.cleanups) r.session
  unfolding run_cleanup
  run_cleanup-newest_first r = clean_from-length r.cleanups r.session
