-- ===== src/Runner/Matrix/Selected.antt =====
-- Which registrars `RunMatrix` of pkg/runner/runner.go runs, and in which order.
use mathlib.Core.List.{Perm}
use mathlib.Core.List.Perm
use epp_test.Base.{
  ◌≡◌, refl, sym, ap, subst, ◌∙◌, Bool, true, false, List, [], ◌∷◌, ◌++◌, map, append-nil,
  append_assoc, Option, Option-cases, Bool-cases, none, some, inl, inr, if◌then◌else◌, arith, All,
}
use epp_test.Base.Text.{Bytes, text_eq, text_eq_iff, text_eq_refl}
use epp_test.Base.Dict.{Dict, lookup, insert, lookup-insert}
use epp_test.Registrar.Value.{text_le}
use epp_test.Runner.Scenario.{Scenario, ScenarioResult, Outside, run_scenario}
use epp_test.Runner.Matrix.{
  Started, place_name, sort_names, matrix_names, append_result, run_subtest, run_names, run_matrix,
}

-- In the order of the texts.
abbrev pub Sorted : List Bytes → Type 0
Sorted [] = Unit
Sorted (n ∷ []) = Unit
Sorted (n ∷ m ∷ ns) = (text_le n m ≡ true) × Sorted (m ∷ ns)

text_le_total : (a b : Bytes) → text_le a b ≡ false → text_le b a ≡ true
unfolding text_le
text_le_total [] b h = cc
text_le_total (x ∷ a) [] h = refl
text_le_total (x ∷ a) (y ∷ b) h = let rest = text_le_total a b in ground arith

-- The least name may stand in front of a list in which a name was placed.
place_name-Sorted_behind :
    (m n : Bytes) (ns : List Bytes)
    → text_le m n ≡ true
    → Sorted (m ∷ ns)
    → Sorted (m ∷ place_name n ns)
unfolding place_name
place_name-Sorted_behind m n [] le h = (le, tt)
place_name-Sorted_behind m n (k ∷ ns) le (first, h) = elim (Bool-cases (text_le n k)) [
  | inl here ↦ rw here (le, (here, h))
  | inr later ↦ rw later (first, place_name-Sorted_behind k n ns (text_le_total n k later) h)
]

place_name-Sorted : (n : Bytes) (ns : List Bytes) → Sorted ns → Sorted (place_name n ns)
unfolding place_name
place_name-Sorted n [] h = tt
place_name-Sorted n (m ∷ ns) h = elim (Bool-cases (text_le n m)) [
  | inl here ↦ rw here (here, h)
  | inr later ↦ rw later (place_name-Sorted_behind m n ns (text_le_total n m later) h)
]

sort_names-Sorted : (ns : List Bytes) → Sorted (sort_names ns)
unfolding sort_names
sort_names-Sorted [] = tt
sort_names-Sorted (n ∷ ns) = place_name-Sorted n (sort_names ns) (sort_names-Sorted ns)

place_name-Perm : (n : Bytes) (ns : List Bytes) → Perm (place_name n ns) (n ∷ ns)
unfolding place_name
place_name-Perm n [] = Perm.refl (n ∷ [])
place_name-Perm n (m ∷ ns) = elim (Bool-cases (text_le n m)) [
  | inl here ↦ rw here (Perm.refl (n ∷ m ∷ ns))
  | inr later ↦ rw later (Perm.trans (Perm.cons m (place_name-Perm n ns)) (Perm.swap n m ns))
]

sort_names-Perm : (ns : List Bytes) → Perm (sort_names ns) ns
unfolding sort_names
sort_names-Perm [] = Perm.refl []
sort_names-Perm (n ∷ ns) =
    Perm.trans (place_name-Perm n (sort_names ns)) (Perm.cons n (sort_names-Perm ns))

is_known : Option Started → Bool
is_known none = false
is_known (some r) = true

-- The names that a registrar has.
unfoldable pub present : List Bytes → Dict Started → List Bytes
unfolding is_known
present [] regs = []
present (n ∷ ns) regs =
    let rest = present ns regs in if is_known (lookup n regs) then n ∷ rest else rest

-- Every key of a map is there.
present-keys :
    (some_regs regs : Dict Started)
    → ((n : Bytes) → is_known (lookup n some_regs) ≡ true → is_known (lookup n regs) ≡ true)
    → All (λ n. is_known (lookup n regs) ≡ true) (map (λ r. r.0) some_regs)
unfolding is_known lookup
present-keys [] regs h = tt
present-keys ((n, r) ∷ some_regs) regs h = (
  h n (rw (text_eq_refl n) refl),
  present-keys some_regs regs (λ m there.
      h m
        (elim (Bool-cases (text_eq n m)) [ inl same ↦ rw same refl | inr other ↦ rw other there ])),
)

All-place_name :
    (P : Bytes → Type 0) (n : Bytes) (ns : List Bytes) → P n → All P ns → All P (place_name n ns)
unfolding place_name
All-place_name P n [] p h = (p, tt)
All-place_name P n (m ∷ ns) p (q, h) = elim (Bool-cases (text_le n m)) [
  | inl here ↦ rw here (p, (q, h))
  | inr later ↦ rw later (q, All-place_name P n ns p h)
]

All-sort_names : (P : Bytes → Type 0) (ns : List Bytes) → All P ns → All P (sort_names ns)
unfolding sort_names
All-sort_names P [] h = tt
All-sort_names P (n ∷ ns) (p, h) = All-place_name P n (sort_names ns) p (All-sort_names P ns h)

present-All :
    (ns : List Bytes) (regs : Dict Started)
    → All (λ n. is_known (lookup n regs) ≡ true) ns
    → present ns regs ≡ ns
unfolding present
present-All [] regs h = refl
present-All (n ∷ ns) regs (p, h) = rw (p, present-All ns regs h, present) refl

-- The names to run: where the scenario has a matrix, those of its names that a registrar has, in
-- the order of the matrix; without one all keys, each as often as it is there, in the order of the
-- texts.
abbrev pub Selected : List Bytes → Dict Started → List Bytes → Type 0
Selected [] regs names = Sorted names × Perm names (map (λ r. r.0) regs)
Selected (n ∷ ns) regs names = names ≡ present (n ∷ ns) regs

matrix_names-Selected :
    (matrix : List Bytes) (regs : Dict Started)
    → Selected matrix regs (present (matrix_names matrix regs) regs)
unfolding matrix_names
matrix_names-Selected [] regs =
    let keys = map (λ r. r.0) regs in
    let all =
      present-All (sort_names keys) regs
        (All-sort_names _ keys (present-keys regs regs (λ n h. h))) in
    rw all (sort_names-Sorted keys, sort_names-Perm keys)
matrix_names-Selected (n ∷ ns) regs = refl

module _ (outside : Outside) (scenario : Scenario) (file : Bytes) (run_id : Bytes → Bytes) where
  -- A result of the registrar that has the name.
  pub record ResultOf (regs : Dict Started) (n : Bytes) (result : ScenarioResult) : Type 1 where
    pub started : Started
    pub there : lookup n regs ≡ some started
    pub by : result.registrar ≡ started.registrar.name
    pub of_scenario : result.name ≡ scenario.name
    pub of_file : result.file ≡ file

  -- One result for each name, in their order.
  pub data Results (regs : Dict Started) : List Bytes → List ScenarioResult → Type 1 where
    none_left : Results regs [] []
    one_more :
        {n : Bytes} {ns : List Bytes} {r : ScenarioResult} {rs : List ScenarioResult}
        → ResultOf regs n r
        → Results regs ns rs
        → Results regs (n ∷ ns) (r ∷ rs)

  module _ (n : Bytes) (left old : Started) (regs : Dict Started) (found : lookup n regs ≡ some old)
      (same_name : left.registrar.name ≡ old.registrar.name) where
    present-insert : (ns : List Bytes) → present ns (insert n left regs) ≡ present ns regs
    unfolding present is_known
    present-insert [] = refl
    present-insert (m ∷ ns) = elim (Bool-cases (text_eq n m)) [
      | inl same ↦
          let now : lookup m (insert n left regs) ≡ some left =
            lookup-insert n m left regs ∙ rw same refl in
          let before : lookup m regs ≡ some old =
            subst (λ k. lookup k regs ≡ some old) ((text_eq_iff n m).0 same) found in
          rw (now, before, present-insert ns, present) refl
      | inr other ↦
          let now : lookup m (insert n left regs) ≡ lookup m regs =
            lookup-insert n m left regs ∙ rw other refl in
          rw (now, present-insert ns, present) refl
    ]

    ResultOf-insert :
        (m : Bytes) (r : ScenarioResult) → ResultOf (insert n left regs) m r → ResultOf regs m r
    ResultOf-insert m r of = elim (Bool-cases (text_eq n m)) [
      | inl same ↦
          let now : some left ≡ some of.started =
            sym (lookup-insert n m left regs ∙ rw same refl) ∙ of.there in
          let is : left ≡ of.started = cc in
          record {
            started = old;
            there = subst (λ k. lookup k regs ≡ some old) ((text_eq_iff n m).0 same) found;
            by = of.by ∙ sym (ap (λ x. x.registrar.name) is) ∙ same_name;
            of_scenario = of.of_scenario;
            of_file = of.of_file;
          }
      | inr other ↦ record {
        started = of.started;
        there = sym (lookup-insert n m left regs ∙ rw other refl) ∙ of.there;
        by = of.by;
        of_scenario = of.of_scenario;
        of_file = of.of_file;
      }
    ]

    Results-insert :
        {ns : List Bytes} {rs : List ScenarioResult}
        → Results (insert n left regs) ns rs
        → Results regs ns rs
    Results-insert none_left = none_left
    Results-insert (one_more of more) = one_more (ResultOf-insert _ _ of) (Results-insert more)

  NewResults : List Bytes → Dict Started → List ScenarioResult → List ScenarioResult → Type 1
  NewResults ns regs before after =
      (new : List ScenarioResult) × (after ≡ before ++ new) × Results regs (present ns regs) new

  run_names-NewResults :
      (ns : List Bytes) (regs : Dict Started) (results : List ScenarioResult)
      → NewResults ns regs results (run_names outside scenario file run_id ns regs results).1
  unfolding run_names NewResults present is_known append_result run_subtest run_scenario
  run_names-NewResults [] regs results = ([], sym (append-nil results), none_left)
  run_names-NewResults (n ∷ ns) regs results = elim (Option-cases (lookup n regs)) [
    | inl missing ↦ rw (missing, run_names, present) (run_names-NewResults ns regs results)
    | inr (r, found) ↦
        let (result, left) = run_subtest outside scenario file run_id n r in
        let (new, added, listed) =
          run_names-NewResults ns (insert n left regs) (append_result result results) in
        let same = present-insert n left r regs found refl ns in
        let first : ResultOf regs n result = record {
          started = r;
          there = found;
          by = refl;
          of_scenario = refl;
          of_file = refl;
        } in
        let rest : Results regs (present ns regs) new =
          Results-insert n left r regs found refl
            (subst (λ names. Results (insert n left regs) names new) same listed) in
        rw (found, run_names, present)
          (result ∷ new, added ∙ append_assoc results (result ∷ []) new, one_more first rest)
  ]

  -- A matrix run keeps what was collected before, and adds one result for each of some names, in
  -- their order: the result of this scenario and file by the registrar that has the name. Where the
  -- scenario has a matrix, the names are those of the matrix that a registrar has, in the order of
  -- the matrix; without one they are all keys of the registrars, sorted.
  pub run_matrix-Selected :
      (regs : Dict Started) (results : List ScenarioResult)
      → (names : List Bytes) × (new : List ScenarioResult) × ((run_matrix outside scenario file
            run_id regs results).1
          ≡ results ++ new)
        × Results regs names new
        × Selected scenario.matrix regs names
  unfolding run_matrix NewResults
  run_matrix-Selected regs results =
      let (new, added, listed) =
        run_names-NewResults (matrix_names scenario.matrix regs) regs results in
      (_, new, added, listed, matrix_names-Selected scenario.matrix regs)
