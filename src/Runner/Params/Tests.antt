-- ===== src/Runner/Params/Tests.antt =====
-- Parameters of concrete steps, and the theorems at them.
use epp_test.Base.{◌≡◌, ◌↔◌, ◌⊎◌, refl, [], ◌∷◌, some, arith}
use epp_test.Base.Int.{pos}
use epp_test.Base.Text.{codes, text_eq}
use epp_test.Base.Dict.{lookup}
use epp_test.Registrar.Value.{str, int, dict, Fields, end, field, get, put, render}
use epp_test.Runner.Params.{
  Captured, deep_merge, interpolate_string, match_ref, word_then, take_word, is_word, replacement,
}
use epp_test.Runner.Params.Merge.{Proper, Untouched, walk, walk-deep_merge_iff}
use epp_test.Runner.Params.Interpolate.{plain, ref, interpolate-template}

abbrev base : Fields
base = field (codes "period") (int (pos 1)) (
    field (codes "ext")
      (dict (field (codes "a") (str (codes "x")) (field (codes "b") (int (pos 2)) end))) end)

abbrev over : Fields
over = field (codes "ext") (dict (field (codes "a") (str (codes "y")) end)) end

over-Proper : Proper over
unfolding Proper get
over-Proper = (refl, (refl, tt, tt), tt)

walk-deep_merge_iff_example :
    (walk (codes "ext" ∷ codes "b" ∷ []) (dict (deep_merge base over)) ≡ some (int (pos 2))) ↔ (
      (walk (codes "ext" ∷ codes "b" ∷ []) (dict over) ≡ some (int (pos 2)))
      ⊎ (Untouched (codes "ext" ∷ codes "b" ∷ []) over
          × (walk (codes "ext" ∷ codes "b" ∷ []) (dict base) ≡ some (int (pos 2)))))
walk-deep_merge_iff_example =
    walk-deep_merge_iff base over (codes "ext" ∷ codes "b" ∷ []) (int (pos 2)) over-Proper
      (λ (d, e). cc)

-- The value of the override wins over the one of the base beside it.
merged_leaves :
    (walk (codes "ext" ∷ codes "a" ∷ []) (dict (deep_merge base over)) ≡ some (str (codes "y")))
    × (walk (codes "ext" ∷ codes "b" ∷ []) (dict (deep_merge base over)) ≡ some (int (pos 2)))
unfolding deep_merge get put text_eq
merged_leaves = (refl, refl)

abbrev captured : Captured
captured = (codes "mk", field (codes "Name") (str (codes "a.de")) end) ∷ []

interpolated :
    interpolate_string (codes "<${mk.Name}> ${mk.ROID} ${x}") captured
    ≡ codes "<a.de> ${mk.ROID} ${x}"
unfolding interpolate_string match_ref word_then take_word is_word replacement lookup get text_eq
    render
interpolated = refl

interpolate-template_example : interpolate_string (codes "<${mk.Name}>") captured ≡ codes "<a.de>"
unfolding is_word replacement lookup get text_eq render
interpolate-template_example =
    interpolate-template captured
      (plain (codes "<") ∷ ref (codes "mk") (codes "Name") ∷ plain (codes ">") ∷ [])
      (
        (omega arith, tt),
        (
          ((λ e. cc, (refl, (refl, tt))), (λ e. cc, (refl, (refl, (refl, (refl, tt)))))),
          ((omega arith, tt), tt),
        ),
      )
