-- ===== src/Runner/Params/Prefix.antt =====
-- What `injectRunIDPrefix` leaves under each key.
use mathlib.Core.Option
use epp_test.Base.{
  ◌≡◌, sym, ap, ◌∙◌, ◌&&◌, ◌||◌, none, some, arith, if◌then◌else◌, Option-cases, inl, inr,
}
use epp_test.Base.Text.{Bytes, codes, text_eq, text_eq_iff, has_prefix}
use epp_test.Registrar.Value.{Fields, get, get-put}
use epp_test.Runner.Params.{prefixed, prefix_key, inject_run_id_prefix}

get-prefix_key :
    (prefix key k : Bytes) (d : Fields)
    → get k (prefix_key prefix key d)
      ≡ (if text_eq key k then Option.map (prefixed prefix) (get k d) else get k d)
get-prefix_key prefix key k d = elim (Option-cases (get key d)) [
  | inl absent ↦
      rw (absent, prefix_key)
        (let same : key ≡ k → get k d ≡ none = λ e. ap (λ x. get x d) (sym e) ∙ absent in
          ground (arith, text_eq_iff key k))
  | inr (v, found) ↦
      rw (found, prefix_key)
        (let same : key ≡ k → get k d ≡ some v = λ e. ap (λ x. get x d) (sym e) ∙ found in
          ground (arith, text_eq_iff key k, get-put key k (prefixed prefix v) d))
]

-- After `injectRunIDPrefix` every key has what it had, except that for an operation that begins
-- with `create_` the strings under `name` and `id` that do not begin with `${` have the run's
-- prefix and a hyphen in front.
pub get-inject_run_id_prefix :
    (op prefix : Bytes) (params : Fields) (k : Bytes)
    → get k (inject_run_id_prefix op params prefix) ≡ (
        if has_prefix op (codes "create_") && (text_eq (codes "name") k || text_eq (codes "id") k)
        then Option.map (prefixed prefix) (get k params)
        else get k params)
unfolding inject_run_id_prefix
get-inject_run_id_prefix op prefix params k = ground (
  arith,
  get-prefix_key prefix (codes "id") k (prefix_key prefix (codes "name") params),
  get-prefix_key prefix (codes "name") k params,
  text_eq_iff (codes "name") k,
  text_eq_iff (codes "id") k,
)
