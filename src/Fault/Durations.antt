-- ===== src/Fault/Durations.antt =====
-- `ParseDurations` against what its texts stand for.
use epp_test.Base.{
  ℕ, suc, ◌+◌, ◌≡◌, ◌≢◌, refl, sym, ap, ◌∙◌, subst, List, [], ◌∷◌, Option, none, some, arith,
  Option-cases, inl, inr, ◌++◌, length,
}
use epp_test.Base.Int.{ℤ}
use epp_test.Base.Text.{Bytes, text_eq_iff}
use epp_test.Fault.{
  PerOpRule, FaultProfile, ProfileError, bad_rule_delay, bad_connect_delay, bad_response_delay,
  resolve, resolve_rules, parse_durations,
}

module _ (parse_duration : Bytes → Option ℤ) where
  -- A text that is empty leaves the duration alone, and any other is the text of `new`.
  pub record Resolves (text : Bytes) (old new : ℤ) : Type 0 where
    pub keeps : text ≡ [] → new ≡ old
    pub parses : text ≢ [] → parse_duration text ≡ some new

  -- Two lists of rules that differ in the delays alone, each resolved from its text.
  pub data ResolvesAll : List PerOpRule → List PerOpRule → Type 0 where
    done : ResolvesAll [] []
    rule :
        {r : PerOpRule} {d : ℤ} {rs rs' : List PerOpRule}
        → Resolves r.delay_text r.delay d
        → ResolvesAll rs rs'
        → ResolvesAll (r ∷ rs) (record r { delay = d } ∷ rs')

  -- No duration: a text that is not empty and that `time.ParseDuration` refuses.
  abbrev pub IsBad : Bytes → Type 0
  IsBad text = (text ≢ []) × (parse_duration text ≡ none)

  resolve-Resolves :
      (text : Bytes) (old new : ℤ)
      → resolve parse_duration text old ≡ some new
      → Resolves text old new
  unfolding resolve
  resolve-Resolves text old new h = record {
    keeps = λ e. ground (arith, text_eq_iff text []);
    parses = λ n. ground (arith, text_eq_iff text []);
  }

  resolve-IsBad : (text : Bytes) (old : ℤ) → resolve parse_duration text old ≡ none → IsBad text
  unfolding resolve
  resolve-IsBad text old h =
      (λ e. ground (arith, text_eq_iff text []), ground (arith, text_eq_iff text []))

  resolve_rules-ResolvesAll :
      (i : ℕ) (rs : List PerOpRule)
      → (resolve_rules parse_duration i rs).1 ≡ none
      → ResolvesAll rs (resolve_rules parse_duration i rs).0
  unfolding resolve_rules
  resolve_rules-ResolvesAll i [] h = done
  resolve_rules-ResolvesAll i (r ∷ rs) h =
      elim (Option-cases (resolve parse_duration r.delay_text r.delay)) [
        | inl bad ↦ absurd (ground arith)
        | inr (d, good) ↦
            rw (good, resolve_rules)
              (rule (resolve-Resolves r.delay_text r.delay d good)
                (resolve_rules-ResolvesAll (suc i) rs (ground arith)))
      ]

  -- If `ParseDurations` reports no error, it changed the resolved durations alone, and each of
  -- them is what its text stands for, or what it was where the text is empty.
  pub parse_durations_sound :
      (p : FaultProfile)
      → (parse_durations parse_duration p).1 ≡ none
      → let q = (parse_durations parse_duration p).0 in
        Resolves p.connect_delay_text p.connect_delay q.connect_delay
        × Resolves p.response_delay_text p.response_delay q.response_delay
        × ResolvesAll p.per_op q.per_op
        × (q ≡ record p {
          connect_delay = q.connect_delay;
          response_delay = q.response_delay;
          per_op = q.per_op;
        })
  unfolding parse_durations
  parse_durations_sound p h =
      elim (Option-cases (resolve parse_duration p.connect_delay_text p.connect_delay)) [
        | inl bad ↦ absurd (ground arith)
        | inr (c, connect) ↦
            elim (Option-cases (resolve parse_duration p.response_delay_text p.response_delay)) [
              | inl bad ↦ absurd (ground arith)
              | inr (r, respond) ↦
                  rw (connect, respond, parse_durations)
                    (
                      resolve-Resolves p.connect_delay_text p.connect_delay c connect,
                      resolve-Resolves p.response_delay_text p.response_delay r respond,
                      resolve_rules-ResolvesAll 0 p.per_op (ground arith),
                      refl,
                    )
            ]
      ]

  -- What an error of `ParseDurations` says of the profile.
  abbrev pub Explains : FaultProfile → ProfileError → Type 0
  Explains p bad_connect_delay = IsBad p.connect_delay_text
  Explains p bad_response_delay = IsBad p.response_delay_text
  Explains p (bad_rule_delay k) =
      (before : List PerOpRule) × (r : PerOpRule) × (after : List PerOpRule) × (p.per_op
        ≡ before ++ (r ∷ after))
      × (length before ≡ k)
      × IsBad r.delay_text
  Explains p _ = ⊥

  -- The rule that an error of the loop names.
  abbrev BadRule : ℕ → List PerOpRule → ProfileError → Type 0
  BadRule i rs e =
      (before : List PerOpRule) × (r : PerOpRule) × (after : List PerOpRule) × (rs
        ≡ before ++ (r ∷ after))
      × (e ≡ bad_rule_delay (i + length before))
      × IsBad r.delay_text

  resolve_rules-BadRule :
      (i : ℕ) (rs : List PerOpRule) (e : ProfileError)
      → (resolve_rules parse_duration i rs).1 ≡ some e
      → BadRule i rs e
  unfolding resolve_rules
  resolve_rules-BadRule i [] e h = cc
  resolve_rules-BadRule i (r ∷ rs) e h =
      elim (Option-cases (resolve parse_duration r.delay_text r.delay)) [
        | inl bad ↦ ([], r, rs, refl, ground arith, resolve-IsBad r.delay_text r.delay bad)
        | inr (d, good) ↦
            let (before, q, after, parts, named, bad) =
              resolve_rules-BadRule (suc i) rs e (ground arith) in
            (r ∷ before, q, after, ap (◌∷◌ r) parts, named ∙ ap bad_rule_delay (omega arith), bad)
      ]

  -- An error of `ParseDurations` names a field whose text is not empty and is refused by
  -- `time.ParseDuration`; for a rule it gives that rule's index in the list.
  pub parse_durations_error :
      (p : FaultProfile) (e : ProfileError)
      → (parse_durations parse_duration p).1 ≡ some e
      → Explains p e
  unfolding parse_durations
  parse_durations_error p e h =
      elim (Option-cases (resolve parse_duration p.connect_delay_text p.connect_delay)) [
        | inl bad ↦
            subst (Explains p) (let e' : bad_connect_delay ≡ e = ground arith in e')
              (resolve-IsBad p.connect_delay_text p.connect_delay bad)
        | inr (c, connect) ↦
            elim (Option-cases (resolve parse_duration p.response_delay_text p.response_delay)) [
              | inl bad ↦
                  subst (Explains p) (let e' : bad_response_delay ≡ e = ground arith in e')
                    (resolve-IsBad p.response_delay_text p.response_delay bad)
              | inr (r, respond) ↦
                  let (before, q, after, parts, named, bad) =
                    resolve_rules-BadRule 0 p.per_op e (ground arith) in
                  subst (Explains p) (sym named) (before, q, after, parts, omega arith, bad)
            ]
      ]
