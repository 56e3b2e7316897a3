-- ===== src/Runner/Poll/Arrives.antt =====
-- Waiting for a message that is not there yet, whatever the registrar does in between.
use epp_test.Base.{
  ℕ, zero, suc, ◌≤◌, ◌≡◌, ◌↔◌, refl, sym, ap, ap₂, ◌∙◌, true, false, none, some, inl, inr, arith,
  Bool-cases, Option-cases, Option,
}
use epp_test.Base.Text.{Bytes}
use epp_test.Registrar.{Registrar, Reply, RegError, PollMessage}
use epp_test.Runner.Poll.{
  PollOutcome, PollError, got, failed, timed_out, read_error, ack_error, is_queue_empty, wanted,
  accept, poll_loop,
}

module _ (R : Registrar) (match_type : Bytes) where
  -- What a read gives and leaves, and what acknowledging its message gives and leaves.
  abbrev pub read_at : R.State → Reply PollMessage
  read_at s = (R.poll_read s).0

  abbrev pub behind_read : R.State → R.State
  behind_read s = (R.poll_read s).1

  abbrev pub ack_error_at : R.State → Option RegError
  ack_error_at s = (R.poll_ack (read_at s).value.id (behind_read s)).0.error

  abbrev pub behind_ack : R.State → R.State
  behind_ack s = (R.poll_ack (read_at s).value.id (behind_read s)).1

  -- The message `m` comes with the `k`-th read from the state `s`, and `s'` is the state behind its
  -- acknowledgement: the reads before it find an empty queue, or messages of other types, which
  -- are acknowledged.
  pub data Arrives (m : PollMessage) (s' : R.State) : ℕ → R.State → Type 0 where
    comes :
        (k : ℕ) (s : R.State)
        → k ≡ 1
        → (read_at s).error ≡ none
        → wanted match_type (read_at s).value ≡ true
        → ack_error_at s ≡ none
        → (read_at s).value ≡ m
        → behind_ack s ≡ s'
        → Arrives m s' k s
    behind_nothing :
        (k : ℕ) (s : R.State) (e : RegError)
        → (read_at s).error ≡ some e
        → is_queue_empty e ≡ true
        → Arrives m s' k (behind_read s)
        → Arrives m s' (suc k) s
    behind_other :
        (k : ℕ) (s : R.State)
        → (read_at s).error ≡ none
        → wanted match_type (read_at s).value ≡ false
        → Arrives m s' k (behind_ack s)
        → Arrives m s' (suc k) s

  module _ (n : ℕ) (s : R.State) where
    round_matches :
        (read_at s).error ≡ none
        → wanted match_type (read_at s).value ≡ true
        → poll_loop R (suc n) match_type s ≡ accept R (read_at s).value (behind_read s)
    unfolding poll_loop
    round_matches read hit = rw (poll_loop, read, hit) refl

    round_passes :
        (read_at s).error ≡ none
        → wanted match_type (read_at s).value ≡ false
        → poll_loop R (suc n) match_type s ≡ poll_loop R n match_type (behind_ack s)
    unfolding poll_loop
    round_passes read skip = rw (poll_loop, read, skip) refl

    round_waits :
        (e : RegError)
        → (read_at s).error ≡ some e
        → is_queue_empty e ≡ true
        → poll_loop R (suc n) match_type s ≡ poll_loop R n match_type (behind_read s)
    unfolding poll_loop
    round_waits e read empty = rw (poll_loop, read, empty) refl

    round_fails :
        (e : RegError)
        → (read_at s).error ≡ some e
        → is_queue_empty e ≡ false
        → poll_loop R (suc n) match_type s ≡ (failed (read_error e), behind_read s)
    unfolding poll_loop
    round_fails e read other = rw (poll_loop, read, other) refl

  accept_acked :
      (s : R.State)
      → ack_error_at s ≡ none
      → accept R (read_at s).value (behind_read s) ≡ (got (read_at s).value, behind_ack s)
  unfolding accept
  accept_acked s acked = rw (accept, acked) refl

  accept_failed :
      (s : R.State) (e : RegError)
      → ack_error_at s ≡ some e
      → accept R (read_at s).value (behind_read s) ≡ (failed (ack_error e), behind_ack s)
  unfolding accept
  accept_failed s e acked = rw (accept, acked) refl

  module _ {m : PollMessage} {s' : R.State} where
    arrived :
        {k : ℕ} {s : R.State} (a : Arrives m s' k s) (n : ℕ)
        → k ≤ n
        → poll_loop R n match_type s ≡ (got m, s')
    arrived (comes k s e read hit acked same after) zero enough = absurd (omega (arith, e))
    arrived (behind_nothing k s e read empty later) zero enough = absurd (omega arith)
    arrived (behind_other k s read skip later) zero enough = absurd (omega arith)
    arrived (comes k s e read hit acked same after) (suc n) enough =
        round_matches n s read hit
        ∙ accept_acked s acked
        ∙ ap₂ (λ (v : PollMessage) (u : R.State). (got v, u)) same after
    arrived (behind_nothing k s e read empty later) (suc n) enough =
        round_waits n s e read empty ∙ arrived later n (omega arith)
    arrived (behind_other k s read skip later) (suc n) enough =
        round_passes n s read skip ∙ arrived later n (omega arith)

    not_got :
        (x : PollError) (s : R.State)
        → ◌≡◌ {A = PollOutcome × R.State} (failed x, s) (got m, s')
        → ⊥
    not_got x s p = let same = ap (λ q. q.0) p in cc

    same_got :
        (v : PollMessage) (s : R.State)
        → ◌≡◌ {A = PollOutcome × R.State} (got v, s) (got m, s')
        → (v ≡ m) × (s ≡ s')
    same_got v s p = let same = ap (λ q. q.0) p in (cc, ap (λ q. q.1) p)

    matched :
        (n : ℕ) (s : R.State)
        → (read_at s).error ≡ none
        → wanted match_type (read_at s).value ≡ true
        → accept R (read_at s).value (behind_read s) ≡ (got m, s')
        → (k : ℕ) × (k ≤ suc n) × Arrives m s' k s
    matched n s read hit h = elim (Option-cases (ack_error_at s)) [
      | inl acked ↦
          let (same, after) = same_got _ _ (sym (accept_acked s acked) ∙ h) in
          (1, omega arith, comes 1 s refl read hit acked same after)
      | inr (e, refused) ↦ absurd (not_got _ _ (sym (accept_failed s e refused) ∙ h))
    ]

    awaited :
        (n : ℕ) (s : R.State)
        → poll_loop R n match_type s ≡ (got m, s')
        → (k : ℕ) × (k ≤ n) × Arrives m s' k s
    awaited zero s h = unfold poll_loop in absurd (not_got timed_out s h)
    awaited (suc n) s h = elim (Option-cases (read_at s).error) [
      | inr (e, read) ↦ elim (Bool-cases (is_queue_empty e)) [
        | inl empty ↦
            let (k, few, later) =
              awaited n (behind_read s) (sym (round_waits n s e read empty) ∙ h) in
            (suc k, omega arith, behind_nothing k s e read empty later)
        | inr other ↦ absurd (not_got _ _ (sym (round_fails n s e read other) ∙ h))
      ]
      | inl read ↦ elim (Bool-cases (wanted match_type (read_at s).value)) [
        | inl hit ↦ matched n s read hit (sym (round_matches n s read hit) ∙ h)
        | inr skip ↦
            let (k, few, later) = awaited n (behind_ack s) (sym (round_passes n s read skip) ∙ h) in
            (suc k, omega arith, behind_other k s read skip later)
      ]
    ]

    -- A wait gives a message exactly if, whatever the registrar does in between, that message comes
    -- within the rounds that the deadline leaves: with a read before which the others found an
    -- empty queue or messages of other types, which were acknowledged. The wait then ends at once
    -- behind the acknowledgement of the message.
    pub poll_loop_iff :
        (n : ℕ) (s : R.State)
        → (poll_loop R n match_type s ≡ (got m, s')) ↔ ((k : ℕ) × (k ≤ n) × Arrives m s' k s)
    poll_loop_iff n s = (awaited n s, λ (k, few, a). arrived a n few)
