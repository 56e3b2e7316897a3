-- ===== src/Runner/Poll/Queue.antt =====
-- The wait over a registrar that keeps its messages in a queue.
use epp_test.Base.{
  ℕ, zero, suc, ◌<◌, ◌≡◌, refl, true, false, List, [], ◌∷◌, ◌++◌, none, some, arith, length, drop,
  drop-nil, All,
}
use epp_test.Base.Text.{Bytes}
use epp_test.Registrar.{Registrar, RegError, PollMessage}
use epp_test.Runner.Poll.{got, failed, timed_out, is_queue_empty, wanted, accept, poll_loop}

-- What `Poller` documents: a read gives the message at the head and changes nothing, or EPP 1300
-- on an empty queue; acknowledging the head removes it.
pub record IsQueue (R : Registrar) (queue : R.State → List PollMessage) : Type 0 where
  pub read_empty :
      (s : R.State)
      → queue s ≡ []
      → (e : RegError) × ((R.poll_read s).0.error ≡ some e)
        × (is_queue_empty e ≡ true)
        × (queue (R.poll_read s).1 ≡ [])
  pub read_head :
      (s : R.State) (m : PollMessage) (ms : List PollMessage)
      → queue s ≡ m ∷ ms
      → ((R.poll_read s).0 ≡ record { value = m; error = none })
        × (queue (R.poll_read s).1 ≡ m ∷ ms)
  pub ack_head :
      (s : R.State) (m : PollMessage) (ms : List PollMessage)
      → queue s ≡ m ∷ ms
      → ((R.poll_ack m.id s).0.error ≡ none) × (queue (R.poll_ack m.id s).1 ≡ ms)

module _ (R : Registrar) (queue : R.State → List PollMessage) (lawful : IsQueue R queue) where
  poll_loop_hit :
      (n : ℕ) (t : Bytes) (s : R.State) (m : PollMessage) (ms : List PollMessage)
      → queue s ≡ m ∷ ms
      → wanted t m ≡ true
      → ((poll_loop R (suc n) t s).0 ≡ got m) × (queue (poll_loop R (suc n) t s).1 ≡ ms)
  unfolding poll_loop accept
  poll_loop_hit n t s m ms q h =
      let (read, still) = lawful.read_head s m ms q in
      let (acked, rest) = lawful.ack_head (R.poll_read s).1 m ms still in ground arith

  -- With as many rounds as there are messages up to the first that matches, the wait returns that
  -- message and leaves exactly the messages behind it: those in front are acknowledged too.
  pub poll_loop_first_match :
      (before : List PollMessage) (m : PollMessage) (after : List PollMessage) (n : ℕ) (t : Bytes)
      (s : R.State)
      → queue s ≡ before ++ (m ∷ after)
      → All (λ x. wanted t x ≡ false) before
      → wanted t m ≡ true
      → length before < n
      → ((poll_loop R n t s).0 ≡ got m) × (queue (poll_loop R n t s).1 ≡ after)
  unfolding poll_loop
  poll_loop_first_match before m after zero t s q skipped hit enough = elim enough [ ]
  poll_loop_first_match [] m after (suc n) t s q skipped hit enough =
      poll_loop_hit n t s m after q hit
  poll_loop_first_match (b ∷ before) m after (suc n) t s q skipped hit enough =
      let (read, still) = lawful.read_head s b (before ++ (m ∷ after)) q in
      let (acked, rest) = lawful.ack_head (R.poll_read s).1 b (before ++ (m ∷ after)) still in
      ground (
        arith,
        poll_loop_first_match before m after n t (R.poll_ack b.id (R.poll_read s).1).1 rest
            skipped.1 hit (omega arith),
      )

  poll_loop_drains :
      (n : ℕ) (t : Bytes) (s : R.State) (ms : List PollMessage)
      → queue s ≡ ms
      → All (λ x. wanted t x ≡ false) ms
      → ((poll_loop R n t s).0 ≡ failed timed_out) × (queue (poll_loop R n t s).1 ≡ drop n ms)
  unfolding poll_loop
  poll_loop_drains zero t s ms q skipped = (refl, q)
  poll_loop_drains (suc n) t s [] q skipped =
      let (e, read, empty, still) = lawful.read_empty s q in
      let later = poll_loop_drains n t (R.poll_read s).1 [] still tt in
      let nothing_left = drop-nil {A = PollMessage} n in ground arith
  poll_loop_drains (suc n) t s (m ∷ ms) q skipped =
      let (read, still) = lawful.read_head s m ms q in
      let (acked, rest) = lawful.ack_head (R.poll_read s).1 m ms still in
      let later = poll_loop_drains n t (R.poll_ack m.id (R.poll_read s).1).1 ms rest skipped.1 in
      ground arith

  -- A wait over a queue without a match times out, and each of its rounds has acknowledged one
  -- message as long as there was one.
  pub poll_loop_no_match :
      (n : ℕ) (t : Bytes) (s : R.State)
      → All (λ x. wanted t x ≡ false) (queue s)
      → ((poll_loop R n t s).0 ≡ failed timed_out)
        × (queue (poll_loop R n t s).1 ≡ drop n (queue s))
  poll_loop_no_match n t s skipped = poll_loop_drains n t s (queue s) refl skipped
