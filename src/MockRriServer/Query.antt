-- ===== src/MockRriServer/Query.antt =====
-- One query to the standalone RRI mock server whose profile closes it after some operations.
use epp_test.Base.{
  ℕ, suc, ◌+◌, ◌≤◌, ◌<◌, ◌≡◌, refl, ap, ◌∙◌, true, false, ◌&&◌, [], ◌++◌, none, arith,
}
use epp_test.Base.Int.{ℤ, pos, ltb_ℤ}
use epp_test.Base.Text.{Bytes, codes, text_eq, to_upper}
use epp_test.Base.Decimal.{decimal}
use epp_test.Frame.RoundTrip.{write_rri_frame-open}
use epp_test.Fault.{FaultProfile, FaultAction, disconnect}
use epp_test.Fault.Engine.{FaultEngine, on_operation, operation_action, scan_rules}
use epp_test.MockRriServer.{Session, first_action, reply, answer_query, serve_action, serve_frame}

-- A frame whose action is neither LOGIN nor LOGOUT.
abbrev pub IsQuery : Bytes → Type 0
IsQuery f =
    (text_eq (to_upper (first_action f)) (codes "LOGIN") ≡ false)
    × (text_eq (to_upper (first_action f)) (codes "LOGOUT") ≡ false)

-- A successful answer on a connection that takes all its writes.
Answered : Session → Session → Type 0
Answered s s' =
    (s'.serving ≡ true)
    × (s'.stid ≡ suc s.stid)
    × (s'.writer.calls_left ≡ none)
    × (s'.engine ≡ s.engine)

reply-Answered : (r : Bytes) (s : Session) → s.writer.calls_left ≡ none → Answered s (reply r s)
unfolding reply Answered
reply-Answered r s h =
    let (still_open, sent) =
      write_rri_frame-open s.writer
        (codes "RESULT: " ++ (r ++ (codes "\nSTID: " ++ (decimal (suc s.stid) ++ codes "\n")))) h in
    (rw (sent, reply) refl, refl, still_open, refl)

answer_query-no_rules :
    (p : FaultProfile) (op : Bytes) (s : Session)
    → p.per_op ≡ []
    → answer_query (operation_action p op).0 s ≡ reply (codes "success") s
unfolding answer_query operation_action scan_rules
answer_query-no_rules p op s none_set = rw (none_set, operation_action) (ground arith)

-- The engine behind one operation more.
unfoldable pub counted : FaultEngine → FaultEngine
counted e = record e { op_count = e.op_count + 1 }

-- A connection that `DisconnectAfter` alone limits, to `n` operations.
pub record IsLimited (n : ℕ) (s : Session) : Type 0 where
  pub limit : s.engine.profile.disconnect_after ≡ pos n
  pub positive : 0 < n
  pub no_rules : s.engine.profile.per_op ≡ []
  pub within : s.engine.op_count ≤ n
  pub open_end : s.writer.calls_left ≡ none

on_operation-within :
    (n : ℕ) (e : FaultEngine) (op : Bytes)
    → e.profile.disconnect_after ≡ pos n
    → e.op_count < n
    → on_operation e op
      ≡ (counted e, (operation_action e.profile op).0, (operation_action e.profile op).1)
unfolding on_operation counted
on_operation-within n e op limit room =
    let closed : (ltb_ℤ (pos 0) e.profile.disconnect_after
          && ltb_ℤ e.profile.disconnect_after (pos (e.op_count + 1)))
        ≡ false =
      rw limit (ground arith) in
    rw (closed, on_operation) refl

on_operation-over :
    (n : ℕ) (e : FaultEngine) (op : Bytes)
    → e.profile.disconnect_after ≡ pos n
    → 0 < n
    → n ≤ e.op_count
    → on_operation e op ≡ (counted e, disconnect, pos 0)
unfolding on_operation counted
on_operation-over n e op limit positive full =
    let open_now : (ltb_ℤ (pos 0) e.profile.disconnect_after
          && ltb_ℤ e.profile.disconnect_after (pos (e.op_count + 1)))
        ≡ true =
      rw limit (ground arith) in
    rw (open_now, on_operation) refl

serve_frame-query :
    (f : Bytes) (s : Session) (e : FaultEngine) (a : FaultAction) (d : ℤ)
    → IsQuery f
    → on_operation s.engine f ≡ (e, a, d)
    → serve_frame f s ≡ answer_query a (record s { engine = e })
unfolding serve_frame serve_action
serve_frame-query f s e a d (not_in, not_out) q = rw (not_in, not_out, serve_action, q) refl

-- A query within the limit is answered, and the connection stays limited.
pub serve_frame-within :
    (n : ℕ) (f : Bytes) (s : Session)
    → IsLimited n s
    → IsQuery f
    → s.engine.op_count < n
    → ((serve_frame f s).serving ≡ true)
      × ((serve_frame f s).stid ≡ suc s.stid)
      × ((serve_frame f s).engine ≡ counted s.engine)
      × ((serve_frame f s).writer.calls_left ≡ none)
unfolding Answered
serve_frame-within n f s lim query room =
    let s1 = record s { engine = counted s.engine } in
    let same =
      serve_frame-query f s _ _ _ query (on_operation-within n s.engine f lim.limit room)
      ∙ answer_query-no_rules s.engine.profile f s1 lim.no_rules in
    let (on, next, open_end, kept) = reply-Answered (codes "success") s1 lim.open_end in
    (
      ap (λ x. x.serving) same ∙ on,
      ap (λ x. x.stid) same ∙ next,
      ap (λ x. x.engine) same ∙ kept,
      ap (λ x. x.writer.calls_left) same ∙ open_end,
    )

-- A query behind the limit closes the connection without an answer.
pub serve_frame-over :
    (n : ℕ) (f : Bytes) (s : Session)
    → IsLimited n s
    → IsQuery f
    → n ≤ s.engine.op_count
    → ((serve_frame f s).serving ≡ false) × ((serve_frame f s).stid ≡ s.stid)
unfolding answer_query
serve_frame-over n f s lim query full =
    let same =
      serve_frame-query f s _ _ _ query
        (on_operation-over n s.engine f lim.limit lim.positive full) in
    (ap (λ x. x.serving) same, ap (λ x. x.stid) same)
