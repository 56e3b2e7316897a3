-- ===== src/Fault/Response.antt =====
-- The malformed frame of a connection.
use epp_test.Base.{
  ℕ, ◌+◌, ◌<◌, ◌≡◌, Bool, true, false, ◌&&◌, ◌||◌, not, List, [], ◌∷◌, some, arith, length, ◌⊎◌,
}
use epp_test.Base.Text.{Bytes, codes, text_eq}
use epp_test.Frame.{Writer, put_u32, u32, header_len}
use epp_test.Fault.{allow, FaultProfile}
use epp_test.Fault.Engine.{
  FaultEngine, new_engine, on_login_attempt, on_operation, apply_response_fault,
}
use epp_test.Fault.History.{EngineEvent, login, operation, response, feed, feed_all, engine_after}

abbrev pub responses : List EngineEvent → ℕ
responses [] = 0
responses (response conn body ∷ xs) = 1 + responses xs
responses (_ ∷ xs) = responses xs

-- The faults that the engine knows.
abbrev known_fault : Bytes → Bool
known_fault m =
    not (text_eq m [])
    && (text_eq m (codes "length_overflow")
        || text_eq m (codes "invalid_xml")
        || text_eq m (codes "garbage"))

-- An engine whose fault is spent, or whose profile has none.
abbrev IsSpent : FaultEngine → Type 0
IsSpent e = (e.fault_fired ≡ true) ⊎ (known_fault e.profile.malformed_frame ≡ false)

apply_response_fault-IsSpent :
    (e : FaultEngine) (conn : Writer) (body : Bytes) → IsSpent (apply_response_fault e conn body).0
unfolding apply_response_fault
apply_response_fault-IsSpent e conn body = ground arith

apply_response_fault_spent :
    (e : FaultEngine) (conn : Writer) (body : Bytes)
    → IsSpent e
    → apply_response_fault e conn body ≡ (e, conn, some body, allow)
unfolding apply_response_fault
apply_response_fault_spent e conn body h = ground arith

feed-IsSpent : (e : FaultEngine) (x : EngineEvent) → IsSpent e → IsSpent (feed e x)
unfolding feed on_login_attempt on_operation
feed-IsSpent e login h = h
feed-IsSpent e (operation op) h = ground arith
feed-IsSpent e (response conn body) h = apply_response_fault-IsSpent e conn body

feed_all-IsSpent : (e : FaultEngine) (xs : List EngineEvent) → IsSpent e → IsSpent (feed_all e xs)
unfolding feed_all
feed_all-IsSpent e [] h = h
feed_all-IsSpent e (x ∷ xs) h = feed_all-IsSpent (feed e x) xs (feed-IsSpent e x h)

responses-IsSpent :
    (e : FaultEngine) (xs : List EngineEvent) → 0 < responses xs → IsSpent (feed_all e xs)
unfolding feed_all feed
responses-IsSpent e [] h = elim h [ ]
responses-IsSpent e (response conn body ∷ xs) h =
    feed_all-IsSpent _ xs (apply_response_fault-IsSpent e conn body)
responses-IsSpent e (x ∷ xs) h = responses-IsSpent (feed e x) xs h

-- A connection corrupts at most its first response: behind a response, whatever else came
-- between, the engine hands every body back unchanged, writes nothing itself and changes nothing.
pub malformed_frame_once :
    (p : FaultProfile) (xs : List EngineEvent) (conn : Writer) (body : Bytes)
    → 0 < responses xs
    → let e = engine_after p xs in apply_response_fault e conn body ≡ (e, conn, some body, allow)
malformed_frame_once p xs conn body h =
    apply_response_fault_spent _ conn body (responses-IsSpent (new_engine p) xs h)

overflow_header : Bytes → Bytes
overflow_header body = put_u32 (u32 (length body + header_len + 100))
