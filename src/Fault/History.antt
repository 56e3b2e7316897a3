-- ===== src/Fault/History.antt =====
-- The engine of one connection after any history of logins, operations and responses.
use epp_test.Base.{ℕ, ◌+◌, ◌≡◌, refl, ◌∙◌, ◌&&◌, List, [], ◌∷◌, arith, if◌then◌else◌}
use epp_test.Base.Int.{pos, ltb_ℤ, leb_ℤ}
use epp_test.Base.Text.{Bytes, codes, text_eq}
use epp_test.Frame.{Writer}
use epp_test.Fault.{allow, deny, disconnect, FaultProfile}
use epp_test.Fault.Engine.{
  FaultEngine, new_engine, on_login_attempt, login_action, on_operation, operation_action,
  apply_response_fault,
}

-- One call of the engine by a connection handler.
pub data EngineEvent : Type 0 where
  login : EngineEvent
  operation : Bytes → EngineEvent
  response : Writer → Bytes → EngineEvent

unfoldable pub feed : FaultEngine → EngineEvent → FaultEngine
feed e login = (on_login_attempt e).0
feed e (operation op) = (on_operation e op).0
feed e (response conn body) = (apply_response_fault e conn body).0

unfoldable pub feed_all : FaultEngine → List EngineEvent → FaultEngine
feed_all e [] = e
feed_all e (x ∷ xs) = feed_all (feed e x) xs

abbrev pub logins : List EngineEvent → ℕ
logins [] = 0
logins (login ∷ xs) = 1 + logins xs
logins (_ ∷ xs) = logins xs

abbrev pub operations : List EngineEvent → ℕ
operations [] = 0
operations (operation op ∷ xs) = 1 + operations xs
operations (_ ∷ xs) = operations xs

feed-login_attempts :
    (e : FaultEngine) (x : EngineEvent)
    → (feed e x).login_attempts ≡ e.login_attempts + logins (x ∷ [])
unfolding feed on_login_attempt on_operation apply_response_fault
feed-login_attempts e login = ground arith
feed-login_attempts e _ = ground arith

feed-op_count :
    (e : FaultEngine) (x : EngineEvent) → (feed e x).op_count ≡ e.op_count + operations (x ∷ [])
unfolding feed on_login_attempt on_operation apply_response_fault
feed-op_count e login = ground arith
feed-op_count e _ = ground arith

feed-profile : (e : FaultEngine) (x : EngineEvent) → (feed e x).profile ≡ e.profile
unfolding feed on_login_attempt on_operation apply_response_fault
feed-profile e login = ground arith
feed-profile e _ = ground arith

pub feed_all-profile :
    (e : FaultEngine) (xs : List EngineEvent) → (feed_all e xs).profile ≡ e.profile
unfolding feed_all
feed_all-profile e [] = refl
feed_all-profile e (x ∷ xs) = feed_all-profile (feed e x) xs ∙ feed-profile e x

logins-cons :
    (x : EngineEvent) (xs : List EngineEvent) → logins (x ∷ xs) ≡ logins (x ∷ []) + logins xs
logins-cons login xs = omega arith
logins-cons _ xs = omega arith

operations-cons :
    (x : EngineEvent) (xs : List EngineEvent)
    → operations (x ∷ xs) ≡ operations (x ∷ []) + operations xs
operations-cons login xs = omega arith
operations-cons _ xs = omega arith

feed_all-login_attempts :
    (e : FaultEngine) (xs : List EngineEvent)
    → (feed_all e xs).login_attempts ≡ e.login_attempts + logins xs
unfolding feed_all
feed_all-login_attempts e [] = omega arith
feed_all-login_attempts e (x ∷ xs) =
    omega (arith, feed_all-login_attempts (feed e x) xs, feed-login_attempts e x, logins-cons x xs)

feed_all-op_count :
    (e : FaultEngine) (xs : List EngineEvent)
    → (feed_all e xs).op_count ≡ e.op_count + operations xs
unfolding feed_all
feed_all-op_count e [] = omega arith
feed_all-op_count e (x ∷ xs) =
    omega (arith, feed_all-op_count (feed e x) xs, feed-op_count e x, operations-cons x xs)

-- The engine of a connection that began with profile `p` and saw the events `xs`.
abbrev pub engine_after : FaultProfile → List EngineEvent → FaultEngine
engine_after p xs = feed_all (new_engine p) xs

pub engine_after-login_attempts :
    (p : FaultProfile) (xs : List EngineEvent) → (engine_after p xs).login_attempts ≡ logins xs
engine_after-login_attempts p xs = omega (arith, feed_all-login_attempts (new_engine p) xs)

pub engine_after-op_count :
    (p : FaultProfile) (xs : List EngineEvent) → (engine_after p xs).op_count ≡ operations xs
engine_after-op_count p xs = omega (arith, feed_all-op_count (new_engine p) xs)

login_action_flap :
    (p : FaultProfile) (n : ℕ)
    → p.login_mode ≡ codes "flap"
    → login_action p n ≡ (if leb_ℤ (pos n) p.login_fail_count then deny else allow)
unfolding login_action text_eq
login_action_flap p n flap = rw (flap, login_action) refl

-- In flap mode a login is denied exactly if the connection made fewer logins before it than
-- `LoginFailCount`, and is allowed otherwise, whatever operations and responses came between.
pub flap_denies_first_logins :
    (p : FaultProfile) (xs : List EngineEvent)
    → p.login_mode ≡ codes "flap"
    → (on_login_attempt (engine_after p xs)).1
      ≡ (if ltb_ℤ (pos (logins xs)) p.login_fail_count then deny else allow)
unfolding on_login_attempt
flap_denies_first_logins p xs flap =
    rw (feed_all-profile (new_engine p) xs, engine_after-login_attempts p xs)
      (login_action_flap p (logins xs + 1) flap ∙ ground arith)

-- With `DisconnectAfter` set to a positive `n`, the operation behind `n` others and every later
-- one closes the connection with no delay; each one before them, and every operation where
-- `DisconnectAfter` is not positive, gets what the rules of the profile give it.
pub disconnect_after_operations :
    (p : FaultProfile) (xs : List EngineEvent) (op : Bytes)
    → let result = (on_operation (engine_after p xs) op) in
      (result.1, result.2) ≡ (
        if ltb_ℤ (pos 0) p.disconnect_after && leb_ℤ p.disconnect_after (pos (operations xs))
        then (disconnect, pos 0)
        else operation_action p op)
unfolding on_operation
disconnect_after_operations p xs op =
    rw (feed_all-profile (new_engine p) xs, engine_after-op_count p xs) (ground arith)
