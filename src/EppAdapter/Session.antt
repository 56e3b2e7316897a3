-- ===== src/EppAdapter/Session.antt =====
-- What every run of connect.go's steps keeps of the state of an adapter.
use epp_test.Base.{
  ℕ, suc, ◌≤◌, List, ◌≡◌, refl, Bool, true, false, [], ◌∷◌, Option, none, some, arith, Option-cases,
  ◌⊎◌, inl, inr, if◌then◌else◌, ltb, ◌-◌,
}
use epp_test.Base.Text.{Bytes, codes}
use epp_test.Registrar.{epp, plain}
use epp_test.EppXml.{EppEnvelope, EppResult, Command}
use epp_test.Frame.{get_u32, header_len}
use epp_test.EppAdapter.Agreed.{Configured, intersection-configured}
use epp_test.EppAdapter.{
  World, Setup, Adapter, Run, Outcome-cases, ◌>>=◌, fail, required, checked, result_to_error,
  no_extension, extension_of, intersection,
}
use epp_test.EppAdapter.Connect.{
  write_bytes, write_frame_on, read_bytes, read_frame_on, send_and_receive, hang_up, next_cl_trid,
  respond, exchange, read_greeting, send_login, or_hang_up, dial_and_login, reconnect, with_conn,
}

-- A relation of the states before and after a run that each access to the connection keeps.
pub record Law (W : World) (setup : Setup) : Type 1 where
  pub Rel : Adapter W → Adapter W → Type 0
  pub nothing : (s : Adapter W) → Rel s s
  pub and_then : {s t u : Adapter W} → Rel s t → Rel t u → Rel s u
  pub writes :
      (c : W.Conn) (bs : Bytes) (s : Adapter W) → Rel s (record s { net = (W.write c bs s.net).1 })
  pub reads :
      (c : W.Conn) (n : ℕ) (s : Adapter W) → Rel s (record s { net = (W.read_full c n s.net).1 })
  pub ends : (c : W.Conn) (s : Adapter W) → Rel s (record s { conn = none; net = W.close c s.net })
  pub counts : (s : Adapter W) → Rel s (record s { cl_trid = suc s.cl_trid })
  pub agrees :
      (uris : List Bytes) (s : Adapter W)
      → Rel s (record s { advertised_ext = intersection setup.extensions uris })

-- That dialling keeps it too.
pub record Dials {W : World} {setup : Setup} (law : Law W setup) : Type 0 where
  pub fails : (s : Adapter W) → law.Rel s (record s { net = (W.dial s.net).1 })
  pub connects :
      (c : W.Conn) (s : Adapter W) → law.Rel s (record s { conn = some c; net = (W.dial s.net).1 })

-- A run that keeps the relation.
abbrev pub Steady : {W : World} {setup : Setup} {A : Type 0} → Law W setup → Run W A → Type 0
Steady law m = (s : _) → law.Rel s (m s).1

-- The state later in the life of an adapter: the counter of transactions has not gone back, and
-- the extensions in use are still configured ones.
pub record Later {W : World} (setup : Setup) (s s' : Adapter W) : Type 0 where
  pub counted : s.cl_trid ≤ s'.cl_trid
  pub configured : Configured setup s.advertised_ext → Configured setup s'.advertised_ext

-- Everything leads to a later state.
abbrev pub later : {W : World} (setup : Setup) → Law W setup
later setup = record {
  Rel = Later setup;
  nothing = λ s. record { counted = omega arith; configured = λ h. h };
  and_then = λ a b. record {
    counted = omega (arith, a.counted, b.counted);
    configured = λ h. b.configured (a.configured h);
  };
  writes = λ c bs s. record { counted = omega arith; configured = λ h. h };
  reads = λ c n s. record { counted = omega arith; configured = λ h. h };
  ends = λ c s. record { counted = omega arith; configured = λ h. h };
  counts = λ s. record { counted = omega arith; configured = λ h. h };
  agrees = λ uris s. record {
    counted = omega arith;
    configured = λ h. intersection-configured setup.extensions uris;
  };
}

pub later-Dials : {W : World} (setup : Setup) → Dials (later {W = W} setup)
later-Dials setup = record {
  fails = λ s. record { counted = omega arith; configured = λ h. h };
  connects = λ c s. record { counted = omega arith; configured = λ h. h };
}

hook_cases :
    (o : Option Bytes)
    → (o ≡ none) ⊎ ((o ≡ some []) ⊎ ((b : ℕ) × (bs : Bytes) × (o ≡ some (b ∷ bs))))
hook_cases none = inl refl
hook_cases (some []) = inr (inl refl)
hook_cases (some (b ∷ bs)) = inr (inr (b, bs, refl))

module _ {W : World} {setup : Setup} (law : Law W setup) where
  pub bind-Steady :
      {A B : Type 0} (m : Run W A) (f : A → Run W B)
      → Steady law m
      → ((a : A) → Steady law (f a))
      → Steady law (m >>= f)
  unfolding ◌>>=◌
  bind-Steady m f hm hf s = elim (Outcome-cases (m s).0) [
    | inl (a, e) ↦ rw (e, ◌>>=◌) (law.and_then (hm s) (hf a (m s).1))
    | inr (inl (x, e)) ↦ rw (e, ◌>>=◌) (hm s)
    | inr (inr e) ↦ rw (e, ◌>>=◌) (hm s)
  ]

  pub required-Steady :
      {A : Type 0} (message : Bytes) (o : Option A) → Steady law (required {W = W} message o)
  required-Steady message none s = law.nothing s
  required-Steady message (some a) s = law.nothing s

  pub checked-Steady : (r : EppResult) (label : Bytes) → Steady law (checked {W = W} r label)
  checked-Steady r label s = elim (Option-cases (result_to_error r label)) [
    | inl e ↦ rw (e, checked) (law.nothing s)
    | inr (x, e) ↦ rw (e, checked) (law.nothing s)
  ]

  pub extension_of-Steady :
      {A : Type 0} (hook : Option (A → Option Bytes)) (req : A)
      → Steady law (extension_of {W = W} hook req)
  unfolding extension_of
  extension_of-Steady none req s = law.nothing s
  extension_of-Steady (some hook) req s = elim (hook_cases (hook req)) [
    | inl e ↦ rw (e, extension_of) (law.nothing s)
    | inr (inl e) ↦ rw (e, extension_of) (law.nothing s)
    | inr (inr (b, bs, e)) ↦ rw (e, extension_of) (law.nothing s)
  ]

  hung_up :
      (o : Option W.Conn) (s : Adapter W)
      → law.Rel s (elim o [ none ↦ s | some c ↦ record s { conn = none; net = W.close c s.net } ])
  hung_up none s = law.nothing s
  hung_up (some c) s = law.ends c s

  pub hang_up-Steady : (s : Adapter W) → law.Rel s (hang_up W s)
  unfolding hang_up
  hang_up-Steady s = hung_up s.conn s

  write_bytes-Steady : (c : W.Conn) (message bs : Bytes) → Steady law (write_bytes W c message bs)
  unfolding write_bytes
  write_bytes-Steady c message bs s = law.writes c bs s

  read_bytes-Steady : (c : W.Conn) (message : Bytes) (n : ℕ) → Steady law (read_bytes W c message n)
  unfolding read_bytes
  read_bytes-Steady c message n s = law.reads c n s

  pub write_frame_on-Steady :
      (conn : Option W.Conn) (bs : Bytes) → Steady law (write_frame_on W conn bs)
  unfolding write_frame_on
  write_frame_on-Steady none bs = law.nothing
  write_frame_on-Steady (some c) bs =
      bind-Steady _ _ (write_bytes-Steady c _ _) (λ _. write_bytes-Steady c _ bs)

  read_body-Steady :
      (c : W.Conn) (short : Bool) (n : ℕ)
      → Steady law (
          if short
          then fail (plain (codes "invalid frame length"))
          else read_bytes W c (codes "read frame body") n)
  read_body-Steady c true n = law.nothing
  read_body-Steady c false n = read_bytes-Steady c _ n

  pub read_frame_on-Steady : (conn : Option W.Conn) → Steady law (read_frame_on W conn)
  unfolding read_frame_on
  read_frame_on-Steady none = law.nothing
  read_frame_on-Steady (some c) =
      bind-Steady _ _ (read_bytes-Steady c _ _)
        (λ hdr. read_body-Steady c (ltb (get_u32 hdr) header_len) (get_u32 hdr - header_len))

  pub send_and_receive-Steady :
      (conn : Option W.Conn) (env : EppEnvelope) → Steady law (send_and_receive W conn env)
  unfolding send_and_receive
  send_and_receive-Steady conn env = bind-Steady _ _ (required-Steady _ (W.marshal env)) (λ payload.
      bind-Steady _ _ (write_frame_on-Steady conn payload) (λ _.
        bind-Steady _ _ (read_frame_on-Steady conn) (λ resp. required-Steady _ (W.unmarshal resp))))

  pub next_cl_trid-Steady : Steady law (next_cl_trid W setup)
  unfolding next_cl_trid
  next_cl_trid-Steady s = law.counts s

  pub respond-Steady :
      (conn : Option W.Conn) (command : Command) (build : Run W (Option Bytes))
      → Steady law build
      → Steady law (respond W setup conn command build)
  unfolding respond
  respond-Steady conn command build steady = bind-Steady _ _ next_cl_trid-Steady (λ id.
      bind-Steady _ _ steady (λ extension.
        bind-Steady _ _ (send_and_receive-Steady conn _) (λ env. required-Steady _ env.response)))

  pub exchange-Steady :
      (conn : Option W.Conn) (label : Bytes) (command : Command) (build : Run W (Option Bytes))
      → Steady law build
      → Steady law (exchange W setup conn label command build)
  unfolding exchange
  exchange-Steady conn label command build steady =
      bind-Steady _ _ (respond-Steady conn command build steady)
        (λ resp. bind-Steady _ _ (checked-Steady resp.result label) (λ _. law.nothing))

  pub read_greeting-Steady : Steady law (read_greeting W setup)
  unfolding read_greeting
  read_greeting-Steady s =
      bind-Steady _ _ (read_frame_on-Steady s.conn)
        (λ raw.
          bind-Steady _ _ (required-Steady _ (W.unmarshal raw))
            (λ env. bind-Steady _ _ (required-Steady _ env.greeting) (λ g t. law.agrees _ t)))
        s

  pub send_login-Steady : Steady law (send_login W setup)
  unfolding send_login
  send_login-Steady s =
      bind-Steady _ _ (exchange-Steady s.conn _ _ no_extension law.nothing) (λ _. law.nothing) s

  pub or_hang_up-Steady : (m : Run W (Unit {0})) → Steady law m → Steady law (or_hang_up W setup m)
  unfolding or_hang_up
  or_hang_up-Steady m steady s = elim (Outcome-cases (m s).0) [
    | inl (a, e) ↦ rw (e, or_hang_up) (steady s)
    | inr (inl (x, e)) ↦ rw (e, or_hang_up) (law.and_then (steady s) (hang_up-Steady (m s).1))
    | inr (inr e) ↦ rw (e, or_hang_up) (steady s)
  ]

  pub dial_and_login-Steady : Dials law → Steady law (dial_and_login W setup)
  unfolding dial_and_login
  dial_and_login-Steady dials s = elim (Option-cases (W.dial s.net).0) [
    | inl e ↦ rw (e, dial_and_login) (dials.fails s)
    | inr (c, e) ↦
        rw (e, dial_and_login)
          (law.and_then (dials.connects c s) (
            bind-Steady _ _ (or_hang_up-Steady _ read_greeting-Steady)
              (λ _. or_hang_up-Steady _ send_login-Steady) _))
  ]

  reconnect-Steady : Dials law → Steady law (reconnect W setup)
  unfolding reconnect
  reconnect-Steady dials s =
      law.and_then (hang_up-Steady s) (dial_and_login-Steady dials (hang_up W s))

  pub with_conn-Steady :
      {A : Type 0} (fn : Option W.Conn → Run W A)
      → Dials law
      → ((conn : Option W.Conn) → Steady law (fn conn))
      → Steady law (with_conn W setup fn)
  unfolding with_conn
  with_conn-Steady fn dials steady s = elim (Outcome-cases (fn s.conn s).0) [
    | inl (a, e) ↦ rw (e, with_conn) (steady s.conn s)
    | inr (inl (epp x, e)) ↦ rw (e, with_conn) (steady s.conn s)
    | inr (inl (plain m, e)) ↦
        rw (e, with_conn)
          (law.and_then (steady s.conn s)
            (bind-Steady _ _ (reconnect-Steady dials) (λ _ t. steady t.conn t) (fn s.conn s).1))
    | inr (inr e) ↦ rw (e, with_conn) (steady s.conn s)
  ]

-- A relation of the states before and after a call of a method, where the law holds of its parts.
pub record Calling {W : World} {setup : Setup} (law : Law W setup) : Type 1 where
  pub Call : Adapter W → Adapter W → Type 0
  pub quiet : {s t : Adapter W} → law.Rel s t → Call s t
  pub behind : {s t u : Adapter W} → law.Rel s t → Call t u → Call s u
  pub tries :
      {A : Type 0} (fn : Option W.Conn → Run W A)
      → ((conn : Option W.Conn) → Steady law (fn conn))
      → (s : Adapter W) → Call s (with_conn W setup fn s).1
  pub logs_in : (s : Adapter W) → Call s (dial_and_login W setup s).1

abbrev pub later_calls : {W : World} (setup : Setup) → Calling (later {W = W} setup)
later_calls setup = record {
  Call = Later setup;
  quiet = λ r. r;
  behind = λ r c. (later setup).and_then r c;
  tries = λ fn steady s. with_conn-Steady (later setup) fn (later-Dials setup) steady s;
  logs_in = λ s. dial_and_login-Steady (later setup) (later-Dials setup) s;
}
