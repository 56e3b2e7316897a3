-- ===== src/RriMock/Server/Shared/Moves.antt =====
-- What one access of a handler does to the shared state and to its own connection.
use epp_test.Base.{
  ℕ, zero, suc, ◌+◌, ◌≡◌, refl, sym, ap, ap₂, subst, ◌∙◌, Bool, true, false, List, [], ◌∷◌, ◌++◌,
  none, append-nil, append_assoc, if◌then◌else◌, ◌==◌, ◌≢◌, arith, inl, inr, ==_iff,
}
use epp_test.Base.Text.{Bytes}
use epp_test.Base.Result.{Result-cases}
use epp_test.Frame.{Writer, fresh, write, read_rri_frame, write_rri_frame}
use epp_test.Frame.RoundTrip.{write_rri_frame-open, write_rri_frame-written}
use epp_test.RriMock.Server.{
  Item, scripted, malformed_frame, unknown, Server, receive, dispatch, serve_script, answer,
  build_success_response, build_failure_response,
}
use epp_test.RriMock.Server.Session.{receive-expect}
use epp_test.RriMock.Server.Shared.{
  Phase, reading, closed, captured, judged, Handler, Event, own, advance, advance_reading,
  answer_events, stid_of, taken_of, pushed_of, bytes_of, item_bytes, gather, first_taken, count_up,
  own_text,
}

pub gather-append {ℓ} :
    {A : Type ℓ} (f : Event → List A) (es es' : List Event)
    → gather f (es ++ es') ≡ gather f es ++ gather f es'
unfolding gather
gather-append f [] es' = refl
gather-append f (e ∷ es) es' =
    ap (λ l. f e ++ l) (gather-append f es es') ∙ sym (append_assoc (f e) _ _)

pub count_up-append : (n j k : ℕ) → count_up n j ++ count_up (n + j) k ≡ count_up n (j + k)
unfolding count_up
count_up-append n zero k = ap₂ count_up (omega arith) (omega arith)
count_up-append n (suc j) k =
    let shift : n + suc j ≡ suc n + j = omega arith in
    let total : suc (j + k) ≡ suc j + k = omega arith in
    ap (λ l. suc n ∷ l)
      (ap (λ m. count_up (suc n) j ++ count_up m k) shift ∙ count_up-append (suc n) j k)
    ∙ ap (count_up n) total

-- The writes of a connection that takes all of them.
pub record Wrote (w w' : Writer) (bs : Bytes) : Type 0 where
  pub is_open : w'.calls_left ≡ none
  pub behind : w'.written ≡ w.written ++ bs

Wrote-nothing : (w : Writer) → w.calls_left ≡ none → Wrote w w []
Wrote-nothing w h = record { is_open = h; behind = sym (append-nil w.written) }

Wrote-frame :
    (w : Writer) (bs : Bytes)
    → w.calls_left ≡ none
    → Wrote w (write_rri_frame w bs).0 (write_rri_frame fresh bs).0.written
Wrote-frame w bs h = record {
  is_open = (write_rri_frame-open w bs h).0;
  behind =
      (write_rri_frame-written w bs h).0
      ∙ ap (λ t. w.written ++ t) (sym (write_rri_frame-written fresh bs refl).0);
}

dispatch-Wrote :
    (w : Writer) (item : Item) → w.calls_left ≡ none → Wrote w (dispatch w item).0 (item_bytes item)
unfolding dispatch
dispatch-Wrote w (scripted bs) h = Wrote-frame w bs h
dispatch-Wrote w malformed_frame h =
    unfold write in record { is_open = ground arith; behind = ground arith }
dispatch-Wrote w unknown h = Wrote-nothing w h

-- What the events of one access say: how many numbers it drew, which items it took, and what its
-- client gets.
pub record Fits (i : ℕ) (s s' : Server) (w w' : Writer) (es : List Event) : Type 0 where
  pub drawn : ℕ
  pub counted : s'.stid_counter ≡ s.stid_counter + drawn
  pub numbered : gather stid_of es ≡ count_up s.stid_counter drawn
  pub queue : s.expect ≡ gather taken_of es ++ s'.expect
  pub no_push : gather pushed_of es ≡ []
  pub wrote : Wrote w w' (gather (bytes_of i) es)
  pub others : (j : ℕ) → i ≢ j → gather (bytes_of j) es ≡ []

-- An access that does nothing that others see.
Fits-nothing :
    (i : ℕ) (s s' : Server) (w : Writer)
    → s'.stid_counter ≡ s.stid_counter
    → s'.expect ≡ s.expect
    → w.calls_left ≡ none
    → Fits i s s' w w []
unfolding gather count_up
Fits-nothing i s s' w counter items h = record {
  drawn = 0;
  counted = omega (arith, counter);
  numbered = refl;
  queue = sym items;
  no_push = refl;
  wrote = Wrote-nothing w h;
  others = λ j ne. refl;
}

if_self : {A : Type 0} (i : ℕ) (x y : A) → (if i == i then x else y) ≡ x
if_self i x y = ap (λ b. if b then x else y) ((==_iff i i).1 refl)

if_other : {A : Type 0} (i j : ℕ) (x y : A) → i ≢ j → (if i == j then x else y) ≡ y
if_other i j x y ne = ground arith

-- A response of the server's own.
Fits-own :
    (i : ℕ) (s : Server) (w : Writer) (text : Bytes)
    → w.calls_left ≡ none
    → Fits i s
        (record s { stid_counter = suc s.stid_counter })
        w
        (write_rri_frame w text).0
        (own i (suc s.stid_counter) text ∷ [])
unfolding gather count_up
Fits-own i s w text h = record {
  drawn = 1;
  counted = omega arith;
  numbered = refl;
  queue = refl;
  no_push = refl;
  wrote =
      let bytes = (write_rri_frame fresh text).0.written in
      subst (λ b. Wrote w (write_rri_frame w text).0 b) (sym (append-nil _ ∙ if_self i bytes []))
        (Wrote-frame w text h);
  others = λ j ne. append-nil _ ∙ if_other i j (write_rri_frame fresh text).0.written [] ne;
}

-- An item of the script.
Fits-took :
    (i : ℕ) (b : Bool) (s : Server) (w : Writer) (items : List Item)
    → s.expect ≡ items
    → w.calls_left ≡ none
    → let c = serve_script b w s items in Fits i s c.server w c.writer (first_taken i items)
unfolding gather count_up serve_script
Fits-took i b s w [] e h = Fits-nothing i s s w refl refl h
Fits-took i b s w (item ∷ items) e h = record {
  drawn = 0;
  counted = omega arith;
  numbered = refl;
  queue = e;
  no_push = refl;
  wrote =
      subst (λ b. Wrote w (dispatch w item).0 b)
        (sym (append-nil _ ∙ if_self i (item_bytes item) [])) (dispatch-Wrote w item h);
  others = λ j ne. append-nil _ ∙ if_other i j (item_bytes item) [] ne;
}

answer-Fits :
    (i : ℕ) (login logout accepted l : Bool) (w : Writer) (s : Server)
    → w.calls_left ≡ none
    → let c = answer login logout accepted l w s in
      Fits i s c.server w c.writer (answer_events i login accepted l s)
unfolding answer build_success_response build_failure_response
answer-Fits i false logout accepted false w s h =
    Fits-own i s w (own_text false accepted (suc s.stid_counter)) h
answer-Fits i true logout true l w s h = Fits-own i s w (own_text true true (suc s.stid_counter)) h
answer-Fits i true logout false l w s h =
    Fits-own i s w (own_text true false (suc s.stid_counter)) h
answer-Fits i false logout accepted true w s h = Fits-took i logout s w s.expect refl h

receive-stid_counter : (f : Bytes) (s : Server) → (receive f s).stid_counter ≡ s.stid_counter
unfolding receive
receive-stid_counter f s = ground arith

reading-Fits :
    (i : ℕ) (h : Handler) (s : Server)
    → h.writer.calls_left ≡ none
    → let m = advance_reading h s in Fits i s m.server h.writer m.handler.writer m.events
unfolding advance_reading
reading-Fits i h s clean = elim (Result-cases (read_rri_frame h.input)) [
  | inr (e, failed) ↦ rw (failed, advance_reading) (Fits-nothing i s s h.writer refl refl clean)
  | inl ((f, rest), read) ↦
      rw (read, advance_reading)
        (Fits-nothing i s (receive f s) h.writer (receive-stid_counter f s) (receive-expect f s)
          clean)
]

-- Whatever a handler does, its events say it.
pub advance-Fits :
    (i : ℕ) (p : Phase) (h : Handler) (s : Server)
    → h.writer.calls_left ≡ none
    → let m = advance i p h s in Fits i s m.server h.writer m.handler.writer m.events
unfolding advance
advance-Fits i closed h s clean = Fits-nothing i s s h.writer refl refl clean
advance-Fits i reading h s clean = reading-Fits i h s clean
advance-Fits i (captured frame) h s clean = Fits-nothing i s s h.writer refl refl clean
advance-Fits i (judged login logout accepted) h s clean =
    answer-Fits i login logout accepted h.logged_in h.writer s clean
