-- ===== src/RriMock/Server/Shared/Interleaved.antt =====
-- What holds of the RRI mock server however its connections are interleaved.
use epp_test.Base.{
  ℕ, ◌+◌, ◌-◌, ◌≡◌, refl, sym, ap, ap₂, subst, ◌∙◌, [], ◌∷◌, ◌++◌, none, append-nil, append_assoc,
  ◌==◌, ◌≢◌, arith, inl, inr, Bool-cases, ==_iff, false,
}
use epp_test.Base.Text.{Bytes}
use epp_test.RriMock.Server.{Item, Server, add_user}
use epp_test.RriMock.Server.Shared.{
  Handler, pushed, World, Step, moves, ends, pushes, adds_user, receives, Reaches, here, next,
  start, update, advance, stid_of, taken_of, pushed_of, bytes_of, gather, count_up,
}
use epp_test.RriMock.Server.Shared.Moves.{gather-append, count_up-append, advance-Fits}

-- What the log says of a world that began with the server `s`.
record Told (s : Server) (w : World) : Type 0 where
  drawn : ℕ
  counted : w.server.stid_counter ≡ s.stid_counter + drawn
  numbered : gather stid_of w.log ≡ count_up s.stid_counter drawn
  queue : s.expect ++ gather pushed_of w.log ≡ gather taken_of w.log ++ w.server.expect
  is_open : (i : ℕ) → (w.handlers i).writer.calls_left ≡ none
  written : (i : ℕ) → (w.handlers i).writer.written ≡ gather (bytes_of i) w.log

-- A step that neither logs nor writes.
Told-quiet :
    {s : Server} {w : World} (s' : Server) (handlers : ℕ → Handler)
    → s'.stid_counter ≡ w.server.stid_counter
    → s'.expect ≡ w.server.expect
    → ((i : ℕ) → (handlers i).writer ≡ (w.handlers i).writer)
    → Told s w
    → Told s (record { server = s'; handlers = handlers; log = w.log })
Told-quiet {w} s' handlers counter items same t = record {
  drawn = t.drawn;
  counted = counter ∙ t.counted;
  numbered = t.numbered;
  queue = t.queue ∙ ap (λ l. gather taken_of w.log ++ l) (sym items);
  is_open = λ i. ap (λ v. v.calls_left) (same i) ∙ t.is_open i;
  written = λ i. ap (λ v. v.written) (same i) ∙ t.written i;
}

update-writer :
    (handlers : ℕ → Handler) (i : ℕ) (h : Handler)
    → h.writer ≡ (handlers i).writer
    → (j : ℕ) → (update handlers i h j).writer ≡ (handlers j).writer
update-writer handlers i h e j = elim (Bool-cases (i == j)) [
  | inl same ↦ rw same (e ∙ ap (λ k. (handlers k).writer) ((==_iff i j).0 same))
  | inr other ↦ rw other refl
]

differs : (i j : ℕ) → (i == j) ≡ false → i ≢ j
differs i j h = ground arith

Told-moves :
    {s : Server} {w : World} (i : ℕ)
    → Told s w
    → let m = advance i (w.handlers i).phase (w.handlers i) w.server in
      Told s (record {
        server = m.server;
        handlers = update w.handlers i m.handler;
        log = w.log ++ m.events;
      })
Told-moves {s} {w} i t =
    let h = w.handlers i in
    let m = advance i h.phase h w.server in
    let fits = advance-Fits i h.phase h w.server (t.is_open i) in
    record {
      drawn = t.drawn + fits.drawn;
      counted = omega (arith, fits.counted, t.counted);
      numbered =
          gather-append stid_of w.log m.events
          ∙ ap₂ ◌++◌ t.numbered (fits.numbered ∙ ap (λ n. count_up n fits.drawn) t.counted)
          ∙ count_up-append s.stid_counter t.drawn fits.drawn;
      queue =
          ap (λ l. s.expect ++ l)
            (gather-append pushed_of w.log m.events
              ∙ ap (λ l. gather pushed_of w.log ++ l) fits.no_push
              ∙ append-nil _)
          ∙ t.queue
          ∙ ap (λ l. gather taken_of w.log ++ l) fits.queue
          ∙ sym (append_assoc (gather taken_of w.log) (gather taken_of m.events) m.server.expect)
          ∙ ap (λ l. l ++ m.server.expect) (sym (gather-append taken_of w.log m.events));
      is_open = λ j. elim (Bool-cases (i == j)) [
        | inl same ↦ rw same fits.wrote.is_open
        | inr other ↦ rw other (t.is_open j)
      ];
      written = λ j. elim (Bool-cases (i == j)) [
        | inl same ↦ rw same (
            subst (λ k. m.handler.writer.written ≡ gather (bytes_of k) (w.log ++ m.events))
              ((==_iff i j).0 same)
              (fits.wrote.behind
                ∙ ap (λ l. l ++ gather (bytes_of i) m.events) (t.written i)
                ∙ sym (gather-append (bytes_of i) w.log m.events)))
        | inr other ↦ rw other (
            t.written j
            ∙ sym (
                gather-append (bytes_of j) w.log m.events
                ∙ ap (λ l. gather (bytes_of j) w.log ++ l) (fits.others j (differs i j other))
                ∙ append-nil _))
      ];
    }

Told-pushes :
    {s : Server} {w : World} (item : Item)
    → Told s w
    → Told s (record w {
      server = record w.server { expect = w.server.expect ++ (item ∷ []) };
      log = w.log ++ (pushed item ∷ []);
    })
unfolding gather
Told-pushes {s} {w} item t =
    let unseen = λ (i : ℕ). gather-append (bytes_of i) w.log (pushed item ∷ []) ∙ append-nil _ in
    record {
      drawn = t.drawn;
      counted = t.counted;
      numbered = gather-append stid_of w.log (pushed item ∷ []) ∙ append-nil _ ∙ t.numbered;
      queue =
          ap (λ l. s.expect ++ l) (gather-append pushed_of w.log (pushed item ∷ []))
          ∙ sym (append_assoc s.expect _ _)
          ∙ ap (λ l. l ++ (item ∷ [])) t.queue
          ∙ append_assoc (gather taken_of w.log) w.server.expect (item ∷ [])
          ∙ ap (λ l. l ++ (w.server.expect ++ (item ∷ [])))
              (sym (gather-append taken_of w.log (pushed item ∷ []) ∙ append-nil _));
      is_open = t.is_open;
      written = λ i. t.written i ∙ sym (unseen i);
    }

Step-Told : {s : Server} {w w' : World} → Step w w' → Told s w → Told s w'
unfolding add_user
Step-Told (moves i) t = Told-moves i t
Step-Told {w} (ends i) t = Told-quiet w.server _ refl refl (update-writer w.handlers i _ refl) t
Step-Told (pushes item room) t = Told-pushes item t
Step-Told {w} (adds_user md5_hex user password) t =
    Told-quiet (add_user md5_hex user password w.server) w.handlers refl refl (λ i. refl) t
Step-Told {w} (receives frame frames e) t =
    Told-quiet (record w.server { received = frames }) w.handlers refl refl (λ i. refl) t

Told-start : (s : Server) (inputs : ℕ → Bytes) → Told s (start s inputs)
unfolding gather count_up
Told-start s inputs = record {
  drawn = 0;
  counted = omega arith;
  numbered = refl;
  queue = append-nil s.expect;
  is_open = λ i. refl;
  written = λ i. refl;
}

Reaches-Told : {s : Server} {inputs : ℕ → Bytes} {w : World} → Reaches (start s inputs) w → Told s w
Reaches-Told {s} {inputs} here = Told-start s inputs
Reaches-Told (next r st) = Step-Told st (Reaches-Told r)

-- However the handlers of the connections, the test and its pushes are interleaved, over
-- connections that take all writes: the responses that the server makes itself bear consecutive
-- STIDs in the order in which they are made, so that no two bear the same, on whatever connections;
-- the items of the script are taken in the order in which they were pushed, each once; and each
-- client gets the responses and the items of its own connection, in their order, and nothing else.
pub Reaches-shared :
    {s : Server} {inputs : ℕ → Bytes} {w : World}
    → Reaches (start s inputs) w
    → (gather stid_of w.log ≡ count_up s.stid_counter (w.server.stid_counter - s.stid_counter))
      × (s.expect ++ gather pushed_of w.log ≡ gather taken_of w.log ++ w.server.expect)
      × ((i : ℕ) → (w.handlers i).writer.written ≡ gather (bytes_of i) w.log)
Reaches-shared {s} {w} r =
    let t = Reaches-Told r in
    let many : t.drawn ≡ w.server.stid_counter - s.stid_counter = omega (arith, t.counted) in
    (t.numbered ∙ ap (count_up s.stid_counter) many, t.queue, t.written)
