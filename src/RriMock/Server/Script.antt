-- ===== src/RriMock/Server/Script.antt =====
-- The script of the RRI mock server: the channel `Expect` against the commands of a client.
use epp_test.Base.{
  ◌≡◌, refl, sym, ap, ◌∙◌, Bool, true, false, ◌&&◌, List, [], ◌∷◌, ◌++◌, map, append-nil,
  append_assoc, arith, length, none, All, if◌then◌else◌,
}
use epp_test.Base.Text.{Bytes, codes, text_eq, to_upper}
use epp_test.Frame.{Writer, fresh, write_rri_frame}
use epp_test.Frame.RoundTrip.{write_rri_frame-open, write_rri_frame-written}
use epp_test.RriMock.Kv.{parse_kv, first_field}
use epp_test.RriMock.Server.{
  Item, scripted, Server, Conn, receive, dispatch, serve_script, answer, handle_frame,
}
use epp_test.RriMock.Server.Session.{wire, serve_frames, receive-expect}

-- A frame whose action is neither LOGIN nor LOGOUT.
abbrev pub IsCommand : Bytes → Type 0
IsCommand f =
    (text_eq (to_upper (first_field (parse_kv f) (codes "action"))) (codes "LOGIN") ≡ false)
    × (text_eq (to_upper (first_field (parse_kv f) (codes "action"))) (codes "LOGOUT") ≡ false)

-- A connection that is logged in and takes all its writes.
abbrev pub IsReady : Conn → Type 0
IsReady c = (c.logged_in ≡ true) × (c.writer.calls_left ≡ none)

write_rri_frame-fresh :
    (w : Writer) (bs : Bytes)
    → w.calls_left ≡ none
    → (write_rri_frame w bs).0.written ≡ w.written ++ (write_rri_frame fresh bs).0.written
write_rri_frame-fresh w bs h =
    (write_rri_frame-written w bs h).0
    ∙ ap (λ t. w.written ++ t) (sym (write_rri_frame-written fresh bs refl).0)

handle_frame-command :
    (f : Bytes) (l : Bool) (w : Writer) (s : Server) (items : List Item)
    → IsCommand f
    → l ≡ true
    → s.expect ≡ items
    → handle_frame f l w s ≡ serve_script false w (receive f s) items
unfolding handle_frame answer
handle_frame-command f l w s items (not_in, not_out) in_ e =
    rw (not_in, not_out, in_) (ap (serve_script false w (receive f s)) (receive-expect f s ∙ e))

dispatch-scripted :
    (w : Writer) (b : Bytes)
    → w.calls_left ≡ none
    → ((dispatch w (scripted b)).1 ≡ true)
      × ((dispatch w (scripted b)).0.calls_left ≡ none)
      × ((dispatch w (scripted b)).0.written ≡ w.written ++ (write_rri_frame fresh b).0.written)
unfolding dispatch
dispatch-scripted w b h =
    let (still_open, sent) = write_rri_frame-open w b h in
    (rw (sent, dispatch) refl, still_open, write_rri_frame-fresh w b h)

-- One command with an item of the script in front of the others.
command_answered :
    (f b : Bytes) (c : Conn) (items : List Item)
    → IsCommand f
    → IsReady c
    → c.server.expect ≡ scripted b ∷ items
    → let c' = handle_frame f c.logged_in c.writer c.server in
      (c'.serving ≡ true)
      × IsReady c'
      × (c'.writer.written ≡ c.writer.written ++ (write_rri_frame fresh b).0.written)
      × (c'.server.expect ≡ items)
unfolding serve_script
command_answered f b c items command (in_, open_end) e =
    let same =
      handle_frame-command f c.logged_in c.writer c.server (scripted b ∷ items) command in_ e in
    let (sent, still_open, written) = dispatch-scripted c.writer b open_end in
    (
      ap (λ x. x.serving) same ∙ ap (λ x. x && true) sent,
      (ap (λ x. x.logged_in) same, ap (λ x. x.writer.calls_left) same ∙ still_open),
      ap (λ x. x.writer.written) same ∙ written,
      ap (λ x. x.server.expect) same,
    )

-- A client that is logged in and sends commands, none of them a LOGIN or a LOGOUT, over a
-- connection that takes all writes, with at least as many scripted responses in front of the queue:
-- it gets these, one for each command and in their order, and nothing else, and the items behind
-- them stay in the queue.
pub serve_frames-script :
    (fs replies : List Bytes) (rest : List Item) (c : Conn)
    → length fs ≡ length replies
    → All IsCommand fs
    → IsReady c
    → c.server.expect ≡ map scripted replies ++ rest
    → ((serve_frames fs c).writer.written ≡ c.writer.written ++ wire replies)
      × ((serve_frames fs c).server.expect ≡ rest)
unfolding serve_frames wire
serve_frames-script [] [] rest c same commands ready e = (sym (append-nil c.writer.written), e)
serve_frames-script [] (b ∷ replies) rest c same commands ready e = absurd (omega (arith, same))
serve_frames-script (f ∷ fs) [] rest c same commands ready e = absurd (omega (arith, same))
serve_frames-script (f ∷ fs) (b ∷ replies) rest c same (command, commands) ready e =
    let (on, ready', written, left) =
      command_answered f b c (map scripted replies ++ rest) command ready e in
    let c' = handle_frame f c.logged_in c.writer c.server in
    let (later, kept) =
      serve_frames-script fs replies rest c' (omega (arith, same)) commands ready' left in
    let goes_on : serve_frames (f ∷ fs) c ≡ serve_frames fs c' =
      ap (λ b. if b then serve_frames fs c' else c') on in
    (
      ap (λ x. x.writer.written) goes_on
          ∙ later
          ∙ ap (λ t. t ++ wire replies) written
          ∙ append_assoc c.writer.written _ (wire replies),
      ap (λ x. x.server.expect) goes_on ∙ kept,
    )
