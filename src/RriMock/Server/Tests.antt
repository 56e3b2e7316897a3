-- ===== src/RriMock/Server/Tests.antt =====
-- Concrete connections, and the theorems at them.
use epp_test.Base.{◌≡◌, refl, Bool, true, false, List, [], ◌∷◌, arith}
use epp_test.Base.Text.{
  Bytes, codes, text_eq, to_upper, to_lower, trim_space, trim_left, trim_right, cut, split,
  lower_byte, upper_byte,
}
use epp_test.Frame.{fresh, write_rri_frame, write, read_rri_frame, read_full, get_u32, put_u32}
use epp_test.Base.Dict.{lookup, insert}
use epp_test.RriMock.Kv.{parse_kv, parse_lines, parse_line, first_field}
use epp_test.RriMock.Server.{
  Server, scripted, add_user, handle_conn, conn_loop, handle_frame, answer, build_failure_response,
  receive,
}
use epp_test.RriMock.Server.Script.{IsCommand, serve_frames-script}
use epp_test.RriMock.Server.{Conn}
use epp_test.RriMock.Server.Shared.{
  World, Reaches, here, next, start, moves, pushes, advance, gather, count_up, stid_of, taken_of,
  pushed_of, bytes_of,
}
use epp_test.RriMock.Server.Shared.Interleaved.{Reaches-shared}
use epp_test.Base.{ℕ, zero, suc, ◌-◌, ◌++◌}
use epp_test.RriMock.Server.Session.{wire, serve_frames, handle_conn_logged_out, handle_conn-wire}

abbrev server : Server
server =
    add_user (λ p. p) (codes "u") (codes "p")
      (record {
        expect = scripted (codes "RESULT: success\n") ∷ [];
        received = [];
        users = [];
        stid_counter = 0;
      })

abbrev login : Bytes
login = codes "action: LOGIN\nuser: u\npassword: p\n"

abbrev info : Bytes
info = codes "action: INFO\n"

handle_conn-wire_example :
    handle_conn (wire (info ∷ login ∷ info ∷ [])) fresh server
    ≡ serve_frames
        (info ∷ login ∷ info ∷ [])
        (record { serving = true; logged_in = false; writer = fresh; server = server })
handle_conn-wire_example =
    handle_conn-wire (info ∷ login ∷ info ∷ []) fresh server
      ((omega arith, omega arith), ((omega arith, omega arith), ((omega arith, omega arith), tt)))

answered : Bool × List Bytes
answered =
    let c = handle_conn (wire (info ∷ login ∷ info ∷ [])) fresh server in
    (c.logged_in, c.server.received)

still_out : (handle_conn (wire (info ∷ info ∷ [])) fresh server).logged_in ≡ false
unfolding handle_conn conn_loop handle_frame answer wire write_rri_frame write read_rri_frame
    read_full get_u32 put_u32 parse_kv parse_lines parse_line first_field lookup insert to_upper
    to_lower trim_space trim_left trim_right cut split text_eq build_failure_response receive
    add_user lower_byte upper_byte
still_out = refl

handle_conn_logged_out_example :
    (handle_conn (wire (info ∷ info ∷ [])) fresh server).server.expect ≡ server.expect
handle_conn_logged_out_example =
    handle_conn_logged_out (wire (info ∷ info ∷ [])) fresh server still_out

abbrev ready : Conn
ready = record { serving = true; logged_in = true; writer = fresh; server = server }

info-IsCommand : IsCommand info
unfolding parse_kv parse_lines parse_line first_field lookup insert to_upper to_lower trim_space
    trim_left trim_right cut split text_eq lower_byte upper_byte
info-IsCommand = (refl, refl)

serve_frames-script_example :
    ((serve_frames (info ∷ []) ready).writer.written
      ≡ fresh.written ++ wire (codes "RESULT: success\n" ∷ []))
    × ((serve_frames (info ∷ []) ready).server.expect ≡ [])
unfolding add_user
serve_frames-script_example =
    serve_frames-script (info ∷ []) (codes "RESULT: success\n" ∷ []) [] ready refl
      (info-IsCommand, tt) (refl, refl) refl

-- Two clients, the first of which logs in while the second one is rejected.
abbrev inputs : ℕ → Bytes
inputs zero = wire (login ∷ info ∷ [])
inputs (suc i) = wire (info ∷ [])

interleaved : (w : World) × Reaches (start server inputs) w
unfolding advance add_user
interleaved =
    let begun = next here (pushes (scripted info) (omega arith)) in
    let first = next (next (next begun (moves 0)) (moves 1)) (moves 1) in
    (_, next (next (next first (moves 0)) (moves 1)) (moves 0))

Reaches-shared_example :
    let w = interleaved.0 in
    (gather stid_of w.log
      ≡ count_up server.stid_counter (w.server.stid_counter - server.stid_counter))
    × (server.expect ++ gather pushed_of w.log ≡ gather taken_of w.log ++ w.server.expect)
    × ((i : ℕ) → (w.handlers i).writer.written ≡ gather (bytes_of i) w.log)
Reaches-shared_example = Reaches-shared interleaved.1
