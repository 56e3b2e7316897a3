-- ===== src/RriMock/Kv/Tests.antt =====
-- A concrete message, and the theorem at it.
use epp_test.Base.{◌≡◌, refl, List, [], ◌∷◌, arith}
use epp_test.Base.Text.{
  Bytes, codes, split, text_eq, to_lower, lower_byte, trim_space, trim_left, trim_right, cut,
}
use epp_test.Base.Dict.{Dict, lookup, insert}
use epp_test.RriMock.Kv.{values, parse_kv, parse_lines, parse_line, first_field}
use epp_test.RriMock.Kv.{format_kv}
use epp_test.RriMock.Kv.RoundTrip.{IsKey, IsValue, parse_kv-format_kv}

abbrev update : Bytes
update = codes "Action: UPDATE\n\nnserver: a:1\n nonsense\nNServer:b\n"

name_servers :
    (values (parse_kv update) (codes "nserver") ≡ codes "a:1" ∷ codes "b" ∷ [])
    × (first_field (parse_kv update) (codes "ACTION") ≡ codes "UPDATE")
unfolding parse_kv parse_lines parse_line first_field lookup insert to_lower lower_byte trim_space
    trim_left trim_right cut split text_eq
name_servers = (refl, refl)

abbrev message : Dict (List Bytes)
message = (codes "nserver", codes "a:1" ∷ codes "b" ∷ []) ∷ (codes "info", codes "x y" ∷ []) ∷ []

nserver-IsKey : IsKey (codes "nserver")
unfolding trim_left trim_right to_lower lower_byte
nserver-IsKey = record {
  trimmed = record { left = refl; right = refl };
  some_text = λ e. cc;
  lower = refl;
  no_colon = omega arith;
  one_line = omega arith;
}

info-IsKey : IsKey (codes "info")
unfolding trim_left trim_right to_lower lower_byte
info-IsKey = record {
  trimmed = record { left = refl; right = refl };
  some_text = λ e. cc;
  lower = refl;
  no_colon = omega arith;
  one_line = omega arith;
}

message-values : IsValue (codes "a:1") × IsValue (codes "b") × IsValue (codes "x y")
unfolding trim_left trim_right
message-values = (
  record { trimmed = record { left = refl; right = refl }; one_line = omega arith },
  record { trimmed = record { left = refl; right = refl }; one_line = omega arith },
  record { trimmed = record { left = refl; right = refl }; one_line = omega arith },
)

parse_kv-format_kv_example :
    values (parse_kv (format_kv message)) (codes "info") ≡ values message (codes "info")
parse_kv-format_kv_example =
    parse_kv-format_kv message (codes "info")
      (
        (nserver-IsKey, (message-values.0, (message-values.1, tt))),
        ((info-IsKey, (message-values.2, tt)), tt),
      )
      ((λ e. cc, tt), (tt, tt))
