-- ===== src/EppMock/Tests.antt =====
-- A concrete connection to the EPP mock server.
use epp_test.Base.{[], ◌∷◌, List}
use epp_test.Base.Text.{Bytes, codes}
use epp_test.Base.Int.{pos}
use epp_test.EppMock.{Server, scripted, malformed_frame, wrong_result_code}

abbrev server : Server
server = record {
  expect = scripted (codes "<a/>") ∷ malformed_frame ∷ wrong_result_code (pos 2302) ∷ [];
  received = [];
  polls = codes "<poll/>" ∷ [];
}

abbrev commands : List Bytes
commands = codes "<one/>" ∷ codes "<two/>" ∷ codes "<three/>" ∷ codes "<four/>" ∷ []
