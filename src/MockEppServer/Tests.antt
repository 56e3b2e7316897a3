-- ===== src/MockEppServer/Tests.antt =====
-- Concrete commands to the standalone EPP mock server.
use epp_test.Base.{
  arith, List, Option, none, some, ltb, if◌then◌else◌, inl, ◌++◌, ◌≡◌, refl, ◌∷◌, [], true, false,
}
use epp_test.Base.Text.{Bytes, codes, text_eq, split, trim_space, trim_left, trim_right}
use epp_test.Base.Result.{ok}
use epp_test.Frame.{fresh, read_frame}
use epp_test.Fault.{FaultProfile, no_faults}
use epp_test.Fault.Engine.{on_connect}
use epp_test.MockEppServer.{run_session}
use epp_test.Base.Int.{pos}
use epp_test.EppMock.Sent.{framed}
use epp_test.EppMock.Stream.{wire}
use epp_test.MockEppServer.Dialogue.{answers, run_session-answers}
use epp_test.Base.Text.Laws.{join}
use epp_test.MockEppServer.Sans
use epp_test.MockEppServer.Sans.{
  split_sans, cert_names, addresses, other_names, cert_names-split_sans,
}
use epp_test.MockEppServer.Greets.{run_session-greets_first}
use epp_test.MockEppServer.Text.{
  has_element, opens, at_element, find_element, strip_prefix, skip_namespace, skip_name,
  is_name_start, is_name_char, ends_name, echo_cl_trid, cl_trid_text, up_to_end_tag,
  extract_domain_names, names_loop, split_at, after_last_gt, add_segment, add_name, is_seen,
}
use epp_test.MockEppServer.Answers.{
  resp_2000, Clock, greeting, completed, build_resp, domain_check_resp, or_example,
}
use epp_test.MockEppServer.Echo.{echo_cl_trid-responses, IsPlain-checked, is_plain}
use epp_test.MockEppServer.Names.{extract_domain_names-domain_check_resp}

abbrev check_command : Bytes
check_command =
    codes
      "<epp:command><check><domain:check><domain:name>a.de</domain:name><domain:name>b.de</domain:name><domain:name>a.de</domain:name></domain:check></check><epp:clTRID>gsd-7</epp:clTRID></epp:command>"

-- The elements are found under any prefix, and only as whole names.
prefixes :
    (has_element (codes "login") (codes "<epp:login>") ≡ true)
    × (has_element (codes "login") (codes "<logins>") ≡ false)
unfolding has_element opens at_element find_element strip_prefix skip_namespace skip_name
    is_name_start is_name_char ends_name
prefixes = (refl, refl)

echoed : echo_cl_trid check_command ≡ codes "gsd-7"
unfolding echo_cl_trid cl_trid_text up_to_end_tag at_element find_element strip_prefix
    skip_namespace skip_name is_name_start is_name_char
echoed = refl

-- A command with an ID, of which the front is given.
abbrev command_front : Bytes
command_front = codes "<?xml version=\"1.0\"?><epp><command><info><domain:info/></info>"

echo_cl_trid-responses_example :
    (echo_cl_trid (
        command_front
        ++ (codes "<clTRID>" ++ (codes "A-1" ++ (codes "</clTRID>" ++ codes "</command></epp>"))))
      ≡ codes "A-1")
    × (echo_cl_trid (build_resp 1000 completed (codes "A-1") 4) ≡ codes "A-1")
    × (echo_cl_trid (resp_2000 4) ≡ [])
    × (echo_cl_trid (domain_check_resp check_command 4) ≡ [])
unfolding find_element at_element skip_namespace skip_name is_name_char is_name_start strip_prefix
    cl_trid_text is_plain extract_domain_names names_loop split_at after_last_gt add_segment
    add_name is_seen text_eq trim_space trim_left trim_right or_example
echo_cl_trid-responses_example =
    echo_cl_trid-responses command_front (codes "A-1") (codes "</command></epp>") completed
      check_command 1000 4 (λ t. refl) (IsPlain-checked (codes "A-1") refl)
      (IsPlain-checked completed refl)
      (IsPlain-checked (codes "a.de") refl, (IsPlain-checked (codes "b.de") refl, tt))

names_found : extract_domain_names check_command ≡ codes "a.de" ∷ codes "b.de" ∷ []
unfolding extract_domain_names names_loop split_at strip_prefix after_last_gt add_segment add_name
    is_seen text_eq trim_space trim_left trim_right
names_found = refl

extract_domain_names-domain_check_resp_example :
    extract_domain_names (domain_check_resp check_command 4)
    ≡ or_example (extract_domain_names check_command)
unfolding extract_domain_names names_loop split_at strip_prefix after_last_gt add_segment add_name
    is_seen text_eq trim_space trim_left trim_right
extract_domain_names-domain_check_resp_example =
    extract_domain_names-domain_check_resp check_command 4 (
      record {
        no_lt = (refl, (refl, (refl, (refl, tt))));
        no_gt = (refl, (refl, (refl, (refl, tt))));
        trimmed = refl;
      },
      (
        record {
          no_lt = (refl, (refl, (refl, (refl, tt))));
          no_gt = (refl, (refl, (refl, (refl, tt))));
          trimmed = refl;
        },
        tt,
      ),
    )

abbrev clock : Clock
clock = record { now = codes "2026-01-01T00:00:00Z"; in_a_year = codes "2027-01-01T00:00:00Z" }

run_session-greets_first_example :
    (rest : Bytes) × (read_frame
        (run_session clock no_faults (codes "anything") fresh 0).writer.written
      ≡ ok (greeting clock, rest))
unfolding greeting on_connect text_eq
run_session-greets_first_example =
    run_session-greets_first clock no_faults (codes "anything") 0 refl (omega arith)

abbrev flapping : FaultProfile
flapping = record no_faults { login_mode = codes "flap"; login_fail_count = pos 1 }

abbrev dialogue : List Bytes
dialogue = codes "<login>" ∷ codes "<login>" ∷ codes "host:x" ∷ codes "<logout/>" ∷ []

run_session-answers_example :
    (run_session clock flapping (wire dialogue) fresh 6).writer.written
    ≡ framed (greeting clock) ++ answers clock 1 6 dialogue
run_session-answers_example =
    run_session-answers clock flapping 1 dialogue 6
      (record {
        keeps_on = refl;
        never_after = refl;
        no_rules = refl;
        no_mismatch = refl;
        well_formed = refl;
        logins = inl (refl, refl);
      })
      (omega arith, (omega arith, (omega arith, (omega arith, tt))))

-- A text that begins with a digit is an address.
abbrev parse_ip : Bytes → Option Bytes
parse_ip [] = none
parse_ip (c ∷ cs) = if ltb c b'a' then some (c ∷ cs) else none

sans-IsEntry : Sans.IsEntry (codes "mock-epp") × Sans.IsEntry (codes "10.0.0.1")
unfolding trim_left trim_right
sans-IsEntry = (
  record {
    trimmed = record { left = refl; right = refl };
    some_text = λ e. cc;
    no_comma = omega arith;
  },
  record {
    trimmed = record { left = refl; right = refl };
    some_text = λ e. cc;
    no_comma = omega arith;
  },
)

cert_names-split_sans_example :
    cert_names parse_ip
      (codes "127.0.0.1")
      (split_sans (join b',' (codes "mock-epp" ∷ codes "10.0.0.1" ∷ [])))
    ≡ record {
      ip_addresses =
          codes "127.0.0.1" ∷ addresses parse_ip (codes "mock-epp" ∷ codes "10.0.0.1" ∷ []);
      dns_names =
          codes "localhost" ∷ other_names parse_ip (codes "mock-epp" ∷ codes "10.0.0.1" ∷ []);
    }
cert_names-split_sans_example =
    cert_names-split_sans parse_ip (codes "127.0.0.1") (codes "mock-epp") (codes "10.0.0.1" ∷ [])
      (sans-IsEntry.0, (sans-IsEntry.1, tt))

two_names : split_sans (codes " mock-epp, ,b") ≡ codes "mock-epp" ∷ codes "b" ∷ []
unfolding split_sans split trim_space trim_left trim_right text_eq
two_names = refl
