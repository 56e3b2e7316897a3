-- ===== src/MockEppServer/Answers.antt =====
-- The messages that cmd/mock-epp-server/main.go builds; `n` is the number of the transaction.
use epp_test.Base.{ℕ, List, [], ◌∷◌, ◌++◌}
use epp_test.Base.Text.{Bytes, codes}
use epp_test.Base.Decimal.{decimal}
use epp_test.MockEppServer.Text.{extract_domain_names}

-- The time, and the time in a year, in the format RFC 3339.
pub record Clock : Type 0 where
  pub now : Bytes
  pub in_a_year : Bytes

abbrev pub xml_head : Bytes
xml_head =
    codes
      "<?xml version=\"1.0\" encoding=\"UTF-8\" standalone=\"no\"?><epp xmlns=\"urn:ietf:params:xml:ns:epp-1.0\">"

abbrev pub completed : Bytes
completed = codes "Command completed successfully"

-- `greeting`
unfoldable pub greeting : Clock → Bytes
greeting clock =
    xml_head
    ++ (codes "<greeting><svID>Mock EPP Server</svID><svDate>"
        ++ (clock.now
            ++ codes
                "</svDate><svcMenu><version>1.0</version><lang>en</lang><objURI>urn:ietf:params:xml:ns:domain-1.0</objURI><objURI>urn:ietf:params:xml:ns:contact-1.0</objURI><objURI>urn:ietf:params:xml:ns:host-1.0</objURI></svcMenu></greeting></epp>"))

-- `clTRIDElem`
unfoldable pub cl_trid_element : Bytes → Bytes
cl_trid_element [] = []
cl_trid_element (c ∷ cs) = codes "<clTRID>" ++ ((c ∷ cs) ++ codes "</clTRID>")

-- The end of a response.
unfoldable pub response_end : Bytes → ℕ → Bytes
unfolding cl_trid_element
response_end cl_trid n =
    codes "<trID>"
    ++ (cl_trid_element cl_trid
        ++ (codes "<svTRID>mock-" ++ (decimal n ++ codes "</svTRID></trID></response></epp>")))

-- `buildResp`
unfoldable pub build_resp : ℕ → Bytes → Bytes → ℕ → Bytes
unfolding response_end
build_resp code message cl_trid n =
    xml_head
    ++ (codes "<response><result code=\""
        ++ (decimal code
            ++ (codes "\"><msg>"
                ++ (message ++ (codes "</msg></result>" ++ response_end cl_trid n)))))

-- `resp1000`, `resp1500` and `resp2000`.
unfoldable pub resp_1000 : Bytes → ℕ → Bytes
unfolding build_resp
resp_1000 cl_trid n = build_resp 1000 completed cl_trid n

unfoldable pub resp_1500 : Bytes → ℕ → Bytes
unfolding build_resp
resp_1500 cl_trid n =
    build_resp 1500 (codes "Command completed successfully; ending session") cl_trid n

unfoldable pub resp_2000 : ℕ → Bytes
unfolding build_resp
resp_2000 n = build_resp 2000 (codes "Unknown command") [] n

abbrev pub success_head : Bytes
success_head =
    xml_head
    ++ codes "<response><result code=\"1000\"><msg>Command completed successfully</msg></result>"

-- `domainMismatchCreDataResp`
unfoldable pub domain_mismatch_resp : Clock → Bytes → ℕ → Bytes
unfolding response_end
domain_mismatch_resp clock cl_trid n =
    success_head
    ++ (codes
          "<resData><domain:creData xmlns:domain=\"urn:ietf:params:xml:ns:domain-1.0\"><domain:name>mismatch-sentinel.example</domain:name><domain:crDate>"
        ++ (clock.now
            ++ (codes "</domain:crDate><domain:exDate>"
                ++ (clock.in_a_year
                    ++ (codes "</domain:exDate></domain:creData></resData>"
                        ++ response_end cl_trid n)))))

-- `contactMismatchCreDataResp`
unfoldable pub contact_mismatch_resp : Clock → Bytes → ℕ → Bytes
unfolding response_end
contact_mismatch_resp clock cl_trid n =
    success_head
    ++ (codes
          "<resData><contact:creData xmlns:contact=\"urn:ietf:params:xml:ns:contact-1.0\"><contact:id>MISMATCH-C</contact:id><contact:crDate>"
        ++ (clock.now
            ++ (codes "</contact:crDate></contact:creData></resData>" ++ response_end cl_trid n)))

-- The loop over the names of a check.
unfoldable pub cd_items : List Bytes → Bytes
cd_items [] = []
cd_items (name ∷ names) =
    codes "<domain:cd><domain:name avail=\"1\">"
    ++ (name ++ (codes "</domain:name></domain:cd>" ++ cd_items names))

-- The default name, where a check has none.
unfoldable pub or_example : List Bytes → List Bytes
or_example [] = codes "example.com" ∷ []
or_example (name ∷ names) = name ∷ names

-- `domainCheckResp`
unfoldable pub domain_check_resp : Bytes → ℕ → Bytes
unfolding cd_items or_example
domain_check_resp xml n =
    success_head
    ++ (codes "<resData><domain:chkData xmlns:domain=\"urn:ietf:params:xml:ns:domain-1.0\">"
        ++ (cd_items (or_example (extract_domain_names xml))
            ++ (codes "</domain:chkData></resData><trID><svTRID>mock-"
                ++ (decimal n ++ codes "</svTRID></trID></response></epp>"))))
