-- ===== src/Lib.antt =====
-- The model of epp-test, a toolkit that runs EPP and RRI test scenarios against registrars and
-- ships mock servers for both protocols.
--
-- The parts and the files that model them:
--   Frame       pkg/epp/frame/frame.go and pkg/mock/rri/frame.go: ReadFrame, WriteFrame,
--               ReadRRIFrame, WriteRRIFrame. A reader is the bytes that arrive before the end of
--               the connection; a writer keeps what was written and how many Write calls still
--               succeed.
--   Fault       pkg/fault: FaultProfile with ParseDurations and LoadProfile, and in Fault/Engine
--               the FaultEngine with one function for each of its methods, the engine being
--               passed on.
--   Registrar   pkg/registrar: the data types, the interface Registrar as a record of operations
--               over a state of the implementation, in Registrar/Validate validate.go, and in
--               Registrar/Errors the methods of EPPError. The dynamic values (map[string]any) of
--               YAML and JSON are Registrar/Value.
--   Runner      pkg/runner: Params is deepMerge, interpolateParams and injectRunIDPrefix; Executor
--               the opTable; Expect is assertExpect; Poll is execWaitForPoll; Scenario is
--               RunScenario with the function that it hands to t.Cleanup, Matrix RunMatrix with
--               the collector of results, and Directory RunDir with LoadScenario. Scenario calls
--               the other four, in the order of the source, on a Registrar that is a parameter.
--   EppXml      pkg/epp/xml: the messages of EPP as records; their XML is left to the library.
--   EppAdapter  pkg/registrar/epp: Connect is connect.go and the exchange of a command; Domain,
--               Contact, Host and Messages are the methods of adapter.go, Params the checks of
--               their parameters. A run takes the adapter and the network and ends in success, an
--               error or a panic. Calls is the relation of the states that calls of methods lead to,
--               Session the laws that each access to the connection keeps; Tls is buildTLSConfig,
--               and Secured the dial under its configuration.
--   RriAdapter  pkg/registrar/rri/adapter.go as a Registrar, over the client library go-rriclient;
--               Commands holds the methods, Refused the calls that a refusing server answers.
--   Registrars  pkg/registrar/internetx, nicat and eurid: the EPP adapter with their hooks.
--   Config      pkg/config: RegistrarConfig, the validation of a configuration, and in Config/Load
--               Load over viper.
--   Report      pkg/report: the contents of the JUnit report and the text report, and the formats.
--   MockRriServer  cmd/mock-rri-server/main.go: the handler of a connection over the fault engine,
--               the RRI frames and messages, and the profile with its flags.
--   MockEppServer  cmd/mock-epp-server/main.go: the handler of a connection over the fault engine;
--               Text finds elements and names in a command, Answers builds the responses, Sans the
--               names of the certificate.
--   Together    the network of EppAdapter is a handler of MockEppServer: a client and a server.
--   EppMock     pkg/mock/epp: the handler of a connection with its script and poll queue.
--   RriMock     pkg/mock/rri: Kv is ParseKV, FormatKV and firstField; Server the handler of a
--               connection, over the frames of Frame; Server/Shared the handlers of all connections
--               over one server, interleaved by their accesses to it.
--   Base        names and lemmas that the parts share: numbers, lists, byte texts, maps, results.
--
-- Conventions. Go strings and byte slices are lists of numbers; ToLower, ToUpper and TrimSpace are
-- those of ASCII. Maps are association lists, and the order of a map's range loop is the order of
-- the list. Errors are values of data types, their texts left out. A Go error next to a value is
-- a pair; the state of a registrar is passed on through its calls.
--
-- Fuel and bounds. The loops of the four handlers of connections run on fuel, the length of the
-- input and one more; every frame takes at least four bytes. The scan for names runs on the length
-- of the command. The wait for a poll message runs for as many rounds as the clock allows, which
-- is a parameter. The uint32 of a frame header wraps as in the source. The
-- counters of the fault engine, of the STIDs and of the transaction IDs are not bounded.
--
-- Parameters: the JSON form of a result, mapstructure, fmt.Sscan, time.ParseDuration, the clock,
-- the YAML decoder and the file system, MD5, the run ID, and the registrar behind the runner; for
-- the adapters the network with TLS, the XML library, idna, go-rriclient, net.ParseIP, time.Parse,
-- viper, the readers of certificates, and the hooks of the registrars.
--
-- Not modelled: the JSON and HTML encoding of the reports, the TLS protocol, the signing of
-- certificates, and the listeners of the servers, all calls of libraries. Times and delays do not
-- show in the results.
-- Concurrent connections are interleaved for the in-process RRI server; the other servers are
-- modelled one connection at a time.
pub mod Base
pub mod Frame
pub mod Fault
pub mod Registrar
pub mod Runner
pub mod Together
pub mod RriMock
pub mod MockRriServer
pub mod RriAdapter
pub mod Report
pub mod Config
pub mod Registrars
pub mod EppXml
pub mod EppAdapter
pub mod EppMock
pub mod MockEppServer
