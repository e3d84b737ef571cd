-- ===== src/Lib.antt =====
-- Verification of keenetic-rci, an asynchronous Rust client for the RCI interface of Keenetic routers.
--
-- The program. `src/client.rs` holds the client: it builds HTTP requests, sends them through
-- `reqwest`, answers the router's login challenge when a request comes back as 401, and reads the
-- JSON or the text of the answer. `src/auth.rs` makes the challenge response, `src/error.rs` the
-- errors, `src/path.rs` the paths, `src/request.rs` and `src/request/network_test.rs` the requests,
-- and `src/model.rs` with its children the types of the answers. A network test (ping, traceroute,
-- iPerf3) is started by a POST of a validated request and then read by polling.
--
-- The files.
--   Prelude       tests on numbers, lists, `Result`, bits, and texts. A `str` is the list of its
--                 scalar values, `as_bytes` its UTF-8 encoding, `from_utf8` the decoder. Pieces has
--                 `split` and `trim`, Words the machine integers, Optional the combinators of `Option`.
--   Json          a parsed JSON document, as `serde_json::Value` holds it.
--   Error         the types of src/error.rs, without the `source` values that are only displayed.
--   Auth          src/auth.rs: `encode_lower_hex`, `response_hash`. Auth/Hex is about the encoding.
--   Text          src/model/text.rs: `InlineAscii::parse` and the visitor of an optional text.
--                 Text/Parsing says which texts are taken and which error is reported.
--   OpenEnum      the enums of `open_string_enum!` (src/model.rs), which keep a text they do not know.
--   Classifiers   those enums with their texts, in children named for what they classify.
--   Imei          src/model/imei.rs. Imei/Luhn relates the checksum to the Luhn sum.
--   Identifiers   src/model/iccid.rs, imsi.rs, plmn.rs and reported.rs, with Digits and Reports.
--   Network       `NetworkHost` of src/model/network.rs, and the check that `string_identifier!` of
--                 src/model.rs shares with it. Mac is `MacAddress` (Spelling reads, Display shows),
--                 Readings the durations and rates of an answer (Times), Decimal the parser of
--                 decimal numbers (Fractions), Rates the link rates.
--   Hardware      src/model/hardware_id.rs, with Reading and Format.
--   Interfaces    the interface types of src/model.rs, with Broadband for what tells a mobile one.
--   Mobile        src/model/mobile.rs: the cell's identity (Cell), the carriers (Carriers) and the
--                 interface (Interface).
--   Clients       src/model/clients.rs with the records that it joins: Ordering is the sorted index,
--                 Joining merges the four answers, Lookup and Views read the result.
--   System        src/model/system.rs and system_mode.rs, with Supported.
--   Versions      src/model/version.rs and identification.rs, with Codes.
--   Mesh          src/model/mesh.rs, with Memory.
--   Storage       src/model/storage.rs.
--   Routes        src/model/routing.rs, connectivity.rs and interface_stat.rs.
--   Paths         src/path.rs: `parse`, with Segments.
--   NetworkTest   src/request/network_test.rs: the checks that the requests share, and one child for
--                 each of `Ping` (with `PingIpv6`), `Traceroute` and `Iperf3`. A builder chain is a
--                 list of setter calls, each of which can fail.
--   Client        src/client.rs. Inspect is the byte prefilter of response bodies, with Token, Scan,
--                 Filter and Tokens; Challenge is `parse_challenge`; Session is `Inner` with the login, with
--                 Generations, Traffic, Replies and Failures; Flight interleaves many calls of
--                 `authenticate`, with Single; Polling is `NetworkTestSession`, with Drain;
--                 Builder is `KeeneticClientBuilder`, with Address, Base and Origin; Responses reads an
--                 answer and searches it for RCI errors (Entries, Statuses, Decoding); Requests has the
--                 typed requests and the methods of `KeeneticClient` (Endpoints, Calls, Polls, Runs,
--                 Failures); Platform lists what is taken from other crates.
--   Cli           src/cli.rs: the router's command line, with Commands.
--   Examples      runs on concrete inputs.
--
-- State and operations. `Session.State` holds the fields of `Inner` that calls change (the cookie jar,
-- the atomic generation and the state behind the mutex), the world that the transport changes, and the
-- requests sent so far. A method of `Inner` is a function from this state to an outcome and a new
-- state: a value, an error, or the panic of an `expect`. There calls run one at a time; `Flight` has a
-- step relation on any number of tasks, in which a task can stop at each await point, be dropped there,
-- and see the atomic before it is stored. The generation is a `u64` with the wrap-around of
-- `wrapping_add` written out.
--
-- Code of other crates is a parameter: `Platform` for URLs, cookies, transport, digests and the JSON
-- text of the login, `Memchr` for the byte search, with the documented contract as laws; the digests
-- return 16 and 32 bytes where that matters. `Decoder` stands for serde_json: it reads the bytes
-- of a body. Where a theorem needs it, `ReadsTokens` says that a string of the document that it returns
-- stands in the body as a JSON string token. Parsing an IP address and showing one as text are
-- arguments, and so are percent encoding, URL parsing (`Urls`) and the making of a transport in the
-- builder.
--
-- Integers are natural numbers; an argument of a machine type comes with its bound, and the `u8` sum
-- of the IMEI and the `u16` fold of an escape wrap as in the code. Loops are structural. The scan for
-- quotes runs on fuel of one more than the length of the body, since each round drops at least the
-- quote that it finds; the loop of `collect` runs on fuel of two more than the number of replies, since
-- each round but the one for the pending output and the last takes a reply. There the replies are a
-- list; in Requests/Polls the same loops send their GETs through the session, and take any fuel.
--
-- Not modelled: the deserializers that `serde` derives, the measurements in floating point of
-- src/model/units.rs, time outs and the pause between polls, the transport itself, the
-- `Display` and `Debug` texts of errors, and the fairness of the mutex.
pub mod Prelude
pub mod Error
pub mod Json
pub mod OpenEnum
pub mod Classifiers
pub mod Auth
pub mod Text
pub mod Imei
pub mod Identifiers
pub mod Hardware
pub mod Network
pub mod System
pub mod Versions
pub mod Mesh
pub mod Storage
pub mod Routes
pub mod NetworkTest
pub mod Interfaces
pub mod Clients
pub mod Mobile
pub mod Paths
pub mod Cli
pub mod Client
pub mod Examples
