-- ===== src/Lib.antt =====
-- RustyAlias is a DNS server that answers for one zone and finds the addresses in the names
-- themselves: `7f000001.zone`, `127-0-0-1.zone`, `127.0.0.1.zone`. Its parts, and where they are
-- modelled:
--   * Query (src/dns/query.rs): reading the question, the zone test, the choice of a response.
--     `handle_query_internal` makes a response; `handle_query` is what one datagram gets.
--     Query/Node is the name of a question as a name of the zone. Query/Labels, RoundTrip, Encoded,
--     Zone, Handles, Authority, Address, Written, Served, Header, Explicit, Sends, Refines,
--     Outside, Denies, Reads and Datagram prove.
--   * Response (src/dns/response.rs): messages (`Msg`, `Rr`, `Owner`), Response/Emit for sections,
--     grouping and signatures, Response/Build for whole responses. The byte-level part of the same
--     file is in Wire (names, flags, the question) and Edns (the OPT record, the UDP limit).
--     Response/Packet describes a response by its header's fields; Sections, Layout, Start, Reply,
--     Builders, Replies, Apex, Address, Order and Truncate prove; Wire/Question, Zones and Encode too.
--     Response/Contents describes the records of a response as a lookup in a zone; its children prove.
--     Response/Read is how a client reads the records of a message; its children prove.
--   * Dnssec (src/dns/dnssec.rs): Key for keys, tags, DS and RRSIG, Names for canonical names,
--     Bitmap for NSEC, Hex and Digits for text, Load for reading a private key, Print for the DS text
--     and what a new key prints; Times, Signing, Fields, Validation, Load/RoundTrip, Print/Loads and the
--     children of Bitmap prove: Bits, Blocks, Fill, Sorting, Correct and Means for what one says.
--   * IpParser (src/dns/ip_parser.rs), on Net, the standard library's address parsers;
--     Hex, Case, Labels, Decimal, Hyphens and Bounds prove.
--   * RateLimit (src/rate_limit.rs): Buckets, Refines, Quota, Window and Invariant prove.
--   * Config (src/config.rs): the settings, Config/Environment for reading them; Valid proves.
--   * Server (src/main.rs): one round of each loop, Server/Start for `main` up to the loops,
--     Server/Steps for the rounds of both loops in any order; Rounds, Stops and Start/Runs prove.
--   * Text and Common: the standard library's text functions, and what all modules share.
-- The loops of Server take a request from `RateLimit.check` to `Query.handle_query`, that chooses a
-- builder of Response, that signs with Dnssec and writes with Wire and Edns.
--
-- How the code is read. Bytes and text are lists of native numbers; text holds its UTF-8 bytes.
-- Arithmetic that wraps or saturates in the code is written out. A function that can index, slice
-- or store out of range has a result in `Outcome`, whose `panic` is the panic of the code; only in
-- `question_section_end`, `parse_query_opt` and `truncated_header`, where the code tests the length
-- first, the read is `get_or` or `drop`, whose default is then never taken.
-- `parse_query` runs on fuel, the length of the query: each round takes a byte, so it is enough,
-- and the end of the fuel is `panic`. `lowercase_wire_name` and
-- `label_count` run on the length of the name in the same way.
-- The curve, the hash and the clock are not this program's code: they are the fields of
-- `Platform`, a parameter of everything that signs.
-- Time in RateLimit is an argument. Under the mutex each call of `check` is one step, but it reads the
-- clock before it takes the mutex, so the readings of the two threads may come in any order.
--
-- The decoders of private keys are not this program's code either: they are the fields of
-- `KeyCodec`. What `IsPlatform` and `IsKeyCodec` state is what the crates document. The environment
-- is a function from a name to a text, and a random key is an argument.
--
-- Not modelled: log lines; sockets beyond what one round reads and writes; threads beyond the order
-- of their rounds.
pub mod Common
pub mod Text
pub mod Net
pub mod IpParser
pub mod Wire
pub mod Edns
pub mod Dnssec
pub mod Response
pub mod Config
pub mod Query
pub mod RateLimit
pub mod Server
