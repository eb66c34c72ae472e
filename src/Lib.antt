-- ===== src/Lib.antt =====
-- Verification of nawala-checker: the Go package in src/nawala, which asks DNS servers whether a domain is
-- blocked, and the command line tool in internal/cli, which reads domains and writes the results.
--
-- A check normalises the domain and validates it, then asks the configured servers in order. Under each server
-- it looks for the result in the cache, or probes the server several times, over a pool of connections or one
-- by one; a record with the keyword of the server means that the domain is blocked.
--
-- The parts, and the files here that model them:
-- - src/nawala/domain.go: Domain (`is_valid_domain`, `is_valid_label`, `is_valid_tld`,
--   `normalize_domain`); its grammar and proofs in Domain/.
-- - src/nawala/result.go and errors.go: Types (`Result`, `ServerStatus`, `DnsServer`, `Error`,
--   `is_conn_error`).
-- - src/nawala/connpool.go: ConnPool (`get`, `put`, `exchange`, `close`). The buffered channel is a list
--   of connection numbers, in order of arrival, and its capacity.
-- - src/nawala/dns.go: Dns (`parse_query_type`, `query_dns`, `contains_keyword`, `check_dns_health`).
-- - src/nawala/cache.go: Cache (`get`, `set`, `flush` of the in-memory cache; the interface `Cache` is a
--   record of operations). The map is an association list.
-- - src/nawala/option.go and dead_code.go: Checker/Settings (one constructor of `Setting` for each
--   option, `apply` for its effect; `set_servers`, `has_server`, `delete_servers`).
-- - src/nawala/checker.go: Checker (the struct; `Close`, `FlushCache`), Checker/Create (`New`),
--   Checker/Probe (`queryWithRetries`), Checker/Single (`checkSingle`, `CheckOne`), Checker/Batch
--   (`Check`, `DNSStatus`) and Checker/Stream (`CheckStream`).
-- - internal/cli/config.go: Config (`to_options` and the parsers of the fields, `parse_command_timeout`);
--   `time.ParseDuration` is a parameter, and a decoded file is the record `Config`; Config/Load
--   (`loadConfig`).
-- - internal/cli/config_cmd.go: Config/Effective (`resolve_effective_config`), Config/Exported (what the
--   printed configuration is when it is loaded), Command/Export (`runConfig`).
-- - internal/cli/output.go: Output (the formats), Output/Writer (`WriteResult`, `WriteStatus`, the bytes
--   of the stream; Writer/Close: `Close`, `Cancel`), Output/Text (the tables), Output/Xlsx (the edits of
--   the Excel sheet).
-- - internal/cli/root.go, format.go, check.go and status.go: Command/Build (`buildChecker`), Command/Flags
--   (`resolveFormat`), Command/Domains (`streamDomains`, `toASCIIDomain`), Command/Run (`runCheck` and
--   `runStatus`, with what the checker delivers as an argument).
-- - Common and Strings hold what the parts share: lists, integers, text, and the functions of Go's
--   `strings`, `net` and `fmt` that the code uses.
--
-- Text is a list of bytes. The functions of `strings` are written out for ASCII; where a text has a byte of
-- 128 or more its lower case, upper case and trimmed form are parameters (`Unicode`). Times and durations are
-- integers, in nanoseconds; the back-off between probes is computed in 64 bits, as in the source.
--
-- Network is what is not in the repository: the DNS library, the network, the clock and the context. It is a
-- record of functions on a state of any type, passed through every operation that reaches it. Of a message it
-- has the response code and the text of each record. A hypothesis about it is a binder of the theorem that
-- uses it: `Tracks` says that a dial that succeeds opens a new connection, `Close` ends the one that it is
-- called on, and nothing else opens or ends any; `NeedsPort` says that an address without a port cannot be
-- dialled. Network/Samples instantiates both.
--
-- No definition has fuel but the printing of a decimal, which has more of it than the number has digits. The
-- loop of `queryWithRetries` is recursion on the rounds left, `maxRetries + 1` of them at the start, and the
-- loop over the servers is recursion on the list.
--
-- A batch, the loop of `Check` and `DNSStatus`, is a transition system: a run is a list of events in any order
-- (`Event`), `step` does one where it can happen, and theorems hold for every list. What a goroutine does for
-- its input is one event, between which anything else may change the shared state; `elsewhere` stands for
-- time, the end of the context and other calls.
--
-- A stream, the loop of `CheckStream`, is such a system too. The channel `In` is the finite list of what it
-- delivers before it is closed, and `Out` the list of what it took. The state has also the domains that were
-- received and for which nothing is sent, which the source forgets.
--
-- Of the command line tool these are parameters: the packages for JSON, HTML and Excel and the count of runes
-- in a text (`Encoders`, `Styles`), IDNA, the context, the channel's reader and the file of domains
-- (`Sources`), the bytes of a configuration file and their decoders (`Files`), and the encoders of an exported
-- configuration (`Marshallers`). The `bufio.Writer` of the output has 4096 bytes, as in Go, and its writes
-- succeed.
--
-- Two bounds of the machine are left out: the number of retries is below the largest integer, with which the
-- loop of `queryWithRetries` would never end, and the size of a pool is one that `make` can allocate; with a
-- larger one `New` would panic.
--
-- Not modelled here: the locks (each operation is one step, but for the two halves of the `Get` of the cache),
-- the TLS handshake, a send on a closed `Out`, and of the command line tool the warning on a file's version,
-- the colours and borders of the Excel sheet, the definition of the flags and what is printed on standard
-- error.
mod Common
pub mod Strings
pub mod Domain
pub mod Types
pub mod Network
pub mod ConnPool
pub mod Dns
pub mod Cache
pub mod Checker
pub mod Config
pub mod Output
pub mod Command
