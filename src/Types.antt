-- ===== src/Types.antt =====
-- src/nawala/result.go and errors.go: results, server descriptions and errors. An error is a value
-- that keeps what the program asks of it; `errors.Is` asks for its `sentinel`.
use nawala_checker.Common.{ℕ, Bool, true, false, ◌||◌, Option, none, some, Bytes, codes}
use nawala_checker.Common.Int.{ℤ}
use nawala_checker.Strings.{contains}

pub record DnsServer : Type 0 where
  pub address : Bytes
  pub keyword : Bytes
  pub query_type : Bytes

-- What `ctx.Err()` returns once the context is done.
pub data CtxError : Type 0 where
  canceled deadline_exceeded : CtxError

-- An error of the network or of the DNS library, as far as the program looks into it: what
-- `errors.As` to a `net.Error` and `errors.Is` to the listed values say, the text inside a
-- `net.OpError` (none if it is no such error, or holds none), and the whole text.
pub record NetError : Type 0 where
  pub is_timeout : Bool
  pub conn_empty : Bool
  pub eof : Bool
  pub unexpected_eof : Bool
  pub op_text : Option Bytes
  pub text : Bytes

-- The sentinel errors.
pub data Sentinel : Type 0 where
  err_no_dns_servers err_all_dns_failed err_invalid_domain err_dns_timeout : Sentinel
  err_internal_panic err_nxdomain err_query_rejected : Sentinel

pub data Error : Type 0 where
  no_dns_servers all_dns_failed nxdomain nil_response : Error
  invalid_domain internal_panic : Bytes → Error
  -- `ErrDNSTimeout` with the text of its cause
  timeout_of_context : CtxError → Error
  timeout_of_network : NetError → Error
  query_rejected unexpected_rcode : ℕ → Error
  of_context : CtxError → Error
  of_network : NetError → Error

-- The sentinel that an error wraps.
abbrev pub sentinel : Error → Option Sentinel
sentinel no_dns_servers = some err_no_dns_servers
sentinel all_dns_failed = some err_all_dns_failed
sentinel nxdomain = some err_nxdomain
sentinel (invalid_domain d) = some err_invalid_domain
sentinel (internal_panic v) = some err_internal_panic
sentinel (timeout_of_context e) = some err_dns_timeout
sentinel (timeout_of_network e) = some err_dns_timeout
sentinel (query_rejected r) = some err_query_rejected
sentinel _ = none

-- `errors.Is(err, ErrNXDOMAIN) || errors.Is(err, ErrQueryRejected)`
abbrev pub is_definitive : Error → Bool
is_definitive nxdomain = true
is_definitive (query_rejected r) = true
is_definitive _ = false

pub record Result : Type 0 where
  pub domain : Bytes
  pub blocked : Bool
  pub server : Bytes
  pub error : Option Error

pub record ServerStatus : Type 0 where
  pub server : Bytes
  pub online : Bool
  pub latency_ms : ℤ
  pub error : Option Error

broken_op : Option Bytes → Bool
broken_op none = false
broken_op (some msg) =
    contains msg (codes "use of closed network connection")
    || (contains msg (codes "broken pipe") || contains msg (codes "connection reset by peer"))

unfoldable pub is_conn_error : Option NetError → Bool
unfolding broken_op
is_conn_error none = false
is_conn_error (some e) = e.conn_empty || ((e.eof || e.unexpected_eof) || broken_op e.op_text)
