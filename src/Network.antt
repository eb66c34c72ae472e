-- ===== src/Network.antt =====
-- What the program does not implement: the DNS library (github.com/miekg/dns), the network, the
-- clock and the context. `W` is the state of all of these; each operation may change it.
pub mod Samples
use nawala_checker.Common.{
  ℕ, ◌≡◌, ◌==◌, ◌&&◌, ◌||◌, not, Bool, false, Option, List, Bytes, Outcome, ok, err,
}
use nawala_checker.Common.Int.{ℤ}
use nawala_checker.Types.{CtxError, NetError}

-- The fields of `dns.Client` that the program sets or reads.
pub record TlsConfig : Type 0 where
  pub server_name : Bytes
  pub skip_verify : Bool

pub record Client : Type 0 where
  pub timeout : ℤ
  pub net : Bytes
  pub tls : Option TlsConfig

-- A query as `SetQuestion`, `RecursionDesired` and `SetEdns0` build it.
pub record Question : Type 0 where
  pub name : Bytes
  pub qtype : ℕ
  pub recursion_desired : Bool
  pub edns0_size : ℕ

-- A response: its code, and the text of each record of the three sections.
pub record Response : Type 0 where
  pub rcode : ℕ
  pub answer : List Bytes
  pub ns : List Bytes
  pub extra : List Bytes

-- A connection is known by a number; a client is a pointer, which may be nil.
pub record Network (W : Type 0) : Type 0 where
  pub fqdn : Bytes → Bytes
  pub ctx_err : W → Option CtxError
  pub now : W → ℤ
  -- `select` over `ctx.Done()` and `time.After(d)`
  pub wait : ℤ → W → Option CtxError × W
  pub dial : Option Client → Bytes → W → Outcome NetError ℕ × W
  pub exchange_conn : Option Client → Question → ℕ → W → Outcome NetError (Option Response) × W
  pub exchange : Option Client → Question → Bytes → W → Outcome NetError (Option Response) × W
  pub close_conn : ℕ → W → W

-- What is documented of connections: a dial that succeeds gives a connection that was not open and
-- opens it alone; one that fails, and an exchange, neither open nor end any; `Close` ends the
-- connection that it is called on and no other.
pub record Tracks {W : Type 0} (net : Network W) (is_open : W → ℕ → Bool) : Type 0 where
  pub dial_ok :
      (c : Option Client) (a : Bytes) (w w' : W) (n : ℕ)
      → net.dial c a w ≡ (ok n, w')
      → (is_open w n ≡ false) × ((m : ℕ) → is_open w' m ≡ (m == n || is_open w m))
  pub dial_err :
      (c : Option Client) (a : Bytes) (w w' : W) (e : NetError)
      → net.dial c a w ≡ (err e, w')
      → (m : ℕ) → is_open w' m ≡ is_open w m
  pub exchange_same :
      (c : Option Client) (q : Question) (n : ℕ) (w : W) (m : ℕ)
      → is_open (net.exchange_conn c q n w).1 m ≡ is_open w m
  pub close_ends :
      (n : ℕ) (w : W) (m : ℕ) → is_open (net.close_conn n w) m ≡ (is_open w m && not (m == n))
