-- ===== src/Dns/Address.antt =====
-- The documented forms of a server address, and the address that `queryDNS` makes of each.
use nawala_checker.Common.{
  ℕ, ◌≡◌, refl, ap, ◌∙◌, true, false, [], ◌∷◌, ◌++◌, arith, Bytes, Option, none, some, append_assoc,
}
use nawala_checker.Strings.{trim_prefix_byte, trim_suffix_byte}
use nawala_checker.Strings.HostPort.{
  has_byte, has_byte-append, IsPlain, split_host_port, join_host_port, split_plain, split_bracketed,
  split_no_colon, split_too_many, split_late_bracket,
}
use nawala_checker.Strings.Split.{trim_suffix_byte-append}
use nawala_checker.Network.{Client}
use nawala_checker.Dns.{default_port, server_address}

-- The text of an IPv6 address, cut at its last colon: no bracket, and a colon in the first part.
pub record IsV6 (a b : Bytes) : Type 0 where
  pub colon : has_byte b':' a ≡ true
  pub last_colon : has_byte b':' b ≡ false
  pub no_open : has_byte b'[' (a ++ b':' ∷ b) ≡ false
  pub no_close : has_byte b']' (a ++ b':' ∷ b) ≡ false

-- The address as it is written, and the address that it stands for.
pub data Documented (port : Bytes) : Bytes → Bytes → Type 0 where
  host : {h : Bytes} → IsPlain h → Documented port h (h ++ b':' ∷ port)
  host_port :
      {h p : Bytes} → IsPlain h → IsPlain p → Documented port (h ++ b':' ∷ p) (h ++ b':' ∷ p)
  v6 :
      {a b : Bytes}
      → IsV6 a b
      → Documented port (a ++ b':' ∷ b) (b'[' ∷ ((a ++ b':' ∷ b) ++ b']' ∷ b':' ∷ port))
  v6_brackets :
      {a b : Bytes}
      → IsV6 a b
      → Documented port
          (b'[' ∷ ((a ++ b':' ∷ b) ++ b']' ∷ []))
          (b'[' ∷ ((a ++ b':' ∷ b) ++ b']' ∷ b':' ∷ port))
  v6_port :
      {a b p : Bytes}
      → IsV6 a b
      → IsPlain p
      → Documented port
          (b'[' ∷ ((a ++ b':' ∷ b) ++ b']' ∷ b':' ∷ p))
          (b'[' ∷ ((a ++ b':' ∷ b) ++ b']' ∷ b':' ∷ p))

trim_prefix_byte-lacks : (b : ℕ) (s : Bytes) → has_byte b s ≡ false → trim_prefix_byte b s ≡ s
unfolding trim_prefix_byte
trim_prefix_byte-lacks b [] h = refl
trim_prefix_byte-lacks b (c ∷ s) h = ground arith

trim_suffix_byte-lacks : (b : ℕ) (s : Bytes) → has_byte b s ≡ false → trim_suffix_byte b s ≡ s
unfolding trim_suffix_byte
trim_suffix_byte-lacks b [] h = refl
trim_suffix_byte-lacks b (c ∷ s) h = ground (arith, trim_suffix_byte-lacks b s)

module _ (c : Option Client) (s : Bytes) where
  -- A text that `SplitHostPort` takes apart is left as it is.
  with_port : (x : Bytes × Bytes) → split_host_port s ≡ some x → server_address c s ≡ s
  unfolding server_address
  with_port x e = ground arith

  without_port :
      (t : Bytes)
      → split_host_port s ≡ none
      → trim_suffix_byte b']' (trim_prefix_byte b'[' s) ≡ t
      → server_address c s ≡ join_host_port t (default_port c)
  unfolding server_address
  without_port t e q = ground arith

join_plain : (h p : Bytes) → has_byte b':' h ≡ false → join_host_port h p ≡ h ++ b':' ∷ p
unfolding join_host_port
join_plain h p e = rw e

join_v6 :
    (h p : Bytes) → has_byte b':' h ≡ true → join_host_port h p ≡ b'[' ∷ (h ++ b']' ∷ b':' ∷ p)
unfolding join_host_port
join_v6 h p e = rw e

colon_inside : (a b : Bytes) → has_byte b':' (a ++ b':' ∷ b) ≡ true
colon_inside a b = ground (arith, has_byte-append b':' a (b':' ∷ b))

-- Every documented form of a server address becomes the address that it stands for: with its own port
-- if it has one, and with the default port of the transport if not, an IPv6 address in brackets.
pub server_address-Documented :
    (c : Option Client) {s t : Bytes} → Documented (default_port c) s t → server_address c s ≡ t
server_address-Documented c (host {h} v) =
    without_port c h h (split_no_colon h v.no_colon) (
      ap (trim_suffix_byte b']') (trim_prefix_byte-lacks b'[' h v.no_open)
      ∙ trim_suffix_byte-lacks b']' h v.no_close)
    ∙ join_plain h (default_port c) v.no_colon
server_address-Documented c (host_port {h} {p} v w) =
    with_port c (h ++ b':' ∷ p) (h, p) (split_plain h p v w)
server_address-Documented c (v6 {a} {b} v) =
    without_port c (a ++ b':' ∷ b) (a ++ b':' ∷ b)
      (split_too_many a b v.colon (ground (arith, v.no_open, has_byte-append b'[' a (b':' ∷ b)))
        v.last_colon)
      (ap (trim_suffix_byte b']') (trim_prefix_byte-lacks b'[' _ v.no_open)
        ∙ trim_suffix_byte-lacks b']' _ v.no_close)
    ∙ join_v6 (a ++ b':' ∷ b) (default_port c) (colon_inside a b)
server_address-Documented c (v6_brackets {a} {b} v) =
    without_port c (b'[' ∷ ((a ++ b':' ∷ b) ++ b']' ∷ [])) (a ++ b':' ∷ b)
      (ap (λ x. split_host_port (b'[' ∷ x)) (append_assoc a (b':' ∷ b) (b']' ∷ []))
        ∙ split_late_bracket a (b ++ b']' ∷ [])
            (ground (arith, v.no_close, has_byte-append b']' a (b':' ∷ b)))
            (ground (arith, v.last_colon, has_byte-append b':' b (b']' ∷ []))))
      (unfold trim_prefix_byte in trim_suffix_byte-append b']' (a ++ b':' ∷ b))
    ∙ join_v6 (a ++ b':' ∷ b) (default_port c) (colon_inside a b)
server_address-Documented c (v6_port {a} {b} {p} v w) =
    with_port c _ (a ++ b':' ∷ b, p) (split_bracketed (a ++ b':' ∷ b) p v.no_open v.no_close w)
