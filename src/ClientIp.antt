-- ===== src/ClientIp.antt =====
-- internal/web/clientip.go: the address that a request is attributed to.
pub mod Hops
pub mod Chain
mod Tests
use mathlib.Core.List.{reverse}
use restest.Base.{
  ℕ, Bool, true, false, ◌||◌, List, [], ◌∷◌, ◌++◌, Option, none, some, leb, ◌==◌, if◌then◌else◌,
  length, Bytes, split,
}
use restest.Paths.{trim_space}

-- What the source calls of the packages net and net/netip.
pub record Netip : Type 1 where
  pub Addr : Type 0
  pub Prefix : Type 0
  pub parse_addr : Bytes → Option Addr
  -- The address of `netip.ParseAddrPort`.
  pub parse_addr_port : Bytes → Option Addr
  pub to_text : Addr → Bytes
  pub unmap : Addr → Addr
  pub contains : Prefix → Addr → Bool
  -- The host of `net.SplitHostPort`.
  pub split_host_port : Bytes → Option Bytes

-- What is read of a request: `RemoteAddr`, and the values of X-Forwarded-For in their order.
pub record Request : Type 0 where
  pub remote_addr : Bytes
  pub forwarded_for : List Bytes

abbrev pub max_forwarded_hops : ℕ
max_forwarded_hops = 16

-- A loop that goes on, or a `return` out of it.
pub data Scan : Type 0 where
  going full : List Bytes → Scan

abbrev is_bracket : ℕ → Bool
is_bracket c = c == b'[' || c == b']'

unfoldable pub drop_brackets : Bytes → Bytes
drop_brackets [] = []
drop_brackets (c ∷ s) = let rest = drop_brackets s in if is_bracket c then rest else c ∷ s

-- `strings.Trim(field, "[]")`
unfoldable pub trim_brackets : Bytes → Bytes
unfolding drop_brackets
trim_brackets s = reverse (drop_brackets (reverse (drop_brackets s)))

abbrev pub hops_of : Scan → List Bytes
hops_of (going hops) = hops
hops_of (full hops) = hops

module _ (net : Netip) where
  -- `netip.ParseAddrPort(field)` replaces the field by its address.
  abbrev without_port : Bytes → Bytes
  without_port field = elim (net.parse_addr_port field) [
    | some addr ↦ net.to_text addr
    | none ↦ field
  ]

  unfoldable pub address_part : Bytes → Bytes
  unfolding trim_brackets
  address_part field = trim_brackets (without_port field)

  -- One round of the inner loop of `forwardedHops`, on the trimmed field.
  unfoldable pub add_trimmed : Bytes → List Bytes → Scan
  unfolding address_part
  add_trimmed [] hops = going hops
  add_trimmed (c ∷ s) hops =
      let hops' = hops ++ address_part (c ∷ s) ∷ [] in
      if leb max_forwarded_hops (length hops') then full hops' else going hops'

  unfoldable pub add_field : Bytes → List Bytes → Scan
  unfolding add_trimmed trim_space
  add_field field hops = add_trimmed (trim_space field) hops

  unfoldable pub scan_fields : List Bytes → List Bytes → Scan
  unfolding add_field
  scan_fields [] hops = going hops
  scan_fields (field ∷ fields) hops = elim (add_field field hops) [
    | going hops' ↦ scan_fields fields hops'
    | full hops' ↦ full hops'
  ]

  unfoldable pub scan_values : List Bytes → List Bytes → Scan
  unfolding scan_fields split
  scan_values [] hops = going hops
  scan_values (value ∷ values) hops = elim (scan_fields (split b',' value) hops) [
    | going hops' ↦ scan_values values hops'
    | full hops' ↦ full hops'
  ]

  unfoldable pub forwarded_hops : List Bytes → List Bytes
  unfolding scan_values
  forwarded_hops values = hops_of (scan_values values [])

  unfoldable pub peer_ip : Request → Bytes
  peer_ip r = elim (net.split_host_port r.remote_addr) [ some host ↦ host | none ↦ r.remote_addr ]

  unfoldable pub any_contains : List net.Prefix → net.Addr → Bool
  any_contains [] addr = false
  any_contains (prefix ∷ prefixes) addr =
      if net.contains prefix addr then true else any_contains prefixes addr

  unfoldable pub trusted : List net.Prefix → net.Addr → Bool
  unfolding any_contains
  trusted proxies addr = any_contains proxies (net.unmap addr)

  -- The loop of `resolveClientIP`, from the last hop on.
  unfoldable pub walk_back : List net.Prefix → List Bytes → net.Addr → net.Addr
  unfolding trusted
  walk_back proxies [] addr = addr
  walk_back proxies (text ∷ hops) addr = elim (net.parse_addr text) [
    | none ↦ addr
    | some hop ↦
        let further = walk_back proxies hops hop in if trusted proxies hop then further else hop
  ]

  unfoldable pub resolve_client_ip : List net.Prefix → Request → Bytes
  unfolding peer_ip trusted walk_back forwarded_hops
  resolve_client_ip [] r = peer_ip r
  resolve_client_ip (p ∷ ps) r = elim (net.parse_addr (peer_ip r)) [
    | none ↦ peer_ip r
    | some addr ↦
        if trusted (p ∷ ps) addr
        then net.to_text (walk_back (p ∷ ps) (reverse (forwarded_hops r.forwarded_for)) addr)
        else peer_ip r
  ]
