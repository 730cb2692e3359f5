-- ===== src/ClientIp/Tests.antt =====
-- Runs of the address resolution on dotted addresses, and the theorems at them.
use restest.Base.{
  ◌≤◌, ◌≡◌, refl, Bool, true, false, ◌&&◌, ◌||◌, List, [], ◌∷◌, ◌++◌, Option, none, some, arith,
  leb, ◌==◌, if◌then◌else◌, length, Bytes, codes, split, cut_prefix,
}
use restest.Paths.{trim_space}
use restest.ClientIp.{
  Netip, Request, max_forwarded_hops, trusted, peer_ip, resolve_client_ip, address_part,
}
use restest.ClientIp.Hops.{entries}
use restest.ClientIp.Chain.{IsTrustedHop, resolve_client_ip-nearest, resolve_client_ip-padded}

abbrev dotted_from : Bytes → Bool
dotted_from [] = true
dotted_from (c ∷ s) = ((leb b'0' c && leb c b'9') || c == b'.') && dotted_from s

abbrev parse_dotted : Bytes → Option Bytes
parse_dotted [] = none
parse_dotted (c ∷ s) = if dotted_from (c ∷ s) then some (c ∷ s) else none

abbrev host_of : List Bytes → Option Bytes
host_of (host ∷ port ∷ []) = parse_dotted host
host_of _ = none

abbrev is_some : Option Bytes → Bool
is_some none = false
is_some (some s) = true

-- Dotted addresses as their texts; a prefix is the text that its addresses begin with.
abbrev dotted : Netip
dotted = record {
  Addr = Bytes;
  Prefix = Bytes;
  parse_addr = parse_dotted;
  parse_addr_port = λ s. host_of (split b':' s);
  to_text = λ a. a;
  unmap = λ a. a;
  contains = λ p a. is_some (cut_prefix p a);
  split_host_port = λ s. host_of (split b':' s);
}

abbrev proxies : List Bytes
proxies = codes "10." ∷ []

abbrev passed_on : Request
passed_on = record {
  remote_addr = codes "10.0.0.1:443";
  forwarded_for = codes "6.6.6.6, 1.2.3.4:99" ∷ codes " 10.0.0.7" ∷ [];
}

abbrev peer : Bytes
peer = codes "10.0.0.1"

peer_parsed : dotted.parse_addr (peer_ip dotted passed_on) ≡ some peer
unfolding peer_ip split
peer_parsed = refl

peer-trusted : trusted dotted proxies peer ≡ true
unfolding trusted cut_prefix
peer-trusted = refl

seven-IsTrustedHop : IsTrustedHop dotted proxies (codes "10.0.0.7")
unfolding trusted cut_prefix
seven-IsTrustedHop = record { addr = codes "10.0.0.7"; parsed = refl; accepted = refl }

all_entries :
    entries dotted passed_on.forwarded_for
    ≡ (codes "6.6.6.6" ∷ []) ++ codes "1.2.3.4" ∷ codes "10.0.0.7" ∷ []
unfolding entries split address_part trim_space
all_entries = refl

few_entries : length (entries dotted passed_on.forwarded_for) ≤ max_forwarded_hops
few_entries = ground (arith, all_entries)

outside_refused :
    (hop : Bytes)
    → dotted.parse_addr (codes "1.2.3.4") ≡ some hop
    → trusted dotted proxies hop ≡ false
unfolding trusted cut_prefix
outside_refused hop h = ground arith

resolve_client_ip-nearest_example : resolve_client_ip dotted proxies passed_on ≡ codes "1.2.3.4"
resolve_client_ip-nearest_example =
    resolve_client_ip-nearest dotted proxies passed_on peer (codes "6.6.6.6" ∷ [])
      (codes "10.0.0.7" ∷ []) (codes "1.2.3.4") peer_parsed peer-trusted all_entries few_entries
      (seven-IsTrustedHop, tt) outside_refused

-- Sixteen addresses that the caller wrote, the last of them the one that it claims to be.
abbrev written : Bytes
written = codes "9,9,9,9,9,9,9,9,9,9,9,9,9,9,9,6.6.6.6"

abbrev padded : Request
padded = record { remote_addr = codes "10.0.0.1:443"; forwarded_for = written ∷ [] }

padded_long : max_forwarded_hops ≤ length (entries dotted padded.forwarded_for)
unfolding entries split address_part trim_space
padded_long = omega arith

padded_more :
    entries dotted (written ∷ codes "1.2.3.4" ∷ [])
    ≡ entries dotted padded.forwarded_for ++ codes "1.2.3.4" ∷ []
unfolding entries split address_part trim_space
padded_more = refl

-- The proxy appends the address 1.2.3.4 that it was asked from.
resolve_client_ip-padded_example :
    resolve_client_ip dotted proxies
      (record padded { forwarded_for = written ∷ codes "1.2.3.4" ∷ [] })
    ≡ resolve_client_ip dotted proxies padded
resolve_client_ip-padded_example =
    resolve_client_ip-padded dotted proxies padded (written ∷ codes "1.2.3.4" ∷ [])
      (codes "1.2.3.4" ∷ []) padded_long padded_more

claimed :
    resolve_client_ip dotted proxies
      (record padded { forwarded_for = written ∷ codes "1.2.3.4" ∷ [] })
    ≡ codes "6.6.6.6"
unfolding resolve_client_ip
claimed = refl
