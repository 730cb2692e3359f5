-- ===== src/ClientIp/Chain.antt =====
-- `resolveClientIP`: what the address depends on, and what it does not.
use mathlib.Core.List.{reverse, reverse-append}
use restest.Base.{
  take_all, ◌≤◌, ◌≡◌, refl, sym, ap, ◌∙◌, true, false, List, [], ◌∷◌, ◌++◌, Option, none, some,
  arith, length, take, Bytes, append_assoc, Option-cases, inl, inr, All,
}
use restest.ClientIp.{
  Netip, Request, max_forwarded_hops, any_contains, trusted, walk_back, peer_ip, forwarded_hops,
  resolve_client_ip,
}
use restest.ClientIp.Hops.{entries, forwarded_hops-take, take-append_of_le}

reverse-cons : {A : Type 0} (x : A) (xs ys : List A) → reverse (x ∷ xs) ++ ys ≡ reverse xs ++ x ∷ ys
reverse-cons x xs ys =
    ap (λ l. l ++ ys) (reverse-append (x ∷ []) xs) ∙ append_assoc (reverse xs) (x ∷ []) ys

reverse-around :
    {A : Type 0} (left : List A) (x : A) (right : List A)
    → reverse (left ++ x ∷ right) ≡ reverse right ++ x ∷ reverse left
reverse-around left x right = reverse-append left (x ∷ right) ∙ reverse-cons x right (reverse left)

resolve_client_ip-read :
    (net : Netip) (proxies : List net.Prefix) (r : Request) (peer : net.Addr)
    → net.parse_addr (peer_ip net r) ≡ some peer
    → trusted net proxies peer ≡ true
    → resolve_client_ip net proxies r
      ≡ net.to_text (walk_back net proxies (reverse (forwarded_hops net r.forwarded_for)) peer)
unfolding resolve_client_ip trusted any_contains
resolve_client_ip-read net [] r peer parsed accepted = cc
resolve_client_ip-read net (p ∷ ps) r peer parsed accepted = ground arith

resolve_client_ip-same :
    (net : Netip) (proxies : List net.Prefix) (r : Request) (values : List Bytes)
    → forwarded_hops net values ≡ forwarded_hops net r.forwarded_for
    → resolve_client_ip net proxies (record r { forwarded_for = values })
      ≡ resolve_client_ip net proxies r
unfolding resolve_client_ip peer_ip
resolve_client_ip-same net [] r values h = refl
resolve_client_ip-same net (p ∷ ps) r values h = ground arith

module _ (net : Netip) (proxies : List net.Prefix) where
  -- A hop that is the address of a trusted proxy.
  pub record IsTrustedHop (text : Bytes) : Type 0 where
    pub addr : net.Addr
    pub parsed : net.parse_addr text ≡ some addr
    pub accepted : trusted net proxies addr ≡ true

  -- The address that the loop has when it comes to the hop before these trusted ones.
  abbrev pub nearest_trusted : (hops : List Bytes) → All IsTrustedHop hops → net.Addr → net.Addr
  nearest_trusted [] h addr = addr
  nearest_trusted (text ∷ hops) (h, _) addr = h.addr

  -- The hop at which the loop stops, on the way from the last to the first.
  abbrev pub stopped_at : Option net.Addr → net.Addr → net.Addr
  stopped_at none addr = addr
  stopped_at (some hop) addr = hop

  walk_back-stop :
      (text : Bytes) (before : List Bytes) (addr : net.Addr)
      → ((hop : net.Addr) → net.parse_addr text ≡ some hop → trusted net proxies hop ≡ false)
      → walk_back net proxies (text ∷ before) addr ≡ stopped_at (net.parse_addr text) addr
  unfolding walk_back
  walk_back-stop text before addr stop = elim (Option-cases (net.parse_addr text)) [
    | inl e ↦ ground arith
    | inr (hop, e) ↦ ground (arith, stop hop e)
  ]

  walk_back-trusted :
      (hops before : List Bytes) (h : All IsTrustedHop hops) (addr : net.Addr)
      → walk_back net proxies (reverse hops ++ before) addr
        ≡ walk_back net proxies before (nearest_trusted hops h addr)
  unfolding walk_back
  walk_back-trusted [] before h addr = refl
  walk_back-trusted (text ∷ hops) before (h, hs) addr =
      ap (λ l. walk_back net proxies l addr) (reverse-cons text hops before)
      ∙ (walk_back-trusted hops (text ∷ before) hs addr ∙ ground (arith, h.parsed, h.accepted))

  -- Of a request that a trusted proxy passed on, with at most as many addresses as are read, the
  -- last address that is not a trusted proxy's is the one the request is attributed to, or the
  -- address behind it where it is no address; what stands to the left of it, which a caller may have
  -- written, is not looked at.
  pub resolve_client_ip-nearest :
      (r : Request) (peer : net.Addr) (left right : List Bytes) (text : Bytes)
      → net.parse_addr (peer_ip net r) ≡ some peer
      → trusted net proxies peer ≡ true
      → entries net r.forwarded_for ≡ left ++ text ∷ right
      → length (entries net r.forwarded_for) ≤ max_forwarded_hops
      → (h : All IsTrustedHop right)
      → ((hop : net.Addr) → net.parse_addr text ≡ some hop → trusted net proxies hop ≡ false)
      → resolve_client_ip net proxies r
        ≡ net.to_text (stopped_at (net.parse_addr text) (nearest_trusted right h peer))
  resolve_client_ip-nearest r peer left right text parsed accepted all short h stop =
      let read =
        forwarded_hops-take net r.forwarded_for ∙ (take_all max_forwarded_hops _ short ∙ all) in
      resolve_client_ip-read net proxies r peer parsed accepted
      ∙ ap net.to_text (
          ap (λ l. walk_back net proxies (reverse l) peer) read
          ∙ (ap (λ l. walk_back net proxies l peer) (reverse-around left text right)
              ∙ (walk_back-trusted right (text ∷ reverse left) h peer
                  ∙ walk_back-stop text (reverse left) (nearest_trusted right h peer) stop)))

  -- Once the header names as many addresses as are read, what a proxy appends to it does not matter:
  -- the request is attributed to the same address as without it.
  pub resolve_client_ip-padded :
      (r : Request) (values more : List Bytes)
      → max_forwarded_hops ≤ length (entries net r.forwarded_for)
      → entries net values ≡ entries net r.forwarded_for ++ more
      → resolve_client_ip net proxies (record r { forwarded_for = values })
        ≡ resolve_client_ip net proxies r
  resolve_client_ip-padded r values more long all = resolve_client_ip-same net proxies r values (
      forwarded_hops-take net values
      ∙ (ap (take max_forwarded_hops) all
          ∙ (take-append_of_le max_forwarded_hops _ more long
              ∙ sym (forwarded_hops-take net r.forwarded_for))))
