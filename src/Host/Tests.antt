-- ===== src/Host/Tests.antt =====
-- The address of a client behind a proxy, the prefixes of two modules, and the theorems at them.
use go_platform.Base.{
  GoString, true, false, List, [], ◌∷◌, ◌++◌, none, some, ◌≡◌, refl, lit, str_eq, cut_prefix,
  has_prefix, split_at, trim_space, strip, space_width, space_width_back, is_space, is_space2,
  is_space3, any, if◌then◌else◌,
}
use go_platform.Host.Address.{
  Netip, elements, forwarded_chain, walk, walked, turn, turn_after, address_of, is_trusted,
  client_addr,
}
use go_platform.Host.Address.Forged.{client_addr-forged}
use go_platform.Host.Prefixes.{
  lies_under, covered, uncovered, prefixes, reaches, is_open, split_open, open_prefixes,
}

host : Unit {0}
unfolding lit str_eq cut_prefix has_prefix split_at trim_space strip space_width space_width_back
    is_space is_space2 is_space3 elements forwarded_chain walk walked turn turn_after address_of
    is_trusted client_addr lies_under covered uncovered prefixes reaches is_open split_open
    open_prefixes
host = tt

-- Addresses are their texts, "?" is none, and a prefix holds one address.
abbrev ip : Netip GoString GoString
ip = record {
  addr_of = λ s. if str_eq s (lit "?") then none else some s;
  text_of = λ s. s;
  contains = λ p a. str_eq p a;
}

abbrev own : GoString
own = lit " 203.0.113.7, 10.0.0.2"

own-elements : elements (split_at b',' own) ≡ lit "203.0.113.7" ∷ lit "10.0.0.2" ∷ []
unfolding host
own-elements = refl

stranger :
    (a : GoString)
    → ip.addr_of (lit "203.0.113.7") ≡ some a
    → is_trusted ip a (lit "10.0.0.2" ∷ []) ≡ false
unfolding host
stranger a h = let e : lit "203.0.113.7" ≡ a = cc h in rw (← e) refl

forged_header :
    client_addr ip
      (some (lit "10.0.0.2" ∷ []))
      (lit "10.0.0.2")
      ((lit "1.1.1.1" ++ b',' ∷ own) ∷ [])
    ≡ lit "203.0.113.7"
unfolding host
forged_header = refl

own-chain :
    forwarded_chain (own ∷ lit "10.0.0.2" ∷ [])
    ≡ lit "203.0.113.7" ∷ lit "10.0.0.2" ∷ lit "10.0.0.2" ∷ []
unfolding host
own-chain = refl

-- The client has sent a line of its own and the head of the next, or nothing.
client_addr-forged_example :
    client_addr ip
      (some (lit "10.0.0.2" ∷ []))
      (lit "10.0.0.2")
      (lit "9.9.9.9" ∷ (lit "1.1.1.1" ++ b',' ∷ own) ∷ lit "10.0.0.2" ∷ [])
    ≡ client_addr ip (some (lit "10.0.0.2" ∷ [])) (lit "10.0.0.2") (own ∷ lit "10.0.0.2" ∷ [])
client_addr-forged_example =
    client_addr-forged ip (lit "10.0.0.2" ∷ []) (lit "10.0.0.2") (lit "9.9.9.9" ∷ []) []
      (some (lit "1.1.1.1")) none own (lit "10.0.0.2" ∷ []) (lit "203.0.113.7")
      (lit "10.0.0.2" ∷ lit "10.0.0.2" ∷ []) own-chain stranger

peer_known : ip.addr_of (lit "10.0.0.2") ≡ some (lit "10.0.0.2")
unfolding host
peer_known = refl

abbrev declared : List GoString
declared = lit "/api/v2/users" ∷ lit "/api/v2" ∷ lit "/health" ∷ []

announced_two : prefixes declared ≡ lit "/api/v2" ∷ lit "/health" ∷ []
unfolding host
announced_two = refl

open_one :
    open_prefixes (lit "/api/v2" ∷ lit "/old" ∷ []) (some (lit "/api/v2/users" ∷ [])) []
    ≡ (lit "/api/v2" ∷ [], lit "/old" ∷ [])
unfolding host
open_one = refl

users_declared : any (str_eq (lit "/api/v2/users")) declared ≡ true
unfolding host
users_declared = refl
