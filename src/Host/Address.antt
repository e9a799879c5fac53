-- ===== src/Host/Address.antt =====
-- The client's address of module.go: `clientAddr`, `forwardedChain` and `isTrusted`. The addresses and
-- the prefixes of `net/netip` are a parameter.
pub mod Forged
use go_platform.Base.{
  GoString, Bool, true, false, ◌&&◌, not, List, [], ◌∷◌, ◌++◌, Option, none, some, lit, str_eq,
  split_at, trim_space, any, if◌then◌else◌,
}

-- `addrOf`, `String` and `Contains`.
pub record Netip (A P : Type 0) : Type 0 where
  pub addr_of : GoString → Option A
  pub text_of : A → GoString
  pub contains : P → A → Bool

-- The elements of one header that are not blank.
unfoldable pub elements : List GoString → List GoString
elements [] = []
elements (e ∷ es) =
    let rest = elements es in if str_eq (trim_space e) [] then rest else trim_space e ∷ rest

-- `forwardedChain`
unfoldable pub forwarded_chain : List GoString → List GoString
forwarded_chain [] = []
forwarded_chain (v ∷ vs) = elements (split_at b',' v) ++ forwarded_chain vs

-- Where the walk over the chain is: it has ended, or goes on with the last address read.
pub data Walk : Type 0 where
  ended going : GoString → Walk

unfoldable pub address_of : Walk → GoString
address_of (ended s) = s
address_of (going s) = s

module _ {A P : Type 0} (ip : Netip A P) where
  -- `isTrusted`
  unfoldable pub is_trusted : A → List P → Bool
  is_trusted a trusted = any (λ p. ip.contains p a) trusted

  -- One turn of the loop at the element `e`.
  unfoldable pub turn : List P → GoString → GoString → Walk
  turn trusted e last = elim (ip.addr_of e) [
    | none ↦ ended last
    | some a ↦ if is_trusted a trusted then going (ip.text_of a) else ended (ip.text_of a)
  ]

  unfoldable pub turn_after : List P → GoString → Walk → Walk
  turn_after trusted e (ended s) = ended s
  turn_after trusted e (going last) = turn trusted e last

  -- The loop, from the right end of the chain to the left.
  unfoldable pub walk : List P → List GoString → GoString → Walk
  walk trusted [] last = going last
  walk trusted (e ∷ es) last = turn_after trusted e (walk trusted es last)

  unfoldable pub peer_text : Option A → GoString
  peer_text none = []
  peer_text (some a) = ip.text_of a

  -- The last element of the chain as an address, where no list of proxies is configured.
  unfoldable pub last_address : List GoString → GoString → GoString
  last_address [] last = last
  last_address (e ∷ []) last = elim (ip.addr_of e) [ none ↦ last | some a ↦ ip.text_of a ]
  last_address (e ∷ e' ∷ es) last = last_address (e' ∷ es) last

  unfoldable pub walked : List P → List GoString → Option A → GoString
  walked trusted chain none = []
  walked trusted chain (some peer) =
      if not (is_trusted peer trusted)
      then ip.text_of peer
      else address_of (walk trusted chain (ip.text_of peer))

  -- `clientAddr` of the peer and the values of X-Forwarded-For.
  unfoldable pub client_addr : Option (List P) → GoString → List GoString → GoString
  client_addr none remote values =
      last_address (forwarded_chain values) (peer_text (ip.addr_of remote))
  client_addr (some trusted) remote values =
      walked trusted (forwarded_chain values) (ip.addr_of remote)
