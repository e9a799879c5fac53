-- ===== src/Gateway/Client/Checked.antt =====
-- The configurations that `New` of lib/gatewayclient takes.
use go_platform.Base.{
  GoString, ℕ, zero, suc, ◌≤◌, true, false, List, [], ◌∷◌, ◌++◌, Option, none, some, ◌≡◌, ◌≢◌, refl,
  ◌↔◌, ◌⊎◌, inl, inr, arith, lit, str_eq_iff, ℤ, pos, negsuc, int_eq_iff, nat_lt_int, all, length,
  All, cut_prefix, cut_prefix_sound, cut_prefix-append, ap, ◌∙◌, Bool-cases,
}
use go_platform.Gateway.Client.{
  Config, is_first, is_later, is_path_byte, is_segment, is_path, is_prefix, is_none, check_prefixes,
  new_client,
}

-- A name of the gateway: 1 to 63 bytes of a-z, 0-9, `_` and `-`, of which the first is a-z or 0-9.
abbrev pub IsName : GoString → Type 0
IsName s =
    (c : ℕ) × (rest : GoString) × (s ≡ c ∷ rest)
    × (is_first c ≡ true)
    × (all is_later s ≡ true)
    × (length s ≤ 63)

-- A prefix below /api/v2/.
abbrev pub IsPath : GoString → Type 0
IsPath p =
    (c : ℕ) × (rest : GoString) × (p ≡ lit "/api/v2/" ++ c ∷ rest)
    × (all is_path_byte (c ∷ rest) ≡ true)

is_segment_iff : (s : GoString) → (is_segment s ≡ true) ↔ IsName s
unfolding is_segment is_later
is_segment_iff [] = (λ h. cc, λ (c, rest, e, first, later, fits). cc)
is_segment_iff (c ∷ s) = (
  λ h. (c, s, refl, ground arith, ground arith, ground arith),
  λ (d, rest, e, first, later, fits). ground arith,
)

is_path-IsPath :
    (p : GoString) (rest : Option GoString)
    → cut_prefix (lit "/api/v2/") p ≡ rest
    → is_path rest ≡ true
    → IsPath p
unfolding is_path
is_path-IsPath p none e h = cc
is_path-IsPath p (some []) e h = cc
is_path-IsPath p (some (c ∷ s)) e h = (c, s, cut_prefix_sound (lit "/api/v2/") p (c ∷ s) e, h)

IsPath-is_path : (p : GoString) → IsPath p → is_path (cut_prefix (lit "/api/v2/") p) ≡ true
unfolding is_path
IsPath-is_path p (c, s, e, h) =
    ap is_path (ap (cut_prefix (lit "/api/v2/")) e ∙ cut_prefix-append (lit "/api/v2/") (c ∷ s)) ∙ h

is_prefix_iff : (p : GoString) → (is_prefix p ≡ true) ↔ IsPath p
unfolding is_prefix
is_prefix_iff p =
    (λ h. is_path-IsPath p (cut_prefix (lit "/api/v2/") p) refl h, λ h. IsPath-is_path p h)

check_prefixes_iff : (ps : List GoString) → (check_prefixes ps ≡ none) ↔ All IsPath ps
unfolding check_prefixes
check_prefixes_iff [] = (λ h. tt, λ h. refl)
check_prefixes_iff (p ∷ ps) = (
  λ h. elim (Bool-cases (is_prefix p)) [
    | inl good ↦ ((is_prefix_iff p).0 good, (check_prefixes_iff ps).0 (ground arith))
    | inr bad ↦ absurd (ground arith)
  ],
  λ (h, hs). rw ((is_prefix_iff p).1 h) ((check_prefixes_iff ps).1 hs),
)

-- A configuration with which an instance can register.
abbrev pub IsGood : Config → Type 0
IsGood c =
    (c.url ≢ [])
    × IsName c.module_name
    × IsName c.instance_name
    × (c.version ≢ [])
    × (c.prefixes ≢ [])
    × All IsPath c.prefixes
    × ((n : ℕ) × (c.capacity ≡ pos (suc n)))
    × (c.has_token ≡ true)
    × ((c.address ≢ []) ⊎ ((c.listen_port ≢ pos 0) × (c.has_http_client ≡ false)))

capacity-pos : (z : ℤ) → nat_lt_int 0 z ≡ true → (n : ℕ) × (z ≡ pos (suc n))
capacity-pos (pos zero) h = absurd (ground arith)
capacity-pos (pos (suc n)) h = (n, refl)
capacity-pos (negsuc n) h = cc

-- `New` returns a client exactly where the configuration has a URL, a version and a token source, names
-- that the gateway takes, at least one prefix, each below /api/v2/, a capacity of at least 1, and an
-- address, or a port beside the client's own dialer.
pub new_client-none_iff : (c : Config) → (new_client c ≡ none) ↔ IsGood c
unfolding new_client is_none
new_client-none_iff c = (
  λ h. (
    ground (arith, str_eq_iff c.url []),
    (is_segment_iff c.module_name).0 (ground arith),
    (is_segment_iff c.instance_name).0 (ground arith),
    ground (arith, str_eq_iff c.version []),
    ground arith,
    (check_prefixes_iff c.prefixes).0 (ground arith),
    capacity-pos c.capacity (ground arith),
    ground arith,
    ground (arith, str_eq_iff c.address [], int_eq_iff c.listen_port (pos 0)),
  ),
  λ (url, name, instance', version, given, paths, (n, capacity), token, address).
      let checked = (check_prefixes_iff c.prefixes).1 paths in
      let named = (is_segment_iff c.module_name).1 name in
      let placed = (is_segment_iff c.instance_name).1 instance' in
      ground (
        arith,
        str_eq_iff c.url [],
        str_eq_iff c.version [],
        str_eq_iff c.address [],
        int_eq_iff c.listen_port (pos 0),
      ),
)
