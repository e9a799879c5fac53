-- ===== src/Host/Address/Forged.antt =====
-- `clientAddr` of module.go, by what a client and the proxies have written.
use mathlib.Core.List.{append_assoc}
use go_platform.Base.{
  GoString, ℕ, Bool, true, false, not, List, [], ◌∷◌, ◌++◌, Option, none, some, ◌≡◌, refl, sym, ◌∙◌,
  ap, inl, inr, arith, split_at, split_at-shape, if◌then◌else◌, Option-cases,
}
use go_platform.Host.Address.{
  Netip, elements, forwarded_chain, Walk, ended, going, address_of, is_trusted, turn, turn_after,
  walk, peer_text, walked, last_address, client_addr,
}

-- The parts of two texts joined by the separator.
split_at-join :
    (sep : ℕ) (a b : GoString) → split_at sep (a ++ sep ∷ b) ≡ split_at sep a ++ split_at sep b
unfolding split_at
split_at-join sep [] b = ground (arith, split_at-shape sep b)
split_at-join sep (c ∷ a) b = ground (arith, split_at-join sep a b, split_at-shape sep a)

elements-append : (xs ys : List GoString) → elements (xs ++ ys) ≡ elements xs ++ elements ys
unfolding elements
elements-append [] ys = refl
elements-append (x ∷ xs) ys = ground (arith, elements-append xs ys)

forwarded_chain-append :
    (xs ys : List GoString) → forwarded_chain (xs ++ ys) ≡ forwarded_chain xs ++ forwarded_chain ys
unfolding forwarded_chain
forwarded_chain-append [] ys = refl
forwarded_chain-append (x ∷ xs) ys =
    ap (λ l. elements (split_at b',' x) ++ l) (forwarded_chain-append xs ys)
    ∙ sym (append_assoc (elements (split_at b',' x)) (forwarded_chain xs) (forwarded_chain ys))

-- The line that a proxy leaves: what it saw, behind a comma on the last line of the client, or alone.
abbrev pub line_of : Option GoString → GoString → GoString
line_of none own = own
line_of (some forged) own = forged ++ b',' ∷ own

-- The chain is that of the lines of the proxies behind elements of the client.
chain-appended :
    (lines : List GoString) (last : Option GoString) (own : GoString) (more : List GoString)
    → (xs : List GoString) × (forwarded_chain (lines ++ line_of last own ∷ more)
        ≡ xs ++ forwarded_chain (own ∷ more))
unfolding forwarded_chain
chain-appended lines none own more =
    (forwarded_chain lines, forwarded_chain-append lines (own ∷ more))
chain-appended lines (some forged) own more =
    let first = elements (split_at b',' forged) in
    let behind = elements (split_at b',' own) in
    let cut : elements (split_at b',' (forged ++ b',' ∷ own)) ≡ first ++ behind =
      ap elements (split_at-join b',' forged own)
      ∙ elements-append (split_at b',' forged) (split_at b',' own) in
    (
      forwarded_chain lines ++ first,
      forwarded_chain-append lines ((forged ++ b',' ∷ own) ∷ more)
          ∙ ap (λ l. forwarded_chain lines ++ (l ++ forwarded_chain more)) cut
          ∙ ap (λ l. forwarded_chain lines ++ l) (append_assoc first behind (forwarded_chain more))
          ∙ sym (append_assoc (forwarded_chain lines) first (behind ++ forwarded_chain more)),
    )

module _ {A P : Type 0} (ip : Netip A P) where
  walk-append :
      (trusted : List P) (xs ys : List GoString) (last s : GoString)
      → walk ip trusted ys last ≡ ended s
      → walk ip trusted (xs ++ ys) last ≡ ended s
  unfolding walk turn_after
  walk-append trusted [] ys last s h = h
  walk-append trusted (x ∷ xs) ys last s h =
      ap (turn_after ip trusted x) (walk-append trusted xs ys last s h)

  -- The walk ends at an element that is no address or no trusted proxy.
  turn-Ends :
      (trusted : List P) (e last : GoString)
      → ((a : A) → ip.addr_of e ≡ some a → is_trusted ip a trusted ≡ false)
      → (s : GoString) × (turn ip trusted e last ≡ ended s)
  unfolding turn
  turn-Ends trusted e last h = elim (Option-cases (ip.addr_of e)) [
    | inl none_read ↦ (last, ground arith)
    | inr (a, found) ↦ (ip.text_of a, (let out = h a found in ground arith))
  ]

  turn_after-Ends :
      (trusted : List P) (e : GoString) (w : Walk)
      → ((a : A) → ip.addr_of e ≡ some a → is_trusted ip a trusted ≡ false)
      → (s : GoString) × (turn_after ip trusted e w ≡ ended s)
  unfolding turn_after
  turn_after-Ends trusted e (ended s) h = (s, refl)
  turn_after-Ends trusted e (going last) h = turn-Ends trusted e last h

  chain-forged :
      (trusted : List P) (xs ys : List GoString) (peer : Option A) (e : GoString)
      (es : List GoString)
      → ((a : A) → ip.addr_of e ≡ some a → is_trusted ip a trusted ≡ false)
      → walked ip trusted (xs ++ e ∷ es) peer ≡ walked ip trusted (ys ++ e ∷ es) peer
  unfolding walked walk
  chain-forged trusted xs ys none e es h = refl
  chain-forged trusted xs ys (some a) e es h =
      let (s, stops) = turn_after-Ends trusted e (walk ip trusted es (ip.text_of a)) h in
      ap (λ w. if not (is_trusted ip a trusted) then ip.text_of a else address_of w)
        (walk-append trusted xs (e ∷ es) _ s stops
          ∙ sym (walk-append trusted ys (e ∷ es) _ s stops))

-- With a list of trusted proxies, where what the proxies wrote to X-Forwarded-For, on the last line of
-- the client behind a comma or on a line of their own, and on the lines behind it, begins with an element
-- that is no address of a trusted proxy (the address of the client, or of its own proxy), the address of
-- the client depends neither on what the client wrote before it on that line nor on its other lines.
pub client_addr-forged :
    {A P : Type 0} (ip : Netip A P) (trusted : List P) (remote : GoString)
    (lines lines' : List GoString) (last last' : Option GoString) (own : GoString)
    (more : List GoString) (e : GoString) (es : List GoString)
    → forwarded_chain (own ∷ more) ≡ e ∷ es
    → ((a : A) → ip.addr_of e ≡ some a → is_trusted ip a trusted ≡ false)
    → client_addr ip (some trusted) remote (lines ++ line_of last own ∷ more)
      ≡ client_addr ip (some trusted) remote (lines' ++ line_of last' own ∷ more)
unfolding client_addr
client_addr-forged ip trusted remote lines lines' last last' own more e es written out =
    let (xs, same) = chain-appended lines last own more in
    let (ys, same') = chain-appended lines' last' own more in
    ap (λ l. walked ip trusted l (ip.addr_of remote)) (same ∙ ap (λ l. xs ++ l) written)
    ∙ chain-forged ip trusted xs ys (ip.addr_of remote) e es out
    ∙ ap (λ l. walked ip trusted l (ip.addr_of remote)) (sym (same' ∙ ap (λ l. ys ++ l) written))

module _ {A P : Type 0} (ip : Netip A P) where
  -- A text that an address was printed to.
  abbrev pub IsPrinted : GoString → Type 0
  IsPrinted s = (a : A) × (s ≡ ip.text_of a)

  turn-IsPrinted :
      (trusted : List P) (e last : GoString)
      → IsPrinted last
      → IsPrinted (address_of (turn ip trusted e last))
  unfolding turn address_of
  turn-IsPrinted trusted e last (b, printed) = elim (Option-cases (ip.addr_of e)) [
    | inl none_read ↦ (b, ground arith)
    | inr (a, found) ↦ (a, ground arith)
  ]

  turn_after-IsPrinted :
      (trusted : List P) (e : GoString) (w : Walk)
      → IsPrinted (address_of w)
      → IsPrinted (address_of (turn_after ip trusted e w))
  unfolding turn_after address_of
  turn_after-IsPrinted trusted e (ended s) h = h
  turn_after-IsPrinted trusted e (going last) h = turn-IsPrinted trusted e last h

  walk-IsPrinted :
      (trusted : List P) (es : List GoString) (last : GoString)
      → IsPrinted last
      → IsPrinted (address_of (walk ip trusted es last))
  unfolding walk address_of
  walk-IsPrinted trusted [] last h = h
  walk-IsPrinted trusted (e ∷ es) last h =
      turn_after-IsPrinted trusted e (walk ip trusted es last) (walk-IsPrinted trusted es last h)

  last_address-IsPrinted :
      (es : List GoString) (last : GoString) → IsPrinted last → IsPrinted (last_address ip es last)
  unfolding last_address
  last_address-IsPrinted [] last h = h
  last_address-IsPrinted (e ∷ []) last (b, printed) = elim (Option-cases (ip.addr_of e)) [
    | inl none_read ↦ (b, ground arith)
    | inr (a, found) ↦ (a, ground arith)
  ]
  last_address-IsPrinted (e ∷ e' ∷ es) last h = last_address-IsPrinted (e' ∷ es) last h

  IsPrinted-if :
      (b : Bool) (x y : GoString) → IsPrinted x → IsPrinted y → IsPrinted (if b then x else y)
  IsPrinted-if true x y hx hy = hx
  IsPrinted-if false x y hx hy = hy

  values-IsPrinted :
      (trusted : Option (List P)) (peer : A) (chain : List GoString) (found : Option A)
      → found ≡ some peer
      → IsPrinted (elim trusted [
        | none ↦ last_address ip chain (peer_text ip found)
        | some ps ↦ walked ip ps chain found
      ])
  unfolding peer_text walked
  values-IsPrinted trusted peer chain none h = cc
  values-IsPrinted none peer chain (some a) h =
      last_address-IsPrinted chain (ip.text_of a) (a, refl)
  values-IsPrinted (some ps) peer chain (some a) h =
      IsPrinted-if (not (is_trusted ip a ps)) _ _ (a, refl)
        (walk-IsPrinted ps chain (ip.text_of a) (a, refl))

-- Where the peer has an address, the client has one too, whatever the headers hold.
pub client_addr-IsPrinted :
    {A P : Type 0} (ip : Netip A P) (trusted : Option (List P)) (remote : GoString)
    (values : List GoString) (peer : A)
    → ip.addr_of remote ≡ some peer
    → IsPrinted ip (client_addr ip trusted remote values)
unfolding client_addr
client_addr-IsPrinted ip none remote values peer h =
    values-IsPrinted ip none peer (forwarded_chain values) (ip.addr_of remote) h
client_addr-IsPrinted ip (some ps) remote values peer h =
    values-IsPrinted ip (some ps) peer (forwarded_chain values) (ip.addr_of remote) h
