-- ===== src/Host/Compose/Owned.antt =====
-- `New` of module.go: which modules it composes.
use go_platform.Base.{
  GoString, List, [], ◌∷◌, ◌++◌, none, ◌≡◌, ◌≢◌, ◌↔◌, refl, arith, str_eq_iff, lookup, All, Absent,
  IsDistinct, inl, inr, Option-cases,
}
use go_platform.Host.Compose.{
  Module, Owners, own_prefixes, own_modules, then_own, error_of, new_host,
}

-- What the modules declare, in the order of their registration.
abbrev pub all_declared : List Module → List GoString
all_declared [] = []
all_declared (m ∷ ms) = m.declared ++ all_declared ms

-- The paths of a list are new to the owners so far, and none is there twice.
abbrev IsNew : List GoString → List (GoString × GoString) → Type 0
IsNew ps owner = IsDistinct ps × All (λ p. lookup p owner ≡ none) ps

lookup-owner :
    (p q name : GoString) (owner : List (GoString × GoString))
    → (lookup q ((p, name) ∷ owner) ≡ none) ↔ ((q ≢ p) × (lookup q owner ≡ none))
unfolding lookup
lookup-owner p q name owner = (
  λ h. (λ (e : q ≡ p). ground (arith, str_eq_iff p q), ground (arith, str_eq_iff p q)),
  λ (ne, h). ground (arith, str_eq_iff p q),
)

All-owner :
    (p name : GoString) (owner : List (GoString × GoString)) (qs : List GoString)
    → All (λ q. lookup q ((p, name) ∷ owner) ≡ none) qs
      ↔ (Absent p qs × All (λ q. lookup q owner ≡ none) qs)
All-owner p name owner [] = (λ h. (tt, tt), λ h. tt)
All-owner p name owner (q ∷ qs) =
    let here = lookup-owner p q name owner in
    let rest = All-owner p name owner qs in
    (
      λ (h, hs). ((((here.0 h).0), (rest.0 hs).0), ((here.0 h).1, (rest.0 hs).1)),
      λ ((ne, nes), (h, hs)). (here.1 (ne, h), rest.1 (nes, hs)),
    )

-- The first path of a list is new, and the rest is with it: the list is.
IsNew-cons :
    (p name : GoString) (owner : List (GoString × GoString)) (qs : List GoString)
    → ((lookup p owner ≡ none) × IsNew qs ((p, name) ∷ owner)) ↔ IsNew (p ∷ qs) owner
IsNew-cons p name owner qs =
    let split' = All-owner p name owner qs in
    (
      λ (h, (d, hs)). (((split'.0 hs).0, d), (h, (split'.0 hs).1)),
      λ ((absent', d), (h, hs)). (h, (d, split'.1 (absent', hs))),
    )

-- The loop over one module, before whatever follows it.
then_own-prefixes :
    (name : GoString) (ps qs : List GoString) (next : List (GoString × GoString) → Owners)
    → ((o : List (GoString × GoString)) → (error_of (next o) ≡ none) ↔ IsNew qs o)
    → (owner : List (GoString × GoString))
    → (error_of (then_own (own_prefixes name ps owner) next) ≡ none) ↔ IsNew (ps ++ qs) owner
unfolding own_prefixes then_own error_of
then_own-prefixes name [] qs next h owner = h owner
then_own-prefixes name (p ∷ ps) qs next h owner =
    let step = IsNew-cons p name owner (ps ++ qs) in
    let rest = then_own-prefixes name ps qs next h ((p, name) ∷ owner) in
    elim (Option-cases (lookup p owner)) [
      | inl free ↦ (
        λ e. step.0 (free, rest.0 (ground arith)),
        λ i. let later = rest.1 ((step.1 i).1) in ground arith,
      )
      | inr (by, taken) ↦
          (λ e. absurd (ground arith), λ i. let first = (step.1 i).0 in absurd (ground arith))
    ]

own_modules_iff :
    (ms : List Module) (owner : List (GoString × GoString))
    → (error_of (own_modules ms owner) ≡ none) ↔ IsNew (all_declared ms) owner
unfolding own_modules error_of
own_modules_iff [] owner = (λ h. (tt, tt), λ h. refl)
own_modules_iff (m ∷ ms) owner =
    then_own-prefixes m.name m.declared (all_declared ms) (own_modules ms) (own_modules_iff ms)
      owner

abbrev no_owners : List (GoString × GoString)
no_owners = []

All-unowned : (ps : List GoString) → All (λ p. lookup p no_owners ≡ none) ps
unfolding lookup
All-unowned [] = tt
All-unowned (p ∷ ps) = (refl, All-unowned ps)

-- `New` composes the modules exactly where there is one and no path is declared twice, by two modules or
-- by one.
pub new_host-none_iff :
    (ms : List Module) → (new_host ms ≡ none) ↔ ((ms ≢ []) × IsDistinct (all_declared ms))
unfolding new_host
new_host-none_iff [] = (λ h. absurd (cc h), λ (some', d). absurd (some' refl))
new_host-none_iff (m ∷ ms) =
    let made = own_modules_iff (m ∷ ms) [] in
    (λ h. (λ e. cc, (made.0 h).0), λ (some', d). made.1 (d, All-unowned (all_declared (m ∷ ms))))
