-- ===== src/Rest/Idempotency/Keys.antt =====
-- The keys of the idempotency store of lib/rest/rest.go.
use mathlib.Core.Path.{subst}
use go_platform.Base.{GoString, ℕ, [], ◌∷◌, ◌++◌, ◌≡◌, refl, sym, arith, Lacks}
use go_platform.Rest.Idempotency.{store_key, idem_scope}

middle : (sep : ℕ) (b l : GoString) → Lacks sep (b ++ sep ∷ l) → ⊥
middle sep [] l h = ground arith
middle sep (c ∷ b) l h = middle sep b l h.1

-- The first separator of a text: what stands before it and lacks it is determined, and so is the rest.
first_cut :
    (sep : ℕ) (a b k l : GoString)
    → Lacks sep a
    → Lacks sep b
    → a ++ sep ∷ k ≡ b ++ sep ∷ l
    → (a ≡ b) × (k ≡ l)
first_cut sep [] [] k l ha hb e = (refl, ground arith)
first_cut sep [] (d ∷ b) k l ha hb e = absurd (ground arith)
first_cut sep (c ∷ a) [] k l ha hb e = absurd (ground arith)
first_cut sep (c ∷ a) (d ∷ b) k l ha hb e =
    let (same, rest) = first_cut sep a b k l ha.1 hb.1 (ground arith) in (ground arith, rest)

-- The last separator: what follows it and lacks it is determined, and so is what stands before.
last_cut :
    (sep : ℕ) (a b k l : GoString)
    → Lacks sep k
    → Lacks sep l
    → a ++ sep ∷ k ≡ b ++ sep ∷ l
    → (a ≡ b) × (k ≡ l)
last_cut sep [] [] k l hk hl e = (refl, ground arith)
last_cut sep [] (d ∷ b) k l hk hl e =
    let same : k ≡ b ++ sep ∷ l = ground arith in
    absurd (middle sep b l (subst (Lacks sep) same hk))
last_cut sep (c ∷ a) [] k l hk hl e =
    let same : a ++ sep ∷ k ≡ l = ground arith in
    absurd (middle sep a k (subst (Lacks sep) (sym same) hl))
last_cut sep (c ∷ a) (d ∷ b) k l hk hl e =
    let (same, rest) = last_cut sep a b k l hk hl (ground arith) in (ground arith, rest)

-- Two requests have one entry of the store only with one user, one path and one Idempotency-Key,
-- whatever bytes the path holds, as long as neither a session code nor a key holds a NUL byte.
pub store_key-injective :
    (u u' path path' key key' : GoString)
    → Lacks 0 u
    → Lacks 0 u'
    → Lacks 0 key
    → Lacks 0 key'
    → store_key (idem_scope u path) key ≡ store_key (idem_scope u' path') key'
    → (u ≡ u') × (path ≡ path') × (key ≡ key')
unfolding store_key idem_scope
store_key-injective u u' path path' key key' hu hu' hk hk' e =
    let (scopes, keys) = last_cut 0 _ _ key key' hk hk' e in
    let (users, paths) = first_cut 0 u u' path path' hu hu' scopes in (users, paths, keys)
