-- ===== src/Gateway/Client/Schedule.antt =====
-- The waits of `Run` of lib/gatewayclient between its sessions.
use go_platform.Base.{
  Bool, ℕ, zero, suc, ◌*◌, ◌^◌, ◌≤◌, ◌<◌, true, false, List, [], ◌∷◌, ◌≡◌, refl, ◌⊎◌, inl, inr,
  arith, if◌then◌else◌, leb, All,
}
use go_platform.Gateway.Session.{Ending, refusal, going_away, dial, lost}
use go_platform.Gateway.Client.{
  Turn, Waits, turn, run, run_after, base_wait, default_reconnect, fresh,
}

-- A rejected handshake or a refused registration.
abbrev pub is_refusal : Ending → Bool
is_refusal (refusal code msg handshake) = true
is_refusal _ = false

-- A session that did not register, for a failed dial, a lost connection or a refusal.
abbrev pub IsFailed : Turn → Type 0
IsFailed t =
    (t.cancelled ≡ false)
    × (t.wait_cancelled ≡ false)
    × (t.session.registered ≡ false)
    × ((t.session.ending ≡ dial) ⊎ (t.session.ending ≡ lost) ⊎ (is_refusal t.session.ending ≡ true))

-- A session that registered and was closed 1001 within 30 seconds.
abbrev pub IsReplaced : Turn → Type 0
IsReplaced t =
    (t.cancelled ≡ false)
    × (t.wait_cancelled ≡ false)
    × (t.session.registered ≡ true)
    × (t.session.ending ≡ going_away)
    × (t.lasted < 30000)

-- The wait of a refusal, and behind `n` other turns the wait of attempt `n`.
abbrev pub waits_from : Waits → ℕ → List Turn → List ℕ
waits_from ws n [] = []
waits_from ws n (t ∷ ts) = elim (is_refusal t.session.ending) [
  | true ↦ ws.after_refusal ∷ waits_from ws n ts
  | false ↦ ws.reconnect n ∷ waits_from ws (suc n) ts
]

failed-pauses :
    (ws : Waits) (ts : List Turn) (n k : ℕ)
    → All IsFailed ts
    → (run ws ts (record { attempt = n; replaced_in_a_row = k })).pauses ≡ waits_from ws n ts
unfolding run run_after turn
failed-pauses ws [] n k h = refl
failed-pauses ws (t ∷ ts) n k (h, hs) =
    ground (arith, failed-pauses ws ts n k hs, failed-pauses ws ts (suc n) k hs)

replaced-pauses :
    (ws : Waits) (ts : List Turn) (a n : ℕ)
    → All IsReplaced ts
    → (run ws ts (record { attempt = a; replaced_in_a_row = n })).pauses ≡ waits_from ws n ts
unfolding run run_after turn
replaced-pauses ws [] a n h = refl
replaced-pauses ws (t ∷ ts) a n (h, hs) = ground (arith, replaced-pauses ws ts 1 (suc n) hs)

-- From its start on, while the context lives, where every session ends before its registration by a
-- failed dial, a lost connection or a refusal, or every one is registered and closed 1001 within 30
-- seconds: `Run` waits `ReconnectAfterRefusal` behind
-- a refused registration or a rejected handshake, and `Reconnect` of 0, 1, 2 and so on behind the others
-- in turn: instances that replace each other slow down as instances that cannot connect do.
pub run-backs_off :
    (ws : Waits) (ts : List Turn)
    → All IsFailed ts ⊎ All IsReplaced ts
    → (run ws ts fresh).pauses ≡ waits_from ws 0 ts
unfolding fresh
run-backs_off ws ts (inl h) = failed-pauses ws ts 0 0 h
run-backs_off ws ts (inr h) = replaced-pauses ws ts 0 0 h

-- The wait before attempt `n` lies within a fifth of 1, 2, 4, 8, 16 seconds for `n` up to 4, and of 30
-- seconds above, whatever the jitter.
pub default_reconnect_bounds :
    (jitter n : ℕ)
    → jitter < 400
    → (base_wait n ≡ (if leb n 4 then 1000 * 2 ^ n else 30000))
      × (800 * base_wait n ≤ 1000 * default_reconnect jitter n)
      × (1000 * default_reconnect jitter n < 1200 * base_wait n)
unfolding default_reconnect base_wait
default_reconnect_bounds jitter zero h = ground arith
default_reconnect_bounds jitter (suc zero) h = ground arith
default_reconnect_bounds jitter (suc (suc zero)) h = ground arith
default_reconnect_bounds jitter (suc (suc (suc zero))) h = ground arith
default_reconnect_bounds jitter (suc (suc (suc (suc zero)))) h = ground arith
default_reconnect_bounds jitter (suc (suc (suc (suc (suc n))))) h = ground arith
