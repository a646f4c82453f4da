-- ===== src/Sdk/Channel/Client/Backoff.antt =====
-- The waits between attempts to connect: sdk/channel/client.go.
use native.Mathlib.Nat.{mul_assoc, pow-suc}
use k8s4claw.Base.{sym, ℕ, zero, suc, ◌*◌, ◌^◌, ◌≤◌, ◌≡◌, ap, ◌∙◌, min, arith}
use k8s4claw.Sdk.Channel.Client.{next_interval}
use k8s4claw.Sdk.Channel.Options.{max_reconnect_interval}

-- The wait after a number of failed attempts.
abbrev pub interval_after : ℕ → ℕ → ℕ
interval_after interval zero = interval
interval_after interval (suc n) = next_interval (interval_after interval n)

doubled :
    (x : ℕ) → next_interval (min x max_reconnect_interval) ≡ min (x * 2) max_reconnect_interval
unfolding next_interval
doubled x = omega arith

power : (interval n : ℕ) → interval * 2 ^ n * 2 ≡ interval * 2 ^ suc n
power interval n = mul_assoc interval (2 ^ n) 2 ∙ ap (λ x. interval * x) (sym (pow-suc 2 n))

-- The base interval doubles with each failed attempt, up to one minute, if it starts at one at most.
interval_after_lem :
    (interval n : ℕ)
    → interval ≤ max_reconnect_interval
    → interval_after interval n ≡ min (interval * 2 ^ n) max_reconnect_interval
interval_after_lem interval zero h = omega (arith, h)
interval_after_lem interval (suc n) h =
    ap next_interval (interval_after_lem interval n h)
    ∙ doubled (interval * 2 ^ n)
    ∙ ap (λ x. min x max_reconnect_interval) (power interval n)
