-- ===== src/TcpBuffer/Window.antt =====
-- What `validPackage` accepts.
use grpcreplay.Base.{ℕ, ◌+◌, ◌-◌, ◌%◌, ◌≤◌, ◌<◌, ◌≡◌, ◌⊎◌, ◌↔◌, true, arith, u32_mod, max_uint32}
use grpcreplay.TcpBuffer.{valid_package}

-- How far `seq` lies ahead of `from`, around the 32-bit circle.
abbrev pub ahead : ℕ → ℕ → ℕ
ahead from seq = (seq + u32_mod - from) % u32_mod

-- For 32-bit sequence numbers and a window below 2^32 - 1: a packet is accepted exactly when
-- its sequence number lies at most `window` ahead of the expected one on the 32-bit circle, or
-- is zero where the window's last number is 2^32 - 1.
pub valid_package-ahead :
    (expected window seq : ℕ)
    → expected < u32_mod
    → window < max_uint32
    → seq < u32_mod
    → (valid_package expected window seq ≡ true)
      ↔ ((ahead expected seq ≤ window) ⊎ (((expected + window) % u32_mod ≡ max_uint32) × (seq ≡ 0)))
unfolding valid_package
valid_package-ahead e w s he hw hs = (λ h. ground arith, λ h. ground arith)

pub valid_package_self : (e : ℕ) → e < u32_mod → valid_package e 65536 e ≡ true
unfolding valid_package
valid_package_self e h = ground arith
