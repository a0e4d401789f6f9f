-- ===== src/Tests/Windows.antt =====
-- The window at the end of the 32-bit circle.
use grpcreplay.Base.{ℕ, ◌≡◌, ◌≤◌, ◌⊎◌, ◌↔◌, ◌+◌, ◌%◌, true, arith, u32_mod, max_uint32}
use grpcreplay.TcpBuffer.{valid_package}
use grpcreplay.TcpBuffer.Window.{ahead, valid_package-ahead}

valid_package-ahead_example : (valid_package 4294967290 65536 3 ≡ true) ↔ (
    (ahead 4294967290 3 ≤ 65536)
    ⊎ (((4294967290 + 65536) % u32_mod ≡ max_uint32) × (◌≡◌ {A = ℕ} 3 0)))
valid_package-ahead_example =
    valid_package-ahead 4294967290 65536 3 (omega arith) (omega arith) (omega arith)
