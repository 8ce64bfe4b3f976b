-- ===== src/Tests.antt =====
-- The theorems at concrete inputs.
mod AutoConfigTests
mod RelayTests
mod BufferTests
mod FileDataTests
mod ConfigTests
mod RequestTests
mod StoreTests
mod StreamTests
