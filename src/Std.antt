-- ===== src/Std.antt =====
-- What the program uses of Go's standard library: `strings`, `encoding/base64` and `time`.
pub mod Text
pub mod Base64
pub mod Time
