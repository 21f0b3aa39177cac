-- ===== src/App.antt =====
-- internal/app: the configuration (config.go) and the part of RunWith (app.go) that puts the storage
-- role together. The environment, url.Parse, the parsers of strconv and time, and encoding/json are
-- parameters.
pub mod Config
pub mod Load
pub mod Wiring
pub mod Sound
pub mod Built
pub mod Ready
pub mod Loaded
mod Tests
