-- ===== src/Chttp.antt =====
-- Package chttp: the HTTP client of the driver.
pub mod Client
pub mod Cookie
pub mod Auth
pub mod DocId
pub mod Options
pub mod Headers
pub mod Response
pub mod Send
pub mod Streams
pub mod Trace
pub mod Encoder
