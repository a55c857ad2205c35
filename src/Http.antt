-- ===== src/Http.antt =====
-- htttp/: the messages of HTTP.
pub mod Method
pub mod Order
pub mod Status
pub mod Params
pub mod Request
pub mod Response
mod Tests
