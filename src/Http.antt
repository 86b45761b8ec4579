-- ===== src/Http.antt =====
-- core/src/http: methods and versions, headers, requests, the incremental parser, responses.
pub mod Method
pub mod Headers
pub mod Status
pub mod Request
pub mod State
pub mod Parser
pub mod Response
