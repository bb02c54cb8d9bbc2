-- ===== src/Api.antt =====
-- src/http/api.c: the REST API beside the WebSocket. The tables of src/db/database.c are an
-- interface, and so are the files.
pub mod Reply
pub mod Json
pub mod Backend
pub mod Account
pub mod Admin
pub mod Static
pub mod Handle
pub mod Sent
pub mod Rows
pub mod Guard
pub mod Paths
pub mod SignUp
pub mod LogIn
mod Tests
