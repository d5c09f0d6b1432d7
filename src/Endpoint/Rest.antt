-- ===== src/Endpoint/Rest.antt =====
-- The endpoint manager's REST interface (src/endpoint/restful.c), over the operations of a target. The
-- JSON library (Jansson) is an argument; the web server (Mongoose) hands over a request and is handed
-- its answer.
pub mod Uri
pub mod Json
pub mod Answer
pub mod Post
pub mod Delete
pub mod Serve
pub mod Made
pub mod Fair
pub mod Posted
pub mod Safe
mod Tests
