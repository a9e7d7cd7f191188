-- ===== src/Tests.antt =====
-- Runs of the models on concrete inputs, and each theorem with conditions applied to one input that
-- meets them.
mod Startup
mod Text
mod Pairs
mod Address
mod Queue
mod Times
mod Cookies
mod Working
mod Messages
mod Replies
mod Reports
mod Components
mod Names
mod Settings
mod Links
mod Headers
mod Sockets
mod Requests
mod Responses
mod Bodies
mod Chunks
mod Pings
