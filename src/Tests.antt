-- ===== src/Tests.antt =====
-- Concrete runs of the model: instances of the interfaces, sample snapshots, and the theorems applied
-- to them.
mod Maps
mod Network
mod Samples
mod Requests
mod Routing
mod Balancing
mod Streaming
mod Serving
mod Running
mod Ending
mod Booting
mod Choosing
mod InFlight
mod Starting
mod Listening
mod Proxying
mod Authorizing
mod Rewriting
