-- ===== src/Tests.antt =====
-- Concrete runs of the theorems, a module for each part of the program.
mod Results
mod Requests
mod Methods
mod Sets
mod Uploads
mod Clients
mod Auth
mod Replications
mod Streams
mod Ends
mod Polls
mod Drivers
