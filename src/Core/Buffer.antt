-- ===== src/Core/Buffer.antt =====
-- core/oscar_buffer.h and core/oscar_buffer.cpp: the packed byte streams.
pub mod Out
pub mod In
pub mod Appends
pub mod Put
pub mod Reads
pub mod RoundTrip
pub mod Bounds
pub mod Serial
pub mod Laws
pub mod Numbers
pub mod Containers
pub mod Flap
