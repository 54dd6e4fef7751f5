-- ===== src/Dns.antt =====
-- swoole_async.cc, the asynchronous DNS resolver: domain_encode, domain_decode, swDNSResolver_request
-- and swDNSResolver_onReceive. `none` is an access outside the memory given, or the end of a fuel.
pub mod Name
pub mod Packet
pub mod Resolver
mod Tests
