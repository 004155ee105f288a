-- ===== src/Net.antt =====
-- kernel/core/net.c: TCP, ARP, DNS, DHCP, the frames, and the asynchronous HTTP client.
-- A packet is the list of its bytes. Sending is an output: what a handler sends is returned with its
-- state, and the answer of the network card to a send is an argument. The blocking calls are left out.
pub mod Tcp
pub mod Receiving
pub mod Link
pub mod Stream
pub mod Duplicates
pub mod Padding
pub mod Arp
pub mod Url
pub mod Dns
pub mod Dhcp
pub mod Poll
pub mod Async
pub mod Waiting
pub mod Frames
mod Tests
