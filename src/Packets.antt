-- ===== src/Packets.antt =====
-- The MQTT control packets (source/packets.c, private/packets.h).
pub mod Field
pub mod Ack
pub mod Connack
pub mod Connection
pub mod Publish
pub mod Connect
pub mod Filters
pub mod Subscribe
pub mod Unsubscribe
pub mod RoundTrips
