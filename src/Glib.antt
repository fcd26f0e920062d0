-- ===== src/Glib.antt =====
-- libfep-glib: the client library as a GObject, whose signals take the place of the event filter. The
-- events are in Events, what is done with one in Filtering, and the object in Objects.
pub mod Events
pub mod Filtering
pub mod Objects
pub mod Copies
pub mod Offers
pub mod Dispatching
pub mod Opening
