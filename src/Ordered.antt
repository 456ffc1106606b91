-- ===== src/Ordered.antt =====
-- What the program uses of `std::set` and `std::map`: lists in the order of their keys.
pub mod Set
pub mod Map
