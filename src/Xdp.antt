-- ===== src/Xdp.antt =====
-- The configuration of the XDP programs: `Maps` has the kernel's maps and the methods of `MapStore`
-- and `DsrMapStore` on them (src/xdp/MapStore.cpp, src/xdp/DsrMapStore.cpp), `Sync` how a
-- configuration is published (src/control/XdpConfigSync.cpp, src/control/DsrConfigSync.cpp).
pub mod Maps
pub mod Sync
pub mod Runtime
mod Tests
