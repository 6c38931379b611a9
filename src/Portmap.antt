-- ===== src/Portmap.antt =====
-- plugins/meta/portmap: the rules that forward host ports to a container.
pub mod Ports
pub mod Rules
pub mod Chain
pub mod Forward
pub mod Split
pub mod Parse
