-- ===== src/Conf.antt =====
-- internal/mosquitto/conf/conf.go and render.go: configuration files, read and written back.
pub mod Item
pub mod Parse
pub mod Render
pub mod Blocks
pub mod Lines
pub mod Lossless
