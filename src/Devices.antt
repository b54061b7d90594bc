-- ===== src/Devices.antt =====
-- Kernel/Devices: the framebuffer, its console and the serial port.
pub mod Console
pub mod Graphics
pub mod Serial
