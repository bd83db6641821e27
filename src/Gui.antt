-- ===== src/Gui.antt =====
-- src/Gui: the device monitor's state.
pub mod Device
pub mod DeviceMonitorState
