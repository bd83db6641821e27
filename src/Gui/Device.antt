-- ===== src/Gui/Device.antt =====
-- src/Gui/DeviceMonitorState.hpp: a device as the GUI shows it, as it is edited, and as it stands in
-- a command for the storage service.
use watchlist.Prelude.{ℕ, Bool, Option, Bytes}
use watchlist.Prelude.Int.{ℤ}

pub record DeviceViewModel : Type 0 where
  pub id : Bytes
  pub name : Bytes
  pub address : Bytes
  pub port : ℕ
  pub alive : Bool

pub record DeviceDraft : Type 0 where
  pub id : Bytes
  pub name : Bytes
  pub address : Bytes
  pub port : ℤ
  pub alive : Bool

pub data DeviceCommandKind : Type 0 where
  refresh add edit delete set_alive : DeviceCommandKind

pub record DeviceCommand : Type 0 where
  pub kind : DeviceCommandKind
  pub target_id : Bytes
  pub device : Option DeviceViewModel

pub data DeviceEditorMode : Type 0 where
  add edit : DeviceEditorMode

pub record DeviceEditorState : Type 0 where
  pub mode : DeviceEditorMode
  pub original_id : Bytes
  pub draft : DeviceDraft
