-- ===== src/Gui/DeviceMonitorState/Effects.antt =====
-- Each method that may change the devices, reduced to one of five effects on devices and commands.
use watchlist.Prelude.{
  ◌≤◌, Bool, true, Option, none, some, List, [], ◌∷◌, ◌++◌, ◌≡◌, refl, ap, ◌⊎◌, inl, inr, arith,
  has_value, append-nil, All, Bool-cases, Bytes, equal, equal_iff,
}
use watchlist.Gui.Device.{
  DeviceViewModel, DeviceCommandKind, DeviceCommand, DeviceEditorMode, DeviceEditorState,
}
use watchlist.Gui.DeviceMonitorState.{
  DeviceMonitorState, find_device, assign_device, erase_device, max_port, submit_editor,
  confirm_delete, set_alive, submit_on, confirm_on, set_alive_on, drafted, validate_draft,
  submit_valid,
}
use watchlist.Gui.DeviceMonitorState.Devices.{id-find_device}

abbrev pub command : DeviceCommandKind → Bytes → Option DeviceViewModel → DeviceCommand
command kind target_id device = record { kind = kind; target_id = target_id; device = device }

-- Every port is a `std::uint16_t`.
abbrev pub PortsFit : List DeviceViewModel → Type 0
PortsFit = All (λ (d : DeviceViewModel). d.port ≤ max_port)

-- How a method takes the devices `before` to `after`, and the commands that it queues with that.
pub data Effect (before after : List DeviceViewModel) (queued : List DeviceCommand) : Type 0 where
  nothing : after ≡ before → queued ≡ [] → Effect before after queued
  refreshed :
      after ≡ before
      → queued ≡ command DeviceCommandKind.refresh [] none ∷ []
      → Effect before after queued
  added :
      (v : DeviceViewModel)
      → find_device v.id before ≡ none
      → v.port ≤ max_port
      → after ≡ before ++ v ∷ []
      → queued ≡ command DeviceCommandKind.add v.id (some v) ∷ []
      → Effect before after queued
  assigned :
      (kind : DeviceCommandKind) (id : Bytes) (v : DeviceViewModel)
      → v.id ≡ id
      → (kind ≡ DeviceCommandKind.edit) ⊎ (kind ≡ DeviceCommandKind.set_alive)
      → has_value (find_device id before) ≡ true
      → v.port ≤ max_port
      → after ≡ assign_device id v before
      → queued ≡ command kind id (some v) ∷ []
      → Effect before after queued
  erased :
      (id : Bytes)
      → after ≡ erase_device id before
      → queued ≡ command DeviceCommandKind.delete id none ∷ []
      → Effect before after queued

pub record HasEffect (s s' : DeviceMonitorState) : Type 0 where
  pub queued : List DeviceCommand
  pub effect : Effect s.devices s'.devices queued
  pub commands : s'.commands ≡ s.commands ++ queued

-- A method that touches neither the devices nor the commands.
pub HasEffect-unchanged :
    (s s' : DeviceMonitorState) → s'.devices ≡ s.devices → s'.commands ≡ s.commands → HasEffect s s'
HasEffect-unchanged s s' d c = record {
  queued = [];
  effect = nothing d refl;
  commands = rw append-nil c;
}

port-find_device :
    (id : Bytes) (ds : List DeviceViewModel) (v : DeviceViewModel)
    → PortsFit ds
    → find_device id ds ≡ some v
    → v.port ≤ max_port
unfolding find_device
port-find_device id [] v f h = absurd (cc)
port-find_device id (d ∷ ds) v f h = ground (arith, port-find_device id ds v)

validate_draft_lem :
    (e : DeviceEditorState) (s : DeviceMonitorState)
    → ((validate_draft e s).1.devices ≡ s.devices)
      × ((validate_draft e s).1.commands ≡ s.commands)
      × ((validate_draft e s).0 ≡ true → (drafted e.draft).port ≤ max_port)
unfolding validate_draft
validate_draft_lem e s = ground arith

submit_valid-HasEffect :
    (m : DeviceEditorMode) (original : Bytes) (v : DeviceViewModel) (s : DeviceMonitorState)
    → v.port ≤ max_port
    → HasEffect s (submit_valid m original v s).1
unfolding submit_valid
submit_valid-HasEffect DeviceEditorMode.add original v s fits =
    elim (Bool-cases (has_value (find_device v.id s.devices))) [
      | inl taken ↦ rw taken (HasEffect-unchanged s _ refl refl)
      | inr free ↦
          rw free
            (record { queued = _; effect = added v (ground arith) fits refl refl; commands = refl })
    ]
submit_valid-HasEffect DeviceEditorMode.edit original v s fits =
    elim (Bool-cases (equal v.id original)) [
      | inr renamed ↦ rw renamed (HasEffect-unchanged s _ refl refl)
      | inl same ↦ elim (Bool-cases (has_value (find_device original s.devices))) [
        | inr gone ↦ rw (same, gone) (HasEffect-unchanged s _ refl refl)
        | inl found ↦
            let e : v.id ≡ original = (equal_iff v.id original).0 same in
            rw (same, found)
              (record {
                queued = _;
                effect =
                    assigned DeviceCommandKind.edit original v e (inl refl) found fits refl
                      (ap (λ (id : Bytes). command DeviceCommandKind.edit id (some v) ∷ []) e);
                commands = refl;
              })
      ]
    ]

confirm_on-HasEffect : (o : Option Bytes) (s : DeviceMonitorState) → HasEffect s (confirm_on o s).1
unfolding confirm_on
confirm_on-HasEffect none s = HasEffect-unchanged s _ refl refl
confirm_on-HasEffect (some id) s = elim (Bool-cases (has_value (find_device id s.devices))) [
  | inl found ↦ rw found (record { queued = _; effect = erased id refl refl; commands = refl })
  | inr gone ↦ rw gone (HasEffect-unchanged s _ refl refl)
]

set_alive_on-HasEffect :
    (o : Option DeviceViewModel) (id : Bytes) (alive : Bool) (s : DeviceMonitorState)
    → PortsFit s.devices
    → find_device id s.devices ≡ o
    → HasEffect s (set_alive_on o id alive s).1
unfolding set_alive_on
set_alive_on-HasEffect none id alive s f e = HasEffect-unchanged s _ refl refl
set_alive_on-HasEffect (some v) id alive s f e = record {
  queued = _;
  effect =
      assigned DeviceCommandKind.set_alive id (record v { alive = alive })
        (id-find_device id s.devices v e) (inr refl) (rw e) (port-find_device id s.devices v f e)
        refl refl;
  commands = refl;
}

submit_on-HasEffect :
    (o : Option DeviceEditorState) (s : DeviceMonitorState) → HasEffect s (submit_on o s).1
unfolding submit_on
submit_on-HasEffect none s = HasEffect-unchanged s s refl refl
submit_on-HasEffect (some e) s =
    let (same_devices, same_commands, fits) = validate_draft_lem e s in
    elim (Bool-cases (validate_draft e s).0) [
      | inr invalid ↦ rw invalid (HasEffect-unchanged s _ same_devices same_commands)
      | inl valid ↦
          let s' : DeviceMonitorState = (validate_draft e s).1 in
          let h = submit_valid-HasEffect e.mode e.original_id (drafted e.draft) s' (fits valid) in
          rw valid (record {
            queued = h.queued;
            effect = rw same_devices at h.effect;
            commands = rw same_commands at h.commands;
          })
    ]

pub submit_editor-HasEffect : (s : DeviceMonitorState) → HasEffect s (submit_editor s).1
unfolding submit_editor
submit_editor-HasEffect s = submit_on-HasEffect s.editor s

pub confirm_delete-HasEffect : (s : DeviceMonitorState) → HasEffect s (confirm_delete s).1
unfolding confirm_delete
confirm_delete-HasEffect s = confirm_on-HasEffect s.pending_delete_id s

pub set_alive-HasEffect :
    (id : Bytes) (alive : Bool) (s : DeviceMonitorState)
    → PortsFit s.devices
    → HasEffect s (set_alive id alive s).1
unfolding set_alive
set_alive-HasEffect id alive s f =
    set_alive_on-HasEffect (find_device id s.devices) id alive s f refl
