-- ===== src/Gui/DeviceMonitorState/Submission.antt =====
-- When the editor is submitted, and what a refused submission leaves.
use watchlist.Prelude.{
  true, false, Option, none, some, List, [], ◌∷◌, ◌++◌, ap, ◌∙◌, equal, ◌≡◌, ◌≢◌, ◌↔◌, ◌⊎◌, inl,
  inr, refl, arith, has_value, Bool-cases, Bytes, equal_iff,
}
use watchlist.Prelude.Int.{pos, ◌≤ℤ◌}
use watchlist.Gui.Device.{
  DeviceViewModel, DeviceCommandKind, DeviceEditorMode, DeviceEditorState, DeviceDraft,
}
use watchlist.Gui.DeviceMonitorState.{
  DeviceMonitorState, find_device, assign_device, max_port, drafted, submit_editor, submit_on,
  submit_valid, validate_draft, set_error,
}

-- The draft has all its texts, and a port of 16 bits.
abbrev pub IsFilled : DeviceEditorState → Type 0
IsFilled e =
    (e.draft.id ≢ [])
    × (e.draft.name ≢ [])
    × (e.draft.address ≢ [])
    × (pos 0 ≤ℤ e.draft.port)
    × (e.draft.port ≤ℤ pos max_port)

-- A new device has a new id; an edited one keeps its id and is still there.
abbrev pub Fits : DeviceEditorMode → Bytes → Bytes → List DeviceViewModel → Type 0
Fits DeviceEditorMode.add original id ds = find_device id ds ≡ none
Fits DeviceEditorMode.edit original id ds =
    (id ≡ original) × (has_value (find_device original ds) ≡ true)

abbrev pub CanSubmit : Option DeviceEditorState → List DeviceViewModel → Type 0
CanSubmit none ds = ⊥
CanSubmit (some e) ds = IsFilled e × Fits e.mode e.original_id e.draft.id ds

abbrev pub command_kind : DeviceEditorMode → DeviceCommandKind
command_kind DeviceEditorMode.add = DeviceCommandKind.add
command_kind DeviceEditorMode.edit = DeviceCommandKind.edit

-- A new device is last in the list; an edited one takes the place of the device with its id.
abbrev pub Placed :
    DeviceEditorMode → DeviceViewModel → List DeviceViewModel → List DeviceViewModel → Type 0
Placed DeviceEditorMode.add v ds after = after ≡ ds ++ v ∷ []
Placed DeviceEditorMode.edit v ds after =
    (left : List DeviceViewModel) × (old : DeviceViewModel) × (right : List DeviceViewModel) × (ds
      ≡ left ++ old ∷ right)
    × (old.id ≡ v.id)
    × (find_device v.id left ≡ none)
    × (after ≡ left ++ v ∷ right)

-- What a submission that succeeds leaves: the device of the draft in its place, one command more with
-- that device, no editor and no error.
pub record Submitted (e : DeviceEditorState) (s after : DeviceMonitorState) : Type 0 where
  pub placed : Placed e.mode (drafted e.draft) s.devices after.devices
  pub queued :
      after.commands
      ≡ s.commands
        ++ record {
          kind = command_kind e.mode;
          target_id = e.draft.id;
          device = some (drafted e.draft);
        }
          ∷ []
  pub closed : (after.editor ≡ none) × (after.error ≡ none)
  pub others :
      (after.pending_delete_id ≡ s.pending_delete_id) × (after.exit_requested ≡ s.exit_requested)

-- Only the error text differs.
abbrev pub SameButError : DeviceMonitorState → DeviceMonitorState → Type 0
SameButError s s' = s' ≡ record s { error = s'.error }

validate_draft_iff :
    (e : DeviceEditorState) (s : DeviceMonitorState) → ((validate_draft e s).0 ≡ true) ↔ IsFilled e
unfolding validate_draft
validate_draft_iff e s = (λ h. ground arith, λ h. ground arith)

validate_draft-valid :
    (e : DeviceEditorState) (s : DeviceMonitorState)
    → (validate_draft e s).0 ≡ true
    → (validate_draft e s).1 ≡ s
unfolding validate_draft
validate_draft-valid e s h = ground arith

validate_draft-SameButError :
    (e : DeviceEditorState) (s : DeviceMonitorState) → SameButError s (validate_draft e s).1
unfolding validate_draft set_error
validate_draft-SameButError e s = ground arith

submit_valid_iff :
    (m : DeviceEditorMode) (original : Bytes) (v : DeviceViewModel) (s : DeviceMonitorState)
    → ((submit_valid m original v s).0 ≡ true) ↔ Fits m original v.id s.devices
unfolding submit_valid
submit_valid_iff DeviceEditorMode.add original v s = (λ h. ground arith, λ h. ground arith)
submit_valid_iff DeviceEditorMode.edit original v s =
    (λ h. ground (arith, equal_iff v.id original), λ h. ground (arith, equal_iff v.id original))

submit_valid-SameButError :
    (m : DeviceEditorMode) (original : Bytes) (v : DeviceViewModel) (s : DeviceMonitorState)
    → (submit_valid m original v s).0 ≡ false
    → SameButError s (submit_valid m original v s).1
unfolding submit_valid set_error
submit_valid-SameButError DeviceEditorMode.add original v s h = ground arith
submit_valid-SameButError DeviceEditorMode.edit original v s h = ground arith

submit_on_iff :
    (o : Option DeviceEditorState) (s : DeviceMonitorState)
    → ((submit_on o s).0 ≡ true) ↔ CanSubmit o s.devices
unfolding submit_on
submit_on_iff none s = (λ h. absurd (cc), λ h. absurd h)
submit_on_iff (some e) s = elim (Bool-cases (validate_draft e s).0) [
  | inr invalid ↦ rw invalid (λ h. absurd (cc), λ c. cc ((validate_draft_iff e s).1 c.0))
  | inl valid ↦
      let m = submit_valid_iff e.mode e.original_id (drafted e.draft) s in
      rw (valid, validate_draft-valid e s valid)
        (λ h. ((validate_draft_iff e s).0 valid, m.0 h), λ c. m.1 c.1)
]

submit_on-SameButError :
    (o : Option DeviceEditorState) (s : DeviceMonitorState)
    → (submit_on o s).0 ≡ false
    → SameButError s (submit_on o s).1
unfolding submit_on
submit_on-SameButError none s h = refl
submit_on-SameButError (some e) s h = elim (Bool-cases (validate_draft e s).0) [
  | inr invalid ↦ rw invalid (validate_draft-SameButError e s)
  | inl valid ↦
      let e' = validate_draft-valid e s valid in
      rw (valid, e')
        (submit_valid-SameButError e.mode e.original_id (drafted e.draft) s (rw (valid, e') at h))
]

place_found :
    (v : DeviceViewModel) (ds : List DeviceViewModel)
    → has_value (find_device v.id ds) ≡ true
    → Placed DeviceEditorMode.edit v ds (assign_device v.id v ds)
unfolding find_device assign_device
place_found v [] h = absurd cc
place_found v (d ∷ ds) h = elim (Bool-cases (equal d.id v.id)) [
  | inl e ↦ simp e ([], d, ds, refl, (equal_iff d.id v.id).0 e, refl, refl)
  | inr e ↦
      let (left, old, right, split, same, fresh, after) = place_found v ds (rw e at h) in
      simp e (d ∷ left, old, right, ap (◌∷◌ d) split, same, simp e fresh, ap (◌∷◌ d) after)
]

submit_valid-Submitted :
    (m : DeviceEditorMode) (original : Bytes) (draft : DeviceDraft) (s : DeviceMonitorState)
    → (submit_valid m original (drafted draft) s).0 ≡ true
    → Submitted
        (record { mode = m; original_id = original; draft = draft })
        s
        (submit_valid m original (drafted draft) s).1
unfolding submit_valid
submit_valid-Submitted DeviceEditorMode.add original draft s h =
    let free : has_value (find_device draft.id s.devices) ≡ false = ground (arith, h) in
    simp free
      (record { placed = refl; queued = refl; closed = (refl, refl); others = (refl, refl) })
submit_valid-Submitted DeviceEditorMode.edit original draft s h =
    let fits =
      (submit_valid_iff DeviceEditorMode.edit original (drafted draft) s).0
        (unfold submit_valid in h) in
    let same : equal draft.id original ≡ true = (equal_iff draft.id original).1 fits.0 in
    simp (same, fits.1)
      (record {
        placed = rw (← fits.0) (
            place_found (drafted draft) s.devices
              (ap (λ (x : Bytes). has_value (find_device x s.devices)) fits.0 ∙ fits.1));
        queued = refl;
        closed = (refl, refl);
        others = (refl, refl);
      })

submit_on-Submitted :
    (o : Option DeviceEditorState) (e : DeviceEditorState) (s : DeviceMonitorState)
    → o ≡ some e
    → (submit_on o s).0 ≡ true
    → Submitted e s (submit_on o s).1
unfolding submit_on
submit_on-Submitted none e s i h = absurd cc
submit_on-Submitted (some x) e s i h =
    let same : x ≡ e = ground (arith, i) in
    elim (Bool-cases (validate_draft x s).0) [
      | inr invalid ↦ absurd (ground (arith, invalid, h))
      | inl valid ↦
          let kept = validate_draft-valid x s valid in
          rw (valid, kept, ← same)
            (submit_valid-Submitted x.mode x.original_id x.draft s (rw (valid, kept) at h))
    ]

submit_on-editor :
    (o : Option DeviceEditorState) (s : DeviceMonitorState)
    → (submit_on o s).0 ≡ true
    → (e : DeviceEditorState) × (o ≡ some e)
unfolding submit_on
submit_on-editor none s h = absurd cc
submit_on-editor (some e) s h = (e, refl)

-- A submission succeeds exactly when the editor is open, its texts are there, its port has 16 bits,
-- and its id is new (when adding) or unchanged and still in the list (when editing). One that fails
-- changes nothing but the error text: the devices, the queued commands and the editor stay. One that
-- succeeds puts the device of the draft at the end of the list (when adding) or in the place of the
-- device with its id (when editing), queues one command with that device, closes the editor, clears the
-- error, and leaves the rest.
pub submit_editor_iff :
    (s : DeviceMonitorState)
    → (((submit_editor s).0 ≡ true) ↔ CanSubmit s.editor s.devices)
      × ((((submit_editor s).0 ≡ false) × SameButError s (submit_editor s).1)
          ⊎ ((e : DeviceEditorState) × (s.editor ≡ some e)
              × ((submit_editor s).0 ≡ true)
              × Submitted e s (submit_editor s).1))
unfolding submit_editor
submit_editor_iff s = (
  submit_on_iff s.editor s,
  elim (Bool-cases (submit_on s.editor s).0) [
    | inr failed ↦ inl (failed, submit_on-SameButError s.editor s failed)
    | inl done ↦
        let (e, i) = submit_on-editor s.editor s done in
        inr (e, i, done, submit_on-Submitted s.editor e s i done)
  ],
)
