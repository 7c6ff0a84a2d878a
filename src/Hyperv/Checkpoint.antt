-- ===== src/Hyperv/Checkpoint.antt =====
-- hyperv/checkpoint.go: checkpoints of machines.
pub mod Resolution
use go_wsman.Common.{
  ℕ, Bool, true, false, not, ◌&&◌, ◌||◌, Option, none, some, List, [], ◌∷◌, Bytes, codes, str_eq,
  equal_fold, is_empty, has_prefix, behind_first, cut, trim_space, length, member, if◌then◌else◌,
  Result, ok, err,
}
use go_wsman.Common.Decimal.{format_uint}
use go_wsman.Common.Props.{Props, get}
use go_wsman.Hyperv.Fields.{Field}
use go_wsman.Hyperv.Types.{virtual_system_setting_data, put_text}
use go_wsman.Hyperv.Server.{
  OpError, empty_argument, not_found, ambiguous, not_a_checkpoint, M, Host, refuse_if, return, lift,
  enumerate_all, ◌>>=◌, ◌>>◌,
}
use go_wsman.Hyperv.Calls.{
  property_of, param, reference_to, job_of, CallResult, result_of, call_service, list_filtered,
  class_uri,
}
use go_wsman.Hyperv.Vm.{update_vm}

abbrev pub virtual_system_type_snapshot_realized : Bytes
virtual_system_type_snapshot_realized = codes "Microsoft:Hyper-V:Snapshot:Realized"

-- `matchSnapshotSettingDataForVM`
unfoldable pub match_snapshot_setting_data_for_vm : Bytes → Bytes → Bytes → Bool
match_snapshot_setting_data_for_vm vm_identifier vm_type vm_name =
    equal_fold vm_identifier vm_name && str_eq vm_type virtual_system_type_snapshot_realized

-- `ParentSnapshotID`
abbrev up_to_quote : Bytes → Bytes
up_to_quote rest = elim (behind_first (codes "\"") rest) [ none ↦ [] | some r ↦ (cut b'"' rest).0 ]

unfoldable pub parent_snapshot_id : Bytes → Bytes
parent_snapshot_id parent = elim (behind_first (codes "InstanceID=\"Microsoft:") parent) [
  | none ↦ []
  | some rest ↦ up_to_quote rest
]

-- `hasElementEffect`
unfoldable pub has_element_effect : Props → Bytes → Bool
has_element_effect inst want = member want (get (codes "ElementEffects") inst)

abbrev pub element_effects_create : Bytes
element_effects_create = codes "5"

abbrev pub snapshot_instance_id_prefix : Bytes
snapshot_instance_id_prefix = codes "Microsoft:"

-- the loop of `ResolveCreatedCheckpoint`
unfoldable pub created_elements : Bytes → List Props → List Bytes
unfolding has_element_effect
created_elements job_id [] = []
created_elements job_id (inst ∷ instances) =
    let rest = created_elements job_id instances in
    let ref = property_of "AffectedElement" inst in
    if not (str_eq (property_of "AffectingElement" inst) job_id)
    then rest
    else if not (has_element_effect inst element_effects_create)
    then rest
    else if is_empty ref
    then rest
    else ref ∷ rest

-- its `switch`
unfoldable pub the_checkpoint : List Bytes → Result OpError Bytes
the_checkpoint [] = err not_found
the_checkpoint (id ∷ []) =
    if has_prefix id snapshot_instance_id_prefix then ok id else err (not_a_checkpoint id)
the_checkpoint (a ∷ b ∷ ids) = err (ambiguous (length (a ∷ b ∷ ids)))

module _ (host : Host) where
  -- `CreateVmCheckpoint`
  unfoldable pub create_vm_checkpoint : Bytes → ℕ → M CallResult
  create_vm_checkpoint vm_name snapshot_type = do
    refuse_if (is_empty vm_name) empty_argument
    r ← call_service host "Msvm_VirtualSystemSnapshotService" "CreateSnapshot" (
        param "AffectedSystem" (reference_to "Msvm_ComputerSystem" "Name" vm_name)
        ∷ param "SnapshotSettings" []
        ∷ param "SnapshotType" (format_uint snapshot_type)
        ∷ [])
    return (result_of "ResultingSnapshot" r)

  -- `ApplyVmCheckpoint`
  unfoldable pub apply_vm_checkpoint : Bytes → M Bytes
  apply_vm_checkpoint checkpoint_instance_id = do
    refuse_if (is_empty checkpoint_instance_id) empty_argument
    r ← call_service host "Msvm_VirtualSystemSnapshotService" "ApplySnapshot" (
        param "Snapshot"
          (reference_to "Msvm_VirtualSystemSettingData" "InstanceID" checkpoint_instance_id)
        ∷ [])
    return (job_of r)

  -- `DestroyVmCheckpoint`
  unfoldable pub destroy_vm_checkpoint : Bytes → M Bytes
  destroy_vm_checkpoint checkpoint_instance_id = do
    refuse_if (is_empty checkpoint_instance_id) empty_argument
    r ← call_service host "Msvm_VirtualSystemSnapshotService" "DestroySnapshot" (
        param "AffectedSnapshot"
          (reference_to "Msvm_VirtualSystemSettingData" "InstanceID" checkpoint_instance_id)
        ∷ [])
    return (job_of r)

  -- `RenameVmCheckpoint`
  unfoldable pub rename_vm_checkpoint : Bytes → Bytes → M Bytes
  rename_vm_checkpoint checkpoint_instance_id new_name = do
    refuse_if (is_empty checkpoint_instance_id) empty_argument
    refuse_if (is_empty new_name) empty_argument
    update_vm host (
        some (
          put_text "ElementName" new_name
            (put_text "InstanceID" checkpoint_instance_id virtual_system_setting_data)))

  -- `ListVmCheckpoints`
  unfoldable pub list_vm_checkpoints : Bytes → M (List (List Field))
  unfolding match_snapshot_setting_data_for_vm
  list_vm_checkpoints vm_name = do
    refuse_if (is_empty vm_name) empty_argument
    list_filtered host "Msvm_VirtualSystemSettingData"
        (λ inst.
          match_snapshot_setting_data_for_vm (property_of "VirtualSystemIdentifier" inst)
            (property_of "VirtualSystemType" inst) vm_name)
        virtual_system_setting_data

  -- `ResolveCreatedCheckpoint`
  unfoldable pub resolve_created_checkpoint : Bytes → M Bytes
  unfolding created_elements the_checkpoint
  resolve_created_checkpoint job_ref = do
    refuse_if (is_empty job_ref) empty_argument
    instances ← enumerate_all host (class_uri "Msvm_AffectedJobElement")
    lift (the_checkpoint (created_elements (trim_space job_ref) instances))
