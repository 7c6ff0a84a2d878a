-- ===== src/Tests/Hosts.antt =====
-- hyperv/ against a host that is written out.
use go_wsman.Common.{
  str_eq, cut, member, split, str_lt, String, ◌≡◌, refl, Bool, true, false, List, [], ◌∷◌, Bytes,
  codes, ok, leb, arith, ◌↔◌,
}
use go_wsman.Common.Props.{Props}
use go_wsman.Common.Props.{last_value, get}
use go_wsman.Hyperv.Resources.{remove_resource_settings}
use go_wsman.Common.Decimal.{parse_uint, scan}
use go_wsman.Hyperv.CimTag.{parse_cim_tag}
use go_wsman.Hyperv.Fields.{
  Field, unmarshal_list, set_field, set_slice_field, set_slot, unmarshal_field,
}
use go_wsman.Hyperv.Embedded.{escape_byte, xml_escape}
use go_wsman.Hyperv.Epr.{build_endpoint_reference, insert_key, selector_elements, sort_keys}
use go_wsman.Hyperv.Calls.{call_service, call, check_return, job_missing, return_value_known}
use go_wsman.Hyperv.Server.{
  invoke_method, get_instance, Request, invoke, enumerate, get_one, ctx_err, select_tick, Reply,
  response, instances, properties, live, cancelled, Host,
}
use go_wsman.Hyperv.Job.{
  wait_for_job, after_poll, check_context, wait_for_job_epr, poll_loop, poll_round, get_job,
  job_outcome, wait_tick,
}
use go_wsman.Hyperv.Job.Waiting.{ticks, Deadline}
use go_wsman.Hyperv.Job.Completion.{Waited, wait_for_job-Waited}
use go_wsman.Hyperv.Types.{
  computer_system, put_text, virtual_system_setting_data, slot_of, number_of,
}
use go_wsman.Hyperv.Vm.{request_state_change, clear_read_only_for_modify}
use go_wsman.Hyperv.Vm.State.{StateChange, request_state_change-StateChange}
use go_wsman.Hyperv.Vm.Modify.{blank_if, slot_of-clear_read_only_for_modify}
use go_wsman.Hyperv.Checkpoint.{resolve_created_checkpoint}
use go_wsman.Hyperv.Checkpoint.Resolution.{
  rows_request, Resolved, resolve_created_checkpoint-Resolved,
}
use go_wsman.Hyperv.Storage.Attach.{
  detach_storage, remove_medium, attach_storage, AttachOpts, AttachResult,
}
use go_wsman.Hyperv.Storage.{index, ide}
use go_wsman.Hyperv.Machines.{pick_host_computer_system}
use go_wsman.Hyperv.Machines.HostRow.{HostAmong, pick_host_computer_system-HostAmong}
use go_wsman.Hyperv.Storage.Order.{Detached, detach_storage-Detached}

abbrev entry : String → Bytes → Bytes × List Bytes
entry k v = (codes k, v ∷ [])

abbrev job_row : Props
job_row =
    entry "AffectingElement" (codes "J")
    ∷ (codes "ElementEffects", codes "1" ∷ codes "5" ∷ [])
    ∷ entry "AffectedElement" (codes "Microsoft:S")
    ∷ []

abbrev other_row : Props
other_row = entry "AffectingElement" (codes "J") ∷ entry "AffectedElement" (codes "V") ∷ []

-- the settings of a machine and of its controller in one row
abbrev machine_row : Props
machine_row =
    entry "InstanceID" (codes "Microsoft:vm/0")
    ∷ entry "ResourceSubType" (codes "Microsoft:Hyper-V:Emulated IDE Controller")
    ∷ entry "VirtualSystemIdentifier" (codes "vm")
    ∷ entry "VirtualSystemType" (codes "Microsoft:Hyper-V:System:Realized")
    ∷ []

-- The job runs until the first tick, and the context ends behind the second one.
abbrev job_state : Bool → Bytes
job_state true = codes "7"
job_state false = codes "4"

abbrev tick : Bool → Reply
tick true = cancelled
tick false = live

abbrev host : Host
host h (invoke uri method params selectors) = response (record {
  return_value = codes "4096";
  props = entry "Job" (codes "J") ∷ entry "ResultingResourceSettings" (codes "R") ∷ [];
  body = [];
})
host h (enumerate uri) = instances (other_row ∷ machine_row ∷ job_row ∷ [])
host h (get_one uri selectors) = properties (entry "JobState" (job_state (leb 1 (ticks h))) ∷ [])
host h ctx_err = live
host h select_tick = tick (leb 2 (ticks h))

host_ends : Deadline host 2
host_ends h late = rw (let e : leb 2 (ticks h) ≡ true = ground arith in e) refl

wait_for_job-Waited_example : Waited host 5 (codes "J") [] (wait_for_job host 3 5 (codes "J") [])
unfolding ticks
wait_for_job-Waited_example =
    wait_for_job-Waited host 3 5 2 (codes "J") [] host_ends (omega arith) (omega arith)

abbrev state_answer : List Request
state_answer = (request_state_change host (codes "vm") 2 []).1

request_state_change-StateChange_example :
    (request_state_change host (codes "vm") 2 [] ≡ (ok (codes "J"), state_answer))
    ↔ StateChange host (codes "vm") 2 [] (codes "J") state_answer
request_state_change-StateChange_example =
    request_state_change-StateChange host (codes "vm") 2 [] (codes "J") state_answer

resolve_created_checkpoint-Resolved_example :
    (resolve_created_checkpoint host (codes " J ") []
      ≡ (ok (codes "Microsoft:S"), rows_request ∷ []))
    ↔ Resolved host (codes " J ") [] (codes "Microsoft:S") (rows_request ∷ [])
resolve_created_checkpoint-Resolved_example =
    resolve_created_checkpoint-Resolved host (codes " J ") [] (codes "Microsoft:S")
      (rows_request ∷ [])

abbrev detached_history : List Request
detached_history = (detach_storage host 3 5 (codes "D") (codes "M") []).1

detached_run :
    detach_storage host 3 5 (codes "D") (codes "M") [] ≡ (ok (codes "J"), detached_history)
unfolding detach_storage unmarshal_list parse_cim_tag cut parse_uint ticks scan member split str_lt
    call check_return job_missing return_value_known escape_byte xml_escape build_endpoint_reference
    insert_key selector_elements sort_keys set_field set_slice_field set_slot unmarshal_field
    after_poll check_context get_job job_outcome wait_tick remove_medium number_of slot_of str_eq
    remove_resource_settings call_service invoke_method last_value get wait_for_job wait_for_job_epr
    poll_loop poll_round get_instance
detached_run = refl

detach_storage-Detached_example :
    Detached host 3 5 (codes "D") (codes "M") [] (codes "J") detached_history
detach_storage-Detached_example =
    detach_storage-Detached host 3 5 (codes "D") (codes "M") [] (codes "J") detached_history
      detached_run

slot_of-clear_read_only_for_modify_example :
    slot_of (codes "Parent") (clear_read_only_for_modify virtual_system_setting_data)
    ≡ blank_if true (slot_of (codes "Parent") virtual_system_setting_data)
unfolding member str_eq
slot_of-clear_read_only_for_modify_example =
    slot_of-clear_read_only_for_modify (codes "Parent") virtual_system_setting_data

abbrev disk : AttachOpts
disk = record {
  controller_type = ide;
  controller_number = index 0;
  controller_location = index 1;
  path = codes "d";
  drive_sub_type = codes "D";
  storage_sub_type = codes "S";
  drive_res_type = 17;
  storage_res_type = 31;
  allow_empty_media = false;
}

abbrev attached_history : List Request
attached_history = (attach_storage host 3 5 (codes "vm") disk []).1

abbrev attached_result : AttachResult
attached_result = record { drive_ref = codes "R"; storage_ref = codes "R"; job_ref = codes "J" }

abbrev machine : String → List Field
machine name = put_text "Name" (codes name) computer_system

pick_host_computer_system-HostAmong_example :
    (pick_host_computer_system (str_eq (codes "g")) (machine "g" ∷ machine "H" ∷ machine "g" ∷ [])
      ≡ ok (machine "H"))
    ↔ HostAmong (str_eq (codes "g")) (machine "H") (machine "g" ∷ machine "H" ∷ machine "g" ∷ [])
pick_host_computer_system-HostAmong_example =
    pick_host_computer_system-HostAmong (str_eq (codes "g"))
      (machine "g" ∷ machine "H" ∷ machine "g" ∷ []) (machine "H")
