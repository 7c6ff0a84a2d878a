-- ===== src/Tests/Devices.antt =====
-- Integration services and virtual disks against a host that is written out.
use go_wsman.Common.{
  ◌≡◌, refl, true, false, List, [], ◌∷◌, ◌++◌, codes, ok, none, some, Option, is_empty,
}
use go_wsman.Common.Props.{Props}
use go_wsman.Common.Decimal.{format_uint}
use go_wsman.Common.Xml.{
  Token, Nodes, comment, element, text, nil, cons, start, chars, stop, other, node_tokens,
}
use go_wsman.Wsman.Output.{RawReference, property_epr}
use go_wsman.Wsman.Output.References.{ReadsOne, first_reference, property_epr-first_reference}
use go_wsman.Hyperv.Server.{
  Request, Host, invoke, enumerate, get_one, ctx_err, select_tick, response, instances, properties,
  live, cancelled,
}
use go_wsman.Hyperv.Calls.{param}
use go_wsman.Hyperv.Embedded.{marshal_fields, cim_value_escape}
use go_wsman.Hyperv.Integration.{heartbeat, enabled_settings, set_integration_service_enabled}
use go_wsman.Hyperv.Integration.Enabling.{Enabling, set_integration_service_enabled-Enabling}
use go_wsman.Hyperv.Integration.Settings.{
  property_element, state_digit, marshal_fields-enabled_settings,
}
use go_wsman.Hyperv.Vhd.{resize_virtual_hard_disk}
use go_wsman.Hyperv.Vhd.ImageJobs.{ImageChanged, resize_virtual_hard_disk-ImageChanged}

abbrev job : RawReference
job = record { resource_uri = codes " U "; selectors = (codes "InstanceID", codes "J") ∷ [] }

-- a decoder that knows one reference
abbrev decode : List Token → Option RawReference
decode [] = none
decode (start n attrs ∷ ts) = some job
decode (chars s ∷ ts) = none
decode (stop n ∷ ts) = none
decode (other ∷ ts) = none

reads_one : ReadsOne decode
unfolding node_tokens
reads_one (element n attrs body) rest = refl
reads_one (text s) rest = refl
reads_one comment rest = refl

abbrev outputs : Nodes
outputs =
    cons (element (codes "ReturnValue") [] (cons (element (codes "Job") [] nil) nil))
      (cons (element (codes "Job") [] nil) nil)

property_epr-first_reference_example :
    property_epr decode (codes "Job") (node_tokens (element (codes "Output") [] outputs))
    ≡ first_reference decode (codes "Job") outputs
property_epr-first_reference_example =
    property_epr-first_reference decode (codes "Job") reads_one (codes "Output") [] outputs

abbrev row : Props
row =
    (codes "InstanceID", codes "Microsoft:vm" ∷ [])
    ∷ (codes "EnabledState", codes "3" ∷ [])
    ∷ (codes "Job", codes "J" ∷ [])
    ∷ (codes "JobState", codes "7" ∷ [])
    ∷ []

abbrev host : Host
host h (invoke uri method params selectors) = response (record {
  return_value = codes "4096";
  props = row;
  body =
      start (codes "Output") []
      ∷ start (codes "Job") []
      ∷ stop (codes "Job")
      ∷ stop (codes "Output")
      ∷ [];
})
host h (enumerate uri) = instances (row ∷ [])
host h (get_one uri selectors) = properties row
host h ctx_err = live
host h select_tick = cancelled

abbrev resized_history : List Request
resized_history = (resize_virtual_hard_disk host decode 2 5 (codes "d") 7 []).1

resized_run : resize_virtual_hard_disk host decode 2 5 (codes "d") 7 [] ≡ (ok [], resized_history)
unfolding resize_virtual_hard_disk go_wsman.Hyperv.Server.invoke_method
    go_wsman.Hyperv.Calls.return_value_known go_wsman.Common.str_eq property_epr
    go_wsman.Hyperv.Job.wait_for_job_epr go_wsman.Wsman.Output.value_at go_wsman.Common.trim_space
    go_wsman.Hyperv.Job.poll_loop go_wsman.Hyperv.Job.poll_round go_wsman.Hyperv.Server.get_instance
    go_wsman.Hyperv.Fields.unmarshal_list go_wsman.Hyperv.CimTag.parse_cim_tag go_wsman.Common.cut
    go_wsman.Common.Props.get go_wsman.Common.Decimal.parse_uint go_wsman.Common.Decimal.scan
    go_wsman.Hyperv.Job.job_outcome format_uint go_wsman.Common.member go_wsman.Common.split
    go_wsman.Hyperv.Fields.set_field go_wsman.Hyperv.Fields.set_slice_field
    go_wsman.Hyperv.Fields.set_slot go_wsman.Hyperv.Fields.unmarshal_field
    go_wsman.Hyperv.Job.after_poll go_wsman.Hyperv.Job.check_context go_wsman.Hyperv.Job.get_job
    go_wsman.Hyperv.Job.wait_tick go_wsman.Hyperv.Types.number_of go_wsman.Hyperv.Types.slot_of
    go_wsman.Hyperv.Vhd.finish_image go_wsman.Hyperv.Vhd.wait_image_job go_wsman.Wsman.Output.assign
    go_wsman.Wsman.Output.assign_all go_wsman.Wsman.Output.find_reference
    go_wsman.Wsman.Output.reference_of
resized_run = refl

resize_virtual_hard_disk-ImageChanged_example :
    (is_empty (codes "d") ≡ false)
    × ImageChanged decode host "ResizeVirtualHardDisk"
        (param "MaxInternalSize" (format_uint 7) ∷ param "Path" (codes "d") ∷ [])
        []
        resized_history
resize_virtual_hard_disk-ImageChanged_example =
    resize_virtual_hard_disk-ImageChanged decode host 2 5 (codes "d") 7 [] resized_run

abbrev enabled_history : List Request
enabled_history = (set_integration_service_enabled host 2 5 (codes "vm") heartbeat true []).1

enabled_run :
    set_integration_service_enabled host 2 5 (codes "vm") heartbeat true []
    ≡ (ok tt, enabled_history)
unfolding set_integration_service_enabled go_wsman.Hyperv.Integration.integration_component_by_name
    go_wsman.Hyperv.Calls.get_filtered go_wsman.Hyperv.Server.enumerate_all
    go_wsman.Hyperv.Calls.match_setting_data_vm go_wsman.Common.has_prefix
    go_wsman.Common.Props.last_value go_wsman.Common.Props.get go_wsman.Common.str_eq
    go_wsman.Hyperv.Fields.unmarshal_list go_wsman.Hyperv.CimTag.parse_cim_tag go_wsman.Common.cut
    go_wsman.Common.Decimal.parse_uint go_wsman.Common.Decimal.scan
    go_wsman.Hyperv.Embedded.marshal_embedded_instance go_wsman.Hyperv.Types.put_number
    go_wsman.Hyperv.Types.put go_wsman.Hyperv.Types.put_text go_wsman.Common.Decimal.fixed
    format_uint go_wsman.Common.Decimal.padded go_wsman.Common.expect go_wsman.Common.member
    go_wsman.Common.span_digits go_wsman.Common.split go_wsman.Common.take_digits
    go_wsman.Hyperv.Calls.call go_wsman.Hyperv.Calls.call_service go_wsman.Hyperv.Calls.check_return
    go_wsman.Hyperv.Calls.enumerate_filtered go_wsman.Hyperv.Calls.job_missing
    go_wsman.Hyperv.Calls.return_value_known go_wsman.Hyperv.CimTag.check_field
    go_wsman.Hyperv.CimTag.convert_duration go_wsman.Hyperv.CimTag.duration_fields
    go_wsman.Hyperv.CimTag.duration_numbers go_wsman.Hyperv.CimTag.interval_fields
    go_wsman.Hyperv.CimTag.iso8601_to_cim_interval go_wsman.Hyperv.CimTag.normalize
    go_wsman.Hyperv.CimTag.print_interval go_wsman.Hyperv.CimTag.some_digits
    go_wsman.Hyperv.CimTag.validate_cim_interval go_wsman.Hyperv.Embedded.cdata_wrap
    go_wsman.Hyperv.Embedded.cim_type_name cim_value_escape go_wsman.Hyperv.Embedded.escape_byte
    go_wsman.Hyperv.Embedded.is_zero go_wsman.Hyperv.Embedded.marshal_field marshal_fields
    go_wsman.Hyperv.Embedded.marshal_scalar go_wsman.Hyperv.Embedded.marshal_slice_field
    go_wsman.Hyperv.Embedded.named_ref go_wsman.Hyperv.Embedded.property_tag
    go_wsman.Hyperv.Embedded.replace_refs go_wsman.Hyperv.Embedded.slice_values
    go_wsman.Hyperv.Embedded.split_cdata go_wsman.Hyperv.Embedded.stringify
    go_wsman.Hyperv.Embedded.wire_value go_wsman.Hyperv.Embedded.xml_escape
    go_wsman.Hyperv.Fields.set_field go_wsman.Hyperv.Fields.set_slice_field
    go_wsman.Hyperv.Fields.set_slot go_wsman.Hyperv.Fields.unmarshal_field enabled_settings
    go_wsman.Hyperv.Integration.resolve_integration_service_instance go_wsman.Hyperv.Job.after_poll
    go_wsman.Hyperv.Job.check_context go_wsman.Hyperv.Job.get_job go_wsman.Hyperv.Job.job_outcome
    go_wsman.Hyperv.Job.poll_loop go_wsman.Hyperv.Job.poll_round go_wsman.Hyperv.Job.wait_for_job
    go_wsman.Hyperv.Job.wait_for_job_epr go_wsman.Hyperv.Job.wait_tick
    go_wsman.Hyperv.Resources.modify_resource_settings go_wsman.Hyperv.Server.get_instance
    go_wsman.Hyperv.Server.invoke_method go_wsman.Hyperv.Types.number_of
    go_wsman.Hyperv.Types.slot_of go_wsman.Hyperv.Types.text_of
enabled_run = refl

set_integration_service_enabled-Enabling_example :
    Enabling host (codes "vm") heartbeat true [] enabled_history
set_integration_service_enabled-Enabling_example =
    set_integration_service_enabled-Enabling host 2 5 (codes "vm") heartbeat true [] enabled_history
      enabled_run

marshal_fields-enabled_settings_example :
    marshal_fields (enabled_settings (codes "id") false)
    ≡ ok (
        property_element "InstanceID" "string" (cim_value_escape (codes "id"))
        ++ property_element "EnabledState" "uint16" (state_digit false))
marshal_fields-enabled_settings_example = marshal_fields-enabled_settings b'i' (codes "d") false
