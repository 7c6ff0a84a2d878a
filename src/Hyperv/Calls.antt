-- ===== src/Hyperv/Calls.antt =====
-- hyperv/: what the operations on the management services have in common. A method is invoked, its
-- ReturnValue is "0" for done and "4096" for a job that goes on, and a job has a reference.
pub mod Accepted
pub mod Listed
use go_wsman.Common.{
  Bool, true, false, not, ◌&&◌, List, [], ◌∷◌, ◌++◌, Bytes, codes, String, str_eq, is_empty,
  has_prefix, if◌then◌else◌, filter, length, ℕ, Option, none, some, map, map_err,
}
use go_wsman.Common.Props.{Props, get, last_value}
use go_wsman.Hyperv.Fields.{Field}
use go_wsman.Hyperv.Embedded.{marshal_embedded_instance}
use go_wsman.Hyperv.Epr.{build_endpoint_reference}
use go_wsman.Hyperv.Server.{
  Param, Selector, InvokeResponse, OpError, bad_value, unexpected_return_value, no_job_reference,
  not_found, M, Host, refuse_if, return, throw, lift, invoke_method, enumerate_all, unmarshal,
  unmarshal_all, ◌>>=◌, ◌>>◌,
}

abbrev pub class_uri : String → Bytes
class_uri class =
    codes "http://schemas.microsoft.com/wbem/wsman/1/wmi/root/virtualization/v2/" ++ codes class

-- `Instance.Property` and `InvokeResponse.Property`
abbrev pub property_of : String → Props → Bytes
property_of name props = last_value (get (codes name) props)

abbrev pub param : String → Bytes → Param
param name v = record { name = codes name; value = v }

-- `vsmsSelectors` and `vssSelectors`
abbrev pub service_selectors : String → List Selector
service_selectors class = record { name = codes "CreationClassName"; value = codes class } ∷ []

-- the endpoint reference of the instance that has the key
abbrev pub reference_to : String → String → Bytes → Bytes
reference_to class key v = build_endpoint_reference (class_uri class) ((codes key, v) ∷ [])

abbrev pub done_value : Bytes
done_value = codes "0"

abbrev pub job_value : Bytes
job_value = codes "4096"

-- `rv != "0" && rv != "4096"`, and `rv == "4096" && jobRef == ""`
unfoldable pub return_value_known : Bytes → Bool
return_value_known rv = not (not (str_eq rv done_value) && not (str_eq rv job_value))

unfoldable pub job_missing : InvokeResponse → Bool
job_missing r = str_eq r.return_value job_value && is_empty (property_of "Job" r.props)

-- what every operation does with the answer of its method; the result is the answer it accepts
unfoldable pub check_return : InvokeResponse → M InvokeResponse
unfolding return_value_known job_missing
check_return r = do
  refuse_if (not (return_value_known r.return_value)) (unexpected_return_value r.return_value)
  refuse_if (job_missing r) no_job_reference
  return r

abbrev pub job_of : InvokeResponse → Bytes
job_of r = property_of "Job" r.props

-- `marshalEmbeddedInstance` in an operation
abbrev pub embed : List Field → String → M Bytes
embed fields class = lift (map_err bad_value (marshal_embedded_instance fields (codes class)))

-- `DefineSystemResult`, `ResourceSettingsResult` and `CreateVmCheckpointResult`
pub record CallResult : Type 0 where
  pub job_ref : Bytes
  pub resulting : Bytes
  pub return_value : Bytes

abbrev pub result_of : String → InvokeResponse → CallResult
result_of name r = record {
  job_ref = job_of r;
  resulting = property_of name r.props;
  return_value = r.return_value;
}

module _ (host : Host) where
  -- a method of a service, with the check of its answer
  unfoldable pub call : String → String → List Param → List Selector → M InvokeResponse
  unfolding check_return
  call class method params selectors = do
    r ← invoke_method host (class_uri class) (codes method) params selectors
    check_return r

  unfoldable pub call_service : String → String → List Param → M InvokeResponse
  unfolding call
  call_service class method params = call class method params (service_selectors class)

  -- `enumerateFiltered`
  unfoldable pub enumerate_filtered : Bytes → (Props → Bool) → M (List Props)
  enumerate_filtered uri keep = do
    instances ← enumerate_all host uri
    return (filter keep instances)

  -- the listing operations: the instances that match, each unmarshalled
  unfoldable pub list_filtered : String → (Props → Bool) → List Field → M (List (List Field))
  unfolding enumerate_filtered
  list_filtered class keep schema = do
    instances ← enumerate_filtered (class_uri class) keep
    unmarshal_all schema instances

  abbrev pub first_of : List Field → List Props → M (List Field)
  first_of schema [] = throw not_found
  first_of schema (p ∷ ps) = unmarshal p schema

  -- the first instance that matches
  unfoldable pub get_filtered : String → (Props → Bool) → List Field → M (List Field)
  unfolding enumerate_filtered
  get_filtered class keep schema = do
    instances ← enumerate_filtered (class_uri class) keep
    first_of schema instances

-- `matchSettingDataVM`
unfoldable pub match_setting_data_vm : Bytes → Bytes → Bool
match_setting_data_vm instance_id vm_guid = has_prefix instance_id (codes "Microsoft:" ++ vm_guid)

abbrev pub of_vm : Bytes → Props → Bool
of_vm vm p = match_setting_data_vm (property_of "InstanceID" p) vm
