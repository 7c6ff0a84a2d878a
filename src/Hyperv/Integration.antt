-- ===== src/Hyperv/Integration.antt =====
-- hyperv/integration.go: the six integration services of a machine.
pub mod Enabling
pub mod Settings
use go_wsman.Common.{
  ℕ, Bool, true, false, not, ◌==◌, Option, none, some, List, [], ◌∷◌, ◌++◌, Bytes, codes, String,
  str_eq, str_lt, is_empty, if◌then◌else◌, Result, ok, err,
}
use go_wsman.Common.Props.{Props}
use go_wsman.Hyperv.Fields.{Field}
use go_wsman.Hyperv.Types.{
  integration_component_setting_data, put_text, put_number, text_of, number_of,
}
use go_wsman.Hyperv.Server.{
  empty_argument, unsupported, M, Host, refuse_if, return, throw, unmarshal_all, ◌>>=◌, ◌>>◌,
}
use go_wsman.Hyperv.Calls.{
  embed, CallResult, enumerate_filtered, list_filtered, get_filtered, of_vm, class_uri,
}
use go_wsman.Hyperv.Resources.{modify_resource_settings}
use go_wsman.Hyperv.Job.{wait_for_job}

-- `IntegrationServiceComponent`; any other string is unknown
pub data Component : Type 0 where
  heartbeat : Component
  key_value_pair_exchange : Component
  shutdown : Component
  time_synchronization : Component
  vss : Component
  guest_service_interface : Component
  other_component : Bytes → Component

-- the string that the constant is
unfoldable pub component_name : Component → Bytes
component_name heartbeat = codes "Heartbeat"
component_name key_value_pair_exchange = codes "Key-Value Pair Exchange"
component_name shutdown = codes "Shutdown"
component_name time_synchronization = codes "Time Synchronization"
component_name vss = codes "VSS"
component_name guest_service_interface = codes "Guest Service Interface"
component_name (other_component name) = name

-- `integrationComponentEnumOrder`
abbrev pub enum_order : List Component
enum_order =
    heartbeat ∷ key_value_pair_exchange ∷ shutdown ∷ time_synchronization ∷ vss
    ∷ guest_service_interface ∷ []

-- `integrationComponentByName`: the class of a component, which is also the end of its URI
unfoldable pub integration_component_by_name : Component → Option String
integration_component_by_name heartbeat = some "Msvm_HeartbeatComponentSettingData"
integration_component_by_name key_value_pair_exchange = some "Msvm_KvpExchangeComponentSettingData"
integration_component_by_name shutdown = some "Msvm_ShutdownComponentSettingData"
integration_component_by_name time_synchronization = some "Msvm_TimeSyncComponentSettingData"
integration_component_by_name vss = some "Msvm_VssComponentSettingData"
integration_component_by_name guest_service_interface =
    some "Msvm_GuestServiceInterfaceComponentSettingData"
integration_component_by_name (other_component name) = none

-- `IntegrationService`
pub record IntegrationService : Type 0 where
  pub component : Component
  pub name : Bytes
  pub enabled : Bool

abbrev pub enabled_state_enabled : ℕ
enabled_state_enabled = 2

abbrev pub enabled_state_disabled : ℕ
enabled_state_disabled = 3

abbrev service_of : Component → List Field → IntegrationService
service_of component comp = record {
  component = component;
  name = text_of "ElementName" comp;
  enabled = number_of "EnabledState" comp == enabled_state_enabled;
}

unfoldable pub services_of : Component → List (List Field) → List IntegrationService
services_of component [] = []
services_of component (comp ∷ comps) = service_of component comp ∷ services_of component comps

-- `sort.Slice` by `Component`; services of one component keep their order
unfoldable pub insert_service :
    IntegrationService → List IntegrationService → List IntegrationService
insert_service s [] = s ∷ []
insert_service s (t ∷ ts) =
    let rest = insert_service s ts in
    if str_lt (component_name t.component) (component_name s.component)
    then t ∷ rest
    else s ∷ t ∷ ts

unfoldable pub sort_services : List IntegrationService → List IntegrationService
unfolding insert_service
sort_services [] = []
sort_services (s ∷ ss) = insert_service s (sort_services ss)

abbrev pub class_of : Component → M String
class_of component = elim (integration_component_by_name component) [
  | none ↦ throw unsupported
  | some class ↦ return class
]

-- the settings that `SetIntegrationServiceEnabled` sends
unfoldable pub enabled_settings : Bytes → Bool → List Field
enabled_settings instance_id enabled =
    put_number "EnabledState" (if enabled then enabled_state_enabled else enabled_state_disabled)
      (put_text "InstanceID" instance_id integration_component_setting_data)

module _ (host : Host) where
  -- the loop of `ListIntegrationServices`
  unfoldable pub list_components : Bytes → List Component → M (List IntegrationService)
  unfolding services_of
  list_components vm_guid [] = return []
  list_components vm_guid (component ∷ components) = do
    class ← class_of component
    comps ← list_filtered host class (of_vm vm_guid) integration_component_setting_data
    rest ← list_components vm_guid components
    return (services_of component comps ++ rest)

  -- `ListIntegrationServices`
  unfoldable pub list_integration_services : Bytes → M (List IntegrationService)
  unfolding list_components sort_services
  list_integration_services vm_guid = do
    refuse_if (is_empty vm_guid) empty_argument
    services ← list_components vm_guid enum_order
    return (sort_services services)

  -- `resolveIntegrationServiceInstance`
  unfoldable pub resolve_integration_service_instance : Bytes → String → M (List Field)
  resolve_integration_service_instance vm_guid class =
      get_filtered host class (of_vm vm_guid) integration_component_setting_data

  -- `GetIntegrationServiceEnabled`
  unfoldable pub get_integration_service_enabled : Bytes → Component → M Bool
  unfolding resolve_integration_service_instance
  get_integration_service_enabled vm_guid component = do
    refuse_if (is_empty vm_guid) empty_argument
    class ← class_of component
    comp ← resolve_integration_service_instance vm_guid class
    return (number_of "EnabledState" comp == enabled_state_enabled)

  -- `SetIntegrationServiceEnabled`
  unfoldable pub set_integration_service_enabled : ℕ → ℕ → Bytes → Component → Bool → M (Unit {0})
  unfolding resolve_integration_service_instance enabled_settings
  set_integration_service_enabled fuel max vm_guid component enabled = do
    refuse_if (is_empty vm_guid) empty_argument
    class ← class_of component
    comp ← resolve_integration_service_instance vm_guid class
    xml ← embed (enabled_settings (text_of "InstanceID" comp) enabled) class
    result ← modify_resource_settings host (xml ∷ [])
    wait_for_job host fuel max result.job_ref
