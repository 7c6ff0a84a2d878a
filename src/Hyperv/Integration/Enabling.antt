-- ===== src/Hyperv/Integration/Enabling.antt =====
-- hyperv/integration.go: what is behind a success of `SetIntegrationServiceEnabled`.
use mathlib.Core.Path.{subst}
use go_wsman.Common.{
  sym, ℕ, ◌≡◌, ap, ◌∙◌, inl, inr, false, some, Bool, List, [], ◌∷◌, Bytes, String, is_empty, ok,
  Bool-cases, Option-cases,
}
use go_wsman.Hyperv.Server.{Request, Host, InvokeResponse, bind_ok, ◌>>=◌}
use go_wsman.Hyperv.Fields.{Field}
use go_wsman.Hyperv.Types.{text_of, integration_component_setting_data}
use go_wsman.Hyperv.Calls.{
  job_of, of_vm, call, call_service, service_selectors, CallResult, embed, result_of,
}
use go_wsman.Hyperv.Calls.Listed.{
  ListedOf, Listed, Listed-ListedOf, of_vm-OfMachine, get_filtered-Listed,
}
use go_wsman.Hyperv.Calls.Accepted.{Accepted, method_request, call-Accepted}
use go_wsman.Hyperv.Job.{wait_for_job}
use go_wsman.Hyperv.Job.Completion.{wait_ok}
use go_wsman.Hyperv.Resources.{modify_resource_settings, resource_params}
use go_wsman.Hyperv.Storage.Order.{Settled}
use go_wsman.Hyperv.Integration.{
  Component, integration_component_by_name, class_of, enabled_settings,
  resolve_integration_service_instance, set_integration_service_enabled,
}

module _ (host : Host) where
  -- The host has accepted the change of one resource, and `job` is the job of its answer.
  pub record Changed (xml : Bytes) (h : List Request) (job : Bytes) (h' : List Request)
      : Type 0 where
    pub answer : InvokeResponse
    pub accepted :
        Accepted host
          (method_request host "Msvm_VirtualSystemManagementService" "ModifyResourceSettings"
            (resource_params (xml ∷ []))
            (service_selectors "Msvm_VirtualSystemManagementService"))
          h
          answer
          h'
    pub job_named : job_of answer ≡ job

  change_ok :
      (xml : Bytes) (h : List Request) {result : CallResult} {h' : List Request}
      → modify_resource_settings host (xml ∷ []) h ≡ (ok result, h')
      → Changed xml h result.job_ref h'
  unfolding modify_resource_settings call_service
  change_ok xml h {result} {h'} e =
      let (r, h₁, called, rest) =
        bind_ok
          (call host "Msvm_VirtualSystemManagementService" "ModifyResourceSettings"
            (resource_params (xml ∷ [])) (service_selectors "Msvm_VirtualSystemManagementService")
            h)
          (λ r h. (ok (result_of "ResultingResourceSettings" r), h)) e in
      record {
        answer = r;
        accepted =
            (call-Accepted host "Msvm_VirtualSystemManagementService" "ModifyResourceSettings"
                (resource_params (xml ∷ []))
                (service_selectors "Msvm_VirtualSystemManagementService") h r h').0
              (called ∙ ap (λ h. (ok r, h)) (cc));
        job_named =
            (let same : result_of "ResultingResourceSettings" r ≡ result = cc in
              ap (λ c. c.job_ref) same);
      }

  -- The component has a class, the host has listed an instance of it that belongs to the machine, and
  -- has accepted the one that has its InstanceID and the new state, and the job is settled.
  pub record Enabling (vm : Bytes) (component : Component) (enabled : Bool) (h h' : List Request)
      : Type 0 where
    pub given : is_empty vm ≡ false
    pub class : String
    pub class_known : integration_component_by_name component ≡ some class
    pub found : List Field
    pub looked_up : List Request
    pub listed : ListedOf host class vm (λ row. Unit {0}) integration_component_setting_data h found
    pub lookup : resolve_integration_service_instance host vm class h ≡ (ok found, looked_up)
    pub xml : Bytes
    pub embedded :
        embed (enabled_settings (text_of "InstanceID" found) enabled) class looked_up
        ≡ (ok xml, looked_up)
    pub job : Bytes
    pub made : List Request
    pub change : Changed xml looked_up job made
    pub settled : Settled host job made h'

  instance_found :
      (vm : Bytes) (class : String) (h : List Request) {found : List Field} {h' : List Request}
      → resolve_integration_service_instance host vm class h ≡ (ok found, h')
      → Listed host class (of_vm vm) integration_component_setting_data h found
  unfolding resolve_integration_service_instance
  instance_found vm class h e =
      get_filtered-Listed host class (of_vm vm) integration_component_setting_data h e

  module _ (fuel max : ℕ) where
    behind_instance :
        (vm : Bytes) (component : Component) (enabled : Bool) (h h₁ : List Request) (class : String)
        (found : List Field) {h' : List Request}
        → is_empty vm ≡ false
        → integration_component_by_name component ≡ some class
        → resolve_integration_service_instance host vm class h ≡ (ok found, h₁)
        → (embed (enabled_settings (text_of "InstanceID" found) enabled) class >>= λ xml.
              modify_resource_settings host (xml ∷ []) >>= λ result.
              wait_for_job host fuel max result.job_ref)
            h₁
          ≡ (ok tt, h')
        → Enabling vm component enabled h h'
    behind_instance vm component enabled h h₁ class found {h'} given known lookup e =
        let (xml, h₂, embedded, rest) =
          bind_ok (embed (enabled_settings (text_of "InstanceID" found) enabled) class h₁)
            (λ xml. modify_resource_settings host (xml ∷ []) >>= λ result.
              wait_for_job host fuel max result.job_ref)
            e in
        let (result, h₃, changed, waited) =
          bind_ok (modify_resource_settings host (xml ∷ []) h₂)
            (λ result. wait_for_job host fuel max result.job_ref) rest in
        let same : h₁ ≡ h₂ = ap (λ p. p.1) embedded in
        record {
          given = given;
          class = class;
          class_known = known;
          found = found;
          looked_up = h₁;
          listed =
              Listed-ListedOf host class (of_vm vm) vm (λ row. Unit {0})
                integration_component_setting_data h found
                (λ row kept. (of_vm-OfMachine vm row kept, tt)) (instance_found vm class h lookup);
          lookup = lookup;
          xml = xml;
          embedded = embedded ∙ ap (λ h. (ok xml, h)) (sym same);
          job = result.job_ref;
          made = h₃;
          change =
              subst (λ h. Changed xml h result.job_ref h₃) (sym same) (change_ok xml h₂ changed);
          settled = wait_ok host fuel max result.job_ref h₃ waited;
        }

    -- When `SetIntegrationServiceEnabled` succeeds, a machine and a known component were given, the
    -- host has listed an instance of the component's class whose InstanceID begins with `Microsoft:`
    -- and the GUID of the machine, has accepted the
    -- embedded instance that has nothing but its InstanceID and the new state, and has then reported
    -- the job completed, if there is one.
    pub set_integration_service_enabled-Enabling :
        (vm : Bytes) (component : Component) (enabled : Bool) (h h' : List Request)
        → set_integration_service_enabled host fuel max vm component enabled h ≡ (ok tt, h')
        → Enabling vm component enabled h h'
    unfolding set_integration_service_enabled
    set_integration_service_enabled-Enabling vm component enabled h h' e =
        elim (Bool-cases (is_empty vm)) [
          | inl empty ↦ (let e' = rw empty at e in cc)
          | inr given ↦ elim (Option-cases (integration_component_by_name component)) [
            | inl missing ↦ (let e' = rw (missing, class_of) at (rw given at e) in cc)
            | inr (class, known) ↦
                (let (found, h₁, lookup, rest) =
                    bind_ok (resolve_integration_service_instance host vm class h)
                      (λ found.
                        embed (enabled_settings (text_of "InstanceID" found) enabled) class
                        >>= λ xml. modify_resource_settings host (xml ∷ []) >>= λ result.
                            wait_for_job host fuel max result.job_ref)
                      (rw (known, class_of) at (rw given at e)) in
                  behind_instance vm component enabled h h₁ class found given known lookup rest)
          ]
        ]
