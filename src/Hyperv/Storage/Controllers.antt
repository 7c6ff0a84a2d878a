-- ===== src/Hyperv/Storage/Controllers.antt =====
-- hyperv/storage.go and resource_settings.go: the controller that `attachStorage` picks, and what the
-- host has accepted when `AddResourceSettings` succeeds.
use mathlib.Core.Path.{subst}
use go_wsman.Common.{
  suc, ◌≡◌, refl, ap, ◌∙◌, ℕ, zero, suc, Bool, true, false, not, ◌&&◌, inl, inr, Bool-cases, List,
  [], ◌∷◌, Bytes, String, codes, ok, All, str_eq, str_eq_iff, str_lt, equal_fold, is_empty,
  get_elem?, length,
}
use go_wsman.Common.Props.{Props}
use go_wsman.Hyperv.Fields.{Field}
use go_wsman.Hyperv.Types.{text_of, resource_allocation_setting_data, virtual_system_setting_data}
use go_wsman.Hyperv.Server.{
  Request, Host, InvokeResponse, Param, out_of_range, bind_ok, M, ◌>>=◌, ◌>>◌, return, refuse_if,
  OpError, empty_argument,
}
use go_wsman.Hyperv.Calls.{
  property_of, param, reference_to, of_vm, result_of, CallResult, call, call_service,
  service_selectors,
}
use go_wsman.Hyperv.Calls.Accepted.{Accepted, method_request, call-Accepted}
use go_wsman.Hyperv.Calls.Listed.{
  Listed, ListedOf, Listed-ListedOf, of_vm-OfMachine, list_filtered-Listed, get_filtered-Listed,
}
use go_wsman.Hyperv.Vm.{match_realized_setting_data_for_vm, get_system_setting_data}
use go_wsman.Hyperv.Resources.{add_resource_settings}
use go_wsman.Hyperv.Storage.{
  ControllerType, ide, scsi, other_type, insert_rasd, in_range, sort_rasd_by_instance_id,
  list_ide_controllers, list_scsi_controllers, list_controllers,
}
use go_wsman.Hyperv.Storage.Attach.{
  AttachOpts, chosen, pick_controller, index_of, max_location, supported,
}

-- the ResourceSubType of the controllers of a type
abbrev pub sub_type_of : ControllerType → Bytes
sub_type_of ide = codes "Microsoft:Hyper-V:Emulated IDE Controller"
sub_type_of scsi = codes "Microsoft:Hyper-V:Synthetic SCSI Controller"
sub_type_of (other_type t) = []

module _ (P : List Field → Type 0) where
  insert-All : (x : List Field) (xs : List (List Field)) → P x → All P xs → All P (insert_rasd x xs)
  unfolding insert_rasd
  insert-All x [] p all = (p, tt)
  insert-All x (y ∷ ys) p (q, all) =
      elim (Bool-cases (str_lt (text_of "InstanceID" y) (text_of "InstanceID" x))) [
        | inl later ↦ rw later (q, insert-All x ys p all)
        | inr first ↦ rw first (p, (q, all))
      ]

  sort-All : (xs : List (List Field)) → All P xs → All P (sort_rasd_by_instance_id xs)
  unfolding sort_rasd_by_instance_id
  sort-All [] all = tt
  sort-All (x ∷ xs) (p, all) = insert-All x (sort_rasd_by_instance_id xs) p (sort-All xs all)

  chosen-All :
      (xs : List (List Field)) (i : ℕ) (h : List Request) {x : List Field} {h' : List Request}
      → All P xs
      → chosen (get_elem? xs i) h ≡ (ok x, h')
      → P x
  chosen-All [] i h all e = cc
  chosen-All (y ∷ ys) zero h (p, all) e = (let same : y ≡ _ = cc in subst P same p)
  chosen-All (y ∷ ys) (suc i) h (p, all) e = chosen-All ys i h all e

-- a test that refuses nothing leaves no trace
pub not_refused :
    (b : Bool) (why : OpError) {A : Type 0} (k : M A) (h : List Request) {a : A} {h' : List Request}
    → (refuse_if b why >> k) h ≡ (ok a, h')
    → k h ≡ (ok a, h')
not_refused true why k h e = cc
not_refused false why k h e = e

behind_supported :
    (host : Host) (type : ControllerType) {A : Type 0} (k : M A) (h : List Request) {a : A}
    {h' : List Request}
    → (supported host type >> k) h ≡ (ok a, h')
    → k h ≡ (ok a, h')
behind_supported host ide k h e = e
behind_supported host scsi k h e = e
behind_supported host (other_type t) k h e = cc

and_both : (a b : Bool) → (a && b) ≡ true → (a ≡ true) × (b ≡ true)
and_both true true e = (refl, refl)
and_both true false e = cc
and_both false b e = cc

module _ (host : Host) (vm : Bytes) where
  -- The host has listed the controller for the machine, and it is one of the type.
  abbrev pub ControllerOf : ControllerType → List Request → List Field → Type 0
  ControllerOf type =
      ListedOf host "Msvm_ResourceAllocationSettingData" vm
        (λ row. property_of "ResourceSubType" row ≡ sub_type_of type)
        resource_allocation_setting_data

  typed :
      (sub_type : String) (h : List Request) (type : ControllerType)
      → codes sub_type ≡ sub_type_of type
      → (found : List (List Field))
      → All
          (Listed host "Msvm_ResourceAllocationSettingData"
            (λ row. of_vm vm row && str_eq (property_of "ResourceSubType" row) (codes sub_type))
            resource_allocation_setting_data
            h)
          found
      → All (ControllerOf type h) found
  typed sub_type h type same [] all = tt
  typed sub_type h type same (x ∷ xs) (l, all) = (
    Listed-ListedOf host "Msvm_ResourceAllocationSettingData" _ vm _
        resource_allocation_setting_data h x
        (λ row kept.
          (let (owned, typed) =
              and_both (of_vm vm row) (str_eq (property_of "ResourceSubType" row) (codes sub_type))
                kept in
            (
              of_vm-OfMachine vm row owned,
              (str_eq_iff (property_of "ResourceSubType" row) (codes sub_type)).0 typed ∙ same,
            )))
        l,
    typed sub_type h type same xs all,
  )

  listed_controllers :
      (type : ControllerType) (h : List Request) {found : List (List Field)} {h' : List Request}
      → list_controllers host type vm h ≡ (ok found, h')
      → All (ControllerOf type h) found
  unfolding list_controllers list_ide_controllers list_scsi_controllers
  listed_controllers ide h {found} e =
      typed "Microsoft:Hyper-V:Emulated IDE Controller" h ide refl found (
        list_filtered-Listed host "Msvm_ResourceAllocationSettingData" _
          resource_allocation_setting_data h (not_refused (is_empty vm) empty_argument _ h e))
  listed_controllers scsi h {found} e =
      typed "Microsoft:Hyper-V:Synthetic SCSI Controller" h scsi refl found (
        list_filtered-Listed host "Msvm_ResourceAllocationSettingData" _
          resource_allocation_setting_data h (not_refused (is_empty vm) empty_argument _ h e))
  listed_controllers (other_type t) h e = cc

  pub pick_controller-ControllerOf :
      (opts : AttachOpts) (h : List Request) {found : List Field} {h' : List Request}
      → pick_controller host vm opts h ≡ (ok found, h')
      → ControllerOf opts.controller_type h found
  unfolding pick_controller
  pick_controller-ControllerOf opts h {found} e =
      let type = opts.controller_type in
      let behind_tests =
        not_refused (not (in_range opts.controller_location (suc (max_location type)))) out_of_range
          _ h
          (behind_supported host type _ h (
            not_refused (is_empty opts.path && not opts.allow_empty_media) empty_argument _ h
              (not_refused (is_empty vm) empty_argument _ h e))) in
      let (controllers, h₁, listed, rest) =
        bind_ok (list_controllers host type vm h)
          (λ controllers.
            refuse_if (not (in_range opts.controller_number (length controllers))) out_of_range
            >> chosen (
                get_elem? (sort_rasd_by_instance_id controllers) (index_of opts.controller_number)))
          behind_tests in
      chosen-All (ControllerOf type h) (sort_rasd_by_instance_id controllers)
        (index_of opts.controller_number) h₁
        (sort-All (ControllerOf type h) controllers (listed_controllers type h listed))
        (not_refused (not (in_range opts.controller_number (length controllers))) out_of_range _ h₁
          rest)

  abbrev pub added_params : List Field → Bytes → List Param
  added_params settings xml =
      param "AffectedConfiguration"
        (reference_to "Msvm_VirtualSystemSettingData" "InstanceID" (text_of "InstanceID" settings))
      ∷ param "ResourceSettings" xml
      ∷ []

  -- the test of a row that has the realized settings of the machine
  abbrev pub realized_row : Props → Bool
  realized_row row =
      equal_fold (property_of "VirtualSystemIdentifier" row) vm
      && str_eq (property_of "VirtualSystemType" row) (codes "Microsoft:Hyper-V:System:Realized")

  settings_found :
      (h : List Request) {found : List Field} {h' : List Request}
      → get_system_setting_data host vm h ≡ (ok found, h')
      → Listed host "Msvm_VirtualSystemSettingData" realized_row virtual_system_setting_data h found
  unfolding get_system_setting_data match_realized_setting_data_for_vm
  settings_found h e =
      get_filtered-Listed host "Msvm_VirtualSystemSettingData" realized_row
        virtual_system_setting_data h (not_refused (is_empty vm) empty_argument _ h e)

  -- The host has listed the realized settings of the machine and has accepted the new resource for
  -- them, and the result is that of its answer.
  pub record Added (xml : Bytes) (h : List Request) (result : CallResult) (h' : List Request)
      : Type 0 where
    pub settings : List Field
    pub listed_at : List Request
    pub rows :
        Listed host "Msvm_VirtualSystemSettingData" realized_row virtual_system_setting_data h
          settings
    pub answer : InvokeResponse
    pub accepted :
        Accepted host
          (method_request host "Msvm_VirtualSystemManagementService" "AddResourceSettings"
            (added_params settings xml)
            (service_selectors "Msvm_VirtualSystemManagementService"))
          listed_at
          answer
          h'
    pub answer_is : result_of "ResultingResourceSettings" answer ≡ result

  pub add_resource_settings-Added :
      (xml : Bytes) (h : List Request) {result : CallResult} {h' : List Request}
      → add_resource_settings host vm (xml ∷ []) h ≡ (ok result, h')
      → Added xml h result h'
  unfolding add_resource_settings call_service
  add_resource_settings-Added xml h {result} {h'} e =
      let (settings, h₁, found, rest) =
        bind_ok (get_system_setting_data host vm h)
          (λ settings.
            call host "Msvm_VirtualSystemManagementService" "AddResourceSettings"
              (added_params settings xml) (service_selectors "Msvm_VirtualSystemManagementService")
            >>= λ r. return (result_of "ResultingResourceSettings" r))
          (not_refused (is_empty vm) empty_argument _ h e) in
      let (r, h₂, called, made) =
        bind_ok
          (call host "Msvm_VirtualSystemManagementService" "AddResourceSettings"
            (added_params settings xml) (service_selectors "Msvm_VirtualSystemManagementService")
            h₁)
          (λ r. return (result_of "ResultingResourceSettings" r)) rest in
      record {
        settings = settings;
        listed_at = h₁;
        rows = settings_found h found;
        answer = r;
        accepted =
            (call-Accepted host "Msvm_VirtualSystemManagementService" "AddResourceSettings"
                (added_params settings xml)
                (service_selectors "Msvm_VirtualSystemManagementService") h₁ r h').0
              (called ∙ ap (λ h. (ok r, h)) (cc));
        answer_is = cc;
      }
