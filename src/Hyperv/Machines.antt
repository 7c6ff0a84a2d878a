-- ===== src/Hyperv/Machines.antt =====
-- hyperv/client.go and host_filter.go: finding machines, and telling the host from the guests by
-- the form of its name. `is_uuid` stands for the success of `uuid.Parse` of google/uuid.
pub mod HostRow
use go_wsman.Common.{
  Bool, not, List, [], ◌∷◌, Bytes, codes, equal_fold, is_empty, trim_space, filter, length,
  if◌then◌else◌, Result, ok, err,
}
use go_wsman.Hyperv.Fields.{Field}
use go_wsman.Hyperv.Types.{computer_system, text_of}
use go_wsman.Hyperv.Server.{
  OpError, empty_argument, not_found, ambiguous, M, Host, refuse_if, return, lift, enumerate_all,
  get_instance, unmarshal, unmarshal_all, ◌>>=◌, ◌>>◌,
}
use go_wsman.Hyperv.Calls.{property_of, class_uri, list_filtered}

-- the `switch` on the number of matches
unfoldable pub exactly_one : List (List Field) → Result OpError (List Field)
exactly_one [] = err not_found
exactly_one (x ∷ []) = ok x
exactly_one (x ∷ y ∷ xs) = err (ambiguous (length (x ∷ y ∷ xs)))

-- `installDateSuggestsHost`
unfoldable pub install_date_suggests_host : List Field → Bool
install_date_suggests_host cs = is_empty (trim_space (text_of "InstallDate" cs))

module _ (is_uuid : Bytes → Bool) where
  -- `IsHostComputerSystem`
  unfoldable pub is_host_computer_system : List Field → Bool
  is_host_computer_system cs = not (is_uuid (text_of "Name" cs))

  -- `observeHostSignalDisagreement`
  unfoldable pub observe_host_signal_disagreement : List (List Field) → List (List Field)
  unfolding is_host_computer_system
  observe_host_signal_disagreement all =
      filter
        (λ cs.
          if is_host_computer_system cs
          then not (install_date_suggests_host cs)
          else install_date_suggests_host cs)
        all

  -- `filterHostComputerSystems`
  unfoldable pub filter_host_computer_systems : List (List Field) → List (List Field)
  unfolding is_host_computer_system
  filter_host_computer_systems all = filter is_host_computer_system all

  -- `filterOutHostComputerSystems`
  unfoldable pub filter_out_host_computer_systems : List (List Field) → List (List Field)
  unfolding is_host_computer_system
  filter_out_host_computer_systems [] = []
  filter_out_host_computer_systems (cs ∷ all) =
      let rest = filter_out_host_computer_systems all in
      if is_host_computer_system cs then rest else cs ∷ rest

  -- `pickHostComputerSystem`; the hint in the text of its errors is left out
  unfoldable pub pick_host_computer_system : List (List Field) → Result OpError (List Field)
  unfolding filter_host_computer_systems exactly_one
  pick_host_computer_system all = exactly_one (filter_host_computer_systems all)

module _ (host : Host) where
  -- `GetComputerSystem`
  unfoldable pub get_computer_system : Bytes → M (List Field)
  get_computer_system name = do
    props ← get_instance host (class_uri "Msvm_ComputerSystem") (
        record { name = codes "CreationClassName"; value = codes "Msvm_ComputerSystem" }
        ∷ record { name = codes "Name"; value = name }
        ∷ [])
    unmarshal props computer_system

  -- `FindComputerSystemByElementName`
  unfoldable pub find_computer_system_by_element_name : Bytes → M (List Field)
  unfolding exactly_one
  find_computer_system_by_element_name element_name = do
    refuse_if (is_empty element_name) empty_argument
    matches ←
        list_filtered host "Msvm_ComputerSystem"
          (λ inst. equal_fold (property_of "ElementName" inst) element_name) computer_system
    lift (exactly_one matches)

  -- `listComputerSystemsIncludingHost`
  unfoldable pub list_computer_systems_including_host : M (List (List Field))
  list_computer_systems_including_host = do
    instances ← enumerate_all host (class_uri "Msvm_ComputerSystem")
    unmarshal_all computer_system instances

  module _ (is_uuid : Bytes → Bool) where
    -- `ListComputerSystems`
    unfoldable pub list_computer_systems : M (List (List Field))
    unfolding list_computer_systems_including_host
    list_computer_systems = do
      all ← list_computer_systems_including_host
      return (filter_out_host_computer_systems is_uuid all)

    -- `hostComputerSystem`
    unfoldable pub host_computer_system : M (List Field)
    unfolding list_computer_systems_including_host
    host_computer_system = do
      all ← list_computer_systems_including_host
      lift (pick_host_computer_system is_uuid all)
