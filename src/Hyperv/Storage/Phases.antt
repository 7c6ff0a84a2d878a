-- ===== src/Hyperv/Storage/Phases.antt =====
-- hyperv/storage.go: the order in which `attachStorage` puts a drive together.
use go_wsman.Common.{ℕ, ◌≡◌, ◌⊎◌, true, false, List, [], ◌∷◌, Bytes, is_empty, ok}
use go_wsman.Hyperv.Fields.{Field}
use go_wsman.Hyperv.Types.{text_of}
use go_wsman.Hyperv.Server.{Request, Host, M, ◌>>=◌}
use go_wsman.Hyperv.Calls.{embed, CallResult}
use go_wsman.Hyperv.Resources.{add_resource_settings}
use go_wsman.Hyperv.Storage.Attach.{
  AttachOpts, AttachResult, pick_controller, drive_settings, storage_settings, rasd_path,
}
use go_wsman.Hyperv.Storage.Order.{Settled}
use go_wsman.Hyperv.Storage.Controllers.{ControllerOf, Added}

module _ (host : Host) (fuel max : ℕ) (vm : Bytes) (opts : AttachOpts) where
  -- The drive was marshalled for a controller that the host has listed for the machine, and the host
  -- has accepted it.
  pub record DriveAdded (h : List Request) (added : CallResult) (h' : List Request) : Type 0 where
    pub controller : List Field
    pub listed : List Request
    pub picked : pick_controller host vm opts h ≡ (ok controller, listed)
    pub owned : ControllerOf host vm opts.controller_type h controller
    pub xml : Bytes
    pub marshalled :
        embed
          (drive_settings opts (rasd_path (text_of "InstanceID" controller)))
          "Msvm_ResourceAllocationSettingData"
          listed
        ≡ (ok xml, listed)
    pub taken : Added host vm xml listed added h'

  -- The medium was marshalled for the drive, and the host has accepted it.
  pub record StorageAdded (drive : Bytes) (h : List Request) (added : CallResult)
      (h' : List Request) : Type 0 where
    pub xml : Bytes
    pub marshalled :
        embed (storage_settings opts (rasd_path drive)) "Msvm_StorageAllocationSettingData" h
        ≡ (ok xml, h)
    pub taken : Added host vm xml h added h'

  -- The medium is attached to the drive and its job is settled.
  pub record WithMedium (drive : CallResult) (h : List Request) (result : AttachResult)
      (h' : List Request) : Type 0 where
    pub added : CallResult
    pub between : List Request
    pub storage : StorageAdded drive.resulting h added between
    pub settled : Settled host added.job_ref between h'
    pub made : result ≡ record {
      drive_ref = drive.resulting;
      storage_ref = added.resulting;
      job_ref = added.job_ref;
    }

  abbrev drive_only : CallResult → AttachResult
  drive_only d = record { drive_ref = d.resulting; storage_ref = []; job_ref = d.job_ref }

  -- The drive is added, then its job is settled, and then the medium is attached if there is one.
  pub record Attached (h : List Request) (result : AttachResult) (h' : List Request) : Type 0 where
    pub drive : CallResult
    pub added_at : List Request
    pub added : DriveAdded h drive added_at
    pub waited_at : List Request
    pub settled : Settled host drive.job_ref added_at waited_at
    pub medium :
        ((is_empty opts.path ≡ true) × (result ≡ drive_only drive) × (waited_at ≡ h'))
        ⊎ ((is_empty opts.path ≡ false) × WithMedium drive waited_at result h')

  abbrev adding : Bytes → M CallResult
  adding drive =
      embed (storage_settings opts (rasd_path drive)) "Msvm_StorageAllocationSettingData" >>= λ xml.
      add_resource_settings host vm (xml ∷ [])
