-- ===== src/Hyperv/Storage/Media.antt =====
-- hyperv/storage.go: attaching a disk, a DVD with its medium, and an empty DVD drive.
use go_wsman.Common.{ℕ, true, false, [], Bytes, codes}
use go_wsman.Hyperv.Server.{M, Host}
use go_wsman.Hyperv.Storage.{ControllerType, Index}
use go_wsman.Hyperv.Storage.Attach.{Partial, attach_storage}

module _ (host : Host) (fuel max : ℕ) where
  -- `AttachVHD`, `AttachDVD`, `AddDVDDrive`
  unfoldable pub attach_vhd : Bytes → ControllerType → Index → Index → Bytes → M Partial
  unfolding attach_storage
  attach_vhd vm_name type number location path = attach_storage host fuel max vm_name (record {
    controller_type = type;
    controller_number = number;
    controller_location = location;
    path = path;
    drive_sub_type = codes "Microsoft:Hyper-V:Synthetic Disk Drive";
    storage_sub_type = codes "Microsoft:Hyper-V:Virtual Hard Disk";
    drive_res_type = 17;
    storage_res_type = 31;
    allow_empty_media = false;
  })

  unfoldable pub attach_dvd : Bytes → ControllerType → Index → Index → Bytes → M Partial
  unfolding attach_storage
  attach_dvd vm_name type number location path = attach_storage host fuel max vm_name (record {
    controller_type = type;
    controller_number = number;
    controller_location = location;
    path = path;
    drive_sub_type = codes "Microsoft:Hyper-V:Synthetic DVD Drive";
    storage_sub_type = codes "Microsoft:Hyper-V:Virtual CD/DVD Disk";
    drive_res_type = 16;
    storage_res_type = 31;
    allow_empty_media = false;
  })

  unfoldable pub add_dvd_drive : Bytes → ControllerType → Index → Index → M Partial
  unfolding attach_storage
  add_dvd_drive vm_name type number location = attach_storage host fuel max vm_name (record {
    controller_type = type;
    controller_number = number;
    controller_location = location;
    path = [];
    drive_sub_type = codes "Microsoft:Hyper-V:Synthetic DVD Drive";
    storage_sub_type = [];
    drive_res_type = 16;
    storage_res_type = 0;
    allow_empty_media = true;
  })
