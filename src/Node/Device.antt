-- ===== src/Node/Device.antt =====
-- nodeServer.go: the name of a device and the permissions of a mount point, `ConstructDevByPath` and
-- `GetMountPointPermissions`.
pub mod Names
pub mod Permissions
use nexentastor_csi_driver_b.Base.{
  ℕ, ◌-◌, ◌%◌, ◌^◌, Text, bytes, is_empty, join, Map, lookup, value_or, ℤ, pos, negsuc, ltb, ◌==◌,
  Bool, true, false, Option, none, some, List, [], ◌∷◌, ◌++◌, if◌then◌else◌,
}
use nexentastor_csi_driver_b.Strconv.{digits, padded, parse_int}

-- `strings.TrimSuffix(s, c)` for a suffix of one byte.
unfoldable pub trim_last : ℕ → Text → Text
trim_last c [] = []
trim_last c (x ∷ []) = if x == c then [] else x ∷ []
trim_last c (x ∷ y ∷ s) = x ∷ trim_last c (y ∷ s)

-- `strLun`: a LUN above 255 is a hexadecimal number of four digits and twelve zeros.
unfoldable pub lun_text : ℕ → Text
lun_text lun =
    if ltb 255 lun
    then trim_last b'1' (bytes "0x" ++ (padded 4 (digits 16 lun) ++ padded 13 (digits 10 1)))
    else digits 10 lun

-- `ConstructDevByPath`.
unfoldable pub construct_dev_by_path : Text → Text → ℕ → Text
construct_dev_by_path portal target lun = join b'-' (
    bytes "/dev/disk/by-path/ip"
    ∷ portal
    ∷ bytes "iscsi"
    ∷ target
    ∷ bytes "lun"
    ∷ lun_text lun
    ∷ [])

-- `DefaultMountPointPermissions`, 0750.
abbrev pub default_mount_point_permissions : ℕ
default_mount_point_permissions = 488

-- The conversion of an `int64` to `os.FileMode`, the low 32 bits.
abbrev pub file_mode : ℤ → ℕ
file_mode (pos n) = n % 2 ^ 32
file_mode (negsuc n) = 2 ^ 32 - 1 - n % 2 ^ 32

abbrev modes : Option ℤ → Option ℕ
modes none = none
modes (some n) = some (file_mode n)

-- `GetMountPointPermissions`; `none` is the error of `strconv.ParseInt`.
unfoldable pub mount_point_permissions : Map Text → Option ℕ
mount_point_permissions context =
    let given = value_or [] (lookup (bytes "mountPointPermissions") context) in
    if is_empty given then some default_mount_point_permissions else modes (parse_int 8 16 given)
