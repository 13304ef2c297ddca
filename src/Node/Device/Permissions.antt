-- ===== src/Node/Device/Permissions.antt =====
-- The permissions that a storage class asks for.
use nexentastor_csi_driver_b.Base.{
  ℕ, zero, suc, ◌<◌, ◌^◌, ◌∷◌, is_empty, All, false, refl, ◌∙◌, Text, bytes, eq_text, Map, lookup,
  some, ◌≡◌, ap, arith,
}
use nexentastor_csi_driver_b.Strconv.{digits, natural_from}
use nexentastor_csi_driver_b.Strconv.Printed.{
  eight-IsBase, IsDigit, parse_int-unsigned, digits-nonempty, digits-IsDigit, natural_from-digits,
}
use nexentastor_csi_driver_b.Config.{NsData}
use nexentastor_csi_driver_b.Controller.Create.{volume_context, parameter_or}
use nexentastor_csi_driver_b.Node.Device.{mount_point_permissions}

-- A text with a number of zeros before it.
abbrev pub leading : ℕ → Text → Text
leading zero s = s
leading (suc k) s = b'0' ∷ leading k s

leading-nonempty : (k : ℕ) (s : Text) → is_empty s ≡ false → is_empty (leading k s) ≡ false
leading-nonempty zero s h = h
leading-nonempty (suc k) s h = refl

leading-IsDigit :
    (k : ℕ) (s : Text) → All (IsDigit 8 eight-IsBase) s → All (IsDigit 8 eight-IsBase) (leading k s)
leading-IsDigit zero s h = h
leading-IsDigit (suc k) s h = (omega arith, leading-IsDigit k s h)

natural_from-leading : (k : ℕ) (s : Text) → natural_from 8 0 (leading k s) ≡ natural_from 8 0 s
unfolding natural_from
natural_from-leading zero s = refl
natural_from-leading (suc k) s = natural_from-leading k s

given_permissions :
    (context : Map Text) (k n : ℕ)
    → lookup (bytes "mountPointPermissions") context ≡ some (leading k (digits 8 n))
    → n < 2 ^ 15
    → mount_point_permissions context ≡ some n
unfolding mount_point_permissions
given_permissions context k n h fits = ground (
  arith,
  h,
  leading-nonempty k (digits 8 n) (digits-nonempty 8 eight-IsBase n),
  parse_int-unsigned 8 16 n (leading k (digits 8 n)) (omega arith)
      (leading-nonempty k (digits 8 n) (digits-nonempty 8 eight-IsBase n))
      (leading-IsDigit k (digits 8 n) (digits-IsDigit 8 eight-IsBase n))
      (natural_from-leading k (digits 8 n) ∙ natural_from-digits 8 eight-IsBase n) (omega arith),
)

-- The permissions that a storage class gives as an octal number below 0100000, with or without zeros
-- before it, in
-- `mountPointPermissions`, or else the configuration, are those that the node applies to the volume.
pub created_permissions :
    (ps : Map Text) (d : NsData) (group : Text) (k n : ℕ)
    → parameter_or "mountPointPermissions" ps d.mount_point_permissions ≡ leading k (digits 8 n)
    → n < 2 ^ 15
    → mount_point_permissions (volume_context ps d group) ≡ some n
unfolding volume_context lookup eq_text
created_permissions ps d group k n h fits =
    given_permissions (volume_context ps d group) k n (ap some h) fits
