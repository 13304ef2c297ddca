-- ===== src/Role/Laws.antt =====
-- Roles and their names.
use nexentastor_csi_driver_b.Base.{
  Text, bytes, eq_text, eq_text_iff, true, false, ◌||◌, ◌≡◌, ◌≢◌, ◌⊎◌, inl, inr, refl, Bool-cases,
}
use nexentastor_csi_driver_b.Role.{
  Role, role_all, role_controller, role_node, string, is_controller, is_node, parse_role,
}

no_role :
    (from : Text)
    → eq_text (string role_all) from ≡ false
    → eq_text (string role_controller) from ≡ false
    → eq_text (string role_node) from ≡ false
    → (r : Role) → string r ≢ from
no_role from a c n role_all = λ e. cc ((eq_text_iff (string role_all) from).1 e)
no_role from a c n role_controller = λ e. cc ((eq_text_iff (string role_controller) from).1 e)
no_role from a c n role_node = λ e. cc ((eq_text_iff (string role_node) from).1 e)

-- A name is parsed to its role and to no other, and every other text to the role `all` with an
-- error.
pub parse_role-string :
    (from : Text)
    → ((r : Role) × (string r ≡ from) × (parse_role from ≡ record { role = r; failed = false }))
      ⊎ (((r : Role) → string r ≢ from)
          × (parse_role from ≡ record { role = role_all; failed = true }))
unfolding parse_role
parse_role-string from = elim (Bool-cases (eq_text (bytes "all") from)) [
  | inl a ↦ inl (role_all, (eq_text_iff (bytes "all") from).0 a, rw a)
  | inr a ↦ elim (Bool-cases (eq_text (bytes "controller") from)) [
    | inl c ↦ inl (role_controller, (eq_text_iff (bytes "controller") from).0 c, rw (a, c))
    | inr c ↦ elim (Bool-cases (eq_text (bytes "node") from)) [
      | inl n ↦ inl (role_node, (eq_text_iff (bytes "node") from).0 n, rw (a, c, n))
      | inr n ↦ inr (no_role from a c n, rw (a, c, n))
    ]
  ]
]

-- Every role runs a server, and only `all` runs both.
pub role_servers :
    (r : Role)
    → (is_controller r || is_node r ≡ true)
      × ((is_controller r ≡ true) → (is_node r ≡ true) → r ≡ role_all)
unfolding is_controller is_node
role_servers role_all = (refl, λ _ _. refl)
role_servers role_controller = (refl, λ _ h. cc)
role_servers role_node = (refl, λ h _. cc)
