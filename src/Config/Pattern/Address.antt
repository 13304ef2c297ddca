-- ===== src/Config/Pattern/Address.antt =====
-- The matcher of addresses of config.go against the language that its regular expression denotes.
use nexentastor_csi_driver_b.Base.{
  ◌≤◌, Text, bytes, is_empty, Lacks, All, Bool, true, false, some, [], ◌∷◌, ◌++◌, ◌≡◌, ◌↔◌, ◌⊎◌,
  inl, inr, refl, ap, ◌∙◌, arith, if◌then◌else◌, length, ◌==◌, Bool-cases, Option-cases,
}
use nexentastor_csi_driver_b.Config.Pattern.{
  after, is_digit, all_digits, port_matches, host_matches, authority_matches, scheme_matches,
  matches_address,
}

-- `[0-9]{1,5}`.
pub record IsPort (s : Text) : Type 0 where
  pub some_digits : 1 ≤ length s
  pub few_digits : length s ≤ 5
  pub digits : All (λ c. is_digit c ≡ true) s

-- `http` or `https`, `://`, a host that is not empty and has no colon, `:` and a port.
pub record IsAddress (s : Text) : Type 0 where
  pub tls : Bool
  pub host : Text
  pub port : Text
  pub shape :
      s
      ≡ bytes "http"
        ++ ((if tls then bytes "s" else []) ++ (bytes "://" ++ (host ++ (b':' ∷ port))))
  pub host_full : is_empty host ≡ false
  pub host_plain : Lacks b':' host
  pub port_valid : IsPort port

after-append : (p r : Text) → after p (p ++ r) ≡ some r
unfolding after
after-append [] r = refl
after-append (x ∷ p) r = ground (arith, after-append p r)

after-eq-some : (p s r : Text) → after p s ≡ some r → s ≡ p ++ r
unfolding after
after-eq-some [] s r h = ground arith
after-eq-some (x ∷ p) [] r h = cc
after-eq-some (x ∷ p) (y ∷ s) r h = ground (arith, after-eq-some p s r)

all_digits_iff : (s : Text) → (all_digits s ≡ true) ↔ All (λ c. is_digit c ≡ true) s
unfolding all_digits
all_digits_iff [] = (λ _. tt, λ _. refl)
all_digits_iff (c ∷ s) =
    (λ h. ground (arith, (all_digits_iff s).0), λ h. ground (arith, (all_digits_iff s).1 h.1))

port_matches_sound : (s : Text) → port_matches s ≡ true → IsPort s
unfolding port_matches
port_matches_sound s h = record {
  some_digits = ground arith;
  few_digits = ground arith;
  digits = (all_digits_iff s).0 (ground arith);
}

port_matches_complete : (s : Text) → IsPort s → port_matches s ≡ true
unfolding port_matches
port_matches_complete s h = ground (arith, (all_digits_iff s).1 h.digits)

-- The host and the port that a match has found.
record IsAuthority (seen : Bool) (s : Text) : Type 0 where
  host : Text
  port : Text
  shape : s ≡ host ++ (b':' ∷ port)
  full : (seen ≡ true) ⊎ (is_empty host ≡ false)
  plain : Lacks b':' host
  valid : port_matches port ≡ true

host_matches_sound : (seen : Bool) (s : Text) → host_matches seen s ≡ true → IsAuthority seen s
unfolding host_matches
host_matches_sound seen [] h = cc
host_matches_sound seen (x ∷ s) h = elim (Bool-cases (x == b':')) [
  | inl e ↦ record {
    host = [];
    port = s;
    shape = ground arith;
    full = inl (ground arith);
    plain = tt;
    valid = ground arith;
  }
  | inr e ↦
      let r : IsAuthority true s = host_matches_sound true s (ground arith) in
      record {
        host = x ∷ r.host;
        port = r.port;
        shape = ap (λ t. x ∷ t) r.shape;
        full = inr refl;
        plain = (ground arith, r.plain);
        valid = r.valid;
      }
]

host_matches_complete :
    (seen : Bool) (host port : Text)
    → Lacks b':' host
    → port_matches port ≡ true
    → (seen ≡ true) ⊎ (is_empty host ≡ false)
    → host_matches seen (host ++ (b':' ∷ port)) ≡ true
unfolding host_matches
host_matches_complete seen [] port h p f = ground arith
host_matches_complete seen (x ∷ host) port h p f =
    ground (arith, host_matches_complete true host port h.1 p (inl refl))

record HasAuthority (s : Text) : Type 0 where
  host : Text
  port : Text
  shape : s ≡ bytes "://" ++ (host ++ (b':' ∷ port))
  full : is_empty host ≡ false
  plain : Lacks b':' host
  valid : IsPort port

authority_matches_sound : (s : Text) → authority_matches s ≡ true → HasAuthority s
unfolding authority_matches
authority_matches_sound s h = elim (Option-cases (after (bytes "://") s)) [
  | inl e ↦ ground arith
  | inr (rest, e) ↦
      let r : IsAuthority false rest = host_matches_sound false rest (ground arith) in
      record {
        host = r.host;
        port = r.port;
        shape = after-eq-some (bytes "://") s rest e ∙ ap (λ t. bytes "://" ++ t) r.shape;
        full = ground (arith, r.full);
        plain = r.plain;
        valid = port_matches_sound r.port r.valid;
      }
]

authority_matches_complete :
    (host port : Text)
    → is_empty host ≡ false
    → Lacks b':' host
    → IsPort port
    → authority_matches (bytes "://" ++ (host ++ (b':' ∷ port))) ≡ true
unfolding authority_matches
authority_matches_complete host port full plain valid =
    host_matches_complete false host port plain (port_matches_complete port valid) (inr full)

abbrev scheme_end : Bool → Text
scheme_end tls = if tls then bytes "s" else []

scheme_matches_sound :
    (s : Text)
    → scheme_matches s ≡ true
    → (tls : Bool) × (rest : Text) × (s ≡ scheme_end tls ++ rest) × (authority_matches rest ≡ true)
unfolding scheme_matches
scheme_matches_sound [] h = cc
scheme_matches_sound (x ∷ s) h = elim (Bool-cases (x == b's')) [
  | inl e ↦ (true, s, ground arith, ground arith)
  | inr e ↦ (false, x ∷ s, refl, ground arith)
]

scheme_matches-IsAddress :
    (s rest : Text) → after (bytes "http") s ≡ some rest → scheme_matches rest ≡ true → IsAddress s
scheme_matches-IsAddress s rest e h =
    let (tls, tail, shape, found) = scheme_matches_sound rest h in
    let a : HasAuthority tail = authority_matches_sound tail found in
    record {
      tls = tls;
      host = a.host;
      port = a.port;
      shape =
          after-eq-some (bytes "http") s rest e
          ∙ ap (λ t. bytes "http" ++ t) (shape ∙ ap (λ t. scheme_end tls ++ t) a.shape);
      host_full = a.full;
      host_plain = a.plain;
      port_valid = a.valid;
    }

matches_sound : (s : Text) → matches_address s ≡ true → IsAddress s
unfolding matches_address
matches_sound s h = elim (Option-cases (after (bytes "http") s)) [
  | inl e ↦ ground arith
  | inr (rest, e) ↦ scheme_matches-IsAddress s rest e (ground arith)
]

matches_complete :
    (tls : Bool) (host port : Text)
    → is_empty host ≡ false
    → Lacks b':' host
    → IsPort port
    → matches_address (bytes "http" ++ (scheme_end tls ++ (bytes "://" ++ (host ++ (b':' ∷ port)))))
      ≡ true
unfolding matches_address
matches_complete true host port full plain valid =
    authority_matches_complete host port full plain valid
matches_complete false host port full plain valid =
    authority_matches_complete host port full plain valid

-- The pattern accepts exactly the addresses.
pub matches_address-IsAddress : (s : Text) → (matches_address s ≡ true) ↔ IsAddress s
matches_address-IsAddress s = (
  matches_sound s,
  λ a. rw a.shape (matches_complete a.tls a.host a.port a.host_full a.host_plain a.port_valid),
)
