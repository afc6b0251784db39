-- ===== src/Daemon/Forms.antt =====
-- cmd/xmppd/registration.go: the configuration of account registration and the data form made of it.
use xmpp_go.Prelude.{ℕ, ◌-◌, Bool, List, [], ◌∷◌, ◌++◌, list_eq, ◌==◌, if◌then◌else◌, leb, ◌&&◌}
use xmpp_go.Prelude.Bytes.{Bytes, bytes}

-- `registrationConfig` without the limiter's two fields.
pub record RegistrationConfig : Type 0 where
  pub policy : Bytes
  pub fields : List Bytes
  pub invites : List Bytes
  pub admin_tokens : List Bytes
  pub iterations : ℕ
  pub data_form : Bool
  pub instructions : Bytes

abbrev pub registration_closed : Bytes
registration_closed = bytes "closed"

abbrev pub registration_invite : Bytes
registration_invite = bytes "invite"

abbrev pub registration_admin : Bytes
registration_admin = bytes "admin"

pub record Field : Type 0 where
  pub var : Bytes
  pub field_type : Bytes
  pub label : Bytes

pub record DataForm : Type 0 where
  pub form_type : Bytes
  pub title : Bytes
  pub fields : List Field

-- `strings.ToUpper` of a text of one byte; a byte beyond ASCII is no text and becomes U+FFFD.
abbrev pub upper_byte : ℕ → Bytes
upper_byte b =
    if leb 128 b
    then 239 ∷ 191 ∷ 189 ∷ []
    else if leb b'a' b && leb b b'z'
    then (b - 32) ∷ []
    else b ∷ []

abbrev pub label_of : Bytes → Bytes
label_of [] = []
label_of (b ∷ s) = upper_byte b ++ s

unfoldable pub field_type_of : Bytes → Bytes
field_type_of name = if name == bytes "password" then bytes "text-private" else bytes "text-single"

unfoldable pub form_fields : List Bytes → List Field
form_fields [] = []
form_fields (field ∷ fields) =
    let rest = form_fields fields in
    if field == []
    then rest
    else record { var = field; field_type = field_type_of field; label = label_of field } ∷ rest

-- The data form of `buildForm`.
unfoldable pub data_form_of : RegistrationConfig → DataForm
data_form_of cfg = record {
  form_type = bytes "form";
  title = bytes "Account Registration";
  fields =
      form_fields cfg.fields
      ++ ((if cfg.policy == registration_invite
            then record {
              var = bytes "invite";
              field_type = bytes "text-single";
              label = bytes "Invite Token";
            }
              ∷ []
            else [])
          ++ (if cfg.policy == registration_admin
              then record {
                var = bytes "admin_token";
                field_type = bytes "text-private";
                label = bytes "Admin Token";
              }
                ∷ []
              else []));
}
