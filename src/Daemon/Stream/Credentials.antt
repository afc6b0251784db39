-- ===== src/Daemon/Stream/Credentials.antt =====
-- What an element has to present for `handleSASLAuth` of cmd/xmppd/stream.go to let a session in.
use xmpp_go.Prelude.{
  ℕ, ◌≡◌, ap, ◌∙◌, true, Option, some, ok, [], ◌∷◌, ◌++◌, list_eq, arith, inl, inr, Option-cases,
}
use xmpp_go.Prelude.Bytes.{Bytes, bytes}
use xmpp_go.Jid.{lacks, cut}
use xmpp_go.Jid.RoundTrip.{cut_before}
use xmpp_go.Storage.Memory.State.{Store}
use xmpp_go.Storage.Memory.Users.{authenticate}
use xmpp_go.Daemon.Text.{trim_space, upper}
use xmpp_go.Daemon.World.{Session}
use xmpp_go.Daemon.Stream.{Config, Decoders, Element, auth_element, plain_parts}

-- The element is an `auth` with the mechanism PLAIN, and its text decodes to the name and the
-- password, behind a part that is not read; of the name the spaces around it are left out.
pub record Credentials (d : Decoders) (e : Element) (name password : Bytes) : Type 0 where
  pub mechanism : Bytes
  pub value : Bytes
  pub authzid : Bytes
  pub text : Bytes
  pub element : e ≡ auth_element mechanism value
  pub plain : upper (trim_space mechanism) ≡ bytes "PLAIN"
  pub decoded :
      d.decode_base64 (trim_space value) ≡ some (authzid ++ (0 ∷ (text ++ (0 ∷ password))))
  pub first_part : lacks 0 authzid ≡ true
  pub second_part : lacks 0 text ≡ true
  pub trimmed : trim_space text ≡ name

-- The element presents the name of the session's user with a password that the store accepts for that
-- account, and the session's address is that user's at the server's domain.
pub record Admitted (d : Decoders) (cfg : Config) (store : Option Store) (e : Element) (s : Session)
    : Type 0 where
  pub accounts : Store
  pub password : Bytes
  pub presented : Credentials d e s.authenticated_user password
  pub stored : store ≡ some accounts
  pub checked : authenticate accounts s.authenticated_user password ≡ ok true
  pub own_name : s.remote.local ≡ s.authenticated_user
  pub own_domain : s.remote.domain ≡ cfg.domain

cut-joined : (c : ℕ) (s x y : Bytes) → cut c s ≡ some (x, y) → s ≡ x ++ (c ∷ y)
unfolding cut
cut-joined c [] x y h = absurd (ground arith)
cut-joined c (b ∷ s) x y h = elim (Option-cases (cut c s)) [
  | inl e ↦ ground (arith, e)
  | inr ((u, v), e) ↦ ground (arith, cut-joined c s u v e)
]

-- The parts that `handleSASLAuth` takes from a payload put it together again.
pub plain_parts-joined :
    (payload text password : Bytes)
    → plain_parts payload ≡ some (text, password)
    → (authzid : Bytes) × (payload ≡ authzid ++ (0 ∷ (text ++ (0 ∷ password))))
      × (lacks 0 authzid ≡ true)
      × (lacks 0 text ≡ true)
unfolding plain_parts
plain_parts-joined payload text password h = elim (Option-cases (cut 0 payload)) [
  | inl e ↦ absurd (ground arith)
  | inr ((authzid, rest), e) ↦
      let second : cut 0 rest ≡ some (text, password) = ground arith in
      (
        authzid,
        cut-joined 0 payload authzid rest e
            ∙ ap (λ r. authzid ++ (0 ∷ r)) (cut-joined 0 rest text password second),
        cut_before 0 payload authzid rest e,
        cut_before 0 rest text password second,
      )
]
