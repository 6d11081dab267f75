-- ===== src/Core.antt =====
-- src/honeywatch/core/config.py: the settings that the modelled code reads. The reading of the
-- environment is pydantic's, and a parameter where it can fail.
pub mod Urls
mod Tests
use honeywatch.Prelude.{ℕ, ◌≤◌, ◌&&◌, Option, none, some, arith, leb, if◌then◌else◌}
use honeywatch.Prelude.Int.{ℤ, pos, negsuc}

pub record HoneypotSettings : Type 0 where
  pub ssh_port : ℕ
  pub ssh_public_port : Option ℕ
  pub ssh_max_auth_attempts : ℕ
  pub http_port : ℕ
  pub http_public_port : Option ℕ

-- `a if a is not None else b`
abbrev pub or_default {ℓ} : {A : Type ℓ} → Option A → A → A
or_default none d = d
or_default (some a) d = a

abbrev pub ssh_reported_port : HoneypotSettings → ℕ
ssh_reported_port s = or_default s.ssh_public_port s.ssh_port

abbrev pub http_reported_port : HoneypotSettings → ℕ
http_reported_port s = or_default s.http_public_port s.http_port

-- `CredentialSettings.max_credential_length`, of the raw setting, which may be negative
unfoldable pub max_credential_length : ℤ → ℕ
max_credential_length (pos value) = if leb 1 value && leb value 4096 then value else 256
max_credential_length (negsuc _) = 256

-- `get_max_credential_length`, where the settings may fail to load
unfoldable pub get_max_credential_length : Option ℤ → ℕ
get_max_credential_length none = 256
get_max_credential_length (some raw) = max_credential_length raw

-- The limit lies between 1 and 4096 whatever the setting, and if it cannot be read.
pub get_max_credential_length_bounds :
    (o : Option ℤ) → (1 ≤ get_max_credential_length o) × (get_max_credential_length o ≤ 4096)
unfolding get_max_credential_length max_credential_length
get_max_credential_length_bounds none = omega arith
get_max_credential_length_bounds (some (pos v)) = ground arith
get_max_credential_length_bounds (some (negsuc v)) = omega arith
