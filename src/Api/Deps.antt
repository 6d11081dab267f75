-- ===== src/Api/Deps.antt =====
-- src/honeywatch/api/deps.py: the check of the credentials that every route but the health check
-- makes first.
use honeywatch.Prelude.{Text, ◌&&◌, not, text_eq, if◌then◌else◌}
use honeywatch.Api.Base.{Answer, ok, error}

pub record Credentials : Type 0 where
  pub username : Text
  pub password : Text

-- `settings.api.auth_user` and `auth_password`
pub record ApiSettings : Type 0 where
  pub auth_user : Text
  pub auth_password : Text

unfoldable pub verify_credentials : ApiSettings → Credentials → Answer Text
verify_credentials s c =
    let is_user_correct = text_eq c.username s.auth_user in
    let is_password_correct = text_eq c.password s.auth_password in
    if not (is_user_correct && is_password_correct) then error 401 else ok c.username
