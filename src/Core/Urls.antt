-- ===== src/Core/Urls.antt =====
-- src/honeywatch/core/config.py: the URLs of the database and of Redis.
use mathlib.Core.List.{append_assoc}
use honeywatch.Prelude.{
  ℕ, ◌≡◌, ◌≢◌, sym, ap, ◌∙◌, Text, codes, [], ◌∷◌, ◌++◌, All, arith, split_first, append-cancel,
}
use honeywatch.Stdlib.Decimal.{str, str-injective, IsDigit, str-IsDigit}

pub record DatabaseSettings : Type 0 where
  pub host : Text
  pub port : ℕ
  pub user : Text
  pub password : Text
  pub name : Text

pub record RedisSettings : Type 0 where
  pub host : Text
  pub port : ℕ
  pub db : ℕ

abbrev pub async_url : DatabaseSettings → Text
async_url s =
    codes "postgresql+asyncpg://"
    ++ (s.user ++ b':' ∷ (s.password ++ b'@' ∷ (s.host ++ b':' ∷ (str s.port ++ b'/' ∷ s.name))))

-- `RedisSettings.url`
abbrev pub url : RedisSettings → Text
url s = codes "redis://" ++ (s.host ++ b':' ∷ (str s.port ++ b'/' ∷ str s.db))

-- The text lacks the character.
abbrev pub Lacks : ℕ → Text → Type 0
Lacks c = All (λ x. x ≢ c)

digits-lack : (s : Text) → All IsDigit s → Lacks b'/' s
digits-lack [] a = tt
digits-lack (c ∷ s) a = (λ e. absurd (omega (arith, e)), digits-lack s a.1)

-- No separator stands in a part of the URL before it ends.
pub record Plain (s : DatabaseSettings) : Type 0 where
  pub user : Lacks b':' s.user
  pub password : Lacks b'@' s.password
  pub host : Lacks b':' s.host

-- a port before a slash
port_lem : (m n : ℕ) (a b : Text) → str m ++ b'/' ∷ a ≡ str n ++ b'/' ∷ b → (m ≡ n) × (a ≡ b)
port_lem m n a b e =
    let (port, rest) =
      split_first b'/' (str m) a (str n) b (digits-lack (str m) (str-IsDigit m))
        (digits-lack (str n) (str-IsDigit n)) e in
    (str-injective m n port, rest)

async_url-injective :
    (s t : DatabaseSettings) → Plain s → Plain t → async_url s ≡ async_url t → s ≡ t
async_url-injective s t p q e =
    let (user, rest1) =
      split_first b':' s.user _ t.user _ p.user q.user
        (append-cancel (codes "postgresql+asyncpg://") _ _ e) in
    let (password, rest2) =
      split_first b'@' s.password _ t.password _ p.password q.password rest1 in
    let (host, rest3) = split_first b':' s.host _ t.host _ p.host q.host rest2 in
    let (port, name) = port_lem s.port t.port s.name t.name rest3 in
    λ i. record {
      host = host i;
      port = port i;
      user = user i;
      password = password i;
      name = name i;
    }

-- Database settings whose user and host have no colon and whose password has no at sign are determined
-- by their URL. But nothing is escaped: a password with an at sign in it has the URL of a shorter
-- password with another host.
pub async_url_lem :
    (s : DatabaseSettings) (before after : Text)
    → ((t : DatabaseSettings) → Plain s → Plain t → async_url s ≡ async_url t → s ≡ t)
      × (async_url (record s { password = before ++ b'@' ∷ after })
          ≡ async_url (record s { password = before; host = after ++ b'@' ∷ s.host }))
async_url_lem s before after =
    let end : Text = b':' ∷ (str s.port ++ b'/' ∷ s.name) in
    (
      async_url-injective s,
      ap (λ l. codes "postgresql+asyncpg://" ++ (s.user ++ b':' ∷ l))
          (append_assoc before (b'@' ∷ after) (b'@' ∷ (s.host ++ end))
            ∙ ap (λ l. before ++ b'@' ∷ l) (sym (append_assoc after (b'@' ∷ s.host) end))),
    )

-- Settings of Redis whose host has no colon are determined by their URL.
pub url-injective :
    (s t : RedisSettings) → Lacks b':' s.host → Lacks b':' t.host → url s ≡ url t → s ≡ t
url-injective s t p q e =
    let (host, rest) =
      split_first b':' s.host _ t.host _ p q (append-cancel (codes "redis://") _ _ e) in
    let (port, db) = port_lem s.port t.port (str s.db) (str t.db) rest in
    λ i. record { host = host i; port = port i; db = str-injective s.db t.db db i }
