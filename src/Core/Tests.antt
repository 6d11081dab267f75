-- ===== src/Core/Tests.antt =====
-- The URLs at concrete settings, and the instance of their theorem.
use honeywatch.Prelude.{◌≡◌, refl, codes, ◌∷◌, ◌++◌}
use honeywatch.Stdlib.Decimal.{str, digits}
use honeywatch.Core.Urls.{DatabaseSettings, Plain, async_url, url, async_url_lem}

abbrev settings : DatabaseSettings
settings = record {
  host = codes "db";
  port = 5432;
  user = codes "u";
  password = codes "p";
  name = codes "n";
}

settings_url : async_url settings ≡ codes "postgresql+asyncpg://u:p@db:5432/n"
unfolding str digits
settings_url = refl

redis_url :
    url (record { host = codes "redis"; port = 6379; db = 0 }) ≡ codes "redis://redis:6379/0"
unfolding str digits
redis_url = refl

async_url_lem_example :
    ((t : DatabaseSettings)
      → Plain settings
      → Plain t
      → async_url settings ≡ async_url t
      → settings ≡ t)
    × (async_url (record settings { password = codes "a" ++ b'@' ∷ codes "b" })
        ≡ async_url
            (record settings { password = codes "a"; host = codes "b" ++ b'@' ∷ codes "db" }))
async_url_lem_example = async_url_lem settings (codes "a") (codes "b")
