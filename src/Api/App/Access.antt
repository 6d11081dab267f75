-- ===== src/Api/App/Access.antt =====
-- Who gets an answer of the API, and what its end leaves open.
use honeywatch.Prelude.{
  ℕ, ◌≡◌, ◌≢◌, ◌⊎◌, refl, sym, ap, ◌∙◌, inl, inr, Text, Bool, true, false, List, [], Option, none,
  some, text_eq, text_eq_iff, Bool-cases, if◌then◌else◌,
}
use honeywatch.Analysis.Geoip.{Resolver, close}
use honeywatch.Db.Models.{AttackEventModel}
use honeywatch.Db.Session.{Database, close_db_lem}
use honeywatch.Api.Base.{Answer, ok, error}
use honeywatch.Api.Deps.{ApiSettings, Credentials, verify_credentials}
use honeywatch.Api.App.{
  Request, Response, Outside, respond, is_public, check, after_check, handle, lifespan, startup,
  shutdown,
}
use honeywatch.Api.App.Plain.{respond-Plain}

-- The credentials of a request are there and are the configured ones.
abbrev pub IsAuthorized : ApiSettings → Option Credentials → Type 0
IsAuthorized s c =
    (k : Credentials) × (c ≡ some k) × (k.username ≡ s.auth_user) × (k.password ≡ s.auth_password)

-- How a request may end: a route with a check refuses every other request at once, and all else is
-- what the route does, which is never an error 401.
pub data Guarded (o : Outside) (rows : List AttackEventModel) (now : ℕ) (s : ApiSettings)
    (c : Option Credentials) (request : Request) (r : Resolver)
    : Resolver × Answer Response → Type 0 where
  refused :
      is_public request ≡ false
      → ¬ IsAuthorized s c
      → Guarded o rows now s c request r (r, error 401)
  served :
      (is_public request ≡ true) ⊎ IsAuthorized s c
      → (respond o rows now request r).1 ≢ error 401
      → Guarded o rows now s c request r (respond o rows now request r)

true-ne-false : true ≢ false
true-ne-false e = cc

some_inj : {A : Type 0} {a b : A} → some a ≡ some b → a ≡ b
some_inj e = cc

-- What the check says.
check_lem :
    (o : Outside) (rows : List AttackEventModel) (now : ℕ) (s : ApiSettings)
    (c : Option Credentials)
    → ((check o rows now s c ≡ error 401) × (¬ IsAuthorized s c))
      ⊎ ((user : Text) × (check o rows now s c ≡ ok user) × IsAuthorized s c)
unfolding verify_credentials
check_lem o rows now s none = inl (refl, λ (k, e, name, password). cc)
check_lem o rows now s (some k) = elim (Bool-cases (text_eq k.username s.auth_user)) [
  | inl u ↦ elim (Bool-cases (text_eq k.password s.auth_password)) [
    | inl p ↦ inr (
      k.username,
      rw (u, p) refl,
      (
        k,
        refl,
        (text_eq_iff k.username s.auth_user).0 u,
        (text_eq_iff k.password s.auth_password).0 p,
      ),
    )
    | inr p ↦ inl (
      rw (u, p) refl,
      λ (j, e, name, password). true-ne-false (
          sym (
            (text_eq_iff k.password s.auth_password).1
              (ap (λ x. x.password) (some_inj e) ∙ password))
          ∙ p),
    )
  ]
  | inr u ↦ inl (
    rw u refl,
    λ (j, e, name, password). true-ne-false (
        sym ((text_eq_iff k.username s.auth_user).1 (ap (λ x. x.username) (some_inj e) ∙ name))
        ∙ u),
  )
]

-- A request gets the error 401 where its route checks the credentials and they are missing or not the
-- configured ones, and the resolver is then not asked. Every other request gets what its route
-- answers, which is no error 401.
pub handle-Guarded :
    (o : Outside) (rows : List AttackEventModel) (now : ℕ) (s : ApiSettings)
    → (c : Option Credentials) (request : Request) (r : Resolver)
    → Guarded o rows now s c request r (handle o rows now s c request r)
unfolding handle
handle-Guarded o rows now s c request r = go (is_public request) refl
  where
    go :
        (b : Bool)
        → is_public request ≡ b
        → Guarded o rows now s c request r (
            if b
            then respond o rows now request r
            else after_check o rows now (check o rows now s c) (respond o rows now request) r)
    go true p = served (inl p) (respond-Plain o rows now request r)
    go false p = elim (check_lem o rows now s c) [
      | inl (e, denied) ↦ rw e (refused p denied)
      | inr (user, e, allowed) ↦ rw e (served (inr allowed) (respond-Plain o rows now request r))
    ]

-- Whatever the reader's close does and however many sessions there were, no connection to the database
-- is left after the life of the application, and the resolver is closed unless its close raised.
pub lifespan_lem :
    (loaded : Resolver) (d : Database) (n : ℕ) (raises : Bool)
    → d.in_use ≡ []
    → let a = lifespan loaded d n raises in
      (a.database.in_use ≡ []) × (a.geoip_resolver ≡ some (if raises then loaded else close loaded))
unfolding lifespan startup shutdown
lifespan_lem loaded d n true e = ((close_db_lem d e n 0).0, refl)
lifespan_lem loaded d n false e = ((close_db_lem d e n 0).0, refl)
