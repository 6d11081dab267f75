-- ===== src/Db/Session.antt =====
-- src/honeywatch/db/session.py: the engine and the session factory of the process. An engine is a
-- number; `in_use` lists those whose pool holds connections, which a session opens and `dispose`
-- closes.
use honeywatch.Prelude.{
  ℕ, zero, suc, ◌+◌, ◌≡◌, refl, ap, ◌∙◌, ◌⊎◌, inl, inr, not, List, [], ◌∷◌, Option, none, some,
  arith, any, filter, ◌==◌, if◌then◌else◌,
}

pub record Database : Type 0 where
  pub engine : Option ℕ
  pub session_factory : Option ℕ
  pub in_use : List ℕ
  pub next : ℕ

-- the module before `init_db`
abbrev pub no_engine : Database
no_engine = record { engine = none; session_factory = none; in_use = []; next = 0 }

unfoldable pub init_db : Database → Database
init_db d = record d { engine = some d.next; session_factory = some d.next; next = d.next + 1 }

-- a session of the factory's engine, which opens its pool
abbrev pub use_engine : Option ℕ → Database → Database
use_engine none d = d
use_engine (some i) d = record d {
  in_use = if any (λ j. j == i) d.in_use then d.in_use else i ∷ d.in_use;
}

abbrev pub init_if_none : Option ℕ → Database → Database
init_if_none none d = init_db d
init_if_none (some i) d = d

-- `get_session`, with what its caller does
unfoldable pub get_session : Database → Database
get_session d =
    let ready = init_if_none d.session_factory d in use_engine ready.session_factory ready

-- `_engine.dispose()`, where there is an engine
abbrev pub dispose : Option ℕ → Database → Database
dispose none d = d
dispose (some i) d = record d { engine = none; in_use = filter (λ j. not (j == i)) d.in_use }

unfoldable pub close_db : Database → Database
close_db d = dispose d.engine d

-- a number of sessions
unfoldable pub sessions : ℕ → Database → Database
sessions zero d = d
sessions (suc n) d = sessions n (get_session d)

-- The engine and the factory belong together, and no other engine has connections.
pub record IsOpen (i : ℕ) (d : Database) : Type 0 where
  pub engine : d.engine ≡ some i
  pub factory : d.session_factory ≡ some i
  pub alone : (d.in_use ≡ []) ⊎ (d.in_use ≡ i ∷ [])

init_db-IsOpen : (d : Database) → d.in_use ≡ [] → IsOpen d.next (init_db d)
unfolding init_db
init_db-IsOpen d e = record { engine = refl; factory = refl; alone = inl e }

get_session_of :
    (i : ℕ) (d : Database) → d.session_factory ≡ some i → get_session d ≡ use_engine (some i) d
unfolding get_session
get_session_of i d e =
    ap (λ o. use_engine (init_if_none o d).session_factory (init_if_none o d)) e
    ∙ ap (λ o. use_engine o d) e

-- After a session the pool of the factory's engine holds connections, and no other.
used :
    (i : ℕ) (l : List ℕ)
    → (l ≡ []) ⊎ (l ≡ i ∷ [])
    → (if any (λ j. j == i) l then l else i ∷ l) ≡ i ∷ []
used i l a = ground arith

get_session-in_use :
    (i : ℕ) (d : Database)
    → d.session_factory ≡ some i
    → (d.in_use ≡ []) ⊎ (d.in_use ≡ i ∷ [])
    → ((get_session d).in_use ≡ i ∷ [])
      × ((get_session d).session_factory ≡ some i)
      × ((get_session d).engine ≡ d.engine)
get_session-in_use i d f a =
    let e = get_session_of i d f in
    (
      ap (λ x. x.in_use) e ∙ used i d.in_use a,
      ap (λ x. x.session_factory) e ∙ f,
      ap (λ x. x.engine) e,
    )

get_session-IsOpen : (i : ℕ) (d : Database) → IsOpen i d → IsOpen i (get_session d)
get_session-IsOpen i d o =
    let (in_use, factory, engine) = get_session-in_use i d o.factory o.alone in
    record { engine = engine ∙ o.engine; factory = factory; alone = inr in_use }

sessions-IsOpen : (i n : ℕ) (d : Database) → IsOpen i d → IsOpen i (sessions n d)
unfolding sessions
sessions-IsOpen i zero d o = o
sessions-IsOpen i (suc n) d o = sessions-IsOpen i n (get_session d) (get_session-IsOpen i d o)

removed : (i : ℕ) (l : List ℕ) → (l ≡ []) ⊎ (l ≡ i ∷ []) → filter (λ j. not (j == i)) l ≡ []
removed i l a = ground arith

close_db-IsOpen :
    (i : ℕ) (d : Database)
    → IsOpen i d
    → ((close_db d).in_use ≡ [])
      × ((close_db d).engine ≡ none)
      × ((close_db d).session_factory ≡ some i)
unfolding close_db
close_db-IsOpen i d o =
    let e : dispose d.engine d ≡ dispose (some i) d = ap (λ x. dispose x d) o.engine in
    (
      ap (λ x. x.in_use) e ∙ removed i d.in_use o.alone,
      ap (λ x. x.engine) e,
      ap (λ x. x.session_factory) e ∙ o.factory,
    )

-- Without an engine the factory goes on opening sessions.
stale_sessions :
    (i n : ℕ) (d : Database)
    → d.engine ≡ none
    → d.session_factory ≡ some i
    → (d.in_use ≡ []) ⊎ (d.in_use ≡ i ∷ [])
    → ((sessions (suc n) d).in_use ≡ i ∷ []) × ((sessions (suc n) d).engine ≡ none)
unfolding sessions
stale_sessions i zero d e f a =
    let (in_use, factory, engine) = get_session-in_use i d f a in (in_use, engine ∙ e)
stale_sessions i (suc n) d e f a =
    let (in_use, factory, engine) = get_session-in_use i d f a in
    stale_sessions i n (get_session d) (engine ∙ e) factory (inr in_use)

-- Closing the database after any number of sessions leaves no connection open. But the factory
-- stays: the sessions of later calls open connections again, which closing once more leaves open.
pub close_db_lem :
    (d : Database)
    → d.in_use ≡ []
    → (m n : ℕ)
    → ((close_db (sessions m (init_db d))).in_use ≡ [])
      × ((close_db (sessions (suc n) (close_db (sessions m (init_db d))))).in_use ≡ d.next ∷ [])
unfolding close_db
close_db_lem d e m n =
    let o = sessions-IsOpen d.next m (init_db d) (init_db-IsOpen d e) in
    let c = close_db (sessions m (init_db d)) in
    let (closed, engine, factory) = close_db-IsOpen d.next (sessions m (init_db d)) o in
    let (again, gone) = stale_sessions d.next n c engine factory (inl closed) in
    (closed, close_none (sessions (suc n) c) gone ∙ again)
  where
    close_none : (x : Database) → x.engine ≡ none → (close_db x).in_use ≡ x.in_use
    close_none x h = ap (λ y. (dispose y x).in_use) h
