-- ===== src/Honeypot/Ssh/Session.antt =====
-- One SSH connection from its first callback to its last: which events it leaves behind.
use mathlib.Core.List.{append-nil, map-append}
use mathlib.Core.Path.{ap₂}
use honeywatch.Prelude.{
  ℕ, suc, ◌+◌, ◌≡◌, refl, ap, ◌∙◌, String, Text, true, false, List, [], ◌∷◌, ◌++◌, map, Option,
  arith, Bool-cases, inl, inr, ◌==◌, if◌then◌else◌,
}
use honeywatch.Event.{AttackEvent, Value, str, null, get}
use honeywatch.Detection.Rules.{DetectionRules}
use honeywatch.Detection.Classifier.{is_command_injection, is_credential_attack, targets}
use honeywatch.Honeypot.Ssh.{
  Clock, Server, init, connection_made, begin_auth, connection_event, connection_lost, counted,
  validate_password,
}

-- What asyncssh may call between the start and the loss of the connection.
pub data Callback : Type 0 where
  made : Option (String × ℕ) → Option Text → Callback
  auth : Text → Callback
  password : Clock → Option Text → Text → Text → Callback

module _ (port : ℕ) where
  unfoldable pub react : Callback → Server → Server × List AttackEvent
  unfolding connection_made begin_auth validate_password
  react (made peername version) s = (connection_made peername version s, [])
  react (auth username) s = ((begin_auth username s).0, [])
  react (password c version username pass) s =
      let (s', e, _) = validate_password port c version username pass s in (s', e ∷ [])

  unfoldable pub converse : List Callback → Server → Server × List AttackEvent
  converse [] s = (s, [])
  converse (cb ∷ cbs) s =
      let (s', es) = react cb s in let (s'', es') = converse cbs s' in (s'', es ++ es')

  -- the whole connection
  unfoldable pub session : List Callback → Clock → Server → List AttackEvent
  session cbs c s = let (s', es) = converse cbs s in es ++ connection_lost port c true s'

-- the passwords that were tried
abbrev pub tries : List Callback → ℕ
tries [] = 0
tries (password _ _ _ _ ∷ cbs) = suc (tries cbs)
tries (made _ _ ∷ cbs) = tries cbs
tries (auth _ ∷ cbs) = tries cbs

-- the last user name that authentication began with
abbrev pub last_user : Text → List Callback → Text
last_user u [] = u
last_user u (auth v ∷ cbs) = last_user v cbs
last_user u (made _ _ ∷ cbs) = last_user u cbs
last_user u (password _ _ _ _ ∷ cbs) = last_user u cbs

-- an event's type, user name and password
abbrev pub Summary : Type 0
Summary = String × Value × Value

unfoldable pub summary : AttackEvent → Summary
summary e = (e.event_type, get "username" e.raw_data, get "password" e.raw_data)

-- what was tried, in order
abbrev pub tried : List Callback → List Summary
tried [] = []
tried (password _ _ u p ∷ cbs) = ("ssh_login_attempt", str u, str p) ∷ tried cbs
tried (made _ _ ∷ cbs) = tried cbs
tried (auth _ ∷ cbs) = tried cbs

abbrev pub only_connection : List Summary
only_connection = ("ssh_connection", null, null) ∷ []

tried_none : (cbs : List Callback) → (tries cbs == 0) ≡ true → tried cbs ≡ []
tried_none [] h = refl
tried_none (password _ _ _ _ ∷ cbs) h = ground arith
tried_none (made _ _ ∷ cbs) h = tried_none cbs h
tried_none (auth _ ∷ cbs) h = tried_none cbs h

tried_end :
    (cbs : List Callback)
    → tried cbs ++ (if tries cbs == 0 then only_connection else [])
      ≡ (if tries cbs == 0 then only_connection else tried cbs)
tried_end cbs = elim (Bool-cases (tries cbs == 0)) [
  | inl e ↦ rw (e, tried_none cbs e)
  | inr e ↦ rw (e, append-nil (tried cbs))
]

module _ (port : ℕ) where
  attempts-converse :
      (cbs : List Callback) (s : Server) → (converse port cbs s).0.attempts ≡ s.attempts + tries cbs
  unfolding converse react
  attempts-converse [] s = omega arith
  attempts-converse (made p v ∷ cbs) s = attempts-converse cbs (connection_made p v s)
  attempts-converse (auth u ∷ cbs) s = attempts-converse cbs (begin_auth u s).0
  attempts-converse (password c v u p ∷ cbs) s = omega (arith, attempts-converse cbs (counted v s))

  username-converse :
      (cbs : List Callback) (s : Server)
      → (converse port cbs s).0.username ≡ last_user s.username cbs
  unfolding converse react
  username-converse [] s = refl
  username-converse (made p v ∷ cbs) s = username-converse cbs (connection_made p v s)
  username-converse (auth u ∷ cbs) s = username-converse cbs (begin_auth u s).0
  username-converse (password c v u p ∷ cbs) s = username-converse cbs (counted v s)

  summary-converse :
      (cbs : List Callback) (s : Server) → map summary (converse port cbs s).1 ≡ tried cbs
  unfolding converse react summary get
  summary-converse [] s = refl
  summary-converse (made p v ∷ cbs) s = summary-converse cbs (connection_made p v s)
  summary-converse (auth u ∷ cbs) s = summary-converse cbs (begin_auth u s).0
  summary-converse (password c v u p ∷ cbs) s =
      ap (λ l. ("ssh_login_attempt", str u, str p) ∷ l) (summary-converse cbs (counted v s))

  summary-connection_lost :
      (c : Clock) (s : Server)
      → map summary (connection_lost port c true s)
        ≡ (if s.attempts == 0 then only_connection else [])
  unfolding connection_lost summary get
  summary-connection_lost c s = elim (Bool-cases (s.attempts == 0)) [ inl e ↦ rw e | inr e ↦ rw e ]

  -- A connection leaves one `ssh_login_attempt` for each password that was tried, in order and with
  -- the user name and the password; if none was tried, it leaves one `ssh_connection` event, which
  -- has neither.
  pub session_lem :
      (cbs : List Callback) (c : Clock) (ticks : ℕ)
      → map summary (session port cbs c (init ticks))
        ≡ (if tries cbs == 0 then only_connection else tried cbs)
  unfolding session
  session_lem cbs c ticks =
      let s' = (converse port cbs (init ticks)).0 in
      let e : s'.attempts ≡ tries cbs = omega (arith, attempts-converse cbs (init ticks)) in
      map-append summary _ _
      ∙ ap₂ ◌++◌ (summary-converse cbs (init ticks))
          (summary-connection_lost c s' ∙ ap (λ n. if n == 0 then only_connection else []) e)
      ∙ tried_end cbs

  -- The `ssh_connection` event names the last user that authentication began with, under a key that
  -- the classifier does not read: it is no credential attack and no injection, whatever the rules.
  pub connection_event-harmless :
      (rules : DetectionRules) (cbs : List Callback) (c : Clock) (ticks : ℕ)
      → let e = connection_event port c (converse port cbs (init ticks)).0 in
        (get "connection_username" e.raw_data ≡ str (last_user [] cbs))
        × (is_credential_attack rules e ≡ false)
        × (is_command_injection rules e ≡ false)
  unfolding get is_credential_attack is_command_injection targets
  connection_event-harmless rules cbs c ticks =
      (ap str (username-converse cbs (init ticks)), refl, ground arith)
