-- ===== src/Broker/Session/Laws.antt =====
-- What authenticates in the registry of terminal sessions.
use agent_db.Base.{
  if◌then◌else◌, ℕ, suc, ◌+◌, ◌<◌, ◌≡◌, refl, Bool, true, false, ◌||◌, inl, inr, some, none, List,
  [], ◌∷◌, ◌==◌, nat_eq, leb, arith, ==_self, Option-cases, Bool-cases,
}
use agent_db.Error.{ok}
use agent_db.Operations.Model.{Uuid, DateTime}
use agent_db.Broker.Session.{
  BrokerCapability, AuthenticatedSession, SessionRecord, PinnedConnection, SessionAuthentication,
  Codec, Sessions, BrokerSessionRegistry, find, remove, insert, issued_record, issue, same_token,
  authenticate, keys_of, remove_all, revoke_connection, same_bytes,
}

find-remove :
    (id j : Uuid) (s : Sessions) → find j (remove id s) ≡ (if id == j then none else find j s)
unfolding find remove
find-remove id j [] = ground arith
find-remove id j ((key, r) ∷ rest) = ground (arith, find-remove id j rest)

same_bytes_self : (bytes : List ℕ) → same_bytes bytes bytes ≡ true
same_bytes_self [] = refl
same_bytes_self (b ∷ bytes) = ground (arith, ==_self b, same_bytes_self bytes)

-- Membership of an id.
abbrev has : Uuid → List Uuid → Bool
has j [] = false
has j (id ∷ ids) = id == j || has j ids

find-remove_all :
    (j : Uuid) (ids : List Uuid) (s : Sessions)
    → find j (remove_all ids s) ≡ (if has j ids then none else find j s)
unfolding remove_all
find-remove_all j [] s = refl
find-remove_all j (id ∷ ids) s =
    ground (arith, find-remove_all j ids (remove id s), find-remove id j s)

keys_of_lem :
    (connection_id j : Uuid) (s : Sessions) {r : SessionRecord}
    → find j s ≡ some r
    → r.metadata.connection_id == connection_id ≡ true
    → has j (keys_of connection_id s) ≡ true
unfolding find keys_of
keys_of_lem connection_id j [] {r} h e = absurd (ground arith)
keys_of_lem connection_id j ((key, x) ∷ rest) {r} h e =
    ground (arith, keys_of_lem connection_id j rest {r = r})

module _ (codec : Codec) where
  -- A session that authenticates is stored under its id for this runtime, has not expired, and was
  -- asked for with its token.
  pub authenticate_lem :
      (request : SessionAuthentication) (now : DateTime) (registry : BrokerSessionRegistry)
      {session : AuthenticatedSession}
      → (authenticate codec request now registry).1 ≡ ok session
      → (r : SessionRecord) × (find request.terminal_session_id registry.sessions ≡ some r)
        × (r.metadata ≡ session)
        × ((session.runtime_id == registry.runtime_id) ≡ true)
        × (leb session.expires_at now ≡ false)
        × (same_token codec request.token r.token ≡ true)
  unfolding authenticate
  authenticate_lem request now registry {session} h =
      elim (Option-cases (find request.terminal_session_id registry.sessions)) [
        | inl e ↦ absurd (ground arith)
        | inr (r, e) ↦ (r, e, ground arith, ground arith, ground arith, ground arith)
      ]

  -- Where the token is decoded as it was encoded and the positive lifetime is in range, a session
  -- that has just been issued authenticates with the token handed out until it expires, and gives
  -- back what it was issued for.
  pub issue-authenticate :
      (id : Uuid) (pin : PinnedConnection) (capabilities : List BrokerCapability) (ttl lifetime : ℕ)
      (token : List ℕ) (now later : DateTime) (registry : BrokerSessionRegistry)
      → codec.decode_to_slice (codec.encode token) ≡ some token
      → codec.from_std (suc ttl) ≡ some lifetime
      → later < now + lifetime
      → (authenticate codec
          (record { terminal_session_id = id; token = codec.encode token })
          later
          (issue codec id pin capabilities (suc ttl) (some token) now registry).0).1
        ≡ ok
            (issued_record codec registry.runtime_id id pin capabilities
              (now + lifetime)
              token).metadata
  unfolding authenticate issue insert find
  issue-authenticate id pin capabilities ttl lifetime token now later registry decodes lives
        before =
      ground (arith, decodes, ==_self id, ==_self registry.runtime_id, same_bytes_self token)

  -- Once a connection is revoked, no session on it authenticates.
  pub revoke_connection-authenticate :
      (connection_id : Uuid) (request : SessionAuthentication) (now : DateTime)
      (registry : BrokerSessionRegistry) {session : AuthenticatedSession}
      → (authenticate codec request now (revoke_connection connection_id registry).0).1 ≡ ok session
      → (session.connection_id == connection_id) ≡ false
  unfolding revoke_connection
  revoke_connection-authenticate connection_id request now registry {session} h =
      let (r, found, same, own, live, token) =
        authenticate_lem request now (revoke_connection connection_id registry).0 h in
      let ids = keys_of connection_id registry.sessions in
      elim (Bool-cases (session.connection_id == connection_id)) [
        | inl e ↦ absurd (
            ground (
              arith,
              find-remove_all request.terminal_session_id ids registry.sessions,
              keys_of_lem connection_id request.terminal_session_id registry.sessions {r = r},
            ))
        | inr e ↦ e
      ]
