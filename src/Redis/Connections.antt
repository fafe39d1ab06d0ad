-- ===== src/Redis/Connections.antt =====
-- dwho/adapters/redis.py: what `connect` and `disconnect` leave.
use dwho.Base.{
  String, Bool, true, false, Option, none, some, List, [], ◌∷◌, if◌then◌else◌, ok, is_some, str_eq,
  ◌&&◌, ap, ◌≡◌, refl, arith, eq_iff, inl, inr, Bool-cases, Option-cases,
}
use dwho.Base.Dict.{Dict, lookup, insert, keys, lookup-insert, is_in}
use dwho.Base.Value.{Fields, end, field}
use dwho.Redis.{
  Client, Adapter, Server, selected, drop, drop_names, disconnect, configure, set_server, outside,
  connect, connect_server, connect_fresh,
}
use dwho.Base.Exec.{bind-eq-ok}

-- The adapter holds a connection under the name.
unfoldable pub is_connected : {C W : Type 0} → Adapter C W → String → Bool
is_connected a name = elim (lookup name a.servers) [
  | none ↦ false
  | some server ↦ is_some server.conn
]

module _ {C W : Type 0} (client : Client C W) (config : Dict Fields) where
  drop-is_connected :
      (name other : String) (a : Adapter C W)
      → is_connected (drop client config name a) other
        ≡ (if str_eq name other then false else is_connected a other)
  unfolding drop is_connected
  drop-is_connected name other a = elim (Option-cases (lookup name a.servers)) [
    | inl missing ↦ ground (arith, missing, eq_iff name other)
    | inr (server, there) ↦ elim (Option-cases server.conn) [
      | inl closed ↦ ground (arith, there, closed, eq_iff name other)
      | inr (c, open_) ↦ ground (
        arith,
        there,
        open_,
        eq_iff name other,
        lookup-insert name other (record server { conn = none }) a.servers,
      )
    ]
  ]

  drop_names-is_connected :
      (prefix : Option String) (names : List String) (other : String) (a : Adapter C W)
      → is_connected (drop_names client config prefix names a) other
        ≡ (if selected prefix other && is_in other names then false else is_connected a other)
  unfolding drop_names
  drop_names-is_connected prefix [] other a = ground arith
  drop_names-is_connected prefix (name ∷ names) other a =
      let a' = if selected prefix name then drop client config name a else a in
      elim (Bool-cases (str_eq name other)) [
        | inl same ↦
            let e : name ≡ other = ground (arith, eq_iff name other) in
            rw (drop_names-is_connected prefix names other a', same)
              (ground (arith, drop-is_connected name other a, ap (selected prefix) e))
        | inr distinct ↦
            rw (drop_names-is_connected prefix names other a', distinct)
              (ground (arith, drop-is_connected name other a))
      ]

  -- The names that a `disconnect` is for.
  abbrev pub is_asked : Option String → Option String → String → Bool
  is_asked (some name) prefix other = str_eq name other
  is_asked none prefix other = selected prefix other && is_in other (keys config)

  -- After `disconnect`, by name or by prefix, exactly the servers that it is for are without a
  -- connection, and the others are as they were, even where the client fails to disconnect.
  pub disconnect-is_connected :
      (name prefix : Option String) (other : String) (a : Adapter C W)
      → is_connected (disconnect client config name prefix a) other
        ≡ (if is_asked name prefix other then false else is_connected a other)
  unfolding disconnect
  disconnect-is_connected (some name) prefix other a = drop-is_connected name other a
  disconnect-is_connected none prefix other a = drop_names-is_connected prefix (keys config) other a

  stored :
      (name : String) (server : Server C) (d : Dict (Server C))
      → lookup name (insert name server d) ≡ some server
  stored name server d = ground (arith, lookup-insert name name server d, eq_iff name name)

  -- What a `configure` of a server that stands in the dict leaves.
  configure-lookup :
      (name : String) (server : Server C) (settings : Fields) (a a' : Adapter C W) {s : Server C}
      → lookup name a.servers ≡ some server
      → configure client config name server settings a ≡ (ok s, a')
      → lookup name a'.servers ≡ some s
  unfolding configure set_server
  configure-lookup name server end a a' there h = cc
  configure-lookup name server (field key value rest) a a' there h =
      elim (Bool-cases (str_eq key "url")) [
        | inl url ↦
            let (c, opened, h') =
              bind-eq-ok (outside client config (client.from_url value)) _ a
                (rw (url, configure) at h) in
            configure-lookup name (record server { conn = some c }) rest _ a'
              (stored name (record server { conn = some c }) _) h'
        | inr option ↦
            configure-lookup name (record server { options = insert key value server.options }) rest
              _ a' (stored name (record server { options = insert key value server.options }) _)
              (rw (option, configure) at h)
      ]

  connect_server-lookup :
      (name : String) (server : Server C) (a a' : Adapter C W) {s : Server C}
      → lookup name a.servers ≡ some server
      → connect_server client config name server a ≡ (ok s, a')
      → lookup name a'.servers ≡ some s
  unfolding connect_server connect_fresh
  connect_server-lookup name server a a' there h = elim (Bool-cases (is_some server.conn)) [
    | inl open_ ↦ ground arith
    | inr closed ↦ elim (Option-cases (lookup name config)) [
      | inl unknown ↦ absurd (ground arith)
      | inr (settings, known) ↦
          configure-lookup name server settings a a' there
            (rw (closed, connect_server, connect_fresh, known) at h)
    ]
  ]

  connect-lookup :
      (name : String) (a a' : Adapter C W) {s : Server C}
      → connect client config name a ≡ (ok s, a')
      → lookup name a'.servers ≡ some s
  unfolding connect set_server
  connect-lookup name a a' h = elim (Option-cases (lookup name a.servers)) [
    | inl fresh ↦
        connect_server-lookup name _ _ a' (stored name _ a.servers) (rw (fresh, connect) at h)
    | inr (server, there) ↦ connect_server-lookup name server a a' there (rw (there, connect) at h)
  ]

  -- Where `connect` has returned a server with a connection, it stands in the dict under its name,
  -- and a further `connect` returns the same server and does nothing.
  pub connect_twice :
      (name : String) (a a' : Adapter C W) {s : Server C}
      → connect client config name a ≡ (ok s, a')
      → is_some s.conn ≡ true
      → (lookup name a'.servers ≡ some s) × (connect client config name a' ≡ (ok s, a'))
  unfolding connect connect_server
  connect_twice name a a' h open_ =
      let there = connect-lookup name a a' h in
      (there, rw (connect, there, connect_server, open_) refl)
