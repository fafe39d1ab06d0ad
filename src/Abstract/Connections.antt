-- ===== src/Abstract/Connections.antt =====
-- dwho/classes/abstract.py: the cursors and connections of the entries of DWhoAbstractDB,
-- over sequences of its methods.
use dwho.Base.{
  ℕ, ◌==◌, String, Bool, true, false, Option, none, some, [], ◌∷◌, Result, ok, raise, ◌≡◌, refl,
  arith, All, str_eq, is_some, Bool-cases, inl, inr, subst,
}
use dwho.Base.Dict.{Dict, lookup, insert}
use dwho.Base.Exec.{Keeps-bind}
use dwho.Base.Value.{Value}
use dwho.Abstract.Database.{
  Entry, Driver, Threads, Database, empty_entry, thread_db, put_db, reconnect, ensure_conn,
  ensure_cursor, connect_entry, connect, close_entry, close_all, sweep, reconnect_if, add_cursor,
  cursor_if, is_empty_db, release_entry, set_db, release, disconnect, prepare_name, entry_or,
}

-- The methods of DWhoAbstractDB in any order, of any threads.
pub data Run {C K W : Type 0} (driver : Driver C K W)
    : Database C K W → Database C K W → Type 0 where
  done : {s : Database C K W} → Run driver s s
  connected :
      {s s' : Database C K W} (uris : Dict Value) (me : ℕ) (name : String)
      → Run driver (connect driver uris me name s).1 s'
      → Run driver s s'
  disconnected :
      {s s' : Database C K W} (is_active : ℕ → Bool) (me : ℕ) (name : String)
      → Run driver (disconnect driver is_active me name s).1 s'
      → Run driver s s'
  named :
      {s s' : Database C K W} (me : ℕ) (name : String)
      → Run driver (prepare_name me name s) s'
      → Run driver s s'

module _ {C K W : Type 0} (driver : Driver C K W) (Of : K → C → Type 0) where
  -- The cursors that a connection makes are of that connection.
  abbrev pub MakesOwn : Type 0
  MakesOwn = (c : C) (w : W) (k : K) → (driver.make_cursor c w).0 ≡ ok k → Of k c

  abbrev PairedCursor : Option C → Option K → Type 0
  PairedCursor conn none = Unit
  PairedCursor none (some k) = ⊥
  PairedCursor (some c) (some k) = Of k c

  -- A cursor of the entry is of its connection.
  abbrev pub IsPaired : Entry C K → Type 0
  IsPaired e = PairedCursor e.conn e.cursor

  abbrev AllPaired : Dict (Entry C K) → Type 0
  AllPaired = All (λ entry. IsPaired entry.1)

  -- So of all entries of all threads.
  abbrev pub ArePaired : Database C K W → Type 0
  ArePaired s = All (λ thread. AllPaired thread.1) s.threads

  -- Lookups and writes of such dicts.
  AllPaired-lookup :
      (name : String) (d : Dict (Entry C K)) {e : Entry C K}
      → AllPaired d
      → lookup name d ≡ some e
      → IsPaired e
  unfolding lookup
  AllPaired-lookup name [] all h = absurd (ground arith)
  AllPaired-lookup name ((n, e') ∷ d) all h = elim (Bool-cases (str_eq n name)) [
    | inl same ↦ subst IsPaired (let equal : e' ≡ _ = ground (arith, same) in equal) all.0
    | inr other ↦ AllPaired-lookup name d all.1 (rw other at h)
  ]

  entry_or-IsPaired :
      (found : Option (Entry C K))
      → ((e : Entry C K) → found ≡ some e → IsPaired e)
      → IsPaired (entry_or found)
  entry_or-IsPaired none h = tt
  entry_or-IsPaired (some e) h = h e refl

  AllPaired-insert :
      (name : String) (e : Entry C K) (d : Dict (Entry C K))
      → AllPaired d
      → IsPaired e
      → AllPaired (insert name e d)
  unfolding insert
  AllPaired-insert name e [] all h = (h, tt)
  AllPaired-insert name e ((n, e') ∷ d) all h = elim (Bool-cases (str_eq n name)) [
    | inl same ↦ rw same (h, all.1)
    | inr other ↦ rw other (all.0, AllPaired-insert name e d all.1 h)
  ]

  abbrev AllThreads : Threads C K → Type 0
  AllThreads = All (λ thread. AllPaired thread.1)

  AllThreads-thread_db : (tid : ℕ) (ts : Threads C K) → AllThreads ts → AllPaired (thread_db tid ts)
  unfolding thread_db
  AllThreads-thread_db tid [] all = tt
  AllThreads-thread_db tid ((t, d) ∷ ts) all = elim (Bool-cases (t == tid)) [
    | inl same ↦ rw same (all.0)
    | inr other ↦ rw other (AllThreads-thread_db tid ts all.1)
  ]

  AllThreads-put_db :
      (tid : ℕ) (d : Dict (Entry C K)) (ts : Threads C K)
      → AllThreads ts
      → AllPaired d
      → AllThreads (put_db tid d ts)
  unfolding put_db
  AllThreads-put_db tid d [] all h = (h, tt)
  AllThreads-put_db tid d ((t, d') ∷ ts) all h = elim (Bool-cases (t == tid)) [
    | inl same ↦ rw same (h, all.1)
    | inr other ↦ rw other (all.0, AllThreads-put_db tid d ts all.1 h)
  ]

  close_all-AllPaired : (d : Dict (Entry C K)) (w : W) → AllPaired (close_all driver d w).0
  unfolding close_all
  close_all-AllPaired [] w = tt
  close_all-AllPaired ((name, e) ∷ d) w = (tt, close_all-AllPaired d (close_entry driver e w))

  sweep-AllThreads :
      (is_active : ℕ → Bool) (ts : Threads C K) (w : W)
      → AllThreads ts
      → AllThreads (sweep driver is_active ts w).0
  unfolding sweep
  sweep-AllThreads is_active [] w all = tt
  sweep-AllThreads is_active ((t, d) ∷ ts) w all = elim (Bool-cases (is_active t)) [
    | inl active ↦ rw active (all.0, sweep-AllThreads is_active ts w all.1)
    | inr dead ↦
        rw dead
          (close_all-AllPaired d w, sweep-AllThreads is_active ts (close_all driver d w).1 all.1)
  ]

  set_db-ArePaired :
      (is_active : ℕ → Bool) (me : ℕ) (d : Dict (Entry C K)) (s : Database C K W)
      → ArePaired s
      → AllPaired d
      → ArePaired (set_db driver is_active me d s)
  unfolding set_db
  set_db-ArePaired is_active me d s all h =
      AllThreads-put_db me d _ (sweep-AllThreads is_active s.threads s.world all) h

  release_entry-ArePaired :
      (me : ℕ) (name : String) (found : Option (Entry C K)) (s : Database C K W)
      → ArePaired s
      → ArePaired (release_entry driver me name found s).1
  unfolding release_entry
  release_entry-ArePaired me name none s all = all
  release_entry-ArePaired me name (some e) s all =
      AllThreads-put_db me _ s.threads all
        (AllPaired-insert name empty_entry _ (AllThreads-thread_db me s.threads all) tt)

  disconnect-ArePaired :
      (is_active : ℕ → Bool) (me : ℕ) (name : String) (s : Database C K W)
      → ArePaired s
      → ArePaired (disconnect driver is_active me name s).1
  unfolding disconnect release
  disconnect-ArePaired is_active me name s all =
      elim (Bool-cases (is_empty_db (thread_db me s.threads))) [
        | inl unused ↦
            rw unused
              (release_entry-ArePaired me name _ _ (set_db-ArePaired is_active me _ s all (tt, tt)))
        | inr used ↦ rw used (release_entry-ArePaired me name _ s all)
      ]

  module _ (own : MakesOwn) where
    reconnect-IsPaired :
        (uri : Option Value) (e : Entry C K) (w : W) → IsPaired (reconnect driver uri (e, w)).1.0
    unfolding reconnect
    reconnect-IsPaired none e w = tt
    reconnect-IsPaired (some u) e w = ground arith

    reconnect_if-IsPaired :
        (uri : Option Value) (e : Entry C K) (r : Result Bool) (w : W)
        → IsPaired e
        → IsPaired (reconnect_if driver uri e (r, w)).1.0
    unfolding reconnect_if
    reconnect_if-IsPaired uri e (raise x) w h = h
    reconnect_if-IsPaired uri e (ok true) w h = reconnect-IsPaired uri e w
    reconnect_if-IsPaired uri e (ok false) w h = h

    add_cursor-IsPaired :
        (e : Entry C K) (c : C) (r : Result K) (w : W)
        → e.conn ≡ some c
        → IsPaired e
        → ((k : K) → r ≡ ok k → Of k c)
        → IsPaired (add_cursor driver e (r, w)).1.0
    unfolding add_cursor
    add_cursor-IsPaired e c (raise x) w has h made = h
    add_cursor-IsPaired e c (ok k) w has h made = rw has (made k refl)

    cursor_if-IsPaired :
        (e : Entry C K) (conn : Option C) (cursor : Option K) (w : W)
        → e.conn ≡ conn
        → IsPaired e
        → IsPaired (cursor_if driver e conn cursor w).1.0
    unfolding cursor_if
    cursor_if-IsPaired e conn (some k) w has h = h
    cursor_if-IsPaired e none none w has h = h
    cursor_if-IsPaired e (some c) none w has h =
        add_cursor-IsPaired e c (driver.make_cursor c w).0 (driver.make_cursor c w).1 has h
          (own c w)

    connect_entry-IsPaired :
        (uri : Option Value) (e : Entry C K) (w : W)
        → IsPaired e
        → IsPaired (connect_entry driver uri (e, w)).1.0
    unfolding connect_entry ensure_conn ensure_cursor
    connect_entry-IsPaired uri e w h =
        Keeps-bind {P = λ s. IsPaired s.0} (ensure_conn driver uri) (λ _. ensure_cursor driver)
          (λ s paired. reconnect_if-IsPaired uri s.0 _ _ paired)
          (λ _ s paired. cursor_if-IsPaired s.0 s.0.conn s.0.cursor s.1 refl paired) (e, w) h

    connect-ArePaired :
        (uris : Dict Value) (me : ℕ) (name : String) (s : Database C K W)
        → ArePaired s
        → ArePaired (connect driver uris me name s).1
    unfolding connect
    connect-ArePaired uris me name s all =
        let mine : AllPaired (thread_db me s.threads) = AllThreads-thread_db me s.threads all in
        AllThreads-put_db me _ s.threads all (
          AllPaired-insert name _ _ mine (
            connect_entry-IsPaired _ _ s.world
              (entry_or-IsPaired _ (λ e. AllPaired-lookup name _ mine))))

    prepare_name-ArePaired :
        (me : ℕ) (name : String) (s : Database C K W)
        → ArePaired s
        → ArePaired (prepare_name me name s)
    unfolding prepare_name
    prepare_name-ArePaired me name s all =
        elim (Bool-cases (is_some (lookup name (thread_db me s.threads)))) [
          | inl known ↦ rw known all
          | inr new ↦ rw new (
              AllThreads-put_db me _ s.threads all
                (AllPaired-insert name empty_entry _ (AllThreads-thread_db me s.threads all) tt))
        ]

    -- A cursor is always of the connection that it stands beside, in every thread, after any
    -- sequence of the methods, whatever they raise; the driver makes a cursor of the connection
    -- that it is asked of.
    pub Run-ArePaired : {s s' : Database C K W} → Run driver s s' → ArePaired s → ArePaired s'
    Run-ArePaired done all = all
    Run-ArePaired (connected {s} uris me name r) all =
        Run-ArePaired r (connect-ArePaired uris me name s all)
    Run-ArePaired (disconnected {s} is_active me name r) all =
        Run-ArePaired r (disconnect-ArePaired is_active me name s all)
    Run-ArePaired (named {s} me name r) all = Run-ArePaired r (prepare_name-ArePaired me name s all)
