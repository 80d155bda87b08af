-- ===== src/Prompt/Lifecycle.antt =====
-- The life of a session in the store: it is started, expired, and canceled when the store stops.
use go2net_spectra.Base.{
  ℕ, ◌<◌, ◌≡◌, ◌≢◌, refl, ap, ◌∙◌, arith, Bytes, bytes_eq, bytes_eq→eq, List, [], ◌∷◌, none, some,
  true, false, length, get_or-set_self, get_or-set_ne, length-set, All, if◌then◌else◌, Bool-cases,
  inl, inr,
}
use native.Mathlib.Decide.{ℕ_discrete}
use go2net_spectra.Base.Dict.{lookup, UniqueKeys}
use go2net_spectra.Prompt.{
  Session, Store, no_session, session_at, modify, cancel_session, expired, unexpired,
  expire_sessions, cancel_all, stop,
}

modify-other :
    (r q : ℕ) (f : Session → Session) (s : Store)
    → q ≢ r
    → session_at (modify q f s) r ≡ session_at s r
modify-other r q f s ne = get_or-set_ne s.heap q r (f (session_at s q)) no_session ne

cancel_all-other :
    (m : List (Bytes × ℕ)) (r : ℕ) (s : Store)
    → All (λ e. e.1 ≢ r) m
    → session_at (cancel_all m s) r ≡ session_at s r
unfolding cancel_all
cancel_all-other [] r s a = refl
cancel_all-other ((id, q) ∷ m) r s (ne, a) =
    cancel_all-other m r (modify q cancel_session s) a ∙ modify-other r q cancel_session s ne

modify_self :
    (r : ℕ) (s : Store)
    → r < length s.heap
    → (session_at (modify r cancel_session s) r).canceled ≡ true
unfolding cancel_session
modify_self r s h =
    ap (λ (p : Session). p.canceled)
      (get_or-set_self s.heap r (cancel_session (session_at s r)) no_session h)

-- Cancelling never takes a flag back.
modify-canceled :
    (r q : ℕ) (s : Store)
    → r < length s.heap
    → (session_at s r).canceled ≡ true
    → (session_at (modify q cancel_session s) r).canceled ≡ true
modify-canceled r q s h e = elim (ℕ_discrete q r) [
  | yes same ↦ rw same (modify_self r s h)
  | no ne ↦ ap (λ (p : Session). p.canceled) (modify-other r q cancel_session s ne) ∙ e
]

modify-length : (q : ℕ) (s : Store) → length (modify q cancel_session s).heap ≡ length s.heap
modify-length q s = length-set s.heap q (cancel_session (session_at s q))

cancel_all-canceled :
    (m : List (Bytes × ℕ)) (r : ℕ) (s : Store)
    → r < length s.heap
    → (session_at s r).canceled ≡ true
    → (session_at (cancel_all m s) r).canceled ≡ true
unfolding cancel_all
cancel_all-canceled [] r s h e = e
cancel_all-canceled ((j, q) ∷ m) r s h e =
    cancel_all-canceled m r (modify q cancel_session s) (omega (arith, modify-length q s))
      (modify-canceled r q s h e)

cancel_all-hit :
    (m : List (Bytes × ℕ)) (id : Bytes) (r : ℕ) (s : Store)
    → r < length s.heap
    → lookup id m ≡ some r
    → (session_at (cancel_all m s) r).canceled ≡ true
unfolding cancel_all lookup
cancel_all-hit [] id r s h e = cc e
cancel_all-hit ((j, q) ∷ m) id r s h e = elim (Bool-cases (bytes_eq j id)) [
  | inl found ↦
      let same : q ≡ r = ground (arith, e, found) in
      cancel_all-canceled m r (modify q cancel_session s) (omega (arith, modify-length q s))
        (rw same (modify_self r s h))
  | inr other ↦
      cancel_all-hit m id r (modify q cancel_session s) (omega (arith, modify-length q s))
        (rw other at e)
]

cancel_all-stopped : (m : List (Bytes × ℕ)) (s : Store) → (cancel_all m s).stopped ≡ s.stopped
unfolding cancel_all
cancel_all-stopped [] s = refl
cancel_all-stopped ((j, q) ∷ m) s = cancel_all-stopped m (modify q cancel_session s)

-- `Stop` of a store that runs cancels every session in the map, and marks the store stopped.
pub stop_cancels :
    (s : Store) (id : Bytes) (r : ℕ)
    → s.stopped ≡ false
    → lookup id s.sessions ≡ some r
    → r < length s.heap
    → ((session_at (stop s) r).canceled ≡ true) × ((stop s).stopped ≡ true)
unfolding stop
stop_cancels s id r running e h =
    let marked = record s { stopped = true } in
    rw running (cancel_all-hit s.sessions id r marked h e, cancel_all-stopped s.sessions marked)

unexpired-fresh :
    (now : ℕ) (s : Store) (r : ℕ) (m : List (Bytes × ℕ))
    → expired now s.ttl (session_at s r) ≡ true
    → All (λ e. e.1 ≢ r) (unexpired now s m)
unfolding unexpired
unexpired-fresh now s r [] e = tt
unexpired-fresh now s r ((id, q) ∷ m) e = elim (Bool-cases (expired now s.ttl (session_at s q))) [
  | inl gone ↦ rw gone (unexpired-fresh now s r m e)
  | inr stays ↦ rw stays (
    (λ same. cc (stays, ap (λ k. expired now s.ttl (session_at s k)) same, e)),
    unexpired-fresh now s r m e,
  )
]

-- A session that `expireSessions` finds expired is out of reach of `Stop`: whatever else the store
-- holds, `Stop` after it leaves the session as it was, its context not canceled.
pub expired_survives_stop :
    (now r : ℕ) (s : Store)
    → expired now s.ttl (session_at s r) ≡ true
    → session_at (stop (expire_sessions now s)) r ≡ session_at s r
unfolding stop expire_sessions
expired_survives_stop now r s e = elim (Bool-cases s.stopped) [
  | inl already ↦ rw already refl
  | inr running ↦ rw running (
      cancel_all-other (unexpired now s s.sessions) r
        (record s { sessions = unexpired now s s.sessions; stopped = true })
        (unexpired-fresh now s r s.sessions e))
]

lookup-unexpired :
    (now : ℕ) (s : Store) (id : Bytes) (m : List (Bytes × ℕ))
    → UniqueKeys m
    → lookup id (unexpired now s m) ≡ elim (lookup id m) [
      | none ↦ none
      | some r ↦ if expired now s.ttl (session_at s r) then none else some r
    ]
unfolding unexpired lookup
lookup-unexpired now s id [] u = refl
lookup-unexpired now s id ((j, q) ∷ m) u =
    ground (arith, lookup-unexpired now s id m u.1, bytes_eq→eq j id, u.0)

-- In a map with one entry for each key, `expireSessions` removes a session exactly when it is expired,
-- and leaves the others.
pub expire_sessions_lem :
    (now : ℕ) (s : Store) (id : Bytes)
    → UniqueKeys s.sessions
    → lookup id (expire_sessions now s).sessions ≡ elim (lookup id s.sessions) [
      | none ↦ none
      | some r ↦ if expired now s.ttl (session_at s r) then none else some r
    ]
unfolding expire_sessions
expire_sessions_lem now s id u = lookup-unexpired now s id s.sessions u
