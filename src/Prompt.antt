-- ===== src/Prompt.antt =====
-- The prompt sessions of the AI service: internal/ai/prompt_sessions.go, and the RPC methods of
-- internal/ai/server.go that call the store. Each method runs under a mutex, so it is one step; the
-- goroutines' interleaving is the order of the steps. A session is shared by the map, its runner and
-- its readers, so the store is a heap of sessions, and the map holds references into it.
pub mod Stream
pub mod Lifecycle
mod Tests
use go2net_spectra.Base.{
  ℕ, zero, suc, ◌+◌, ◌-◌, ◌^◌, ◌≡◌, Bytes, text, List, [], ◌∷◌, ◌++◌, map, Option, none, some, Bool,
  true, false, not, ◌&&◌, ◌||◌, length, take, drop, get_or, get_elem?, set, leb, ltb, ◌==◌,
  if◌then◌else◌,
}
use go2net_spectra.Base.Dict.{lookup, insert, delete}

-- `promptSession`, less its mutex. Times are in nanoseconds. `canceled` is whether `cancel` has been
-- called, and `notify` counts the channels that `broadcastLocked` has closed.
pub record Session : Type 0 where
  pub session_id : Bytes
  pub canceled : Bool
  pub chunks : List Bytes
  pub done : Bool
  pub error_text : Option Bytes
  pub last_touched : ℕ
  pub notify : ℕ

-- `v1.PromptChunkResponse`
pub record ChunkResponse : Type 0 where
  pub chunks : List Bytes
  pub done : Bool
  pub error_text : Option Bytes

pub record Store : Type 0 where
  pub heap : List Session
  pub sessions : List (Bytes × ℕ)
  pub ttl : ℕ
  pub stopped : Bool

abbrev pub default_prompt_session_ttl : ℕ
default_prompt_session_ttl = 600_000_000_000

abbrev pub default_prompt_read_chunk_limit : ℕ
default_prompt_read_chunk_limit = 16

unfoldable pub new_session : Bytes → ℕ → Session
new_session id now = record {
  session_id = id;
  canceled = false;
  chunks = [];
  done = false;
  error_text = none;
  last_touched = now;
  notify = 0;
}

unfoldable pub append_chunk : Bytes → ℕ → Session → Session
append_chunk chunk now p = record p {
  chunks = p.chunks ++ chunk ∷ [];
  last_touched = now;
  notify = p.notify + 1;
}

-- The callback of `runSession` skips empty chunks.
unfoldable pub send_chunk : Bytes → ℕ → Session → Session
unfolding append_chunk
send_chunk [] now p = p
send_chunk (c ∷ cs) now p = append_chunk (c ∷ cs) now p

unfoldable pub finish : Option Bytes → ℕ → Session → Session
finish err now p = record p {
  done = true;
  error_text = elim err [ none ↦ p.error_text | some e ↦ some e ];
  last_touched = now;
  notify = p.notify + 1;
}

abbrev pub is_nil {ℓ} : {A : Type ℓ} → List A → Bool
is_nil [] = true
is_nil (x ∷ xs) = false

-- `read` with a positive limit; `none` is the branch that has nothing to return yet.
unfoldable pub read : ℕ → ℕ → Session → Session × Option ChunkResponse
read limit now p =
    let touched = record p { last_touched = now } in
    if is_nil p.chunks && not p.done
    then (touched, none)
    else let n = if ltb (length p.chunks) limit then length p.chunks else limit in
      let rest = drop n p.chunks in
      let done = p.done && is_nil rest in
      (
        record touched { chunks = rest },
        some (record {
          chunks = take n p.chunks;
          done = done;
          error_text = if done then p.error_text else none;
        }),
      )

-- `limit` of `Read`, from the 32-bit pattern of `maxChunks`.
unfoldable pub read_limit : ℕ → ℕ
read_limit max_chunks =
    if max_chunks == 0 || leb (2 ^ 31) max_chunks
    then default_prompt_read_chunk_limit
    else max_chunks

-- `now.Sub(p.lastTouched) >= ttl`, for times that do not run backwards.
unfoldable pub expired : ℕ → ℕ → Session → Bool
expired now ttl p = leb (p.last_touched + ttl) now

unfoldable pub new_store : Option ℕ → Store
new_store ttl = record {
  heap = [];
  sessions = [];
  ttl = elim ttl [ none ↦ default_prompt_session_ttl | some t ↦ t ];
  stopped = false;
}

pub data StartError : Type 0 where
  context_error store_stopped id_error : StartError

-- `Start`: `ctx_done` is whether the context has an error, and `id` what `newPromptSessionID` gives.
unfoldable pub start : Bool → Option Bytes → ℕ → Store → Store × (Option StartError × Bytes)
unfolding new_session
start true id now s = (s, (some context_error, []))
start false none now s = (s, (some (if s.stopped then store_stopped else id_error), []))
start false (some id) now s = if s.stopped then (s, (some store_stopped, [])) else (
  record s {
    heap = s.heap ++ new_session id now ∷ [];
    sessions = insert id (length s.heap) s.sessions;
  },
  (none, id),
)

abbrev pub no_session : Session
no_session = record {
  session_id = [];
  canceled = false;
  chunks = [];
  done = false;
  error_text = none;
  last_touched = 0;
  notify = 0;
}

-- The session behind a reference, and a change of it.
abbrev pub session_at : Store → ℕ → Session
session_at s r = get_or s.heap r no_session

abbrev pub modify : ℕ → (Session → Session) → Store → Store
modify r f s = record s { heap = set s.heap r (f (session_at s r)) }

unfoldable pub cancel_session : Session → Session
cancel_session p = record p { canceled = true }

-- `Cancel`
unfoldable pub cancel : Bytes → Store → Store × Bool
unfolding cancel_session
cancel id s = elim (lookup id s.sessions) [
  | none ↦ (s, false)
  | some r ↦ (modify r cancel_session s, true)
]

-- The loop of `expireSessions`.
unfoldable pub unexpired : ℕ → Store → List (Bytes × ℕ) → List (Bytes × ℕ)
unfolding expired
unexpired now s [] = []
unexpired now s ((id, r) ∷ m) =
    if expired now s.ttl (session_at s r) then unexpired now s m else (id, r) ∷ unexpired now s m

unfoldable pub expire_sessions : ℕ → Store → Store
unfolding unexpired
expire_sessions now s = record s { sessions = unexpired now s s.sessions }

unfoldable pub cancel_all : List (Bytes × ℕ) → Store → Store
unfolding cancel_session
cancel_all [] s = s
cancel_all ((id, r) ∷ m) s = cancel_all m (modify r cancel_session s)

-- `Stop`, up to the wait for the goroutines.
unfoldable pub stop : Store → Store
unfolding cancel_all
stop s = if s.stopped then s else cancel_all s.sessions (record s { stopped = true })

pub data ReadResult : Type 0 where
  not_found : ReadResult
  waiting : ReadResult
  answer : ChunkResponse → ReadResult

-- One round of the loop of `Read`: an answer, or a wait for the session's next broadcast.
unfoldable pub read_round : ℕ → ℕ → ℕ → Store → Store × ReadResult
unfolding read read_limit
read_round r max_chunks now s =
    let (p, out) = read (read_limit max_chunks) now (session_at s r) in
    let s' = record s { heap = set s.heap r p } in
    elim out [
      | none ↦ (s', waiting)
      | some resp ↦
          if not (is_nil resp.chunks) || resp.done then (s', answer resp) else (s', waiting)
    ]

unfoldable pub read_chunks : Bytes → ℕ → ℕ → Store → Store × ReadResult
unfolding read_round
read_chunks id max_chunks now s = elim (lookup id s.sessions) [
  | none ↦ (s, not_found)
  | some r ↦ read_round r max_chunks now s
]
