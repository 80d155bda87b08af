-- ===== src/Prompt/Stream.antt =====
-- What a session delivers: the chunks that its runner sent, each once and in order.
use go2net_spectra.Base.{
  ℕ, zero, suc, ◌<◌, ◌≡◌, ◌↔◌, refl, ap, sym, ◌∙◌, arith, Bytes, List, [], ◌∷◌, ◌++◌, append-nil,
  append_assoc, Option, none, some, true, false, not, ◌||◌, length, drop, take-append-drop,
  length-take, min, if◌then◌else◌, Option-cases, inl, inr,
}
use go2net_spectra.Prompt.{
  Session, ChunkResponse, Store, waiting, answer, send_chunk, finish, read, read_limit, read_round,
  cancel_session, session_at, is_nil,
}

-- What happens to one session: its runner sends and finishes, readers read, somebody cancels.
pub data Event : Type 0 where
  sends : Bytes → ℕ → Event
  finishes : Option Bytes → ℕ → Event
  reads : ℕ → ℕ → Event
  cancels : Event

-- A session after an event, with the chunks that the event delivers.
abbrev delivered : Option ChunkResponse → List Bytes
delivered none = []
delivered (some r) = r.chunks

pub step : Session → Event → Session × List Bytes
step p (sends c now) = (send_chunk c now p, [])
step p (finishes e now) = (finish e now p, [])
step p (reads limit now) = ((read limit now p).0, delivered (read limit now p).1)
step p cancels = (cancel_session p, [])

-- A schedule, in order, with all that the readers got.
abbrev pub run : Session → List Event → Session × List Bytes
run p [] = (p, [])
run p (e ∷ es) = let (p', out) = step p e in let (q, rest) = run p' es in (q, out ++ rest)

-- The chunks that the runner sent, the empty ones left out.
abbrev sent_chunk : Bytes → List Bytes
sent_chunk [] = []
sent_chunk (c ∷ cs) = (c ∷ cs) ∷ []

abbrev sent_by : Event → List Bytes
sent_by (sends c now) = sent_chunk c
sent_by (finishes e now) = []
sent_by (reads limit now) = []
sent_by cancels = []

abbrev pub sent : List Event → List Bytes
sent [] = []
sent (e ∷ es) = sent_by e ++ sent es

read-chunks :
    (limit now : ℕ) (p : Session)
    → delivered (read limit now p).1 ++ (read limit now p).0.chunks ≡ p.chunks
unfolding read
read-chunks limit now p =
    ground (arith, take-append-drop limit p.chunks, take-append-drop (length p.chunks) p.chunks)

step-chunks :
    (p : Session) (e : Event) → (step p e).1 ++ (step p e).0.chunks ≡ p.chunks ++ sent_by e
unfolding step send_chunk finish cancel_session
step-chunks p (sends [] now) = sym (append-nil p.chunks)
step-chunks p (sends (c ∷ cs) now) = refl
step-chunks p (finishes e now) = sym (append-nil p.chunks)
step-chunks p (reads limit now) = read-chunks limit now p ∙ sym (append-nil p.chunks)
step-chunks p cancels = sym (append-nil p.chunks)

-- Under every schedule of sends, reads, finishes and cancellations: what the readers got, followed by
-- what is still queued, is what was queued at first followed by the chunks that the runner sent. So
-- no chunk is lost, repeated or moved.
pub run_delivers :
    (p : Session) (es : List Event) → (run p es).1 ++ (run p es).0.chunks ≡ p.chunks ++ sent es
run_delivers p [] = sym (append-nil p.chunks)
run_delivers p (e ∷ es) =
    let (p', out) = step p e in
    let (q, rest) = run p' es in
    append_assoc out rest q.chunks
    ∙ ap (λ t. out ++ t) (run_delivers p' es)
    ∙ sym (append_assoc out p'.chunks (sent es))
    ∙ ap (λ t. t ++ sent es) (step-chunks p e)
    ∙ append_assoc p.chunks (sent_by e) (sent es)

is_nil→eq : (xs : List Bytes) → is_nil xs ≡ true → xs ≡ []
is_nil→eq [] e = refl
is_nil→eq (x ∷ xs) e = cc e

eq→is_nil : (xs : List Bytes) → xs ≡ [] → is_nil xs ≡ true
eq→is_nil xs e = rw e refl

-- `read` answers with a response exactly when a chunk is queued or the runner has finished.
read-answers :
    (limit now : ℕ) (p : Session)
    → ((read limit now p).1 ≡ none) ↔ ((p.chunks ≡ []) × (p.done ≡ false))
unfolding read
read-answers limit now p =
    (λ e. ground (arith, e, is_nil→eq p.chunks), λ e. ground (arith, e, eq→is_nil p.chunks))

-- A response takes as many chunks as are queued, up to the limit. It says that the session is done
-- exactly when the runner has finished and nothing is left in the queue, and only then it carries
-- the error text.
pub read_lem :
    (limit now : ℕ) (p : Session) (r : ChunkResponse)
    → (read limit now p).1 ≡ some r
    → (length r.chunks ≡ min limit (length p.chunks))
      × ((r.done ≡ true) ↔ ((p.done ≡ true) × ((read limit now p).0.chunks ≡ [])))
      × (r.error_text ≡ (if r.done then p.error_text else none))
unfolding read
read_lem limit now p r e = (
  ground (arith, e, length-take limit p.chunks, length-take (length p.chunks) p.chunks),
  (
    λ d.
        ground (
          arith,
          e,
          d,
          is_nil→eq (drop limit p.chunks),
          is_nil→eq (drop (length p.chunks) p.chunks),
        ),
    λ d. ground (
      arith,
      e,
      d.0,
      d.1,
      eq→is_nil (drop limit p.chunks),
      eq→is_nil (drop (length p.chunks) p.chunks),
    ),
  ),
  ground (arith, e),
)

read_limit-pos : (max_chunks : ℕ) → 0 < read_limit max_chunks
unfolding read_limit
read_limit-pos max_chunks = ground arith

-- With a positive limit a response has a chunk or is the last one.
read-useful :
    (limit now : ℕ) (p : Session) (r : ChunkResponse)
    → 0 < limit
    → (read limit now p).1 ≡ some r
    → not (is_nil r.chunks) || r.done ≡ true
unfolding read
read-useful zero now p r h e = elim h [ ]
read-useful (suc limit) now p r h e = useful p.chunks refl
  where
    useful : (xs : List Bytes) → p.chunks ≡ xs → not (is_nil r.chunks) || r.done ≡ true
    useful [] same = ground (arith, e, same)
    useful (x ∷ xs) same = ground (arith, e, same)

round-none :
    (r max_chunks now : ℕ) (s : Store)
    → (read (read_limit max_chunks) now (session_at s r)).1 ≡ none
    → (read_round r max_chunks now s).1 ≡ waiting
unfolding read_round
round-none r max_chunks now s e = ground (arith, e)

round-some :
    (r max_chunks now : ℕ) (s : Store) (resp : ChunkResponse)
    → (read (read_limit max_chunks) now (session_at s r)).1 ≡ some resp
    → (read_round r max_chunks now s).1 ≡ answer resp
unfolding read_round
round-some r max_chunks now s resp e =
    let p = session_at s r in
    let useful = read-useful (read_limit max_chunks) now p resp (read_limit-pos max_chunks) e in
    ground (arith, e, useful)

-- One round of `Read` waits exactly when nothing is queued and the runner has not finished, whatever
-- `maxChunks` is.
pub read_round_waits :
    (r max_chunks now : ℕ) (s : Store)
    → ((read_round r max_chunks now s).1 ≡ waiting)
      ↔ (((session_at s r).chunks ≡ []) × ((session_at s r).done ≡ false))
read_round_waits r max_chunks now s =
    let p = session_at s r in
    let limit = read_limit max_chunks in
    let iff = read-answers limit now p in
    elim (Option-cases (read limit now p).1) [
      | inl e ↦ (λ _. iff.0 e, λ _. round-none r max_chunks now s e)
      | inr (resp, e) ↦ (
        λ w. absurd (cc (w, round-some r max_chunks now s resp e)),
        λ q. absurd (cc (iff.1 q, e)),
      )
    ]
