-- ===== src/Analyzers/Streaming.antt =====
-- What a session gets from a stream.
use go2net_spectra.Base.{
  ℕ, ◌≡◌, ◌↔◌, refl, ap, sym, ◌∙◌, Bytes, List, [], ◌∷◌, ◌++◌, none, Bool, true, false,
}
use go2net_spectra.Prompt.{Session, send_chunk, append_chunk, finish}
use go2net_spectra.Analyzers.{
  Received, eof, stream_error, response, Standing, waits, returned, panics, returned_error, receive,
  analyze_stream, finish_session, run_session,
}

-- What the stream says before its end: the first choices that are not empty.
abbrev pub said : List (ℕ × Received) → List Bytes
said [] = []
said ((t, eof) ∷ rest) = []
said ((t, stream_error e) ∷ rest) = []
said ((t, response []) ∷ rest) = []
said ((t, response ([] ∷ cs)) ∷ rest) = said rest
said ((t, response ((b ∷ bs) ∷ cs)) ∷ rest) = (b ∷ bs) ∷ said rest

-- A response without choices comes before the end.
abbrev pub Breaks : List (ℕ × Received) → Type 0
Breaks [] = ⊥
Breaks ((t, eof) ∷ rest) = ⊥
Breaks ((t, stream_error e) ∷ rest) = ⊥
Breaks ((t, response []) ∷ rest) = Unit
Breaks ((t, response (c ∷ cs)) ∷ rest) = Breaks rest

append_assoc : (xs ys : List Bytes) (x : Bytes) → (xs ++ x ∷ []) ++ ys ≡ xs ++ x ∷ ys
append_assoc [] ys x = refl
append_assoc (z ∷ xs) ys x = ap (λ l. z ∷ l) (append_assoc xs ys x)

append_nil : (xs : List Bytes) → xs ++ [] ≡ xs
append_nil [] = refl
append_nil (x ∷ xs) = ap (λ l. x ∷ l) (append_nil xs)

receive-chunks :
    (received : List (ℕ × Received)) (s : Session)
    → (receive received s).0.chunks ≡ s.chunks ++ said received
unfolding receive send_chunk append_chunk
receive-chunks [] s = sym (append_nil s.chunks)
receive-chunks ((t, eof) ∷ rest) s = sym (append_nil s.chunks)
receive-chunks ((t, stream_error e) ∷ rest) s = sym (append_nil s.chunks)
receive-chunks ((t, response []) ∷ rest) s = sym (append_nil s.chunks)
receive-chunks ((t, response ([] ∷ cs)) ∷ rest) s = receive-chunks rest s
receive-chunks ((t, response ((b ∷ bs) ∷ cs)) ∷ rest) s =
    receive-chunks rest (append_chunk (b ∷ bs) t s) ∙ append_assoc s.chunks (said rest) (b ∷ bs)

receive-Breaks :
    (received : List (ℕ × Received)) (s : Session)
    → ((receive received s).1 ≡ panics) ↔ Breaks received
unfolding receive
receive-Breaks [] s = (λ e. cc e, λ b. absurd b)
receive-Breaks ((t, eof) ∷ rest) s = (λ e. cc e, λ b. absurd b)
receive-Breaks ((t, stream_error x) ∷ rest) s = (λ e. cc e, λ b. absurd b)
receive-Breaks ((t, response []) ∷ rest) s = (λ e. tt, λ b. refl)
receive-Breaks ((t, response (c ∷ cs)) ∷ rest) s = receive-Breaks rest (send_chunk c t s)

receive-done : (received : List (ℕ × Received)) (s : Session) → (receive received s).0.done ≡ s.done
unfolding receive send_chunk append_chunk
receive-done [] s = refl
receive-done ((t, eof) ∷ rest) s = refl
receive-done ((t, stream_error e) ∷ rest) s = refl
receive-done ((t, response []) ∷ rest) s = refl
receive-done ((t, response ([] ∷ cs)) ∷ rest) s = receive-done rest s
receive-done ((t, response ((b ∷ bs) ∷ cs)) ∷ rest) s =
    receive-done rest (append_chunk (b ∷ bs) t s)

-- `AnalyzeStream` has returned.
abbrev pub has_returned : Standing → Bool
has_returned waits = false
has_returned panics = false
has_returned returned = true
has_returned (returned_error e) = true

finish_session_lem :
    (now : ℕ) (s : Session) (x : Standing)
    → s.done ≡ false
    → ((finish_session now s x).chunks ≡ s.chunks)
      × ((finish_session now s x).done ≡ has_returned x)
unfolding finish_session finish
finish_session_lem now s waits e = (refl, e)
finish_session_lem now s panics e = (refl, e)
finish_session_lem now s returned e = (refl, refl)
finish_session_lem now s (returned_error x) e = (refl, refl)

-- `runSession` over an open stream, of a session that is not done: the session gets, in order, exactly
-- the texts that are not empty among the first choices of the responses before the end, and it is
-- done exactly when `AnalyzeStream` has returned. The runner panics exactly when a response without
-- choices comes before the end.
pub run_session_lem :
    (now : ℕ) (received : List (ℕ × Received)) (s : Session)
    → s.done ≡ false
    → let (t, standing) = run_session now none received s in
      (t.chunks ≡ s.chunks ++ said received)
      × (t.done ≡ has_returned standing)
      × ((standing ≡ panics) ↔ Breaks received)
unfolding run_session analyze_stream
run_session_lem now received s open' =
    let r = receive received s in
    let (same, ended) = finish_session_lem now r.0 r.1 (receive-done received s ∙ open') in
    (same ∙ receive-chunks received s, ended, receive-Breaks received s)
