-- ===== src/Analyzers.antt =====
-- The AI analyzers: internal/ai/alerter_analyzer.go and common_analyzer.go, with their calls in
-- internal/ai/server.go and in `runSession` of internal/ai/prompt_sessions.go. The model's service is a
-- parameter.
pub mod Streaming
mod Tests
use go2net_spectra.Base.{
  ℕ, Bytes, text, List, [], ◌∷◌, ◌++◌, Option, none, some, Bool, true, false, if◌then◌else◌,
}
use go2net_spectra.Prompt.{Session, send_chunk, finish}

-- `config.AIConfig`, less what the analyzers do not read.
pub record AiConfig : Type 0 where
  pub api_key : Bytes
  pub model : Bytes
  pub base_url : Bytes

pub data AnalyzerError : Type 0 where
  nil_config no_api_key timeout canceled api_error no_choices : AnalyzerError

pub data Analyzed (A : Type 0) : Type 0 where
  analyzed : A → Analyzed A
  failed : AnalyzerError → Analyzed A

-- An analyzer: its configuration, and the address that its client calls.
pub record Analyzer : Type 0 where
  pub cfg : AiConfig
  pub address : Bytes

-- `NewAlerterAnalyzer` and `NewCommonAnalyzer`, which differ in the type alone; `default_url` is the
-- client's own.
unfoldable pub new_analyzer : Bytes → Option AiConfig → Analyzed Analyzer
new_analyzer default_url none = failed nil_config
new_analyzer default_url (some cfg) = elim cfg.api_key [
  | [] ↦ failed no_api_key
  | k ∷ ks ↦ elim cfg.base_url [
    | [] ↦ analyzed (record { cfg = cfg; address = default_url })
    | c ∷ cs ↦ analyzed (record { cfg = cfg; address = c ∷ cs })
  ]
]

-- The prompt of `AlerterAnalyzer.AnalyzeTraffic`.
unfoldable pub traffic_prompt : Bytes → Bytes
traffic_prompt input =
    text "You are a senior network security analyst. "
    ++ (text
          "Please analyze the following network alert summary from the Go2NetSpectra monitoring system. "
        ++ (text
              "Provide a concise analysis of the potential threat, its severity, and recommended next steps for investigation. "
            ++ (text "The output should be clear and actionable.\n\n"
                ++ (text "--- Alert Data ---\n" ++ (input ++ text "\n--- End of Alert Data ---")))))

-- What the service answers to a request: an error, by what `errors.Is` finds in it, or the contents of
-- the choices.
pub data Completion : Type 0 where
  deadline_exceeded was_canceled other_error : Completion
  choices : List Bytes → Completion

-- `AlerterAnalyzer.AnalyzeTraffic`; `complete` takes the address, the model and the prompt.
unfoldable pub analyze_traffic :
    (Bytes → Bytes → Bytes → Completion) → Analyzer → Bytes → Analyzed Bytes
unfolding traffic_prompt
analyze_traffic complete a input = elim (complete a.address a.cfg.model (traffic_prompt input)) [
  | deadline_exceeded ↦ failed timeout
  | was_canceled ↦ failed canceled
  | other_error ↦ failed api_error
  | choices [] ↦ failed no_choices
  | choices (c ∷ cs) ↦ analyzed c
]

-- What `stream.Recv` returns: the end, an error with its text, or a response with the contents of its
-- choices.
pub data Received : Type 0 where
  eof : Received
  stream_error : Bytes → Received
  response : List Bytes → Received

-- How `CommonAnalyzer.AnalyzeStream` stands: it waits for the stream, it has returned with or without
-- an error, or it has panicked on an index out of range.
pub data Standing : Type 0 where
  waits returned panics : Standing
  returned_error : Bytes → Standing

-- The loop of `AnalyzeStream` over what was received, each with its time, with `sendChunk` as
-- `runSession` passes it, which returns no error.
unfoldable pub receive : List (ℕ × Received) → Session → Session × Standing
unfolding send_chunk
receive [] s = (s, waits)
receive ((now, eof) ∷ rest) s = (s, returned)
receive ((now, stream_error e) ∷ rest) s = (s, returned_error (text "stream error: " ++ e))
receive ((now, response []) ∷ rest) s = (s, panics)
receive ((now, response (c ∷ cs)) ∷ rest) s = receive rest (send_chunk c now s)

-- `AnalyzeStream`: opening the stream can fail too.
unfoldable pub analyze_stream : Option Bytes → List (ℕ × Received) → Session → Session × Standing
unfolding receive
analyze_stream (some e) received s =
    (s, returned_error (text "failed to create chat completion stream: " ++ e))
analyze_stream none received s = receive received s

-- What `runSession` does when `AnalyzeStream` returns.
unfoldable pub finish_session : ℕ → Session → Standing → Session
unfolding finish
finish_session now s waits = s
finish_session now s panics = s
finish_session now s returned = finish none now s
finish_session now s (returned_error e) = finish (some e) now s

-- `runSession`
unfoldable pub run_session : ℕ → Option Bytes → List (ℕ × Received) → Session → Session × Standing
unfolding analyze_stream finish_session
run_session now open_error received s =
    let (t, standing) = analyze_stream open_error received s in
    (finish_session now t standing, standing)
