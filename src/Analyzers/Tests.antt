-- ===== src/Analyzers/Tests.antt =====
-- A stream of two texts, the first of them empty, and a response without choices.
use go2net_spectra.Base.{ℕ, ◌≡◌, ◌↔◌, refl, text, List, [], ◌∷◌, ◌++◌, none, some}
use go2net_spectra.Prompt.{Session, new_session}
use go2net_spectra.Analyzers.{
  Received, response, panics, run_session, new_analyzer, failed, no_api_key,
}
use go2net_spectra.Analyzers.Streaming.{said, Breaks, has_returned, run_session_lem}

abbrev stream : List (ℕ × Received)
stream = (1, response ([] ∷ [])) ∷ (2, response (text "hi" ∷ [])) ∷ (3, response []) ∷ []

abbrev session : Session
session = new_session (text "s") 0

run_session_example :
    let (t, standing) = run_session 9 none stream session in
    (t.chunks ≡ session.chunks ++ said stream)
    × (t.done ≡ has_returned standing)
    × ((standing ≡ panics) ↔ Breaks stream)
unfolding new_session
run_session_example = run_session_lem 9 stream session refl

wants_a_key :
    new_analyzer (text "u") (some (record { api_key = []; model = text "m"; base_url = [] }))
    ≡ failed no_api_key
unfolding new_analyzer
wants_a_key = refl
