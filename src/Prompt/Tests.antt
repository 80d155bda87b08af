-- ===== src/Prompt/Tests.antt =====
-- One session, and a store that holds it.
use go2net_spectra.Base.{
  ◌≡◌, refl, arith, Bytes, bytes_eq, text, List, [], ◌∷◌, ◌++◌, none, true, false,
}
use go2net_spectra.Base.Dict.{lookup}
use go2net_spectra.Prompt.{
  Session, ChunkResponse, Store, expired, session_at, stop, expire_sessions,
}
use go2net_spectra.Prompt.Stream.{Event, sends, finishes, reads, run, sent, run_delivers}
use go2net_spectra.Prompt.Lifecycle.{stop_cancels, expired_survives_stop}

abbrev id : Bytes
id = text "1"

abbrev session : Session
session = record {
  session_id = id;
  canceled = false;
  chunks = text "a" ∷ text "b" ∷ [];
  done = false;
  error_text = none;
  last_touched = 0;
  notify = 0;
}

abbrev one_session : Store
one_session = record { heap = session ∷ []; sessions = (id, 0) ∷ []; ttl = 10; stopped = false }

abbrev schedule : List Event
schedule = sends (text "c") 1 ∷ reads 2 2 ∷ finishes none 3 ∷ reads 16 4 ∷ []

run_delivers_example :
    (run session schedule).1 ++ (run session schedule).0.chunks ≡ session.chunks ++ sent schedule
run_delivers_example = run_delivers session schedule

abbrev response : ChunkResponse
response = record { chunks = text "a" ∷ []; done = false; error_text = none }

stop_cancels_example :
    ((session_at (stop one_session) 0).canceled ≡ true) × ((stop one_session).stopped ≡ true)
unfolding lookup bytes_eq
stop_cancels_example = stop_cancels one_session id 0 refl refl (omega arith)

expired_survives_stop_example :
    session_at (stop (expire_sessions 100 one_session)) 0 ≡ session_at one_session 0
unfolding expired
expired_survives_stop_example = expired_survives_stop 100 0 one_session refl
