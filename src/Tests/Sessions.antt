-- ===== src/Tests/Sessions.antt =====
-- Sessions of an HTTP/1 connection (internal/transport/http1/http1.go): runs of its goroutines, and a body
-- that is closed early.
use go_http.Base.{◌≡◌, ◌⊎◌, inl, refl, true, false, [], ◌∷◌, ◌++◌, none, some, codes}
use go_http.Io.{eof}
use go_http.Http1.Response.{new_response}
use go_http.Http1.Header.{HeaderResult}
use go_http.Http1.Session.{start_body}
use go_http.Http1.Session.Reuse.{LeftOver, read_few, close-unread}
use go_http.Http1.Session.Steps.{
  own, offered, taken, cancelled, idle, gone, busy, handing, Conn, set_up, move, answer, release,
  calls_do, gives_up, takes, writes, fails_writing, hands, fails_reading, Reach, here, next,
}
use go_http.Http1.Session.Ordered.{
  Ordered, Accounted, waits, has, Reach-Ordered, Reach-Accounted, Reach-dead,
}
use go_http.Http1.Session.Answering.{Answered, Reach-Answered}

abbrev asked : Conn
asked = move set_up 0 offered

abbrev taken_up : Conn
taken_up = record (move asked 0 taken) { writer = busy 0 }

abbrev sent : Conn
sent = record taken_up { writer = handing 0; written = [] ++ 0 ∷ [] }

abbrev handed : Conn
handed = record sent { writer = idle; reader = busy 0; read = [] ++ 0 ∷ [] }

abbrev unanswered : Conn
unanswered = answer (release (record handed { reader = idle; rerr = some 7 }) 0 true) 0 (own 7)

abbrev broken_pipe : Conn
broken_pipe = answer (release (record taken_up { writer = gone; werr = some 3 }) 0 true) 0 (own 3)

run_to_taken : Reach set_up taken_up
run_to_taken = next (next here (calls_do 0 refl)) (takes 0 refl refl refl)

run_to_handed : Reach set_up handed
run_to_handed = next (next run_to_taken (writes 0 refl)) (hands 0 refl refl refl)

run_to_unanswered : Reach set_up unanswered
run_to_unanswered = next run_to_handed (fails_reading 0 7 refl)

Reach-Ordered_example : Ordered unanswered
Reach-Ordered_example = Reach-Ordered run_to_unanswered

Reach-Accounted_example : Accounted 0 unanswered
Reach-Accounted_example = Reach-Accounted 0 run_to_unanswered

Reach-Answered_example : Answered 0 handed ⊎ ((has handed.writer 0 ≡ 1) × (handed.reader ≡ gone))
Reach-Answered_example = Reach-Answered 0 run_to_handed refl

abbrev later : Conn
later = move (move broken_pipe 1 offered) 1 cancelled

run_to_broken_pipe : Reach set_up broken_pipe
run_to_broken_pipe = next run_to_taken (fails_writing 0 3 refl)

Reach-dead_example : waits (later.phase 1) ≡ true
unfolding release
Reach-dead_example =
    Reach-dead 1 {c = broken_pipe} {d = later} run_to_broken_pipe (inl refl) refl
      (next (next here (calls_do 1 refl)) (gives_up 1 refl))

-- A response of five bytes with another one behind it, both on the connection.
abbrev header : HeaderResult
header = record {
  source = record { pending = codes "HelloHTTP/1.1"; grants = 2 ∷ 0 ∷ []; fault = eof };
  response = record new_response { content_length = some 5; transfer_encoding = [] };
  close = false;
  error = none;
}

close-unread_example :
    LeftOver 5 (codes "HelloHTTP/1.1") (read_few (3 ∷ []) (start_body 3 header).session)
close-unread_example = close-unread 3 header 4 (3 ∷ []) refl refl refl
