-- ===== src/Http1/Session/Steps.antt =====
-- internal/transport/http1/http1.go: `Session.Do`, `Session.Release` and `Session.Close` with the two goroutines of
-- `Conn.Setup`, as steps of any number of callers and of the goroutines, in any order. The channels `wloop`
-- and `rloop` have no buffer, `doneCh` of a session has room for one message.
use go_http.Base.{
  ℕ, Bool, true, false, ◌==◌, ◌≡◌, List, [], ◌∷◌, ◌++◌, Option, none, some, if◌then◌else◌,
}

-- What is sent on `doneCh`: nil, the error of this session, or the one of an earlier session.
pub data Message : Type 0 where
  success : Message
  own broken : (which : ℕ) → Message

-- Where a caller of `Do` is: before the call, in the `select`, behind it, or returned, with what came on
-- `doneCh` or with the error of its context.
pub data Phase : Type 0 where
  fresh offered taken cancelled : Phase
  returned : Message → Phase

-- Where a goroutine is: at its `select`, with a session, with one that it offers on `rloop`, or it has
-- returned.
pub data Worker : Type 0 where
  idle gone : Worker
  busy handing : (session : ℕ) → Worker

-- `werr`, `rerr`, the goroutines, and of each session its phase, its `doneCh`, and its `Sess`: whether it
-- is not nil, and the calls of `Release` on it. `written`, `read` and `dropped` are the sessions, in
-- order, whose request was written, whose response the reading goroutine went on to read, and which it
-- refused.
pub record Conn : Type 0 where
  pub werr : Option ℕ
  pub rerr : Option ℕ
  pub writer : Worker
  pub reader : Worker
  pub phase : ℕ → Phase
  pub inbox : ℕ → List Message
  pub held : ℕ → Bool
  pub calls : ℕ → List Bool
  pub written : List ℕ
  pub read : List ℕ
  pub dropped : List ℕ

-- `Setup`, with sessions that `Conn.Session` gives for sessions of the pool.
abbrev pub set_up : Conn
set_up = record {
  werr = none;
  rerr = none;
  writer = idle;
  reader = idle;
  phase = λ s. fresh;
  inbox = λ s. [];
  held = λ s. true;
  calls = λ s. [];
  written = [];
  read = [];
  dropped = [];
}

abbrev pub at {ℓ} : {A : Type ℓ} → ℕ → A → (ℕ → A) → ℕ → A
at s x f t = if t == s then x else f t

abbrev pub move : Conn → ℕ → Phase → Conn
move c s p = record c { phase = at s p c.phase }

-- `s.doneCh <- m`
abbrev pub answer : Conn → ℕ → Message → Conn
answer c s m = record c { inbox = at s (c.inbox s ++ m ∷ []) c.inbox }

-- `Session.Release`
unfoldable pub release : Conn → ℕ → Bool → Conn
release c s close =
    if c.held s
    then record c { held = at s false c.held; calls = at s (c.calls s ++ close ∷ []) c.calls }
    else c

-- One step, of a caller or of a goroutine.
pub data Step (c : Conn) : Conn → Type 0 where
  -- `Do` comes to its `select`, its context ends there, or it gets a message.
  calls_do : (s : ℕ) → c.phase s ≡ fresh → Step c (move c s offered)
  gives_up : (s : ℕ) → c.phase s ≡ offered → Step c (move c s cancelled)
  gets :
      (s : ℕ) (m : Message) (rest : List Message)
      → c.phase s ≡ taken
      → c.inbox s ≡ m ∷ rest
      → Step c (record (move c s (returned m)) { inbox = at s rest c.inbox })
  -- `Close` of the body of a response; `close` is `needClose`, as `readHeader` left it.
  closes : (s : ℕ) (close : Bool) → c.phase s ≡ returned success → Step c (release c s close)
  -- The writing goroutine takes a session, or refuses it.
  takes :
      (s : ℕ)
      → c.writer ≡ idle
      → c.phase s ≡ offered
      → c.werr ≡ none
      → Step c (record (move c s taken) { writer = busy s })
  refuses :
      (s e : ℕ)
      → c.writer ≡ idle
      → c.phase s ≡ offered
      → c.werr ≡ some e
      → Step c (record (answer (move c s taken) s (broken e)) { writer = gone })
  -- It has written the request, or failed.
  writes :
      (s : ℕ)
      → c.writer ≡ busy s
      → Step c (record c { writer = handing s; written = c.written ++ s ∷ [] })
  fails_writing :
      (s e : ℕ)
      → c.writer ≡ busy s
      → Step c (answer (release (record c { writer = gone; werr = some e }) s true) s (own e))
  -- The reading goroutine takes the session, or refuses it.
  hands :
      (s : ℕ)
      → c.writer ≡ handing s
      → c.reader ≡ idle
      → c.rerr ≡ none
      → Step c (record c { writer = idle; reader = busy s; read = c.read ++ s ∷ [] })
  drops :
      (s e : ℕ)
      → c.writer ≡ handing s
      → c.reader ≡ idle
      → c.rerr ≡ some e
      → Step c (
          answer
            (record c { writer = idle; reader = gone; dropped = c.dropped ++ s ∷ [] })
            s
            (broken e))
  -- It has read the response, or failed.
  reads : (s : ℕ) → c.reader ≡ busy s → Step c (answer (record c { reader = idle }) s success)
  fails_reading :
      (s e : ℕ)
      → c.reader ≡ busy s
      → Step c (answer (release (record c { reader = idle; rerr = some e }) s true) s (own e))

pub data Reach (c : Conn) : Conn → Type 0 where
  here : Reach c c
  next : {d e : Conn} → Reach c d → Step d e → Reach c e
