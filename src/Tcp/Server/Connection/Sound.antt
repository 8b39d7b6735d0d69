-- ===== src/Tcp/Server/Connection/Sound.antt =====
-- What holds of a connection at every step, and how many steps are left (tcp-actor-server/src/server.rs,
-- `handle_connection`).
use hicho.Common.{
  ℕ, zero, suc, ◌+◌, ◌*◌, ◌%◌, ◌≤◌, ◌<◌, ◌≡◌, refl, Option, none, some, List, [], ◌∷◌, Bytes,
  length, length-append, take, drop, ltb, arith, Bool-cases, Result-cases, inl, inr, ◌⊎◌,
}
use hicho.Tcp.Http.{RequestHead, incomplete, malformed, head_too_large, unsupported, parse_head}
use hicho.Tcp.Http.Framing.{parse_head_frames, incomplete_short}
use hicho.Tcp.Server.Connection.{
  Arrival, Env, Phase, reading, body, writing, closed, Write, written, broken, unfinished, Conn,
  ReadOutcome, got, later, classify, read_until, read_idle, respond_and_close, serve, read_more,
  head_read, body_step, step, run,
}

length-take : (n : ℕ) (s : Bytes) → (length (take n s) ≤ n) × (length (take n s) ≤ length s)
length-take zero s = (omega arith, omega arith)
length-take (suc n) [] = (omega arith, omega arith)
length-take (suc n) (c ∷ s) = ground (arith, length-take n s)

length-drop :
    (n : ℕ) (s : Bytes)
    → (length (drop n s) ≤ length s) × (n ≤ length s → length (drop n s) + n ≡ length s)
length-drop zero s = (omega arith, λ h. omega arith)
length-drop (suc n) [] = (omega arith, λ h. omega arith)
length-drop (suc n) (c ∷ s) = ground (arith, length-drop n s)

-- the bytes that the socket will still give
abbrev pub bytes_of : Option Bytes → ℕ
bytes_of none = 0
bytes_of (some bs) = length bs

abbrev pub still_due : List Arrival → ℕ
still_due [] = 0
still_due (a ∷ rest) = bytes_of a.result + still_due rest

-- What is in the buffer and on its way.
abbrev pub load : Conn → ℕ
load c = length c.buf + still_due c.inbox + length c.inbox

-- A read that brings bytes takes an arrival off the socket, and at most 8192 bytes into the buffer.
abbrev Reads : Conn → ReadOutcome × Conn → Type 0
Reads c (outcome, c') = elim outcome [
  | got ↦
      (length c'.buf ≤ length c.buf + 8192) × (load c' < load c) × (length c.buf ≤ length c'.buf)
  | _ ↦ c'.buf ≡ c.buf
]

classify-Reads :
    (r : Option Bytes) (rest : List Arrival) (c : Conn) (old : Conn)
    → c.inbox ≡ rest
    → c.buf ≡ old.buf
    → still_due old.inbox ≡ bytes_of r + still_due rest
    → length old.inbox ≡ suc (length rest)
    → Reads old (classify r c)
unfolding classify
classify-Reads none rest c old e b due len = b
classify-Reads (some []) rest c old e b due len = b
classify-Reads (some (x ∷ bs)) rest c old e b due len =
    ground (arith, length-append c.buf (take 8192 (x ∷ bs)), length-take 8192 (x ∷ bs))

read_until-Reads :
    (dl now : ℕ) (buf : Bytes) (inbox : List Arrival) (sent : List Bytes) (served : ℕ)
    (phase : Phase)
    → let c : Conn = record {
      now = now;
      buf = buf;
      inbox = inbox;
      sent = sent;
      served = served;
      phase = phase;
    } in
      Reads c (read_until dl c)
unfolding read_until
read_until-Reads dl now buf [] sent served phase = refl
read_until-Reads dl now buf (a ∷ rest) sent served phase = ground (
  arith,
  classify-Reads a.result rest
      (record {
        now = later now a.at;
        buf = buf;
        inbox = rest;
        sent = sent;
        served = served;
        phase = phase;
      })
      (record {
        now = now;
        buf = buf;
        inbox = a ∷ rest;
        sent = sent;
        served = served;
        phase = phase;
      })
      refl refl refl refl,
)

read_lem : (dl : ℕ) (c : Conn) → Reads c (read_until dl c)
read_lem dl c = read_until-Reads dl c.now c.buf c.inbox c.sent c.served c.phase

Write-cases : (w : Write) → (w ≡ written) ⊎ (w ≡ broken) ⊎ (w ≡ unfinished)
Write-cases written = inl refl
Write-cases broken = inr (inl refl)
Write-cases unfinished = inr (inr refl)

-- What holds of a connection at each step of its loop.
abbrev pub Sound : Env → Conn → Type 0
Sound env c = elim c.phase [
  | closed ↦ length c.buf ≤ 16384 + env.max_body_bytes
  | writing ↦
      (length c.buf ≤ 16384 + env.max_body_bytes) × (env.writes (length c.sent) ≡ unfinished)
  | reading deadline ↦ length c.buf ≤ 16384 + env.max_body_bytes
  | body head n dl ↦
      (length c.buf ≤ 16384 + env.max_body_bytes)
      × (4 ≤ n)
      × (n ≤ 8192)
      × (n ≤ length c.buf)
      × (head.content_length ≤ env.max_body_bytes)
]

-- The steps that are left, at most.
abbrev pub steps_left : Conn → ℕ
steps_left c = elim c.phase [
  | closed ↦ 0
  | writing ↦ 0
  | reading deadline ↦ 2 + 2 * load c
  | body head n dl ↦ 1 + 2 * load c
]

-- One step keeps a connection sound, and one fewer is left.
abbrev Advances : Env → Conn → Conn → Type 0
Advances env c c' = Sound env c' × (steps_left c' < steps_left c)

read_more-Advances :
    (env : Env) (deadline : Option ℕ) (c : Conn)
    → c.phase ≡ reading deadline
    → length c.buf ≤ 8192
    → Advances env c (read_more env deadline c)
unfolding read_more read_idle respond_and_close
read_more-Advances env none c e h = ground (arith, read_lem (c.now + env.request_timeout) c)
read_more-Advances env (some dl) c e h =
    ground (arith, read_lem dl c, read_lem (c.now + env.request_timeout) c)

body_step-Sound :
    (env : Env) (head : RequestHead) (n dl : ℕ) (c : Conn)
    → c.phase ≡ body head n dl
    → Sound env c
    → Sound env (body_step env head n dl c)
unfolding body_step serve respond_and_close
body_step-Sound env head n dl c e h =
    let total = (n + head.content_length) % 18446744073709551616 in
    elim (Bool-cases (ltb (length c.buf) total)) [
      | inl short ↦ ground (arith, read_lem dl c)
      | inr full ↦ elim (Write-cases (env.writes (length c.sent))) [
        | inl done ↦ ground (arith, length-drop total c.buf)
        | inr (inl failed) ↦ ground arith
        | inr (inr hangs) ↦ ground arith
      ]
    ]

-- One step fewer is left where the length of a request does not wrap.
pub body_step-fewer :
    (env : Env) (head : RequestHead) (n dl : ℕ) (c : Conn)
    → 8192 + env.max_body_bytes < 18446744073709551616
    → c.phase ≡ body head n dl
    → Sound env c
    → steps_left (body_step env head n dl c) < steps_left c
unfolding body_step serve respond_and_close
body_step-fewer env head n dl c small e h =
    let total = (n + head.content_length) % 18446744073709551616 in
    let same : total ≡ n + head.content_length = ground arith in
    elim (Bool-cases (ltb (length c.buf) total)) [
      | inl short ↦ ground (arith, read_lem dl c)
      | inr full ↦ elim (Write-cases (env.writes (length c.sent))) [
        | inl done ↦ ground (arith, length-drop total c.buf)
        | inr (inl failed) ↦ ground arith
        | inr (inr hangs) ↦ ground arith
      ]
    ]

pub reading-Advances :
    (env : Env) (deadline : Option ℕ) (c : Conn)
    → c.phase ≡ reading deadline
    → Sound env c
    → Advances env c (step env c)
unfolding step head_read respond_and_close
reading-Advances env deadline c e h = elim (Result-cases (parse_head c.buf)) [
  | inl ((head, n), parsed) ↦ ground (arith, parse_head_frames c.buf head n parsed)
  | inr (incomplete, parsed) ↦
      ground (arith, read_more-Advances env deadline c e (incomplete_short c.buf parsed))
  | inr (head_too_large, parsed) ↦ ground arith
  | inr (unsupported, parsed) ↦ ground arith
  | inr (malformed, parsed) ↦ ground arith
]

pub step-Sound :
    (env : Env) (p : Phase) (c : Conn) → c.phase ≡ p → Sound env c → Sound env (step env c)
step-Sound env closed c e h = unfold step in ground arith
step-Sound env writing c e h = unfold step in ground arith
step-Sound env (body head n dl) c e h =
    unfold step in ground (arith, body_step-Sound env head n dl c e h)
step-Sound env (reading deadline) c e h = (reading-Advances env deadline c e h).0

pub run-Sound : (n : ℕ) (env : Env) (c : Conn) → Sound env c → Sound env (run n env c)
unfolding run
run-Sound zero env c h = h
run-Sound (suc n) env c h = run-Sound n env (step env c) (step-Sound env c.phase c refl h)
