-- ===== src/Tcp/Server/Connection/Reads.antt =====
-- What a read does to the clock and the count of requests (tcp-actor-server/src/server.rs).
use hicho.Common.{
  ℕ, ◌≤◌, ◌≡◌, refl, Option, none, some, List, [], ◌∷◌, Bytes, length, length-append, take, arith,
}
use hicho.Tcp.Server.Connection.{Arrival, Phase, Conn, later, classify, read_until}

classify-now :
    (r : Option Bytes) (c : Conn)
    → let c' = (classify r c).1 in
      (c'.now ≡ c.now) × (c'.served ≡ c.served) × (length c.buf ≤ length c'.buf)
unfolding classify
classify-now none c = (refl, refl, omega arith)
classify-now (some []) c = (refl, refl, omega arith)
classify-now (some (b ∷ bs)) c =
    (refl, refl, omega (arith, length-append c.buf (take 8192 (b ∷ bs))))

-- A read keeps the count of requests and ends by the deadline, or at once.
read_until-now :
    (dl now : ℕ) (buf : Bytes) (inbox : List Arrival) (sent : List Bytes) (served : ℕ)
    (phase : Phase)
    → let c : Conn = record {
      now = now;
      buf = buf;
      inbox = inbox;
      sent = sent;
      served = served;
      phase = phase;
    } in
      let c' = (read_until dl c).1 in
      (c'.now ≤ later now dl) × (c'.served ≡ served) × (length buf ≤ length c'.buf)
unfolding read_until
read_until-now dl now buf [] sent served phase = ground arith
read_until-now dl now buf (a ∷ rest) sent served phase = ground (
  arith,
  classify-now a.result (record {
    now = later now a.at;
    buf = buf;
    inbox = rest;
    sent = sent;
    served = served;
    phase = phase;
  }),
)

-- the same, of a connection
pub read_until_lem :
    (dl : ℕ) (c : Conn)
    → let c' = (read_until dl c).1 in
      (c'.now ≤ later c.now dl) × (c'.served ≡ c.served) × (length c.buf ≤ length c'.buf)
read_until_lem dl c = read_until-now dl c.now c.buf c.inbox c.sent c.served c.phase
