-- ===== src/Tcp/Server/Tasks.antt =====
-- The step of one connection among the others (tcp-actor-server/src/server.rs).
use hicho.Common.{
  ℕ, zero, suc, ◌+◌, ◌≤◌, none, some, List, [], ◌∷◌, arith, ◌==◌, if◌then◌else◌, nat_eq,
}
use hicho.Tcp.Registry.{Conns, Registry}
use hicho.Tcp.Metrics.{Metrics}
use hicho.Tcp.Server.Accept.{Conn, Loop, Server, nth_task}
use hicho.Tcp.Server.Live.{Good, GoodServer, server, guard_of, task_step-Good}

module _ {A : Type 0} where
  -- what stands before the tail, with one connection more passed over
  abbrev more_guards : (ℕ → ℕ) → Conn A → ℕ → ℕ
  more_guards gp c k = gp k + (if c.id == k then guard_of c else 0)

  abbrev more_named : (ℕ → ℕ) → Conn A → ℕ → ℕ
  more_named op c k = op k + (if c.id == k then 1 else 0)

  pass :
      (max : ℕ) (gp op : ℕ → ℕ) (g l : ℕ) (c : Conn A) (cs : List (Conn A)) (permits next : ℕ)
      (reg : Conns A)
      → Good max gp op g l (c ∷ cs) permits next reg
      → Good max (more_guards gp c) (more_named op c) (g + guard_of c) (suc l) cs permits next reg
  pass max gp op g l c cs permits next reg h = record {
    at_most = λ k. ground (arith, h.at_most k);
    registered = λ k. omega (arith, h.registered k);
    once = λ k. omega (arith, h.once k);
    fresh = λ k le. omega (arith, h.fresh k le);
    unique = h.unique;
    size = omega (arith, h.size);
    full = omega (arith, h.full);
  }

  return :
      (max : ℕ) (gp op : ℕ → ℕ) (g l : ℕ) (c : Conn A) (cs : List (Conn A)) (permits next : ℕ)
      (reg : Conns A)
      → ((k : ℕ) → gp k ≤ op k)
      → Good max (more_guards gp c) (more_named op c) (g + guard_of c) (suc l) cs permits next reg
      → Good max gp op g l (c ∷ cs) permits next reg
  return max gp op g l c cs permits next reg le h = record {
    at_most = le;
    registered = λ k. omega (arith, h.registered k);
    once = λ k. omega (arith, h.once k);
    fresh = λ k le. omega (arith, h.fresh k le);
    unique = h.unique;
    size = omega (arith, h.size);
    full = omega (arith, h.full);
  }

  return_server :
      (max : ℕ) (gp op : ℕ → ℕ) (g l : ℕ) (c : Conn A) (cs : List (Conn A)) (permits next : ℕ)
      (loop : Loop) (metrics : Metrics) (r : Registry A) (old : List (Conn A))
      → ((k : ℕ) → gp k ≤ op k)
      → let s : Server A = record {
        loop = loop;
        permits = permits;
        next_id = next;
        metrics = metrics;
        registry = r;
        conns = old;
      } in
        GoodServer max (more_guards gp c) (more_named op c) (g + guard_of c) (suc l) cs s
        → GoodServer max gp op g l (c ∷ cs) s
  return_server max gp op g l c cs permits next loop metrics none old le h = absurd h
  return_server max gp op g l c cs permits next loop metrics (some reg) old le h =
      return max gp op g l c cs permits next reg le h

  pub nth_task-Good :
      (n max : ℕ) (gp op : ℕ → ℕ) (g l : ℕ) (cs : List (Conn A)) (loop : Loop) (permits next : ℕ)
      (metrics : Metrics) (reg : Conns A) (old : List (Conn A))
      → Good max gp op g l cs permits next reg
      → let (cs', s') = nth_task n cs (server loop permits next metrics reg old) in
        GoodServer max gp op g l cs' s'
  unfolding nth_task
  nth_task-Good n max gp op g l [] loop permits next metrics reg old h = h
  nth_task-Good zero max gp op g l (c ∷ cs) loop permits next metrics reg old h =
      task_step-Good max gp op g l c.id c.addr c.progress cs loop permits next metrics reg old h
  nth_task-Good (suc n) max gp op g l (c ∷ cs) loop permits next metrics reg old h =
      let (cs', s') = nth_task n cs (server loop permits next metrics reg old) in
      let rest =
        nth_task-Good n max (more_guards gp c) (more_named op c) (g + guard_of c) (suc l) cs loop
          permits next metrics reg old (pass max gp op g l c cs permits next reg h) in
      return_server max gp op g l c cs' s'.permits s'.next_id s'.loop s'.metrics s'.registry
        s'.conns h.at_most rest
