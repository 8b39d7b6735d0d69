-- ===== src/Tcp/Server/Live.antt =====
-- The permits and the registry count the connections (tcp-actor-server/src/server.rs with
-- registry.rs).
use hicho.Common.{
  ℕ, zero, ◌+◌, ◌≤◌, ◌≡◌, none, some, List, [], ◌∷◌, arith, ◌==◌, if◌then◌else◌, length, nat_eq,
  inl, inr, Option-cases, ==_iff,
}
use hicho.Common.Map.{
  lookup, lookup-insert, lookup-remove, IsUnique, insert-IsUnique, remove-IsUnique,
  length-insert_new, length-remove,
}
use hicho.Tcp.Registry.{Conns, send}
use hicho.Tcp.Metrics.{Metrics}
use hicho.Tcp.Server.Accept.{
  Progress, spawned, guarded, ended, Conn, Loop, holding, Server, task_step, nth_task,
}

-- the permit in the hand of the accept loop
abbrev pub permits_of : Loop → ℕ
permits_of holding = 1
permits_of _ = 0

module _ {A : Type 0} where
  -- 1 for a connection that holds its guard
  abbrev pub guard_of : Conn A → ℕ
  guard_of c = elim c.progress [ guarded ↦ 1 | _ ↦ 0 ]

  -- how many connections hold their guards
  abbrev pub guards : List (Conn A) → ℕ
  guards [] = 0
  guards (c ∷ cs) = guard_of c + guards cs

  -- the same of the id `k`
  abbrev pub guards_at : ℕ → List (Conn A) → ℕ
  guards_at k [] = 0
  guards_at k (c ∷ cs) = (if c.id == k then guard_of c else 0) + guards_at k cs

  -- how many connections have the id `k`
  abbrev pub named : ℕ → List (Conn A) → ℕ
  named k [] = 0
  named k (c ∷ cs) = (if c.id == k then 1 else 0) + named k cs

  abbrev pub held : ℕ → Conns A → ℕ
  held k reg = elim (lookup k reg) [ none ↦ 0 | some a ↦ 1 ]

  -- The counts of the connections `cs` that are still to be looked at, where those passed over have
  -- `gp k` guards and `op k` connections at each id, `g` guards and `l` connections in all.
  pub record Good (max : ℕ) (gp op : ℕ → ℕ) (g l : ℕ) (cs : List (Conn A)) (permits next : ℕ)
      (reg : Conns A) : Type 0 where
    pub at_most : (k : ℕ) → gp k ≤ op k
    pub registered : (k : ℕ) → gp k + guards_at k cs ≡ held k reg
    pub once : (k : ℕ) → op k + named k cs ≤ 1
    pub fresh : (k : ℕ) → next ≤ k → op k + named k cs ≡ 0
    pub unique : IsUnique reg
    pub size : g + guards cs ≡ length reg
    pub full : permits + (l + length cs) ≡ max

  abbrev pub server : Loop → ℕ → ℕ → Metrics → Conns A → List (Conn A) → Server A
  server loop permits next metrics reg cs = record {
    loop = loop;
    permits = permits;
    next_id = next;
    metrics = metrics;
    registry = some reg;
    conns = cs;
  }

  -- What holds of a server with a running registry.
  abbrev pub GoodServer : ℕ → (ℕ → ℕ) → (ℕ → ℕ) → ℕ → ℕ → List (Conn A) → Server A → Type 0
  GoodServer max gp op g l cs s = elim s.registry [
    | none ↦ ⊥
    | some reg ↦ Good max gp op g l cs s.permits s.next_id reg
  ]

  guards_at-le-named : (k : ℕ) (cs : List (Conn A)) → guards_at k cs ≤ named k cs
  guards_at-le-named k [] = omega arith
  guards_at-le-named k (c ∷ cs) = ground (arith, guards_at-le-named k cs)

  -- one connection, by its progress
  abbrev conn : ℕ → A → Progress → Conn A
  conn i a p = record { id = i; addr = a; progress = p }

  absent :
      (max : ℕ) (gp op : ℕ → ℕ) (g l i : ℕ) (a : A) (cs : List (Conn A)) (permits next : ℕ)
      (reg : Conns A)
      → Good max gp op g l (conn i a spawned ∷ cs) permits next reg
      → lookup i reg ≡ none
  absent max gp op g l i a cs permits next reg h =
      ground (arith, h.registered i, h.once i, h.at_most i, guards_at-le-named i cs, ==_iff i i)

  present :
      (max : ℕ) (gp op : ℕ → ℕ) (g l i : ℕ) (a : A) (cs : List (Conn A)) (permits next : ℕ)
      (reg : Conns A)
      → Good max gp op g l (conn i a guarded ∷ cs) permits next reg
      → (b : A) × (lookup i reg ≡ some b)
  present max gp op g l i a cs permits next reg h = elim (Option-cases (lookup i reg)) [
    | inl missing ↦ absurd (ground (arith, h.registered i, ==_iff i i))
    | inr found ↦ found
  ]

  pub task_step-Good :
      (max : ℕ) (gp op : ℕ → ℕ) (g l i : ℕ) (a : A) (p : Progress) (cs : List (Conn A))
      (loop : Loop) (permits next : ℕ) (metrics : Metrics) (reg : Conns A) (old : List (Conn A))
      → Good max gp op g l (conn i a p ∷ cs) permits next reg
      → let (cs', s') =
          nth_task zero (conn i a p ∷ cs) (server loop permits next metrics reg old) in
        GoodServer max gp op g l cs' s'
  unfolding nth_task task_step send
  task_step-Good max gp op g l i a spawned cs loop permits next metrics reg old h =
      let new = absent max gp op g l i a cs permits next reg h in
      record {
        at_most = h.at_most;
        registered = λ k. ground (
          arith,
          h.registered k,
          h.once k,
          h.at_most k,
          guards_at-le-named k cs,
          lookup-insert i k a reg,
          ==_iff i k,
        );
        once = h.once;
        fresh = h.fresh;
        unique = insert-IsUnique i a reg h.unique;
        size = omega (arith, h.size, length-insert_new i a reg new);
        full = h.full;
      }
  task_step-Good max gp op g l i a guarded cs loop permits next metrics reg old h =
      let (b, found) = present max gp op g l i a cs permits next reg h in
      record {
        at_most = h.at_most;
        registered = λ k. ground (
          arith,
          h.registered k,
          h.once k,
          h.at_most k,
          guards_at-le-named k cs,
          lookup-remove i k reg,
          ==_iff i k,
        );
        once = h.once;
        fresh = h.fresh;
        unique = remove-IsUnique i reg h.unique;
        size = omega (arith, h.size, length-remove i b reg h.unique found);
        full = h.full;
      }
  task_step-Good max gp op g l i a ended cs loop permits next metrics reg old h = record {
    at_most = h.at_most;
    registered = λ k. ground (arith, h.registered k);
    once = λ k. ground (arith, h.once k);
    fresh = λ k le. ground (arith, h.fresh k le);
    unique = h.unique;
    size = omega (arith, h.size);
    full = omega (arith, h.full);
  }
