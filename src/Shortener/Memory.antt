-- ===== src/Shortener/Memory.antt =====
-- The in-memory repository, an actor that owns the map (url-shortener/src/infrastructure/memory.rs).
pub mod Refines
use hicho.Common.{
  Bool, true, false, Option, none, some, List, [], ◌∷◌, Bytes, bytes_key, ok, Action, pure, raise,
  ◌>>=◌, ◌>>◌, if◌then◌else◌,
}
use hicho.Common.Int.{ℤ, add_i64}
use hicho.Common.Map.{Map, lookup, insert as insert_entry, remove, modify}
use hicho.Common.Text.{bytes}
use hicho.Shortener.Domain.Errors.{RepoError, conflict, backend}
use hicho.Shortener.Domain.Link.{Link, LinkRepository}

abbrev pub Links : Type 0
Links = Map Bytes Link

-- Commands, with the reply channel left out: the answer is the value that `step` returns.
pub data Cmd : Type 0 where
  insert : Link → Cmd
  get : Bytes → Cmd
  increment_by : Bytes → ℤ → Cmd
  delete : Bytes → Cmd
  ping : Cmd

pub data Reply : Type 0 where
  inserted updated deleted : Bool → Reply
  found : Option Link → Reply
  pong : Reply

abbrev is_some {ℓ} : {A : Type ℓ} → Option A → Bool
is_some none = false
is_some (some a) = true

abbrev pub add_hits : ℤ → Link → Link
add_hits n link = record link { hits = add_i64 link.hits n }

-- One round of the actor loop `run`.
unfoldable pub step : Cmd → Links → Reply × Links
step (Cmd.insert link) links = elim (lookup link.code.as_str links) [
  | some _ ↦ (inserted false, links)
  | none ↦ (inserted true, insert_entry link.code.as_str link links)
]
step (Cmd.get code) links = (found (lookup code links), links)
step (Cmd.increment_by code n) links = elim (lookup code links) [
  | some _ ↦ (updated true, modify code (add_hits n) links)
  | none ↦ (updated false, links)
]
step (Cmd.delete code) links = (deleted (is_some (lookup code links)), remove code links)
step Cmd.ping links = (pong, links)

-- The commands that the actor takes off its channel, in order, with their replies.
unfoldable pub run : List Cmd → Links → List Reply × Links
run [] links = ([], links)
run (cmd ∷ rest) links =
    let (reply, links') = step cmd links in
    let (replies, last) = run rest links' in (reply ∷ replies, last)

-- What the handles see: the map while the task runs, `none` once it has stopped.
abbrev pub InMemoryLinkRepository : Type 0
InMemoryLinkRepository = Option Links

abbrev pub actor_stopped : RepoError
actor_stopped = backend (bytes "in-memory repository task has stopped")

-- `dispatch`, and the wait for the reply
unfoldable pub dispatch : Cmd → Action InMemoryLinkRepository RepoError Reply
unfolding step
dispatch cmd none = raise actor_stopped none
dispatch cmd (some links) = let (reply, links') = step cmd links in (ok reply, some links')

-- The reply channel of each command is typed, so that a reply of another kind cannot come.
abbrev as_flag : Reply → Action InMemoryLinkRepository RepoError Bool
as_flag (inserted b) = pure b
as_flag (updated b) = pure b
as_flag (deleted b) = pure b
as_flag _ = raise actor_stopped

abbrev as_link : Reply → Action InMemoryLinkRepository RepoError (Option Link)
as_link (found l) = pure l
as_link _ = raise actor_stopped

abbrev repo_insert : Link → Action InMemoryLinkRepository RepoError (Unit {0})
repo_insert link = do
  fresh ← as_flag (← dispatch (Cmd.insert link))
  if fresh then pure tt else raise conflict

-- `impl LinkRepository for InMemoryLinkRepository`
abbrev pub repository : LinkRepository InMemoryLinkRepository
repository = record {
  insert = repo_insert;
  get = λ code. dispatch (Cmd.get code.as_str) >>= as_link;
  increment_hits_by = λ code n. dispatch (Cmd.increment_by code.as_str n) >>= as_flag;
  delete = λ code. dispatch (Cmd.delete code.as_str) >>= as_flag;
  ping = dispatch Cmd.ping >> pure tt;
}
